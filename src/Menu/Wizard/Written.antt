-- ===== src/Menu/Wizard/Written.antt =====
-- internal/menu/wizard.go: the two files are TOML for their tables.
use cando.Base.{◌∷◌, ◌++◌, ◌==◌, arith, All-append, ◌≡◌, ap, subst}
use mathlib.Core.List.{append_assoc}
use cando.Base.Bytes.{Bytes, text, bytes_eq}
use cando.Config.Tags.Document.{IsRemark, Denotes}
use cando.Menu.Wizard.{WizardData}
use cando.Menu.Wizard.Files.{
  print_tables, build_server_toml, build_client_toml, role_machine, server_tables, client_tables,
}
use cando.Menu.Wizard.Answers.{IsReady}
use cando.Menu.Wizard.Printed.{print_tables-Denotes}
use cando.Menu.Wizard.Quoted.{if-All, server_tables_plain, client_tables_plain}

role_machine-IsRemark : (d : WizardData) (role : Bytes) → IsRemark (role_machine d role)
unfolding role_machine
role_machine-IsRemark d role =
    if-All _ (d.scenario == 1) _ _
      (if-All _ (bytes_eq role (text "server")) _ _ (omega arith) (omega arith))
      (if-All _ (bytes_eq role (text "server")) _ _ (omega arith) (omega arith))

-- What stands in the first line.
title_IsRemark :
    (front machine : Bytes)
    → IsRemark front
    → IsRemark machine
    → IsRemark (front ++ machine ++ text " machine)")
title_IsRemark front machine f m =
    All-append _ (front ++ machine) _ (All-append _ front machine f m) (omega arith)

titled :
    (front machine rest : Bytes)
    → (text "#" ++ (front ++ machine ++ text " machine)") ++ text "\n") ++ rest
      ≡ (text "#" ++ front) ++ machine ++ text " machine)\n" ++ rest
titled front machine rest =
    ap (λ s. b'#' ∷ (s ++ rest)) (append_assoc (front ++ machine) (text " machine)") (text "\n"))

pub build_server_toml-Denotes :
    (d : WizardData) → IsReady d → Denotes (build_server_toml d) (server_tables d)
unfolding build_server_toml
build_server_toml-Denotes d h =
    let front = text " cando1 SERVER config  (run on the " in
    let machine = role_machine d (text "server") in
    let title =
      title_IsRemark front machine (omega arith) (role_machine-IsRemark d (text "server")) in
    subst (λ s. Denotes s (server_tables d)) (titled front machine (print_tables (server_tables d)))
      (print_tables-Denotes (front ++ machine ++ text " machine)") (server_tables d) title
        (server_tables_plain d h))

pub build_client_toml-Denotes :
    (d : WizardData) → IsReady d → Denotes (build_client_toml d) (client_tables d)
unfolding build_client_toml
build_client_toml-Denotes d h =
    let front = text " cando1 CLIENT config  (run on the " in
    let machine = role_machine d (text "client") in
    let title =
      title_IsRemark front machine (omega arith) (role_machine-IsRemark d (text "client")) in
    subst (λ s. Denotes s (client_tables d)) (titled front machine (print_tables (client_tables d)))
      (print_tables-Denotes (front ++ machine ++ text " machine)") (client_tables d) title
        (client_tables_plain d h))
