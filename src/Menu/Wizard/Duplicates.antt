-- ===== src/Menu/Wizard/Duplicates.antt =====
-- internal/menu/wizard.go: gatherServices takes a name twice, which Validate refuses.
use cando.Base.{
  ◌≡◌, ◌↔◌, sym, subst, ap, ◌∙◌, Option, some, ok, arith, ◌==◌, Result-cases, inl, inr, map, ℕ,
  true, [], if◌then◌else◌,
}
use cando.Base.Bytes.{Bytes}
use cando.Config.{Config}
use cando.Config.Shape.{IsServer, Distinct, names}
use cando.Config.Accepted.{validate_iff}
use cando.Config.Normalize.{normalize, norm_server, norm_service}
use cando.Config.Load.{load, load_decoded, load_config_err}
use cando.Config.Tags.Document.{Decodes}
use cando.Config.Validate.{validate}
use cando.Menu.Wizard.{WizardData}
use cando.Menu.Wizard.Files.{server_tables, build_server_toml}
use cando.Menu.Wizard.Answers.{IsReady}
use cando.Menu.Wizard.Reading.{written_server, written_service}
use cando.Menu.Wizard.Reading.ServerFile.{config_of-server_tables}
use cando.Menu.Wizard.Written.{build_server_toml-Denotes}
use cando.Menu.Wizard.Pair.{pair_names, written_services}
use cando.Menu.Wizard.Loading.{server_alone, normalize-server, load-server}

load_validates :
    (unmarshal : Bytes → Option Config) (file : Bytes) (c d : Config)
    → unmarshal file ≡ some c
    → load unmarshal (some file) ≡ ok d
    → validate (normalize c) ≡ ok tt
unfolding load load_decoded
load_validates unmarshal file c d u h = elim (Result-cases (validate (normalize c))) [
  | inl (a, e) ↦ e
  | inr (x, e) ↦ absurd (ground (arith, load_config_err c x e, ap load_decoded u, h))
]

is_two : (n : ℕ) → n ≡ 2 → (n == 2) ≡ true
is_two n e = ground arith

IsServer-Distinct :
    (d : WizardData)
    → d.scenario ≡ 2
    → IsServer (norm_server (written_server d))
    → Distinct (pair_names d.services)
unfolding norm_server
IsServer-Distinct d e h =
    subst Distinct
      (ap (λ b. names (map norm_service (if b then map written_service d.services else [])))
          (is_two d.scenario e)
        ∙ written_services d.services)
      h.unique

-- With complete answers that are plain, services to expose, and a decoder that reads a file that is TOML for some tables by the tags, the
-- server's file is loaded exactly if no two services have one name.
pub server_file_loads_iff :
    (unmarshal : Bytes → Option Config) (d : WizardData)
    → IsReady d
    → d.scenario ≡ 2
    → Decodes unmarshal (build_server_toml d) (server_tables d)
    → ((c : Config) × (load unmarshal (some (build_server_toml d)) ≡ ok c))
      ↔ Distinct (pair_names d.services)
server_file_loads_iff unmarshal d h s k =
    let read = k (build_server_toml-Denotes d h) ∙ ap some (config_of-server_tables d) in
    (
      (λ p.
          let v = load_validates unmarshal _ _ p.0 read p.1 in
          IsServer-Distinct d s (
            (validate_iff (server_alone (norm_server (written_server d)))).0
              (ap validate (sym (normalize-server (written_server d))) ∙ v))),
      (λ u. (_, load-server unmarshal d h u k)),
    )
