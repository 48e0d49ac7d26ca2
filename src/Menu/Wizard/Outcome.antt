-- ===== src/Menu/Wizard/Outcome.antt =====
-- internal/menu/wizard.go: what wizard leaves behind.
use cando.Base.{
  ◌≡◌, ◌⊎◌, refl, subst, ap, ◌∙◌, Bool, true, false, Option, some, is_some, Result, ok, err,
  Bool-cases, inl, inr,
}
use cando.Base.Bytes.{Bytes, text, bytes_eq}
use cando.Config.{Config}
use cando.Config.Shape.{Distinct}
use cando.Config.Load.{load}
use cando.Config.Tags.Document.{Decodes}
use cando.System.{Os, write_file, set_file}
use cando.Cli.{World}
use cando.Menu.{Input, ask_yes_no}
use cando.Menu.Wizard.{WizardData, wizard_data}
use cando.Menu.Wizard.Plain.{IsText, ArePlain}
use cando.Menu.Wizard.Files.{server_tables, client_tables, build_server_toml, build_client_toml}
use cando.Menu.Wizard.Answers.{EndsReady, wizard_data-EndsReady}
use cando.Menu.Wizard.Pair.{pair_names}
use cando.Menu.Wizard.Loading.{LoadsSomePair, ready-LoadsPair}
use cando.Menu.Wizard.Running.{
  server_path, client_path, WriteError, write_at, overwrite, write_asking, write_second, write_both,
  path_of, End, stuck, not_written, left, in_background, run_here, run_now, offer_run,
  after_answers, wizard,
}

-- The file is written and nothing else changes, or nothing changes at all.
abbrev Writes : Bytes → Bytes → Os → Os × Result WriteError Input → Type 0
Writes path content os (os', ok rest) = os' ≡ write_file path content os
Writes path content os (os', err e) = os' ≡ os

write_at-Writes :
    (path content : Bytes) (os : Os) (input : Input)
    → Writes path content os (write_at path content os input)
unfolding write_at
write_at-Writes path content os input = elim (Bool-cases (os.writable path)) [
  | inl e ↦ rw e refl
  | inr e ↦ rw e refl
]

overwrite-Writes :
    (path content : Bytes) (os : Os) (r : Bool × Input)
    → Writes path content os (overwrite path content os r)
unfolding overwrite
overwrite-Writes path content os (true, input) = write_at-Writes path content os input
overwrite-Writes path content os (false, input) = refl

write_asking-Writes :
    (path content : Bytes) (os : Os) (input : Input)
    → Writes path content os (write_asking path content os input)
unfolding write_asking
write_asking-Writes path content os input = elim (Bool-cases (is_some (os.files path))) [
  | inl e ↦ rw e (overwrite-Writes path content os (ask_yes_no false input))
  | inr e ↦ rw e (write_at-Writes path content os input)
]

-- Both files are written, or the first one only, or none; nothing else changes.
abbrev pub WritesBoth : WizardData → Os → Os × Result WriteError Input → Type 0
WritesBoth d os (os', ok rest) =
    os'
    ≡ write_file client_path (build_client_toml d) (write_file server_path (build_server_toml d) os)
WritesBoth d os (os', err e) = (os' ≡ os) ⊎ (os' ≡ write_file server_path (build_server_toml d) os)

after_first :
    (d : WizardData) (os os1 : Os) (r : Os × Result WriteError Input)
    → os1 ≡ write_file server_path (build_server_toml d) os
    → Writes client_path (build_client_toml d) os1 r
    → WritesBoth d os r
after_first d os os1 (os', ok rest) h w = w ∙ ap (write_file client_path (build_client_toml d)) h
after_first d os os1 (os', err e) h w = inr (w ∙ h)

write_second-WritesBoth :
    (d : WizardData) (os : Os) (r : Os × Result WriteError Input)
    → Writes server_path (build_server_toml d) os r
    → WritesBoth d os (write_second client_path (build_client_toml d) r)
unfolding write_second
write_second-WritesBoth d os (os1, err e) h = inl h
write_second-WritesBoth d os (os1, ok input) h =
    after_first d os os1 _ h (write_asking-Writes client_path (build_client_toml d) os1 input)

pub write_both-WritesBoth :
    (d : WizardData) (os : Os) (input : Input) → WritesBoth d os (write_both d os input)
unfolding write_both
write_both-WritesBoth d os input =
    write_second-WritesBoth d os _ (write_asking-Writes server_path (build_server_toml d) os input)

-- The two paths differ, so that both files are there in the end.
both_files :
    (os : Os) (a b : Bytes)
    → let os' = write_file client_path b (write_file server_path a os) in
      (os'.files server_path ≡ some a) × (os'.files client_path ≡ some b)
unfolding write_file set_file bytes_eq
both_files os a b = (refl, refl)

-- What the two files hold where both could be written.
pub write_both-files :
    (d : WizardData) (os os' : Os) (input rest : Input)
    → write_both d os input ≡ (os', ok rest)
    → (os'.files server_path ≡ some (build_server_toml d))
      × (os'.files client_path ≡ some (build_client_toml d))
write_both-files d os os' input rest e =
    let w = subst (WritesBoth d os) e (write_both-WritesBoth d os input) in
    let (s, c) = both_files os (build_server_toml d) (build_client_toml d) in
    (ap (λ o. o.files server_path) w ∙ s, ap (λ o. o.files client_path) w ∙ c)

-- What is run here was loaded.
abbrev pub Loaded : End → Type 0
Loaded (stuck e) = Unit
Loaded (not_written e) = Unit
Loaded left = Unit
Loaded in_background = Unit
Loaded (run_here r) = (c : Config) × (r ≡ ok c)

path_of-loads :
    (unmarshal : Bytes → Option Config) (machine : Bytes) (os : Os)
    → LoadsSomePair unmarshal (os.files server_path) (os.files client_path)
    → (c : Config) × (load unmarshal (os.files (path_of machine)) ≡ ok c)
unfolding path_of
path_of-loads unmarshal machine os p = elim (Bool-cases (bytes_eq machine (text "server"))) [
  | inl e ↦ rw e (_, p.2.server_loads)
  | inr e ↦ rw e (_, p.2.client_loads)
]

run_now-Loaded :
    (w : World) (machine : Bytes) (os : Os) (input : Input)
    → LoadsSomePair w.unmarshal (os.files server_path) (os.files client_path)
    → Loaded (run_now w (path_of machine) os input).1
unfolding run_now
run_now-Loaded w machine os input p = elim (Bool-cases (ask_yes_no true input).0) [
  | inl e ↦ rw e tt
  | inr e ↦ rw e (path_of-loads w.unmarshal machine os p)
]

offer_run-Loaded :
    (w : World) (machine : Bytes) (r : Os × Result WriteError Input)
    → ((os : Os) (rest : Input)
        → r ≡ (os, ok rest)
        → LoadsSomePair w.unmarshal (os.files server_path) (os.files client_path))
    → Loaded (offer_run w machine r).1
unfolding offer_run
offer_run-Loaded w machine (os, err e) h = tt
offer_run-Loaded w machine (os, ok input) h = elim (Bool-cases (ask_yes_no false input).0) [
  | inl e ↦ rw e (run_now-Loaded w machine os _ (h os input refl))
  | inr e ↦ rw e tt
]

module _ (unmarshal : Bytes → Option Config) (generated : Bytes) (input rest : Input)
    (d : WizardData) (printable : IsText generated) (plain : ArePlain input)
    (answers : wizard_data generated input ≡ ok (d, rest))
    (distinct : Distinct (pair_names d.services))
    (reads_server : Decodes unmarshal (build_server_toml d) (server_tables d))
    (reads_client : Decodes unmarshal (build_client_toml d) (client_tables d)) where
  -- Where all the lines are printable and without quotes and backslashes, no two services have one
  -- name, the decoder reads a file that is TOML for some tables by the tags, and both files could be
  -- written, Load reads a server
  -- from the one and a client from the other, with the same transport, token, obfuscation, path,
  -- shards and service names, of which the server lets the forwards of the client through.
  pub wizard-LoadsSomePair :
      (os os' : Os) (rest' : Input)
      → write_both d os rest ≡ (os', ok rest')
      → LoadsSomePair unmarshal (os'.files server_path) (os'.files client_path)
  wizard-LoadsSomePair os os' rest' e =
      let ready = subst EndsReady answers (wizard_data-EndsReady generated input printable plain) in
      let (s, c) = write_both-files d os os' rest rest' e in
      rw (s, c) (_, _, ready-LoadsPair unmarshal d ready distinct reads_server reads_client)

-- Under the same conditions, what wizard runs on this machine was loaded from the file of its role:
-- the run never fails for the configuration.
pub wizard-Loaded :
    (w : World) (generated : Bytes) (os : Os) (input rest : Input) (d : WizardData)
    → IsText generated
    → ArePlain input
    → wizard_data generated input ≡ ok (d, rest)
    → Distinct (pair_names d.services)
    → Decodes w.unmarshal (build_server_toml d) (server_tables d)
    → Decodes w.unmarshal (build_client_toml d) (client_tables d)
    → Loaded (wizard w generated os input).1
unfolding wizard after_answers
wizard-Loaded w generated os input rest d g h a u ks kc = rw a (
    offer_run-Loaded w d.this_machine (write_both d os rest)
      (wizard-LoadsSomePair w.unmarshal generated input rest d g h a u ks kc os))
