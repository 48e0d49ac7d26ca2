-- ===== src/Menu/Wizard/Loading.antt =====
-- internal/menu/wizard.go: Load of the two files that wizard writes.
use cando.Base.{◌≡◌, refl, ap, ◌∙◌, Option, none, some, ok}
use cando.Base.Bytes.{Bytes}
use cando.Base.Text.{is_empty}
use cando.Config.{Config, ServerConfig, ClientConfig}
use cando.Config.Shape.{Distinct}
use cando.Config.Accepted.{validate_iff}
use cando.Config.Normalize.{normalize, norm_server, norm_client, or_text, option_map}
use cando.Config.Load.{load, load_decoded, load_config_ok}
use cando.Config.Tags.Document.{Decodes}
use cando.Config.Validate.{validate}
use cando.Menu.Wizard.{WizardData}
use cando.Menu.Wizard.Files.{server_tables, client_tables, build_server_toml, build_client_toml}
use cando.Menu.Wizard.Answers.{IsReady}
use cando.Menu.Wizard.Reading.{default_log, written_server, written_client}
use cando.Menu.Wizard.Reading.ServerFile.{config_of-server_tables}
use cando.Menu.Wizard.Reading.ClientFile.{config_of-client_tables}
use cando.Menu.Wizard.Written.{build_server_toml-Denotes, build_client_toml-Denotes}
use cando.Menu.Wizard.Pair.{
  pair_names, IsPair, written-IsPair, written_server-IsServer, written_client-IsClient,
}

abbrev pub server_alone : ServerConfig → Config
server_alone s = record { log = default_log; server = some s; client = none }

abbrev pub client_alone : ClientConfig → Config
client_alone cl = record { log = default_log; server = none; client = some cl }

load_accepted :
    (unmarshal : Bytes → Option Config) (file : Bytes) (c : Config)
    → unmarshal file ≡ some c
    → validate (normalize c) ≡ ok tt
    → load unmarshal (some file) ≡ ok (normalize c)
unfolding load load_decoded
load_accepted unmarshal file c u v = rw u (load_config_ok c v)

pub normalize-server :
    (s : ServerConfig) → normalize (server_alone s) ≡ server_alone (norm_server s)
unfolding normalize or_text option_map is_empty
normalize-server s = refl

normalize-client : (cl : ClientConfig) → normalize (client_alone cl) ≡ client_alone (norm_client cl)
unfolding normalize or_text option_map is_empty
normalize-client cl = refl

pub load-server :
    (unmarshal : Bytes → Option Config) (d : WizardData)
    → IsReady d
    → Distinct (pair_names d.services)
    → Decodes unmarshal (build_server_toml d) (server_tables d)
    → load unmarshal (some (build_server_toml d))
      ≡ ok (server_alone (norm_server (written_server d)))
load-server unmarshal d h u k =
    let e = k (build_server_toml-Denotes d h) ∙ ap some (config_of-server_tables d) in
    let n = normalize-server (written_server d) in
    load_accepted unmarshal (build_server_toml d) _ e
      (ap validate n ∙ (validate_iff _).1 (written_server-IsServer d h u))
    ∙ ap ok n

load-client :
    (unmarshal : Bytes → Option Config) (d : WizardData)
    → IsReady d
    → Decodes unmarshal (build_client_toml d) (client_tables d)
    → load unmarshal (some (build_client_toml d))
      ≡ ok (client_alone (norm_client (written_client d)))
load-client unmarshal d h k =
    let e = k (build_client_toml-Denotes d h) ∙ ap some (config_of-client_tables d) in
    let n = normalize-client (written_client d) in
    load_accepted unmarshal (build_client_toml d) _ e
      (ap validate n ∙ (validate_iff _).1 (written_client-IsClient d h))
    ∙ ap ok n

-- Load gives the server for the one file and the client for the other, and the two fit.
pub record LoadsPair (unmarshal : Bytes → Option Config) (server client : Option Bytes)
    (s : ServerConfig) (cl : ClientConfig) : Type 0 where
  pub server_loads : load unmarshal server ≡ ok (server_alone s)
  pub client_loads : load unmarshal client ≡ ok (client_alone cl)
  pub fits : IsPair s cl

abbrev pub LoadsSomePair : (Bytes → Option Config) → Option Bytes → Option Bytes → Type 0
LoadsSomePair unmarshal server client =
    (s : ServerConfig) × (cl : ClientConfig) × LoadsPair unmarshal server client s cl

pub ready-LoadsPair :
    (unmarshal : Bytes → Option Config) (d : WizardData)
    → IsReady d
    → Distinct (pair_names d.services)
    → Decodes unmarshal (build_server_toml d) (server_tables d)
    → Decodes unmarshal (build_client_toml d) (client_tables d)
    → LoadsPair unmarshal
        (some (build_server_toml d))
        (some (build_client_toml d))
        (norm_server (written_server d))
        (norm_client (written_client d))
ready-LoadsPair unmarshal d h u ks kc = record {
  server_loads = load-server unmarshal d h u ks;
  client_loads = load-client unmarshal d h kc;
  fits = written-IsPair d h.mapped;
}
