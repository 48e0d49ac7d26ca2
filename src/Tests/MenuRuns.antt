-- ===== src/Tests/MenuRuns.antt =====
-- Runs of the menu's editor on a server's configuration with one service.
use cando.Base.{false, ◌≡◌, refl, Option, some, [], ◌∷◌, ok, if◌then◌else◌}
use cando.Base.Bytes.{Bytes, text, bytes_eq}
use cando.Base.Int.{pos}
use cando.Base.Decimal.{atoi, scan_digits, in_range, positive, is_digit}
use cando.Base.Text.{is_empty, to_lower, lower_byte, trim_space, trim_left, trim_right, is_space}
use cando.Config.{
  Config, Service, ServerConfig, ClientConfig, norm_proto, valid_transport, valid_proto,
}
use cando.Config.Load.{load, load_config}
use cando.Config.Normalize.{
  normalize, norm_server, norm_transport, or_text, norm_service, option_map,
}
use cando.Config.Validate.{validate, validate_server, check_services, check_service, contains}
use cando.Menu.{
  Input, ask, ask_default, ask_required, ask_proto, ask_yes_no, pick_index, index_of, in_list,
  delete_at, remove_at,
}
use cando.Menu.Editor.{
  edit_tunnel, edit_loaded, edit_role, edit_server, edit, turn, is_done, server_command,
  server_step, service_named, new_service, service_deleted, server_edited, confirmed, saved, stuck,
  asks_for_ever,
}
use cando.Menu.Saved.{edit_tunnel-load}
use cando.Tests.ConfigRuns.{web, serving, listening}

-- The file, a new service for datagrams, the deletion of the first, and the answer `yes`.
abbrev typed : Input
typed =
    text ""
    ∷ text "as"
    ∷ text " dns "
    ∷ text "UDP"
    ∷ text ":53"
    ∷ text "ds"
    ∷ text "1"
    ∷ text "q"
    ∷ text "y"
    ∷ []

abbrev dns : Service
dns = record { name = text "dns"; protocol = text "udp"; bind_addr = text ":53" }

abbrev edited : Config
edited = normalize (serving (dns ∷ []))

abbrev decoder : Bytes → Option Config
decoder bytes = if is_empty bytes then some (serving (web ∷ [])) else some edited

abbrev encoder : Config → Bytes
encoder c = text "x"

saves : edit_tunnel decoder (λ path. some []) typed ≡ saved edited
unfolding edit_tunnel edit_loaded edit_role edit_server edit turn is_done server_command server_step
    service_named new_service service_deleted server_edited confirmed ask ask_default ask_required
    ask_proto ask_yes_no pick_index index_of in_list delete_at remove_at atoi scan_digits in_range
    positive is_digit load load_config validate normalize norm_server norm_transport norm_service
    norm_proto or_text is_empty to_lower lower_byte trim_space trim_left trim_right is_space
    validate_server check_services check_service contains bytes_eq valid_transport valid_proto
    option_map
saves = refl

edit_tunnel-load_example : load decoder (some (encoder edited)) ≡ ok edited
edit_tunnel-load_example =
    edit_tunnel-load decoder encoder (λ path. some []) typed edited (unfold is_empty in refl) saves

-- A name is asked for where the input has ended.
ended : edit_tunnel decoder (λ path. some []) (text "" ∷ text "as" ∷ []) ≡ stuck asks_for_ever
unfolding edit_tunnel edit_loaded edit_role edit_server edit turn is_done server_command server_step
    service_named server_edited ask ask_default ask_required load load_config validate normalize
    norm_server norm_transport norm_service norm_proto or_text is_empty to_lower lower_byte
    trim_space trim_left trim_right is_space validate_server check_services check_service contains
    bytes_eq valid_transport valid_proto option_map
ended = refl

abbrev section : ServerConfig
section = listening (web ∷ [])

abbrev dialing : ClientConfig
dialing = record {
  server_addr = text "a:443";
  transport = text "tls";
  token = text "t";
  obfs = false;
  ws_path = [];
  sni = [];
  host = [];
  fingerprint = [];
  insecure = false;
  pool_size = pos 2;
  kcp = section.kcp;
  mux = section.mux;
  reconnect = record { min_millis = pos 500; max_millis = pos 30000 };
  services = [];
  forwards = [];
}
