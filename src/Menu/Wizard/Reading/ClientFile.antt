-- ===== src/Menu/Wizard/Reading/ClientFile.antt =====
-- internal/menu/wizard.go: what the tags of the configuration make of the client's file.
use cando.Base.{◌≡◌, none, some, [], map, if◌then◌else◌, ◌==◌, arith}
use cando.Base.Bytes.{text, bytes_eq}
use cando.Base.Int.{pos}
use cando.Config.{default_mux}
use cando.Config.Tags.{
  find_key, find_table, find_elements, or_empty, entries, as_string, as_integer, as_boolean,
  string_at, integer_at, boolean_at, log_of, mux_of, reconnect_of, kcp_of, target_of, forward_of,
  client_of, server_in, client_in, config_of,
}
use cando.Menu.Wizard.{WizardData}
use cando.Menu.Wizard.Files.{
  when, kcp_table, mux_table, tls_entries, ws_entries, obfs_entry, kcp_tables, client_entries,
  client_tables,
}
use cando.Menu.Wizard.Reading.{
  default_log, written_client, written_kcp, written_target, written_forward, client_service_lem,
  client_forward_lem, no_forwards, no_services, client_service-no_table, client_forward-no_table,
}

client_kcp :
    (d : WizardData) → kcp_of (entries (text "client.kcp") (client_tables d)) ≡ written_kcp d
unfolding client_tables kcp_tables kcp_table mux_table entries or_empty find_table kcp_of find_key
    string_at as_string integer_at as_integer when bytes_eq
client_kcp d = ground (
  arith,
  client_service-no_table (text "client.kcp") d.services,
  client_forward-no_table (text "client.kcp") d.forwards,
)

client_mux : (d : WizardData) → mux_of (entries (text "client.mux") (client_tables d)) ≡ default_mux
unfolding client_tables kcp_tables kcp_table mux_table entries or_empty find_table mux_of find_key
    boolean_at as_boolean integer_at as_integer when bytes_eq
client_mux d = ground arith

client_reconnect :
    (d : WizardData)
    → reconnect_of (entries (text "client.reconnect") (client_tables d))
      ≡ record { min_millis = pos 500; max_millis = pos 30000 }
unfolding client_tables kcp_tables kcp_table mux_table entries or_empty find_table reconnect_of
    find_key integer_at as_integer when bytes_eq
client_reconnect d = ground arith

client_services :
    (d : WizardData)
    → map target_of (find_elements (text "client.services") (client_tables d))
      ≡ (if d.scenario == 1 then [] else map written_target d.services)
unfolding client_tables kcp_tables kcp_table mux_table find_elements when bytes_eq
client_services d = ground (arith, client_service_lem d.services, no_services d.forwards)

client_forwards :
    (d : WizardData)
    → map forward_of (find_elements (text "client.forwards") (client_tables d))
      ≡ (if d.scenario == 1 then map written_forward d.forwards else [])
unfolding client_tables kcp_tables kcp_table mux_table find_elements when bytes_eq
client_forwards d = ground (arith, client_forward_lem d.forwards, no_forwards d.services)

no_server : (d : WizardData) → find_table (text "server") (client_tables d) ≡ none
unfolding client_tables kcp_tables kcp_table mux_table find_table when bytes_eq
no_server d = ground (
  arith,
  client_service-no_table (text "server") d.services,
  client_forward-no_table (text "server") d.forwards,
)

client_of_lem : (d : WizardData) → client_of (client_entries d) (client_tables d) ≡ written_client d
unfolding client_of client_entries tls_entries obfs_entry ws_entries string_at boolean_at integer_at
    as_string as_boolean as_integer find_key when bytes_eq
client_of_lem d =
    ground
      (arith, client_kcp d, client_mux d, client_reconnect d, client_services d, client_forwards d)

-- Read by the tags, the client's file is its section and nothing of the server's.
pub config_of-client_tables :
    (d : WizardData)
    → config_of (client_tables d)
      ≡ record { log = default_log; server = none; client = some (written_client d) }
unfolding config_of client_tables log_of entries or_empty find_table server_in client_in string_at
    as_string find_key bytes_eq
config_of-client_tables d = cc (no_server d, client_of_lem d)
