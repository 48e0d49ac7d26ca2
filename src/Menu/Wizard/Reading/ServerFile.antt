-- ===== src/Menu/Wizard/Reading/ServerFile.antt =====
-- internal/menu/wizard.go: what the tags of the configuration make of the server's file.
use cando.Base.{◌≡◌, none, some, [], map, if◌then◌else◌, ◌==◌, arith}
use cando.Base.Bytes.{text, bytes_eq}
use cando.Config.{default_mux}
use cando.Config.Tags.{
  find_key, find_table, find_elements, or_empty, entries, as_string, as_integer, as_boolean,
  string_at, integer_at, boolean_at, log_of, tls_of, mux_of, kcp_of, service_of, server_of,
  server_in, client_in, config_of,
}
use cando.Menu.Wizard.{WizardData}
use cando.Menu.Wizard.Files.{
  when, kcp_table, mux_table, ws_entries, obfs_entry, server_entries, tls_tables, kcp_tables,
  server_tables,
}
use cando.Menu.Wizard.Reading.{
  default_log, written_server, written_tls, written_kcp, written_service, server_service_lem,
  server_service-no_table,
}

server_tls :
    (d : WizardData) → tls_of (entries (text "server.tls") (server_tables d)) ≡ written_tls d
unfolding server_tables tls_tables kcp_tables kcp_table mux_table entries or_empty find_table tls_of
    find_key string_at as_string when bytes_eq
server_tls d = ground (arith, server_service-no_table (text "server.tls") d.services)

server_kcp :
    (d : WizardData) → kcp_of (entries (text "server.kcp") (server_tables d)) ≡ written_kcp d
unfolding server_tables tls_tables kcp_tables kcp_table mux_table entries or_empty find_table kcp_of
    find_key string_at as_string integer_at as_integer when bytes_eq
server_kcp d = ground (arith, server_service-no_table (text "server.kcp") d.services)

server_mux : (d : WizardData) → mux_of (entries (text "server.mux") (server_tables d)) ≡ default_mux
unfolding server_tables tls_tables kcp_tables kcp_table mux_table entries or_empty find_table mux_of
    find_key boolean_at as_boolean integer_at as_integer when bytes_eq
server_mux d = ground arith

server_services :
    (d : WizardData)
    → map service_of (find_elements (text "server.services") (server_tables d))
      ≡ (if d.scenario == 2 then map written_service d.services else [])
unfolding server_tables tls_tables kcp_tables kcp_table mux_table find_elements when bytes_eq
server_services d = ground (arith, server_service_lem d.services)

no_client : (d : WizardData) → find_table (text "client") (server_tables d) ≡ none
unfolding server_tables tls_tables kcp_tables kcp_table mux_table find_table when bytes_eq
no_client d = ground (arith, server_service-no_table (text "client") d.services)

server_of_lem : (d : WizardData) → server_of (server_entries d) (server_tables d) ≡ written_server d
unfolding server_of server_entries obfs_entry ws_entries string_at boolean_at as_string as_boolean
    find_key when bytes_eq
server_of_lem d = ground (arith, server_tls d, server_kcp d, server_mux d, server_services d)

-- Read by the tags, the server's file is its section and nothing of the client's.
pub config_of-server_tables :
    (d : WizardData)
    → config_of (server_tables d)
      ≡ record { log = default_log; server = some (written_server d); client = none }
unfolding config_of server_tables log_of entries or_empty find_table server_in client_in string_at
    as_string find_key bytes_eq
config_of-server_tables d = cc (no_client d, server_of_lem d)
