-- ===== src/Menu/Wizard/Reading.antt =====
-- internal/menu/wizard.go: what the tags of the configuration make of the two generated files.
pub mod ServerFile
pub mod ClientFile
use cando.Base.{
  ◌≡◌, refl, ap, ◌∙◌, Bool, true, false, ◌&&◌, none, some, List, [], ◌∷◌, ◌++◌, map, if◌then◌else◌,
  ◌==◌, Bool-cases, inl, inr, arith,
}
use cando.Base.Bytes.{Bytes, text, bytes_eq}
use cando.Base.Int.{pos}
use cando.Config.{
  Config, LogConfig, ServerConfig, ClientConfig, TlsConfig, KcpConfig, Service, ClientTarget,
  Forward, is_tls, is_ws, is_udp, transport_tcp, transport_kcp, default_kcp, default_mux,
}
use cando.Config.Tags.{
  Table, table, element, find_key, find_table, find_elements, or_empty, entries, as_string,
  as_integer, as_boolean, string_at, integer_at, boolean_at, log_of, tls_of, mux_of, reconnect_of,
  kcp_of, service_of, target_of, forward_of, server_of, client_of, server_in, client_in, config_of,
}
use cando.Menu.Mappings.{ServicePair}
use cando.Menu.Wizard.{WizardData, first_non_empty}
use cando.Menu.Wizard.Files.{
  when, kcp_table, mux_table, udp_entry, ws_entries, obfs_entry, server_entries, server_service,
  tls_tables, kcp_tables, server_tables, client_entries, client_forward, client_service,
  client_tables,
}

abbrev pub no_kcp : KcpConfig
no_kcp = record {
  mode = [];
  fec_data = pos 0;
  fec_parity = pos 0;
  mtu = pos 0;
  snd_wnd = pos 0;
  rcv_wnd = pos 0;
  sock_buf = pos 0;
}

abbrev pub written_kcp : WizardData → KcpConfig
written_kcp d = if bytes_eq d.transport transport_kcp then default_kcp else no_kcp

abbrev pub written_proto : Bytes → Bytes
written_proto p = if is_udp p then text "udp" else []

abbrev pub written_service : ServicePair → Service
written_service s = record {
  name = s.name;
  protocol = written_proto s.protocol;
  bind_addr = s.public_bind;
}

abbrev pub written_target : ServicePair → ClientTarget
written_target s = record { name = s.name; local_addr = s.local_addr }

abbrev pub written_forward : Forward → Forward
written_forward f = record f { protocol = written_proto f.protocol }

abbrev pub written_tls : WizardData → TlsConfig
written_tls d = record {
  cert = [];
  key = [];
  self_name =
      if is_tls d.transport then first_non_empty (d.sni ∷ text "www.example.com" ∷ []) else [];
}

abbrev pub written_path : WizardData → Bytes
written_path d = if is_ws d.transport then first_non_empty (d.ws_path ∷ text "/cando" ∷ []) else []

abbrev pub written_host : WizardData → Bytes
written_host d = if is_ws d.transport then first_non_empty (d.host ∷ d.sni ∷ []) else []

-- The section that the server's file holds.
abbrev pub written_server : WizardData → ServerConfig
written_server d = record {
  bind_addr = text "0.0.0.0:" ++ d.bind_port;
  transport = d.transport;
  token = d.token;
  obfs = bytes_eq d.transport transport_tcp && d.obfs;
  ws_path = written_path d;
  host = written_host d;
  tls = written_tls d;
  kcp = written_kcp d;
  mux = default_mux;
  allow_forward = d.scenario == 1;
  forward_whitelist = [];
  services = if d.scenario == 2 then map written_service d.services else [];
}

-- The section that the client's file holds.
abbrev pub written_client : WizardData → ClientConfig
written_client d = record {
  server_addr = d.server_addr;
  transport = d.transport;
  token = d.token;
  obfs = bytes_eq d.transport transport_tcp && d.obfs;
  ws_path = written_path d;
  sni = if is_tls d.transport then first_non_empty (d.sni ∷ text "www.example.com" ∷ []) else [];
  host = written_host d;
  fingerprint =
      if is_tls d.transport then first_non_empty (d.fingerprint ∷ text "chrome" ∷ []) else [];
  insecure = is_tls d.transport && d.insecure;
  pool_size = d.pool_size;
  kcp = written_kcp d;
  mux = default_mux;
  reconnect = record { min_millis = pos 500; max_millis = pos 30000 };
  services = if d.scenario == 1 then [] else map written_target d.services;
  forwards = if d.scenario == 1 then map written_forward d.forwards else [];
}

pub server_service_lem :
    (l : List ServicePair)
    → map service_of (find_elements (text "server.services") (map server_service l))
      ≡ map written_service l
unfolding server_service service_of udp_entry find_elements find_key string_at as_string when
    bytes_eq
server_service_lem [] = refl
server_service_lem (s ∷ l) = ground (arith, server_service_lem l)

pub client_service_lem :
    (l : List ServicePair)
    → map target_of (find_elements (text "client.services") (map client_service l))
      ≡ map written_target l
unfolding client_service target_of find_elements find_key string_at as_string bytes_eq
client_service_lem [] = refl
client_service_lem (s ∷ l) = ground (arith, client_service_lem l)

pub client_forward_lem :
    (l : List Forward)
    → map forward_of (find_elements (text "client.forwards") (map client_forward l))
      ≡ map written_forward l
unfolding client_forward forward_of udp_entry find_elements find_key string_at as_string when
    bytes_eq
client_forward_lem [] = refl
client_forward_lem (s ∷ l) = ground (arith, client_forward_lem l)

pub no_forwards :
    (l : List ServicePair) → find_elements (text "client.forwards") (map client_service l) ≡ []
unfolding client_service find_elements bytes_eq
no_forwards [] = refl
no_forwards (s ∷ l) = no_forwards l

pub no_services :
    (l : List Forward) → find_elements (text "client.services") (map client_forward l) ≡ []
unfolding client_forward find_elements bytes_eq
no_services [] = refl
no_services (s ∷ l) = no_services l

-- Where only elements follow, no table is found.
pub server_service-no_table :
    (n : Bytes) (l : List ServicePair) → find_table n (map server_service l) ≡ none
unfolding server_service find_table
server_service-no_table n [] = refl
server_service-no_table n (s ∷ l) = server_service-no_table n l

pub client_service-no_table :
    (n : Bytes) (l : List ServicePair) → find_table n (map client_service l) ≡ none
unfolding client_service find_table
client_service-no_table n [] = refl
client_service-no_table n (s ∷ l) = client_service-no_table n l

pub client_forward-no_table :
    (n : Bytes) (l : List Forward) → find_table n (map client_forward l) ≡ none
unfolding client_forward find_table
client_forward-no_table n [] = refl
client_forward-no_table n (s ∷ l) = client_forward-no_table n l

abbrev pub default_log : LogConfig
default_log = record { level = text "info" }
