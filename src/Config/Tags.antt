-- ===== src/Config/Tags.antt =====
-- internal/config/config.go: the toml tags of its structs, as what they make of a TOML document. A
-- document is what its tables say, in their order; a key that is missing leaves the zero value, and
-- a table that is missing leaves the zero value of its struct, or nil of a pointer. Document has the
-- syntax of such a document.
pub mod Document
use cando.Base.{Bool, false, Option, none, some, List, [], ◌∷◌, map, if◌then◌else◌}
use cando.Base.Bytes.{Bytes, text, bytes_eq}
use cando.Base.Int.{ℤ, pos}
use cando.Config.{
  LogConfig, TlsConfig, MuxConfig, ReconnectConfig, KcpConfig, Service, ClientTarget, Forward,
  ServerConfig, ClientConfig, Config,
}

-- A value of the kinds that the program writes.
pub data Value : Type 0 where
  string : Bytes → Value
  integer : ℤ → Value
  boolean : Bool → Value

-- A line of a table: a key with its value, or a comment.
pub data Entry : Type 0 where
  key : Bytes → Value → Entry
  comment : Bytes → Entry

-- `[name]`, or `[[name]]` for an element of the array of that name.
pub data Table : Type 0 where
  table : Bytes → List Entry → Table
  element : Bytes → List Entry → Table

-- The value of a key.
unfoldable pub find_key : Bytes → List Entry → Option Value
find_key k [] = none
find_key k (comment c ∷ es) = find_key k es
find_key k (key n v ∷ es) = let rest = find_key k es in if bytes_eq n k then some v else rest

unfoldable pub find_table : Bytes → List Table → Option (List Entry)
find_table name [] = none
find_table name (element n es ∷ ts) = find_table name ts
find_table name (table n es ∷ ts) =
    let rest = find_table name ts in if bytes_eq n name then some es else rest

unfoldable pub find_elements : Bytes → List Table → List (List Entry)
find_elements name [] = []
find_elements name (table n es ∷ ts) = find_elements name ts
find_elements name (element n es ∷ ts) =
    let rest = find_elements name ts in if bytes_eq n name then es ∷ rest else rest

unfoldable pub or_empty : Option (List Entry) → List Entry
or_empty none = []
or_empty (some es) = es

-- The entries of a table, none if it is missing.
unfoldable pub entries : Bytes → List Table → List Entry
entries name ts = or_empty (find_table name ts)

unfoldable pub as_string : Option Value → Bytes
as_string none = []
as_string (some (string s)) = s
as_string (some (integer n)) = []
as_string (some (boolean b)) = []

unfoldable pub as_integer : Option Value → ℤ
as_integer none = pos 0
as_integer (some (string s)) = pos 0
as_integer (some (integer n)) = n
as_integer (some (boolean b)) = pos 0

unfoldable pub as_boolean : Option Value → Bool
as_boolean none = false
as_boolean (some (string s)) = false
as_boolean (some (integer n)) = false
as_boolean (some (boolean b)) = b

unfoldable pub string_at : Bytes → List Entry → Bytes
string_at k es = as_string (find_key k es)

unfoldable pub integer_at : Bytes → List Entry → ℤ
integer_at k es = as_integer (find_key k es)

unfoldable pub boolean_at : Bytes → List Entry → Bool
boolean_at k es = as_boolean (find_key k es)

unfoldable pub log_of : List Entry → LogConfig
log_of es = record { level = string_at (text "level") es }

unfoldable pub tls_of : List Entry → TlsConfig
tls_of es = record {
  cert = string_at (text "cert") es;
  key = string_at (text "key") es;
  self_name = string_at (text "self_name") es;
}

unfoldable pub mux_of : List Entry → MuxConfig
mux_of es = record {
  enable = boolean_at (text "enable") es;
  keep_alive_seconds = integer_at (text "keepalive_seconds") es;
  max_stream_buffer = integer_at (text "max_stream_buffer") es;
  max_receive_buffer = integer_at (text "max_receive_buffer") es;
}

unfoldable pub reconnect_of : List Entry → ReconnectConfig
reconnect_of es = record {
  min_millis = integer_at (text "min_millis") es;
  max_millis = integer_at (text "max_millis") es;
}

unfoldable pub kcp_of : List Entry → KcpConfig
kcp_of es = record {
  mode = string_at (text "mode") es;
  fec_data = integer_at (text "fec_data") es;
  fec_parity = integer_at (text "fec_parity") es;
  mtu = integer_at (text "mtu") es;
  snd_wnd = integer_at (text "snd_wnd") es;
  rcv_wnd = integer_at (text "rcv_wnd") es;
  sock_buf = integer_at (text "sock_buf") es;
}

unfoldable pub service_of : List Entry → Service
service_of es = record {
  name = string_at (text "name") es;
  protocol = string_at (text "protocol") es;
  bind_addr = string_at (text "bind_addr") es;
}

unfoldable pub target_of : List Entry → ClientTarget
target_of es = record {
  name = string_at (text "name") es;
  local_addr = string_at (text "local_addr") es;
}

unfoldable pub forward_of : List Entry → Forward
forward_of es = record {
  name = string_at (text "name") es;
  protocol = string_at (text "protocol") es;
  local_addr = string_at (text "local_addr") es;
  target_addr = string_at (text "target_addr") es;
}

-- The section of the server; no file that the program writes has a whitelist.
unfoldable pub server_of : List Entry → List Table → ServerConfig
server_of es ts = record {
  bind_addr = string_at (text "bind_addr") es;
  transport = string_at (text "transport") es;
  token = string_at (text "token") es;
  obfs = boolean_at (text "obfs") es;
  ws_path = string_at (text "ws_path") es;
  host = string_at (text "host") es;
  tls = tls_of (entries (text "server.tls") ts);
  kcp = kcp_of (entries (text "server.kcp") ts);
  mux = mux_of (entries (text "server.mux") ts);
  allow_forward = boolean_at (text "allow_forward") es;
  forward_whitelist = [];
  services = map service_of (find_elements (text "server.services") ts);
}

unfoldable pub client_of : List Entry → List Table → ClientConfig
client_of es ts = record {
  server_addr = string_at (text "server_addr") es;
  transport = string_at (text "transport") es;
  token = string_at (text "token") es;
  obfs = boolean_at (text "obfs") es;
  ws_path = string_at (text "ws_path") es;
  sni = string_at (text "sni") es;
  host = string_at (text "host") es;
  fingerprint = string_at (text "fingerprint") es;
  insecure = boolean_at (text "insecure") es;
  pool_size = integer_at (text "pool_size") es;
  kcp = kcp_of (entries (text "client.kcp") ts);
  mux = mux_of (entries (text "client.mux") ts);
  reconnect = reconnect_of (entries (text "client.reconnect") ts);
  services = map target_of (find_elements (text "client.services") ts);
  forwards = map forward_of (find_elements (text "client.forwards") ts);
}

unfoldable pub server_in : Option (List Entry) → List Table → Option ServerConfig
server_in none ts = none
server_in (some es) ts = some (server_of es ts)

unfoldable pub client_in : Option (List Entry) → List Table → Option ClientConfig
client_in none ts = none
client_in (some es) ts = some (client_of es ts)

-- The configuration that the tags make of a document with these tables.
unfoldable pub config_of : List Table → Config
config_of ts = record {
  log = log_of (entries (text "log") ts);
  server = server_in (find_table (text "server") ts) ts;
  client = client_in (find_table (text "client") ts) ts;
}
