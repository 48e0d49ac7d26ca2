-- ===== src/Menu/Wizard/Files.antt =====
-- internal/menu/wizard.go: the text of the two files, as tables and as the lines that print them.
use cando.Base.{suc, Bool, true, false, List, [], ◌∷◌, ◌++◌, map, if◌then◌else◌, ◌==◌}
use cando.Base.Bytes.{Bytes, text, bytes_eq}
use cando.Base.Int.{ℤ, pos, negsuc}
use cando.Base.Decimal.{itoa}
use cando.Config.{Forward, is_tls, is_ws, is_udp, transport_tcp, transport_kcp}
use cando.Config.Tags.{Value, string, integer, boolean, Entry, key, comment, Table, table, element}
use cando.Menu.Mappings.{ServicePair}
use cando.Menu.Wizard.{WizardData, first_non_empty}

-- The verbs %d, %v of a truth value, and %s between quotes.
unfoldable pub print_integer : ℤ → Bytes
print_integer (pos n) = itoa n
print_integer (negsuc n) = text "-" ++ itoa (suc n)

unfoldable pub print_boolean : Bool → Bytes
print_boolean true = text "true"
print_boolean false = text "false"

unfoldable pub print_value : Value → Bytes
print_value (string s) = text "\"" ++ s ++ text "\""
print_value (integer n) = print_integer n
print_value (boolean b) = print_boolean b

unfoldable pub print_entry : Entry → Bytes
print_entry (key k v) = k ++ text " = " ++ print_value v ++ text "\n"
print_entry (comment c) = text "# " ++ c ++ text "\n"

unfoldable pub print_entries : List Entry → Bytes
print_entries [] = []
print_entries (e ∷ es) = print_entry e ++ print_entries es

unfoldable pub print_table : Table → Bytes
print_table (table name es) = text "[" ++ name ++ text "]\n" ++ print_entries es
print_table (element name es) = text "[[" ++ name ++ text "]]\n" ++ print_entries es

unfoldable pub print_more : List Table → Bytes
print_more [] = []
print_more (t ∷ ts) = text "\n" ++ print_table t ++ print_more ts

-- A blank line stands between two tables.
unfoldable pub print_tables : List Table → Bytes
print_tables [] = []
print_tables (t ∷ ts) = print_table t ++ print_more ts

-- What an `if` writes.
unfoldable pub when {ℓ} : {A : Type ℓ} → Bool → List A → List A
when b xs = if b then xs else []

abbrev pub log_table : Table
log_table = table (text "log") (key (text "level") (string (text "info")) ∷ [])

-- writeKCPTOML
unfoldable pub kcp_table : Bytes → Table
kcp_table section = table section (
    key (text "mode") (string (text "fast3"))
    ∷ key (text "fec_data") (integer (pos 10))
    ∷ key (text "fec_parity") (integer (pos 3))
    ∷ key (text "mtu") (integer (pos 1350))
    ∷ key (text "snd_wnd") (integer (pos 2048))
    ∷ key (text "rcv_wnd") (integer (pos 2048))
    ∷ key (text "sock_buf") (integer (pos 16777216))
    ∷ [])

-- writeMuxTOML
unfoldable pub mux_table : Bytes → Table
mux_table section = table section (
    key (text "enable") (boolean true)
    ∷ key (text "keepalive_seconds") (integer (pos 10))
    ∷ key (text "max_stream_buffer") (integer (pos 8388608))
    ∷ key (text "max_receive_buffer") (integer (pos 33554432))
    ∷ [])

-- roleMachine
unfoldable pub role_machine : WizardData → Bytes → Bytes
role_machine d role =
    if d.scenario == 1
    then (if bytes_eq role (text "server") then text "FOREIGN" else text "IRAN")
    else if bytes_eq role (text "server")
    then text "IRAN"
    else text "FOREIGN"

unfoldable pub udp_entry : Bytes → List Entry
udp_entry protocol = when (is_udp protocol) (key (text "protocol") (string (text "udp")) ∷ [])

unfoldable pub ws_entries : WizardData → List Entry
ws_entries d = when (is_ws d.transport) (
    key (text "ws_path") (string (first_non_empty (d.ws_path ∷ text "/cando" ∷ [])))
    ∷ key (text "host") (string (first_non_empty (d.host ∷ d.sni ∷ [])))
    ∷ [])

unfoldable pub obfs_entry : WizardData → List Entry
obfs_entry d = when (bytes_eq d.transport transport_tcp) (key (text "obfs") (boolean d.obfs) ∷ [])

unfoldable pub server_entries : WizardData → List Entry
server_entries d =
    key (text "bind_addr") (string (text "0.0.0.0:" ++ d.bind_port))
    ∷ key (text "transport") (string d.transport)
    ∷ key (text "token") (string d.token)
    ∷ (obfs_entry d
        ++ (ws_entries d ++ (key (text "allow_forward") (boolean (d.scenario == 1)) ∷ [])))

unfoldable pub server_service : ServicePair → Table
server_service s = element (text "server.services") (
    key (text "name") (string s.name)
    ∷ (udp_entry s.protocol ++ key (text "bind_addr") (string s.public_bind) ∷ []))

unfoldable pub tls_tables : WizardData → List Table
tls_tables d = when (is_tls d.transport) (
    table (text "server.tls") (
      comment (text "Leave cert/key empty to auto-generate a self-signed cert for self_name.")
      ∷ key (text "self_name") (string (first_non_empty (d.sni ∷ text "www.example.com" ∷ [])))
      ∷ key (text "cert") (string [])
      ∷ key (text "key") (string [])
      ∷ [])
    ∷ [])

unfoldable pub kcp_tables : WizardData → Bytes → List Table
kcp_tables d section = when (bytes_eq d.transport transport_kcp) (kcp_table section ∷ [])

unfoldable pub server_tables : WizardData → List Table
server_tables d =
    log_table
    ∷ table (text "server") (server_entries d)
    ∷ (tls_tables d
        ++ (kcp_tables d (text "server.kcp")
            ++ (mux_table (text "server.mux")
                ∷ when (d.scenario == 2) (map server_service d.services))))

-- buildServerTOML
unfoldable pub build_server_toml : WizardData → Bytes
build_server_toml d =
    text "# cando1 SERVER config  (run on the "
    ++ role_machine d (text "server")
    ++ text " machine)\n"
    ++ print_tables (server_tables d)

unfoldable pub tls_entries : WizardData → List Entry
tls_entries d = when (is_tls d.transport) (
    key (text "sni") (string (first_non_empty (d.sni ∷ text "www.example.com" ∷ [])))
    ∷ key (text "fingerprint") (string (first_non_empty (d.fingerprint ∷ text "chrome" ∷ [])))
    ∷ key (text "insecure") (boolean d.insecure)
    ∷ [])

unfoldable pub client_entries : WizardData → List Entry
client_entries d =
    key (text "server_addr") (string d.server_addr)
    ∷ key (text "transport") (string d.transport)
    ∷ key (text "token") (string d.token)
    ∷ key (text "pool_size") (integer d.pool_size)
    ∷ (tls_entries d ++ (ws_entries d ++ obfs_entry d))

unfoldable pub client_forward : Forward → Table
client_forward f = element (text "client.forwards") (
    key (text "name") (string f.name)
    ∷ (udp_entry f.protocol
        ++ key (text "local_addr") (string f.local_addr)
          ∷ key (text "target_addr") (string f.target_addr)
          ∷ []))

unfoldable pub client_service : ServicePair → Table
client_service s =
    element (text "client.services")
      (key (text "name") (string s.name) ∷ key (text "local_addr") (string s.local_addr) ∷ [])

abbrev pub reconnect_table : Table
reconnect_table = table (text "client.reconnect") (
    key (text "min_millis") (integer (pos 500))
    ∷ key (text "max_millis") (integer (pos 30000))
    ∷ [])

unfoldable pub client_tables : WizardData → List Table
client_tables d =
    log_table
    ∷ table (text "client") (client_entries d)
    ∷ (kcp_tables d (text "client.kcp")
        ++ mux_table (text "client.mux")
          ∷ reconnect_table
          ∷ (if d.scenario == 1
              then map client_forward d.forwards
              else map client_service d.services))

-- buildClientTOML
unfoldable pub build_client_toml : WizardData → Bytes
build_client_toml d =
    text "# cando1 CLIENT config  (run on the "
    ++ role_machine d (text "client")
    ++ text " machine)\n"
    ++ print_tables (client_tables d)
