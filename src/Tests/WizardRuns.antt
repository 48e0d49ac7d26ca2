-- ===== src/Tests/WizardRuns.antt =====
-- Runs of wizard and cloudflareSetup: two services through an Iran relay, and a forward behind
-- Cloudflare.
use cando.Base.{
  subst, drop, ◌≡◌, ◌↔◌, refl, true, false, Option, none, some, [], ◌∷◌, ◌++◌, ok, if◌then◌else◌,
  arith,
}
use cando.Base.Bytes.{Bytes, text, bytes_eq, bytes_eq_refl}
use cando.Base.Int.{pos}
use cando.Base.Decimal.{atoi, scan_digits, in_range, positive, is_digit, itoa, digits}
use cando.Base.Text.{is_empty, to_lower, lower_byte, trim_space, trim_left, trim_right, is_space}
use cando.Config.{Config, norm_proto, is_udp, is_tls, is_ws, valid_transport, proto_tcp, proto_udp}
use cando.Config.Shape.{Distinct}
use cando.Config.Tags.{config_of}
use cando.Config.Tags.Document.{Decodes}
use cando.System.{Os, write_file, set_file}
use cando.Menu.{Input, ask, ask_default, ask_required, ask_yes_no, ask_proto, ask_int, int_or}
use cando.Menu.Mappings.{
  ServicePair, gather, or_one, or_default, gathered, read_service, gather_services,
}
use cando.Menu.Wizard.{
  WizardData, first_non_empty, port_behind, port_of, ask_topology, iran_role, foreign_role,
  ask_machine, ask_transport, ask_token, ask_tls, ask_ws, ask_obfs, ask_camouflage, services_given,
  ask_mappings, with_address, wizard_data,
}
use cando.Menu.Wizard.Plain.{IsText, ArePlain}
use cando.Menu.Wizard.Files.{
  print_integer, print_boolean, print_value, print_entry, print_entries, print_table, print_more,
  print_tables, when, mux_table, role_machine, udp_entry, ws_entries, obfs_entry, server_entries,
  server_service, tls_tables, kcp_tables, server_tables, build_server_toml, tls_entries,
  client_entries, client_forward, client_service, client_tables, build_client_toml,
}
use cando.Menu.Wizard.Pair.{pair_names}
use cando.Menu.Wizard.Loading.{LoadsSomePair}
use cando.Menu.Wizard.Running.{
  server_path, client_path, write_at, overwrite, write_asking, write_second, write_both,
}
use cando.Menu.Wizard.Outcome.{wizard-LoadsSomePair}
use cando.Menu.Wizard.Ending.{HasText, wizard_data-Comes}
use cando.Menu.Wizard.Duplicates.{server_file_loads_iff}
use cando.Menu.Wizard.Answers.{IsReady, EndsReady, wizard_data-EndsReady}
use cando.Menu.Mappings.Ending.{Comes}
use cando.Config.Load.{load}
use cando.Tunnel.Addresses.{cut_last}

abbrev relayed : Input
relayed =
    text "2"
    ∷ text "y"
    ∷ text "WSS"
    ∷ text "secret"
    ∷ text "vpn.example.com:8443"
    ∷ text ""
    ∷ text "n"
    ∷ text ""
    ∷ text ""
    ∷ text ""
    ∷ text "4"
    ∷ text " web "
    ∷ text ""
    ∷ text ""
    ∷ text ""
    ∷ text "dns"
    ∷ text "udp"
    ∷ text ":53"
    ∷ text "127.0.0.1:53"
    ∷ text ""
    ∷ text "n"
    ∷ []

abbrev web_pair : ServicePair
web_pair = record {
  name = text "web";
  protocol = proto_tcp;
  public_bind = text "0.0.0.0:8443";
  local_addr = text "127.0.0.1:8443";
}

abbrev dns_pair : ServicePair
dns_pair = record {
  name = text "dns";
  protocol = proto_udp;
  public_bind = text ":53";
  local_addr = text "127.0.0.1:53";
}

abbrev relay : WizardData
relay = record {
  scenario = 2;
  transport = text "wss";
  token = text "secret";
  server_addr = text "vpn.example.com:8443";
  bind_port = text "8443";
  sni = text "www.example.com";
  host = text "www.example.com";
  ws_path = text "/cando";
  fingerprint = text "chrome";
  obfs = false;
  insecure = false;
  pool_size = pos 4;
  forwards = [];
  services = web_pair ∷ dns_pair ∷ [];
  this_machine = text "server";
}

asks : wizard_data (text "abc") relayed ≡ ok (relay, text "n" ∷ [])
unfolding wizard_data with_address ask_mappings services_given gather_services gathered or_default
    or_one gather read_service ask_camouflage ask_tls ask_ws ask_obfs ask_token ask_transport
    ask_machine iran_role foreign_role ask_topology ask ask_default ask_required ask_yes_no
    ask_proto ask_int int_or first_non_empty port_of port_behind cut_last atoi scan_digits in_range
    positive is_digit is_empty to_lower lower_byte trim_space trim_left trim_right is_space bytes_eq
    is_tls is_ws valid_transport
asks = refl

-- The text of the server's file, byte for byte.
server_text :
    build_server_toml relay
    ≡ text "# cando1 SERVER config  (run on the IRAN machine)\n[log]\nlevel = \"info\"\n\n"
      ++ text "[server]\nbind_addr = \"0.0.0.0:8443\"\ntransport = \"wss\"\ntoken = \"secret\"\n"
      ++ text "ws_path = \"/cando\"\nhost = \"www.example.com\"\nallow_forward = false\n\n"
      ++ text "[server.tls]\n# Leave cert/key empty to auto-generate a self-signed cert for "
      ++ text "self_name.\nself_name = \"www.example.com\"\ncert = \"\"\nkey = \"\"\n\n"
      ++ text "[server.mux]\nenable = true\nkeepalive_seconds = 10\n"
      ++ text "max_stream_buffer = 8388608\nmax_receive_buffer = 33554432\n\n"
      ++ text "[[server.services]]\nname = \"web\"\nbind_addr = \"0.0.0.0:8443\"\n\n"
      ++ text "[[server.services]]\nname = \"dns\"\nprotocol = \"udp\"\nbind_addr = \":53\"\n"
unfolding build_server_toml server_tables server_entries server_service tls_tables kcp_tables
    mux_table ws_entries obfs_entry udp_entry when role_machine print_tables print_more print_table
    print_entries print_entry print_value print_boolean print_integer itoa digits first_non_empty
    is_udp is_tls is_ws norm_proto bytes_eq is_empty to_lower lower_byte trim_space trim_left
    trim_right is_space
server_text = refl

-- Nothing is there yet, and everything can be written.
abbrev empty : Os
empty = record {
  files = λ path. none;
  writable = λ path. true;
  removable = λ path. true;
  procs = λ pid. none;
  sent = [];
  clock = 0;
}

abbrev decoder : WizardData → Bytes → Option Config
decoder d bytes =
    if bytes_eq bytes (build_server_toml d)
    then some (config_of (server_tables d))
    else some (config_of (client_tables d))

decoder-server : (d : WizardData) → Decodes (decoder d) (build_server_toml d) (server_tables d)
decoder-server d plain = rw (bytes_eq_refl (build_server_toml d)) refl

decoder-client : (d : WizardData) → Decodes (decoder d) (build_client_toml d) (client_tables d)
unfolding bytes_eq build_server_toml build_client_toml
decoder-client d plain = refl

abbrev written : WizardData → Os
written d =
    write_file client_path (build_client_toml d)
      (write_file server_path (build_server_toml d) empty)

writes : (d : WizardData) (input : Input) → write_both d empty input ≡ (written d, ok input)
unfolding write_both write_second write_asking write_at overwrite write_file set_file bytes_eq
writes d input = refl

generated-IsText : IsText (text "abc")
generated-IsText = ((λ e. cc), omega arith)

relayed-ArePlain : ArePlain relayed
relayed-ArePlain = omega arith

relay-Distinct : Distinct (pair_names relay.services)
relay-Distinct = ground arith

wizard-LoadsSomePair_example :
    LoadsSomePair
      (decoder relay)
      ((written relay).files server_path)
      ((written relay).files client_path)
wizard-LoadsSomePair_example =
    wizard-LoadsSomePair (decoder relay) (text "abc") relayed (text "n" ∷ []) relay generated-IsText
      relayed-ArePlain asks relay-Distinct (decoder-server relay) (decoder-client relay) empty
      (written relay) (text "n" ∷ []) (writes relay (text "n" ∷ []))

wizard_data-Comes_example : Comes (wizard_data (text "abc") relayed) ↔ HasText (drop 4 relayed)
wizard_data-Comes_example = wizard_data-Comes (text "abc") relayed

relay-IsReady : IsReady relay
relay-IsReady =
    subst EndsReady asks
      (wizard_data-EndsReady (text "abc") relayed generated-IsText relayed-ArePlain)

server_file_loads_iff_example :
    ((c : Config) × (load (decoder relay) (some (build_server_toml relay)) ≡ ok c))
    ↔ Distinct (pair_names relay.services)
server_file_loads_iff_example =
    server_file_loads_iff (decoder relay) relay relay-IsReady refl (decoder-server relay)

-- A domain, the server's address for the hint, no token, this machine is the client, one forward.
abbrev domain_typed : Input
domain_typed =
    text "t.example.com"
    ∷ text ""
    ∷ text ""
    ∷ text "no"
    ∷ text "socks"
    ∷ text ""
    ∷ text ""
    ∷ text ""
    ∷ text ""
    ∷ text "n"
    ∷ []

abbrev front : WizardData
front = record {
  scenario = 1;
  transport = text "wss";
  token = text "abc";
  server_addr = text "t.example.com:443";
  bind_port = text "443";
  sni = text "t.example.com";
  host = text "t.example.com";
  ws_path = text "/cando";
  fingerprint = text "chrome";
  obfs = false;
  insecure = false;
  pool_size = pos 2;
  forwards =
      record {
        name = text "socks";
        protocol = proto_tcp;
        local_addr = text "0.0.0.0:1080";
        target_addr = text "127.0.0.1:1080";
      }
      ∷ [];
  services = [];
  this_machine = text "client";
}

-- The text of the client's file, byte for byte.
client_text :
    build_client_toml front
    ≡ text "# cando1 CLIENT config  (run on the IRAN machine)\n[log]\nlevel = \"info\"\n\n"
      ++ text "[client]\nserver_addr = \"t.example.com:443\"\ntransport = \"wss\"\n"
      ++ text "token = \"abc\"\npool_size = 2\nsni = \"t.example.com\"\n"
      ++ text "fingerprint = \"chrome\"\ninsecure = false\nws_path = \"/cando\"\n"
      ++ text "host = \"t.example.com\"\n\n[client.mux]\nenable = true\n"
      ++ text "keepalive_seconds = 10\nmax_stream_buffer = 8388608\n"
      ++ text "max_receive_buffer = 33554432\n\n[client.reconnect]\nmin_millis = 500\n"
      ++ text "max_millis = 30000\n\n[[client.forwards]]\nname = \"socks\"\n"
      ++ text "local_addr = \"0.0.0.0:1080\"\ntarget_addr = \"127.0.0.1:1080\"\n"
unfolding build_client_toml client_tables client_entries client_forward client_service tls_entries
    kcp_tables mux_table ws_entries obfs_entry udp_entry when role_machine print_tables print_more
    print_table print_entries print_entry print_value print_boolean print_integer itoa digits
    first_non_empty is_udp is_tls is_ws norm_proto bytes_eq is_empty to_lower lower_byte trim_space
    trim_left trim_right is_space
client_text = refl
