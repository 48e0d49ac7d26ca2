-- ===== src/Tests/ConfigRuns.antt =====
-- internal/config/config.go at a small server configuration and a small client configuration.
use cando.Base.{◌≡◌, ◌↔◌, refl, List, [], ◌∷◌, some, none, ok, err, true, false}
use cando.Base.Bytes.{text, bytes_eq}
use cando.Base.Int.{pos}
use cando.Base.Text.{is_empty, to_lower, lower_byte, trim_space, trim_left, trim_right, is_space}
use cando.App.{run_config, info}
use cando.Config.{
  ServerConfig, Config, KcpConfig, MuxConfig, Service, norm_proto, is_udp, valid_proto,
  valid_transport,
}
use cando.Config.Normalize.{
  normalize, norm_server, norm_transport, or_text, norm_service, fill_kcp_defaults, fec_unset,
  option_map,
}
use cando.Config.Validate.{
  validate, validate_server, check_services, check_service, contains, duplicate_name,
}
use cando.Config.Shape.{IsConfig}
use cando.Config.Accepted.{validate_iff}
use cando.Config.Load.{load, load_config, IsLoaded, load-IsLoaded}

abbrev blank_kcp : KcpConfig
blank_kcp = record {
  mode = [];
  fec_data = pos 10;
  fec_parity = pos 0;
  mtu = pos 0;
  snd_wnd = pos 0;
  rcv_wnd = pos 0;
  sock_buf = pos 0;
}

abbrev blank_mux : MuxConfig
blank_mux = record {
  enable = false;
  keep_alive_seconds = pos 0;
  max_stream_buffer = pos 0;
  max_receive_buffer = pos 0;
}

abbrev pub web : Service
web = record { name = text "web"; protocol = text " UDP "; bind_addr = text ":80" }

abbrev pub listening : List Service → ServerConfig
listening services = record {
  bind_addr = text ":443";
  transport = text " KCP";
  token = text "t";
  obfs = false;
  ws_path = [];
  host = [];
  tls = record { cert = []; key = []; self_name = [] };
  kcp = blank_kcp;
  mux = blank_mux;
  allow_forward = true;
  forward_whitelist = [];
  services = services;
}

abbrev pub serving : List Service → Config
serving services = record {
  log = record { level = [] };
  server = some (listening services);
  client = none;
}

udp_by_name : is_udp (text " Udp") ≡ true
unfolding is_udp norm_proto is_empty to_lower lower_byte trim_space trim_left trim_right is_space
udp_by_name = refl

half_fec : (fill_kcp_defaults blank_kcp).fec_data ≡ pos 10
unfolding fill_kcp_defaults fec_unset
half_fec = refl

same_name_twice :
    validate (normalize (serving (web ∷ web ∷ []))) ≡ err (duplicate_name (text "web"))
unfolding validate normalize norm_server norm_transport norm_service norm_proto or_text is_empty
    to_lower lower_byte trim_space trim_left trim_right is_space validate_server check_services
    check_service contains bytes_eq valid_transport valid_proto option_map
same_name_twice = refl

pub loads :
    load (λ bytes. some (serving (web ∷ []))) (some []) ≡ ok (normalize (serving (web ∷ [])))
unfolding load load_config validate normalize norm_server norm_transport norm_service norm_proto
    or_text is_empty to_lower lower_byte trim_space trim_left trim_right is_space validate_server
    check_services check_service contains bytes_eq valid_transport valid_proto option_map
loads = refl

validate_iff_example : (validate (serving (web ∷ [])) ≡ ok tt) ↔ IsConfig (serving (web ∷ []))
validate_iff_example = validate_iff (serving (web ∷ []))

load-IsLoaded_example : IsLoaded (normalize (serving (web ∷ [])))
load-IsLoaded_example =
    load-IsLoaded (λ bytes. some (serving (web ∷ []))) (some []) (normalize (serving (web ∷ [])))
      loads

pub valid : validate (normalize (serving (web ∷ []))) ≡ ok tt
unfolding load load_config validate normalize norm_server norm_transport norm_service norm_proto
    or_text is_empty to_lower lower_byte trim_space trim_left trim_right is_space validate_server
    check_services check_service contains bytes_eq valid_transport valid_proto option_map
valid = refl

default_level : (run_config (λ cl. true) (serving [])).0 ≡ info
unfolding run_config is_empty to_lower trim_space trim_left trim_right bytes_eq
default_level = refl
