-- ===== src/Config/Normalize.antt =====
-- internal/config/config.go: normalize and fillKCPDefaults, section by section.
use cando.Base.{Bool, ◌&&◌, ◌||◌, not, Option, some, none, map, if◌then◌else◌}
use cando.Base.Bytes.{Bytes, text, bytes_eq}
use cando.Base.Int.{ℤ, pos, leb_ℤ, is_zero}
use cando.Base.Text.{is_empty, to_lower, trim_space}
use cando.Config.{
  Config, ServerConfig, ClientConfig, MuxConfig, KcpConfig, ReconnectConfig, Service, Forward,
  default_kcp, default_mux, norm_proto, transport_tls, transport_kcp,
}

-- `if field == "" { field = def }`
unfoldable pub or_text : Bytes → Bytes → Bytes
or_text field def = if is_empty field then def else field

-- `if field <= 0 { field = def }`
unfoldable pub or_positive : ℤ → ℤ → ℤ
or_positive field def = if leb_ℤ field (pos 0) then def else field

-- `if field == 0 { field = def }`
unfoldable pub or_nonzero : ℤ → ℤ → ℤ
or_nonzero field def = if is_zero field then def else field

unfoldable pub fec_unset : KcpConfig → Bool
fec_unset k = leb_ℤ k.fec_data (pos 0) || leb_ℤ k.fec_parity (pos 0)

-- fillKCPDefaults; the FEC pair is defaulted together.
unfoldable pub fill_kcp_defaults : KcpConfig → KcpConfig
fill_kcp_defaults k = record {
  mode = or_text k.mode default_kcp.mode;
  fec_data = if fec_unset k then default_kcp.fec_data else k.fec_data;
  fec_parity = if fec_unset k then default_kcp.fec_parity else k.fec_parity;
  mtu = or_positive k.mtu default_kcp.mtu;
  snd_wnd = or_positive k.snd_wnd default_kcp.snd_wnd;
  rcv_wnd = or_positive k.rcv_wnd default_kcp.rcv_wnd;
  sock_buf = or_positive k.sock_buf default_kcp.sock_buf;
}

unfoldable pub norm_transport : Bytes → Bytes
norm_transport t = or_text (to_lower (trim_space t)) transport_tls

unfoldable pub norm_mux : MuxConfig → MuxConfig
norm_mux m = if not m.enable && is_zero m.keep_alive_seconds then default_mux else m

unfoldable pub norm_kcp_section : Bytes → KcpConfig → KcpConfig
norm_kcp_section transport k = if bytes_eq transport transport_kcp then fill_kcp_defaults k else k

unfoldable pub norm_service : Service → Service
norm_service s = record s { protocol = norm_proto s.protocol }

unfoldable pub norm_forward : Forward → Forward
norm_forward f = record f { protocol = norm_proto f.protocol }

unfoldable pub norm_server : ServerConfig → ServerConfig
norm_server s =
    let transport = norm_transport s.transport in
    record s {
      transport = transport;
      ws_path = or_text s.ws_path (text "/cando");
      mux = norm_mux s.mux;
      kcp = norm_kcp_section transport s.kcp;
      services = map norm_service s.services;
    }

unfoldable pub norm_reconnect : ReconnectConfig → ReconnectConfig
norm_reconnect r = record {
  min_millis = or_nonzero r.min_millis (pos 500);
  max_millis = or_nonzero r.max_millis (pos 30000);
}

unfoldable pub norm_client : ClientConfig → ClientConfig
norm_client cl =
    let transport = norm_transport cl.transport in
    record cl {
      transport = transport;
      ws_path = or_text cl.ws_path (text "/cando");
      fingerprint = or_text cl.fingerprint (text "chrome");
      pool_size = or_positive cl.pool_size (pos 2);
      host = or_text cl.host cl.sni;
      mux = norm_mux cl.mux;
      reconnect = norm_reconnect cl.reconnect;
      kcp = norm_kcp_section transport cl.kcp;
      forwards = map norm_forward cl.forwards;
    }

unfoldable pub option_map {ℓ κ} : {A : Type ℓ} {B : Type κ} → (A → B) → Option A → Option B
option_map f none = none
option_map f (some a) = some (f a)

-- Config.normalize
unfoldable pub normalize : Config → Config
normalize c = record {
  log = record { level = or_text c.log.level (text "info") };
  server = option_map norm_server c.server;
  client = option_map norm_client c.client;
}
