-- ===== src/Config.antt =====
-- internal/config/config.go: the schema, its constants and its small functions. A Go string is its
-- bytes, an `int` is an integer, and a pointer to a role's section is an option.
pub mod Normalize
pub mod Validate
pub mod Shape
pub mod Fixpoint
pub mod Accepted
pub mod Load
pub mod Tags
use cando.Base.{ℕ, ◌*◌, Bool, true, ◌||◌, Option, List, if◌then◌else◌}
use cando.Base.Bytes.{Bytes, text, bytes_eq}
use cando.Base.Int.{ℤ, pos}
use cando.Base.Text.{is_empty, to_lower, trim_space}

abbrev pub transport_tcp : Bytes
transport_tcp = text "tcp"

abbrev pub transport_tls : Bytes
transport_tls = text "tls"

abbrev pub transport_ws : Bytes
transport_ws = text "ws"

abbrev pub transport_wss : Bytes
transport_wss = text "wss"

abbrev pub transport_kcp : Bytes
transport_kcp = text "kcp"

abbrev pub proto_tcp : Bytes
proto_tcp = text "tcp"

abbrev pub proto_udp : Bytes
proto_udp = text "udp"

pub record LogConfig : Type 0 where
  pub level : Bytes

pub record TlsConfig : Type 0 where
  pub cert : Bytes
  pub key : Bytes
  pub self_name : Bytes

pub record MuxConfig : Type 0 where
  pub enable : Bool
  pub keep_alive_seconds : ℤ
  pub max_stream_buffer : ℤ
  pub max_receive_buffer : ℤ

pub record ReconnectConfig : Type 0 where
  pub min_millis : ℤ
  pub max_millis : ℤ

pub record KcpConfig : Type 0 where
  pub mode : Bytes
  pub fec_data : ℤ
  pub fec_parity : ℤ
  pub mtu : ℤ
  pub snd_wnd : ℤ
  pub rcv_wnd : ℤ
  pub sock_buf : ℤ

-- A reverse tunnel.
pub record Service : Type 0 where
  pub name : Bytes
  pub protocol : Bytes
  pub bind_addr : Bytes

pub record ClientTarget : Type 0 where
  pub name : Bytes
  pub local_addr : Bytes

-- A forward tunnel.
pub record Forward : Type 0 where
  pub name : Bytes
  pub protocol : Bytes
  pub local_addr : Bytes
  pub target_addr : Bytes

pub record ServerConfig : Type 0 where
  pub bind_addr : Bytes
  pub transport : Bytes
  pub token : Bytes
  pub obfs : Bool
  pub ws_path : Bytes
  pub host : Bytes
  pub tls : TlsConfig
  pub kcp : KcpConfig
  pub mux : MuxConfig
  pub allow_forward : Bool
  pub forward_whitelist : List Bytes
  pub services : List Service

pub record ClientConfig : Type 0 where
  pub server_addr : Bytes
  pub transport : Bytes
  pub token : Bytes
  pub obfs : Bool
  pub ws_path : Bytes
  pub sni : Bytes
  pub host : Bytes
  pub fingerprint : Bytes
  pub insecure : Bool
  pub pool_size : ℤ
  pub kcp : KcpConfig
  pub mux : MuxConfig
  pub reconnect : ReconnectConfig
  pub services : List ClientTarget
  pub forwards : List Forward

pub record Config : Type 0 where
  pub log : LogConfig
  pub server : Option ServerConfig
  pub client : Option ClientConfig

abbrev pub default_kcp : KcpConfig
default_kcp = record {
  mode = text "fast3";
  fec_data = pos 10;
  fec_parity = pos 3;
  mtu = pos 1350;
  snd_wnd = pos 2048;
  rcv_wnd = pos 2048;
  sock_buf = pos (16 * 1024 * 1024);
}

abbrev pub default_mux : MuxConfig
default_mux = record {
  enable = true;
  keep_alive_seconds = pos 10;
  max_stream_buffer = pos (8 * 1024 * 1024);
  max_receive_buffer = pos (32 * 1024 * 1024);
}

-- NormProto
unfoldable pub norm_proto : Bytes → Bytes
unfolding is_empty
norm_proto p = let q = to_lower (trim_space p) in if is_empty q then proto_tcp else q

-- IsUDP
unfoldable pub is_udp : Bytes → Bool
unfolding bytes_eq
is_udp p = bytes_eq (norm_proto p) proto_udp

unfoldable pub valid_proto : Bytes → Bool
valid_proto p = bytes_eq p proto_tcp || bytes_eq p proto_udp

-- validTransport
unfoldable pub valid_transport : Bytes → Bool
valid_transport t =
    bytes_eq t transport_tcp
    || (bytes_eq t transport_tls
        || (bytes_eq t transport_ws || (bytes_eq t transport_wss || bytes_eq t transport_kcp)))

-- IsTLS
unfoldable pub is_tls : Bytes → Bool
is_tls t = bytes_eq t transport_tls || bytes_eq t transport_wss

-- IsWS
unfoldable pub is_ws : Bytes → Bool
is_ws t = bytes_eq t transport_ws || bytes_eq t transport_wss
