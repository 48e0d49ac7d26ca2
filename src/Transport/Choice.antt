-- ===== src/Transport/Choice.antt =====
-- internal/transport/transport.go, tcp.go, tls.go, ws.go and kcp.go: the dialer that a client's
-- configuration describes, with what it is given; the AES cipher of kcp-go and SHA-256 are
-- parameters. Which listener a server gets, by the name of its transport.
pub mod Complete
use cando.Base.{ℕ, Bool, true, false, ◌||◌, Option, none, some, List, [], ◌∷◌, ◌++◌, if◌then◌else◌}
use cando.Base.Bytes.{Bytes, text, bytes_eq}
use cando.Base.Text.{is_empty, to_lower, trim_space}
use cando.Config.{
  ClientConfig, ServerConfig, KcpConfig, transport_tcp, transport_tls, transport_ws, transport_wss,
  transport_kcp,
}
use cando.Transport.Kcp.{norm_kcp}
use cando.Tunnel.Addresses.{split_host_port}

-- The profiles of uTLS that fingerprintID names.
pub data ClientHello : Type 0 where
  chrome firefox safari edge randomized_alpn randomized : ClientHello

unfoldable pub hello_named : Bytes → ClientHello
hello_named s =
    if bytes_eq s (text "firefox")
    then firefox
    else if bytes_eq s (text "safari") || bytes_eq s (text "ios")
    then safari
    else if bytes_eq s (text "edge")
    then edge
    else if bytes_eq s (text "randomized") || bytes_eq s (text "randomised")
    then randomized_alpn
    else if bytes_eq s (text "random")
    then randomized
    else chrome

-- fingerprintID
unfoldable pub fingerprint_id : Bytes → ClientHello
fingerprint_id name = hello_named (to_lower (trim_space name))

unfoldable pub host_or : Bytes → Option (Bytes × Bytes) → Bytes
host_or addr none = addr
host_or addr (some (host, port)) = host

-- hostOnly
unfoldable pub host_only : Bytes → Bytes
host_only addr = host_or addr (split_host_port addr)

-- The server name of TLS, and the Host header of the WebSocket request.
unfoldable pub sni_of : ClientConfig → Bytes
sni_of cfg = if is_empty cfg.sni then host_only cfg.server_addr else cfg.sni

unfoldable pub host_of : ClientConfig → Bytes
host_of cfg = if is_empty cfg.host then sni_of cfg else cfg.host

-- tcpDialer, tlsDialer, wsDialer and kcpDialer; a WebSocket dialer over TLS has the profile and the
-- name that its connections show. The protocols that TLS offers, the sizes of buffers and the
-- deadlines are left out.
pub record TcpDialer : Type 0 where
  pub addr : Bytes
  pub token : Bytes
  pub obfs : Bool

pub record TlsDialer : Type 0 where
  pub addr : Bytes
  pub sni : Bytes
  pub insecure : Bool
  pub fingerprint : ClientHello

pub record WsDialer : Type 0 where
  pub scheme : Bytes
  pub host : Bytes
  pub path : Bytes
  pub host_header : Bytes
  pub tls : Option TlsDialer

pub record KcpDialer (Block : Type 0) : Type 0 where
  pub addr : Bytes
  pub block : Block
  pub cfg : KcpConfig

pub data Dialer (Block : Type 0) : Type 0 where
  over_tcp : TcpDialer → Dialer Block
  over_tls : TlsDialer → Dialer Block
  over_ws : WsDialer → Dialer Block
  over_kcp : KcpDialer Block → Dialer Block

unfoldable pub new_tls_dialer : ClientConfig → TlsDialer
new_tls_dialer cfg = record {
  addr = cfg.server_addr;
  sni = sni_of cfg;
  insecure = cfg.insecure;
  fingerprint = fingerprint_id cfg.fingerprint;
}

unfoldable pub new_ws_dialer : ClientConfig → WsDialer
new_ws_dialer cfg =
    let wss = bytes_eq cfg.transport transport_wss in
    record {
      scheme = if wss then text "wss" else text "ws";
      host = cfg.server_addr;
      path = cfg.ws_path;
      host_header = host_of cfg;
      tls = if wss then some (new_tls_dialer cfg) else none;
    }

module _ {Block : Type 0} (sha256 : Bytes → Bytes) (aes_block : Bytes → Option Block) where
  -- kcpBlock
  unfoldable pub kcp_block : Bytes → Option Block
  kcp_block token = aes_block (sha256 (text "cando1-kcp" ++ 0 ∷ token))

  unfoldable pub kcp_dialer : ClientConfig → Option Block → Option (Dialer Block)
  kcp_dialer cfg none = none
  kcp_dialer cfg (some b) =
      some (over_kcp (record { addr = cfg.server_addr; block = b; cfg = norm_kcp cfg.kcp }))

  -- newKCPDialer
  unfoldable pub new_kcp_dialer : ClientConfig → Option (Dialer Block)
  new_kcp_dialer cfg = kcp_dialer cfg (kcp_block cfg.token)

  -- NewClientDialer
  unfoldable pub new_client_dialer : ClientConfig → Option (Dialer Block)
  new_client_dialer cfg =
      if bytes_eq cfg.transport transport_tcp
      then some (over_tcp (record { addr = cfg.server_addr; token = cfg.token; obfs = cfg.obfs }))
      else if bytes_eq cfg.transport transport_tls
      then some (over_tls (new_tls_dialer cfg))
      else if bytes_eq cfg.transport transport_ws || bytes_eq cfg.transport transport_wss
      then some (over_ws (new_ws_dialer cfg))
      else if bytes_eq cfg.transport transport_kcp
      then new_kcp_dialer cfg
      else none

pub data Carrier : Type 0 where
  tcp tls ws kcp unsupported : Carrier

-- NewServerListener's switch.
unfoldable pub carrier_of : Bytes → Carrier
carrier_of t =
    if bytes_eq t transport_tcp
    then tcp
    else if bytes_eq t transport_tls
    then tls
    else if bytes_eq t transport_ws || bytes_eq t transport_wss
    then ws
    else if bytes_eq t transport_kcp
    then kcp
    else unsupported

unfoldable pub carrier : {Block : Type 0} → Option (Dialer Block) → Carrier
carrier none = unsupported
carrier (some (over_tcp d)) = tcp
carrier (some (over_tls d)) = tls
carrier (some (over_ws d)) = ws
carrier (some (over_kcp d)) = kcp
