-- ===== src/Protocol.antt =====
-- internal/protocol/protocol.go: the stream kinds and the constants of the framing layer. `Header`
-- has the stream header and `Handshake` the two ends of the authentication handshake; the other
-- children prove what they do. Durations are in nanoseconds, as in Go.
pub mod Header
pub mod HeaderRoundTrip
pub mod Handshake
pub mod Window
pub mod Hello
pub mod Acceptance
pub mod Mutual
pub mod Replay
pub mod ReplayGap
use cando.Base.{ℕ, ◌+◌, ◌*◌}
use cando.Base.Bytes.{Bytes, text}

abbrev pub kind_reverse : ℕ
kind_reverse = 1

abbrev pub kind_forward : ℕ
kind_forward = 2

abbrev pub kind_forward_udp : ℕ
kind_forward_udp = 3

abbrev pub kind_reverse_udp : ℕ
kind_reverse_udp = 4

abbrev pub nonce_len : ℕ
nonce_len = 32

abbrev pub mac_len : ℕ
mac_len = 32

abbrev pub ts_len : ℕ
ts_len = 8

abbrev pub client_hello_len : ℕ
client_hello_len = ts_len + nonce_len + mac_len

abbrev pub server_hello_len : ℕ
server_hello_len = nonce_len + mac_len

abbrev pub max_header_len : ℕ
max_header_len = 512

abbrev pub second : ℕ
second = 1_000_000_000

abbrev pub clock_skew : ℕ
clock_skew = 45 * second

abbrev pub replay_ttl : ℕ
replay_ttl = 2 * clock_skew

abbrev pub label_client : Bytes
label_client = text "cando1/client-hello/v1"

abbrev pub label_server : Bytes
label_server = text "cando1/server-hello/v1"
