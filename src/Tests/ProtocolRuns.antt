-- ===== src/Tests/ProtocolRuns.antt =====
-- The framing layer of internal/protocol/protocol.go at concrete inputs, with a toy in the place of
-- HMAC: the first byte of the key, padded to 32 bytes.
use cando.Base.{
  ℕ, ◌+◌, ◌*◌, ◌^◌, ◌≡◌, ◌≢◌, ◌⊎◌, ◌↔◌, refl, [], ◌∷◌, ◌++◌, some, none, ok, err, arith, length,
  true,
}
use cando.Base.Bytes.{Bytes, text, read_full, eof}
use cando.Base.Dict.{lookup, bytes_instance}
use cando.Protocol.{nonce_len, mac_len, second, replay_ttl, label_server}
use cando.Protocol.Header.{too_long, write_stream_header, read_stream_header}
use cando.Protocol.HeaderRoundTrip.{read-write_stream_header}
use cando.Protocol.Window.{Near, in_window_iff}
use cando.Protocol.Acceptance.{Accepted, recorded, server_handshake-Accepted}
use cando.Protocol.Mutual.{carry, handshake_agree, handshake_foreign, client_handshake-proof}
use cando.Protocol.Replay.{serve_all, replay_rejected}
use cando.Protocol.ReplayGap.{at_once, replay_gap}
use cando.Protocol.Handshake.{
  ServerAuthenticator, Attempt, outside_window, bad_token, read_hello, silent, in_window, mac,
  check_hello, server_handshake, client_hello, client_handshake,
}

abbrev padding : Bytes
padding =
    0 ∷ 0 ∷ 0 ∷ 0 ∷ 0 ∷ 0 ∷ 0 ∷ 0 ∷ 0 ∷ 0 ∷ 0 ∷ 0 ∷ 0 ∷ 0 ∷ 0 ∷ 0 ∷ 0 ∷ 0 ∷ 0 ∷ 0 ∷ 0 ∷ 0 ∷ 0 ∷ 0
    ∷ 0 ∷ 0 ∷ 0 ∷ 0 ∷ 0 ∷ 0 ∷ 0 ∷ []

abbrev toy_hmac : Bytes → Bytes → Bytes
toy_hmac [] m = 0 ∷ padding
toy_hmac (k ∷ ks) m = k ∷ padding

toy_hmac_length : (k m : Bytes) → length (toy_hmac k m) ≡ mac_len
toy_hmac_length [] m = refl
toy_hmac_length (k ∷ ks) m = refl

abbrev nonce_one : Bytes
nonce_one = 1 ∷ padding

abbrev nonce_two : Bytes
nonce_two = 2 ∷ padding

abbrev server : ServerAuthenticator
server = record { token = text "t"; seen = [] }

abbrev ssh : Bytes
ssh = text "h:22"

abbrev ssh_header : Bytes
ssh_header = 2 ∷ 0 ∷ 4 ∷ ssh

write_ssh : write_stream_header 2 ssh ≡ ok ssh_header
unfolding write_stream_header
write_ssh = refl

read_ssh : read_stream_header (ssh_header ++ 9 ∷ []) ≡ ok ((2, ssh), 9 ∷ [])
unfolding read_stream_header
read_ssh = refl

-- A length above 512 is refused before the body is read.
read_long : read_stream_header (1 ∷ 2 ∷ 1 ∷ []) ≡ err (too_long 513)
unfolding read_stream_header
read_long = refl

read-write_stream_header_example : read_stream_header (ssh_header ++ 9 ∷ []) ≡ ok ((2, ssh), 9 ∷ [])
read-write_stream_header_example = read-write_stream_header 2 ssh ssh_header (9 ∷ []) write_ssh

in_window_iff_example :
    (in_window 100 145 ≡ true) ↔ (Near 100 145 ⊎ (◌≡◌ {A = ℕ} 100 (145 + 2 ^ 63)))
in_window_iff_example = in_window_iff 100 145 (omega arith) (omega arith) (omega arith)

abbrev hello_at_100 : Bytes
hello_at_100 = client_hello toy_hmac (text "t") (100 * second) nonce_one

abbrev first_try : Attempt
first_try = carry (120 * second) (120 * second) nonce_two hello_at_100

abbrev no_input : Attempt
no_input = record { input = []; checked_at = 0; recorded_at = 0; random = none; sends = true }

silence : (server_handshake toy_hmac server no_input).1.outcome ≡ err (read_hello eof)
unfolding server_handshake check_hello read_full
silence = refl

agreement :
    let serve = λ (hello : Bytes).
      server_handshake toy_hmac server (carry (120 * second) (120 * second) nonce_two hello) in
    ((serve hello_at_100).1.outcome ≡ ok tt)
    × ((serve hello_at_100).0 ≡ recorded toy_hmac server nonce_one (120 * second))
    × ((client_handshake toy_hmac
          (text "t")
          (100 * second)
          (some nonce_one)
          true
          (λ h. (serve h).1.written)).outcome
        ≡ ok tt)
unfolding lookup
agreement =
    handshake_agree toy_hmac toy_hmac_length server nonce_one nonce_two (100 * second)
      (120 * second) (120 * second) refl refl (omega arith) (omega arith) (omega arith) refl

handshake_agree_example :
    let serve = λ (hello : Bytes).
      server_handshake toy_hmac server (carry (120 * second) (120 * second) nonce_two hello) in
    ((serve hello_at_100).1.outcome ≡ ok tt)
    × ((serve hello_at_100).0 ≡ recorded toy_hmac server nonce_one (120 * second))
    × ((client_handshake toy_hmac
          (text "t")
          (100 * second)
          (some nonce_one)
          true
          (λ h. (serve h).1.written)).outcome
        ≡ ok tt)
unfolding lookup
handshake_agree_example =
    handshake_agree toy_hmac toy_hmac_length server nonce_one nonce_two (100 * second)
      (120 * second) (120 * second) refl refl (omega arith) (omega arith) (omega arith) refl

server_handshake-Accepted_example : Accepted toy_hmac server first_try
server_handshake-Accepted_example = server_handshake-Accepted toy_hmac server first_try agreement.0

abbrev foreign_try : Attempt
foreign_try = record first_try { input = client_hello toy_hmac (text "u") (100 * second) nonce_one }

handshake_foreign_example :
    (server_handshake toy_hmac server foreign_try ≡ (server, silent outside_window))
    ⊎ (server_handshake toy_hmac server foreign_try ≡ (server, silent bad_token))
unfolding mac
handshake_foreign_example =
    handshake_foreign toy_hmac toy_hmac_length server (text "u") nonce_one (100 * second)
      foreign_try refl refl (omega arith) (λ e. ground arith)

client_handshake-proof_example :
    (nonce : Bytes) × (server_nonce : Bytes) × (rest : Bytes) × (some nonce_one ≡ some nonce)
    × ((server_handshake toy_hmac server (
          carry
            (120 * second)
            (120 * second)
            nonce_two
            (client_hello toy_hmac (text "t") (100 * second) nonce))).1.written
        ≡ (server_nonce ++ mac toy_hmac (text "t") (label_server ∷ nonce ∷ server_nonce ∷ []))
          ++ rest)
    × (length server_nonce ≡ nonce_len)
client_handshake-proof_example =
    client_handshake-proof toy_hmac toy_hmac_length (text "t") (100 * second) (some nonce_one) true
      (λ hello.
        (server_handshake toy_hmac server
          (carry (120 * second) (120 * second) nonce_two hello)).1.written)
      agreement.2

replay_rejected_example :
    (server_handshake toy_hmac
      (serve_all toy_hmac (server_handshake toy_hmac server first_try).0 (no_input ∷ []))
      first_try).1.outcome
    ≢ ok tt
replay_rejected_example =
    replay_rejected toy_hmac server first_try (no_input ∷ []) first_try agreement.0 (omega arith)
      refl

replay_gap_example :
    let at = 100 * second + 5 in
    let later = at + replay_ttl + 1 in
    let hello = client_hello toy_hmac (text "t") ((100 + 45) * second) nonce_one in
    let hello' = client_hello toy_hmac (text "t") ((100 + 90) * second) nonce_two in
    let earlier =
      server_handshake toy_hmac server (at_once toy_hmac toy_hmac_length at nonce_two hello) in
    let between =
      server_handshake toy_hmac earlier.0
        (at_once toy_hmac toy_hmac_length later nonce_two hello') in
    let replay =
      server_handshake toy_hmac between.0
        (at_once toy_hmac toy_hmac_length later nonce_two hello) in
    (earlier.1.outcome ≡ ok tt) × (between.1.outcome ≡ ok tt) × (replay.1.outcome ≡ ok tt)
unfolding lookup
replay_gap_example =
    replay_gap toy_hmac toy_hmac_length server nonce_one nonce_two nonce_two 100 5 refl refl
      (λ e. ground arith) refl refl (omega arith) (omega arith) (omega arith)
