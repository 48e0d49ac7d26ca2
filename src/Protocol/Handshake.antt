-- ===== src/Protocol/Handshake.antt =====
-- internal/protocol/protocol.go: ServerAuthenticator and ClientHandshake. HMAC-SHA256 is the
-- parameter `hmac`, of a key and a message. The clock readings, what the random source gives, and
-- whether the one Write succeeds are arguments; the deadline shows as input that ends early.
use mathlib.Core.List.{flatten}
use cando.Base.{
  ℕ, ◌+◌, ◌-◌, ◌/◌, ◌%◌, ◌^◌, List, [], ◌∷◌, ◌++◌, Bool, true, false, not, Option, none, some, ltb,
  if◌then◌else◌, take, drop, Result, ok, err, ◌>>=◌, ◌>>◌, guard,
}
use cando.Base.Bytes.{Bytes, ReadError, read_full, uint64, put_uint64, bytes_eq}
use cando.Base.Dict.{Dict, lookup, insert, bytes_instance}
use cando.Protocol.{
  nonce_len, ts_len, client_hello_len, server_hello_len, second, clock_skew, replay_ttl,
  label_client, label_server,
}

pub data HandshakeError : Type 0 where
  read_hello : ReadError → HandshakeError
  outside_window bad_token replayed no_randomness write_failed bad_server : HandshakeError

-- A nonce maps to the time, in nanoseconds, until which it is remembered.
pub record ServerAuthenticator : Type 0 where
  pub token : Bytes
  pub seen : Dict Bytes ℕ

unfoldable pub new_server_authenticator : Bytes → ServerAuthenticator
new_server_authenticator token = record { token = token; seen = [] }

-- `time.Now().Unix()` of a clock reading.
abbrev pub unix : ℕ → ℕ
unix now = now / second

-- `skew <= 45` for the int64 difference of `unix` and the client's timestamp: both are 64-bit
-- patterns, the difference wraps, and so does the change of its sign.
unfoldable pub in_window : ℕ → ℕ → Bool
in_window client_ts now_unix =
    let skew = (now_unix + 2 ^ 64 - client_ts % 2 ^ 64) % 2 ^ 64 in
    let size = if ltb skew (2 ^ 63) then skew else (2 ^ 64 - skew) % 2 ^ 64 in
    if ltb size (2 ^ 63) then not (ltb (clock_skew / second) size) else true

-- Deletes the entries whose time has passed.
unfoldable pub purge : ℕ → Dict Bytes ℕ → Dict Bytes ℕ
purge now [] = []
purge now ((k, exp) ∷ m) = if ltb exp now then purge now m else (k, exp) ∷ purge now m

-- Records a nonce; false if it is a replay.
unfoldable pub remember : ServerAuthenticator → Bytes → ℕ → ServerAuthenticator × Bool
remember a nonce now = elim (lookup nonce a.seen) [
  | some exp ↦ (a, false)
  | none ↦ (record a { seen = insert nonce (now + replay_ttl) (purge now a.seen) }, true)
]

-- One end's view of the handshake: what it handed to Write, and how it ended.
pub record Transcript : Type 0 where
  pub written : Bytes
  pub outcome : Result HandshakeError (Unit {0})

abbrev pub silent : HandshakeError → Transcript
silent e = record { written = []; outcome = err e }

-- The one Write of a message, and what comes after it if it succeeds.
abbrev pub send : Bytes → Bool → Result HandshakeError (Unit {0}) → Transcript
send msg true r = record { written = msg; outcome = r }
send msg false r = record { written = msg; outcome = err write_failed }

-- `hello[:tsLen]`, `hello[tsLen : tsLen+nonceLen]` and `hello[tsLen+nonceLen:]`
abbrev pub hello_ts : Bytes → Bytes
hello_ts hello = take ts_len hello

abbrev pub hello_nonce : Bytes → Bytes
hello_nonce hello = take nonce_len (drop ts_len hello)

abbrev pub hello_mac : Bytes → Bytes
hello_mac hello = drop (ts_len + nonce_len) hello

abbrev pub read_hello_bytes : ℕ → Bytes → Result HandshakeError (Bytes × Bytes)
read_hello_bytes n input = elim (read_full n input) [ ok r ↦ ok r | err e ↦ err (read_hello e) ]

-- The connection of one handshake: what the peer sends, the clock where the window is checked
-- and where the nonce is recorded, the random source, and whether Write succeeds.
pub record Attempt : Type 0 where
  pub input : Bytes
  pub checked_at : ℕ
  pub recorded_at : ℕ
  pub random : Option Bytes
  pub sends : Bool

module _ (hmac : Bytes → Bytes → Bytes) where
  -- `mac`: the parts are written to the HMAC one after the other.
  unfoldable pub mac : Bytes → List Bytes → Bytes
  mac token parts = hmac token (flatten parts)

  -- The timestamp window and the MAC of a whole hello.
  unfoldable pub verify_hello : Bytes → Bytes → ℕ → Result HandshakeError Bytes
  verify_hello token hello now = do
    guard (in_window (uint64 (hello_ts hello)) (unix now)) outside_window
    guard
        (bytes_eq (hello_mac hello)
          (mac token (label_client ∷ hello_ts hello ∷ hello_nonce hello ∷ [])))
        bad_token
    ok (hello_nonce hello)

  -- The checks on a client hello that need no memory; the nonce if they pass.
  unfoldable pub check_hello : Bytes → Bytes → ℕ → Result HandshakeError Bytes
  check_hello token input now = do
    (hello, rest) ← read_hello_bytes client_hello_len input
    verify_hello token hello now

  abbrev pub server_reply : Bytes → Bytes → Bytes → Bytes
  server_reply token nonce server_nonce =
      server_nonce ++ mac token (label_server ∷ nonce ∷ server_nonce ∷ [])

  -- The server's proof, once the nonce is recorded.
  unfoldable pub prove_server : Bytes → Bytes → Option Bytes → Bool → Transcript
  prove_server token nonce none sends = silent no_randomness
  prove_server token nonce (some server_nonce) sends =
      send (server_reply token nonce server_nonce) sends (ok tt)

  unfoldable pub admit : ServerAuthenticator → Bytes → Attempt → ServerAuthenticator × Transcript
  admit a nonce x =
      let (a', fresh) = remember a nonce x.recorded_at in
      if fresh then (a', prove_server a.token nonce x.random x.sends) else (a', silent replayed)

  -- ServerAuthenticator.Handshake
  unfoldable pub server_handshake : ServerAuthenticator → Attempt → ServerAuthenticator × Transcript
  server_handshake a x = elim (check_hello a.token x.input x.checked_at) [
    | err e ↦ (a, silent e)
    | ok nonce ↦ admit a nonce x
  ]

  unfoldable pub client_hello : Bytes → ℕ → Bytes → Bytes
  client_hello token now nonce =
      let ts = put_uint64 (unix now) in ts ++ (nonce ++ mac token (label_client ∷ ts ∷ nonce ∷ []))

  -- The verdict on what the server sends back.
  unfoldable pub check_reply : Bytes → Bytes → Bytes → Result HandshakeError (Unit {0})
  check_reply token nonce input = do
    (reply, rest) ← read_hello_bytes server_hello_len input
    guard
        (bytes_eq (drop nonce_len reply)
          (mac token (label_server ∷ nonce ∷ take nonce_len reply ∷ [])))
        bad_server

  -- ClientHandshake; `answer` gives the bytes that arrive once the hello is written.
  unfoldable pub client_handshake : Bytes → ℕ → Option Bytes → Bool → (Bytes → Bytes) → Transcript
  client_handshake token now none sends answer = silent no_randomness
  client_handshake token now (some nonce) sends answer =
      let hello = client_hello token now nonce in
      send hello sends (check_reply token nonce (answer hello))
