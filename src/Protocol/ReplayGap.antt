-- ===== src/Protocol/ReplayGap.antt =====
-- Where the memory of nonces of internal/protocol/protocol.go is shorter than the window of
-- timestamps: the window counts whole seconds, the memory counts nanoseconds.
use cando.Base.{
  ℕ, ◌+◌, ◌*◌, ◌/◌, ◌^◌, ◌≤◌, ◌<◌, ◌≡◌, ◌≢◌, ap, ◌∙◌, arith, none, true, ok, length, some,
}
use cando.Base.Bytes.{Bytes, bytes_eq_iff}
use cando.Base.Dict.{lookup, insert, lookup-insert, bytes_instance}
use cando.Protocol.{nonce_len, mac_len, second, replay_ttl}
use cando.Protocol.Acceptance.{recorded}
use cando.Protocol.Mutual.{carry, server_accepts}
use cando.Protocol.Replay.{lookup-purge-none, lookup-purge-insert}
use cando.Protocol.Handshake.{
  ServerAuthenticator, Attempt, server_handshake, client_hello, prove_server, purge,
}

module _ (hmac : Bytes → Bytes → Bytes)
    (hmac_length : (k m : Bytes) → length (hmac k m) ≡ mac_len) where
  -- A connection that the server takes and checks at `at`.
  abbrev pub at_once : ℕ → Bytes → Bytes → Attempt
  at_once at server_nonce hello = carry at at server_nonce hello

  accepts_at :
      (a : ServerAuthenticator) (nonce server_nonce : Bytes) (ahead at : ℕ)
      → length nonce ≡ nonce_len
      → at / second ≤ ahead + 45
      → ahead ≤ at / second + 45
      → 45 ≤ at / second
      → at / second < 2 ^ 63
      → lookup nonce a.seen ≡ none
      → server_handshake hmac a
          (at_once at server_nonce (client_hello hmac a.token (ahead * second) nonce))
        ≡ (recorded hmac a nonce at, prove_server hmac a.token nonce (some server_nonce) true)
  accepts_at a nonce server_nonce ahead at ln l1 l2 lo hi fresh =
      server_accepts hmac hmac_length a nonce server_nonce (ahead * second) at at ln (omega arith)
        lo hi fresh

  -- The three hellos are accepted where each nonce is new or forgotten.
  accept_thrice :
      (a : ServerAuthenticator) (nonce other : Bytes) (at later : ℕ)
      → nonce ≢ other
      → lookup nonce a.seen ≡ none
      → lookup other a.seen ≡ none
      → at + replay_ttl < later
      → (lookup other (recorded hmac a nonce at).seen ≡ none)
        × (lookup nonce (recorded hmac (recorded hmac a nonce at) other later).seen ≡ none)
  accept_thrice a nonce other at later ne n1 n2 lt =
      let m = purge at a.seen in
      (
        lookup-insert nonce other (at + replay_ttl) m
            ∙ ground (arith, bytes_eq_iff nonce other, lookup-purge-none other at a.seen),
        lookup-insert other nonce (later + replay_ttl)
              (purge later (insert nonce (at + replay_ttl) m))
            ∙ ground (
              arith,
              bytes_eq_iff other nonce,
              lookup-purge-none nonce at a.seen,
              lookup-purge-insert nonce (at + replay_ttl) later m,
            ),
      )

  -- A hello whose clock is 45 seconds ahead of the server's is accepted twice, 90 seconds and a
  -- nanosecond apart, if another client is accepted just before the second time and the first was
  -- not in the last nanosecond of its second.
  pub replay_gap :
      (a : ServerAuthenticator) (nonce other server_nonce : Bytes) (t f : ℕ)
      → length nonce ≡ nonce_len
      → length other ≡ nonce_len
      → nonce ≢ other
      → lookup nonce a.seen ≡ none
      → lookup other a.seen ≡ none
      → 45 ≤ t
      → t + 90 < 2 ^ 63
      → f + 1 < second
      → let at = t * second + f in
        let later = at + replay_ttl + 1 in
        let hello = client_hello hmac a.token ((t + 45) * second) nonce in
        let hello' = client_hello hmac a.token ((t + 90) * second) other in
        let earlier = server_handshake hmac a (at_once at server_nonce hello) in
        let between = server_handshake hmac earlier.0 (at_once later server_nonce hello') in
        let replay = server_handshake hmac between.0 (at_once later server_nonce hello) in
        (earlier.1.outcome ≡ ok tt) × (between.1.outcome ≡ ok tt) × (replay.1.outcome ≡ ok tt)
  unfolding prove_server
  replay_gap a nonce other server_nonce t f l1 l2 ne n1 n2 lo hi hf =
      let at = t * second + f in
      let later = at + replay_ttl + 1 in
      let (f1, f2) = accept_thrice a nonce other at later ne n1 n2 (omega arith) in
      let b = recorded hmac a nonce at in
      let c = recorded hmac b other later in
      let run1 =
        accepts_at a nonce server_nonce (t + 45) at l1 (omega arith) (omega arith) (omega arith)
          (omega arith) n1 in
      let run2 =
        accepts_at b other server_nonce (t + 90) later l2 (omega arith) (omega arith) (omega arith)
          (omega arith) f1 in
      let run3 =
        accepts_at c nonce server_nonce (t + 45) later l1 (omega arith) (omega arith) (omega arith)
          (omega arith) f2 in
      (
        ap (λ r. r.1.outcome) run1,
        rw run1 (ap (λ r. r.1.outcome) run2),
        rw (run1, run2) (ap (λ r. r.1.outcome) run3),
      )
