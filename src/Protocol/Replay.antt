-- ===== src/Protocol/Replay.antt =====
-- The memory of nonces of internal/protocol/protocol.go: what it rejects and for how long.
use cando.Base.{
  ℕ, ◌+◌, ◌≤◌, ◌<◌, ◌≡◌, ◌≢◌, refl, sym, ap, ◌∙◌, inl, inr, arith, List, [], ◌∷◌, some, none, ok,
  Result-cases, Option-cases, All, take, drop, take_prefix, drop_prefix,
}
use cando.Base.Bytes.{Bytes, bytes_eq_iff}
use cando.Base.Dict.{Dict, lookup, insert, lookup-insert, bytes_instance}
use cando.Protocol.{ts_len, nonce_len, replay_ttl}
use cando.Protocol.Hello.{Genuine}
use cando.Protocol.Acceptance.{
  Accepted, admit-fresh, admit-replayed, handshake_hello, handshake_refused,
  server_handshake-Accepted,
}
use cando.Protocol.Handshake.{
  ServerAuthenticator, Attempt, check_hello, admit, server_handshake, purge,
}

-- A nonce that is remembered past `now` stays.
lookup-purge :
    (n : Bytes) (exp now : ℕ) (m : Dict Bytes ℕ)
    → lookup n m ≡ some exp
    → now ≤ exp
    → lookup n (purge now m) ≡ some exp
unfolding lookup purge
lookup-purge n exp now [] h le = cc
lookup-purge n exp now ((k, e) ∷ m) h le =
    ground (arith, bytes_eq_iff k n, lookup-purge n exp now m)

pub lookup-purge-none :
    (n : Bytes) (now : ℕ) (m : Dict Bytes ℕ) → lookup n m ≡ none → lookup n (purge now m) ≡ none
unfolding lookup purge
lookup-purge-none n now [] h = refl
lookup-purge-none n now ((k, e) ∷ m) h = ground (arith, lookup-purge-none n now m)

-- A nonce whose time has passed goes.
pub lookup-purge-insert :
    (n : Bytes) (exp now : ℕ) (m : Dict Bytes ℕ)
    → lookup n m ≡ none
    → exp < now
    → lookup n (purge now (insert n exp m)) ≡ none
unfolding lookup purge insert
lookup-purge-insert n exp now [] h lt = ground arith
lookup-purge-insert n exp now ((k, e) ∷ m) h lt = ground (arith, lookup-purge-insert n exp now m)

pub lookup-recorded :
    (a : ServerAuthenticator) (k n : Bytes) (now exp : ℕ)
    → lookup k a.seen ≡ none
    → lookup n a.seen ≡ some exp
    → now ≤ exp
    → lookup n (insert k (now + replay_ttl) (purge now a.seen)) ≡ some exp
lookup-recorded a k n now exp new old le =
    lookup-insert k n (now + replay_ttl) (purge now a.seen)
    ∙ ground (arith, bytes_eq_iff k n, lookup-purge n exp now a.seen)

module _ (hmac : Bytes → Bytes → Bytes) where
  -- The server's memory after a series of handshakes, in the order in which they took the lock.
  pub serve_all : ServerAuthenticator → List Attempt → ServerAuthenticator
  serve_all a [] = a
  serve_all a (x ∷ xs) = serve_all (server_handshake hmac a x).0 xs

  admit-keeps :
      (a : ServerAuthenticator) (x : Attempt) (k n : Bytes) (exp : ℕ)
      → lookup n a.seen ≡ some exp
      → x.recorded_at ≤ exp
      → lookup n (admit hmac a k x).0.seen ≡ some exp
  admit-keeps a x k n exp h le = elim (Option-cases (lookup k a.seen)) [
    | inl new ↦ rw (admit-fresh hmac a k x new) (lookup-recorded a k n x.recorded_at exp new h le)
    | inr (e, old) ↦ rw (admit-replayed hmac a k x e old) h
  ]

  handshake_keeps :
      (a : ServerAuthenticator) (x : Attempt) (n : Bytes) (exp : ℕ)
      → lookup n a.seen ≡ some exp
      → x.recorded_at ≤ exp
      → lookup n (server_handshake hmac a x).0.seen ≡ some exp
  handshake_keeps a x n exp h le =
      elim (Result-cases (check_hello hmac a.token x.input x.checked_at)) [
        | inl (k, p) ↦ rw (handshake_hello hmac a x k p) (admit-keeps a x k n exp h le)
        | inr (e, p) ↦ rw (handshake_refused hmac a x e p) h
      ]

  serve_all-keeps :
      (a : ServerAuthenticator) (xs : List Attempt) (n : Bytes) (exp : ℕ)
      → lookup n a.seen ≡ some exp
      → All (λ x. x.recorded_at ≤ exp) xs
      → lookup n (serve_all a xs).seen ≡ some exp
  unfolding serve_all
  serve_all-keeps a [] n exp h le = h
  serve_all-keeps a (x ∷ xs) n exp h le =
      serve_all-keeps (server_handshake hmac a x).0 xs n exp (handshake_keeps a x n exp h le.0) le.1

  Genuine-nonce :
      (token input nonce : Bytes) (now : ℕ)
      → Genuine hmac token input now nonce
      → nonce ≡ take nonce_len (drop ts_len input)
  Genuine-nonce token input nonce now g =
      sym (take_prefix nonce_len nonce _ g.nonce_length)
      ∙ ap (take nonce_len) (sym (drop_prefix ts_len g.ts _ g.ts_length))
      ∙ ap (λ i. take nonce_len (drop ts_len i)) (sym g.shape)

  Accepted-remembered :
      (a : ServerAuthenticator) (x : Attempt) (p : Accepted hmac a x)
      → lookup p.nonce (server_handshake hmac a x).0.seen ≡ some (x.recorded_at + replay_ttl)
  Accepted-remembered a x p =
      ap (λ s. lookup p.nonce s.seen) p.state
      ∙ lookup-insert p.nonce p.nonce (x.recorded_at + replay_ttl) (purge x.recorded_at a.seen)
      ∙ ground (arith, bytes_eq_iff p.nonce p.nonce)

  -- Once a hello has been accepted, the same bytes are never accepted again after any series of
  -- handshakes whose clocks are at most 90 seconds past the time at which the nonce was recorded.
  pub replay_rejected :
      (a : ServerAuthenticator) (x : Attempt) (xs : List Attempt) (y : Attempt)
      → (server_handshake hmac a x).1.outcome ≡ ok tt
      → All (λ z. z.recorded_at ≤ x.recorded_at + replay_ttl) xs
      → y.input ≡ x.input
      → (server_handshake hmac (serve_all (server_handshake hmac a x).0 xs) y).1.outcome ≢ ok tt
  replay_rejected a x xs y first times same again =
      let b = serve_all (server_handshake hmac a x).0 xs in
      let p = server_handshake-Accepted hmac a x first in
      let q = server_handshake-Accepted hmac b y again in
      let kept =
        serve_all-keeps (server_handshake hmac a x).0 xs p.nonce _ (Accepted-remembered a x p)
          times in
      let nonces : q.nonce ≡ p.nonce =
        Genuine-nonce b.token y.input q.nonce y.checked_at q.genuine
        ∙ ap (λ i. take nonce_len (drop ts_len i)) same
        ∙ sym (Genuine-nonce a.token x.input p.nonce x.checked_at p.genuine) in
      cc (sym q.fresh ∙ ap (λ n. lookup n b.seen) nonces ∙ kept)
