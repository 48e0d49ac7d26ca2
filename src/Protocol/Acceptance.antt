-- ===== src/Protocol/Acceptance.antt =====
-- When ServerAuthenticator.Handshake (internal/protocol/protocol.go) accepts, and what a peer that
-- it does not accept observes.
use cando.Base.{
  ℕ, ◌+◌, ◌≡◌, ◌≢◌, refl, ap, ◌∙◌, inl, inr, true, false, arith, [], Option, some, none, Bool, ok,
  err, Result-cases, Option-cases,
}
use cando.Base.Bytes.{Bytes}
use cando.Base.Dict.{lookup, insert, bytes_instance}
use cando.Protocol.{replay_ttl}
use cando.Protocol.Hello.{Genuine, check_hello_iff}
use cando.Protocol.Handshake.{
  silent, replayed, ServerAuthenticator, Attempt, HandshakeError, write_failed, check_hello, admit,
  server_handshake, prove_server, server_reply, purge, remember,
}

module _ (hmac : Bytes → Bytes → Bytes) where
  -- A handshake that fails in any way but the write of the reply hands no byte to the connection.
  pub server_handshake-silent :
      (a : ServerAuthenticator) (x : Attempt) (e : HandshakeError)
      → (server_handshake hmac a x).1.outcome ≡ err e
      → e ≢ write_failed
      → (server_handshake hmac a x).1.written ≡ []
  unfolding server_handshake admit prove_server
  server_handshake-silent a x e h n = ground arith

  -- The memory of the server once it has recorded a nonce.
  abbrev pub recorded : ServerAuthenticator → Bytes → ℕ → ServerAuthenticator
  recorded a nonce now = record a { seen = insert nonce (now + replay_ttl) (purge now a.seen) }

  -- What holds of a handshake that the server accepts.
  pub record Accepted (a : ServerAuthenticator) (x : Attempt) : Type 0 where
    pub nonce : Bytes
    pub server_nonce : Bytes
    pub genuine : Genuine hmac a.token x.input x.checked_at nonce
    pub fresh : lookup nonce a.seen ≡ none
    pub random : x.random ≡ some server_nonce
    pub sends : x.sends ≡ true
    pub state : (server_handshake hmac a x).0 ≡ recorded a nonce x.recorded_at
    pub reply : (server_handshake hmac a x).1.written ≡ server_reply hmac a.token nonce server_nonce

  pub admit-fresh :
      (a : ServerAuthenticator) (nonce : Bytes) (x : Attempt)
      → lookup nonce a.seen ≡ none
      → admit hmac a nonce x
        ≡ (recorded a nonce x.recorded_at, prove_server hmac a.token nonce x.random x.sends)
  unfolding admit remember
  admit-fresh a nonce x e = rw (e, remember)

  pub admit-replayed :
      (a : ServerAuthenticator) (nonce : Bytes) (x : Attempt) (exp : ℕ)
      → lookup nonce a.seen ≡ some exp
      → admit hmac a nonce x ≡ (a, silent replayed)
  unfolding admit remember
  admit-replayed a nonce x exp e = rw (e, remember)

  prove_server-eq_ok :
      (token nonce : Bytes) (random : Option Bytes) (sends : Bool)
      → (prove_server hmac token nonce random sends).outcome ≡ ok tt
      → (s : Bytes) × (random ≡ some s)
        × (sends ≡ true)
        × ((prove_server hmac token nonce random sends).written ≡ server_reply hmac token nonce s)
  unfolding prove_server
  prove_server-eq_ok token nonce none sends h = cc
  prove_server-eq_ok token nonce (some s) false h = cc
  prove_server-eq_ok token nonce (some s) true h = (s, refl, refl, refl)

  pub handshake_hello :
      (a : ServerAuthenticator) (x : Attempt) (nonce : Bytes)
      → check_hello hmac a.token x.input x.checked_at ≡ ok nonce
      → server_handshake hmac a x ≡ admit hmac a nonce x
  unfolding server_handshake
  handshake_hello a x nonce e = rw (e, server_handshake)

  pub handshake_refused :
      (a : ServerAuthenticator) (x : Attempt) (e : HandshakeError)
      → check_hello hmac a.token x.input x.checked_at ≡ err e
      → server_handshake hmac a x ≡ (a, silent e)
  unfolding server_handshake
  handshake_refused a x e p = rw (p, server_handshake)

  pub fresh-Accepted :
      (a : ServerAuthenticator) (x : Attempt) (nonce : Bytes)
      → check_hello hmac a.token x.input x.checked_at ≡ ok nonce
      → lookup nonce a.seen ≡ none
      → (server_handshake hmac a x).1.outcome ≡ ok tt
      → Accepted a x
  fresh-Accepted a x nonce e f h =
      let run = handshake_hello a x nonce e ∙ admit-fresh a nonce x f in
      let (s, random, sends, reply) =
        prove_server-eq_ok a.token nonce x.random x.sends (rw run at h) in
      record {
        nonce = nonce;
        server_nonce = s;
        genuine = (check_hello_iff hmac a.token x.input x.checked_at nonce).0 e;
        fresh = f;
        random = random;
        sends = sends;
        state = ap (λ r. r.0) run;
        reply = ap (λ r. r.1.written) run ∙ reply;
      }

  -- An accepted client has sent a genuine hello with a nonce not remembered; the server then
  -- records the nonce and hands exactly its proof to the connection.
  pub server_handshake-Accepted :
      (a : ServerAuthenticator) (x : Attempt)
      → (server_handshake hmac a x).1.outcome ≡ ok tt
      → Accepted a x
  server_handshake-Accepted a x h =
      elim (Result-cases (check_hello hmac a.token x.input x.checked_at)) [
        | inr (e, p) ↦ cc (ap (λ r. r.1.outcome) (handshake_refused a x e p))
        | inl (nonce, p) ↦ elim (Option-cases (lookup nonce a.seen)) [
          | inl f ↦ fresh-Accepted a x nonce p f h
          | inr (exp, q) ↦
              cc (
                ap (λ r. r.1.outcome)
                  (handshake_hello a x nonce p ∙ admit-replayed a nonce x exp q))
        ]
      ]
