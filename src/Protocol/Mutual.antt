-- ===== src/Protocol/Mutual.antt =====
-- The two ends of the handshake of internal/protocol/protocol.go against each other.
use mathlib.Core.List.{append-nil}
use cando.Base.{
  ℕ, ◌^◌, ◌≤◌, ◌<◌, ◌≡◌, ◌≢◌, refl, sym, ap, ◌∙◌, ◌⊎◌, inl, inr, true, false, arith, List, [], ◌∷◌,
  ◌++◌, Option, Bool, some, none, ok, Result-cases, Bool-cases, length, take, drop,
  take-append-drop, length-take, length-append, take_prefix, drop_prefix, guard, ◌>>◌,
}
use cando.Base.Bytes.{
  Bytes, put_uint64, uint64-put_uint64, length-put_uint64, read_full, read_full-append,
  read_full-eq_ok, bytes_eq, bytes_eq_iff, bytes_eq_refl, bytes_eq-ne,
}
use cando.Base.Dict.{lookup, bytes_instance}
use cando.Protocol.{nonce_len, mac_len, server_hello_len, label_client, label_server}
use cando.Protocol.Window.{Near, in_window_iff}
use cando.Protocol.Hello.{check_hello-parts, verify_hello-parts}
use cando.Protocol.Acceptance.{recorded, admit-fresh, handshake_hello, handshake_refused}
use cando.Protocol.Handshake.{
  ServerAuthenticator, Attempt, mac, check_hello, server_handshake, prove_server, in_window, unix,
  bad_token, bad_server, outside_window, client_hello, check_reply, client_handshake,
  read_hello_bytes, silent,
}

-- One connection between a client and the server, as the server sees it.
abbrev pub carry : ℕ → ℕ → Bytes → Bytes → Attempt
carry checked recorded server_nonce hello = record {
  input = hello;
  checked_at = checked;
  recorded_at = recorded;
  random = some server_nonce;
  sends = true;
}

module _ (hmac : Bytes → Bytes → Bytes)
    (hmac_length : (k m : Bytes) → length (hmac k m) ≡ mac_len) where
  length-mac : (token : Bytes) (parts : List Bytes) → length (mac hmac token parts) ≡ mac_len
  unfolding mac
  length-mac token parts = hmac_length token _

  -- What the server's checks make of a hello that a client wrote under `token'`.
  check_hello-client_hello :
      (token token' nonce : Bytes) (now now' : ℕ)
      → length nonce ≡ nonce_len
      → unix now' < 2 ^ 64
      → check_hello hmac token (client_hello hmac token' now' nonce) now ≡ (do
        guard (in_window (unix now') (unix now)) outside_window
        guard
            (bytes_eq
              (mac hmac token' (label_client ∷ put_uint64 (unix now') ∷ nonce ∷ []))
              (mac hmac token (label_client ∷ put_uint64 (unix now') ∷ nonce ∷ [])))
            bad_token
        ok nonce)
  unfolding client_hello
  check_hello-client_hello token token' nonce now now' ln lt =
      let ts = put_uint64 (unix now') in
      let tag = mac hmac token' (label_client ∷ ts ∷ nonce ∷ []) in
      rw (← append-nil (ts ++ (nonce ++ tag))) (
        check_hello-parts hmac token ts nonce tag [] now (length-put_uint64 _) ln
          (length-mac token' _)
        ∙ verify_hello-parts hmac token ts nonce tag now (length-put_uint64 _) ln
        ∙ rw (uint64-put_uint64 (unix now') lt))

  check_reply-parts :
      (token nonce server_nonce tag rest : Bytes)
      → length server_nonce ≡ nonce_len
      → length tag ≡ mac_len
      → check_reply hmac token nonce ((server_nonce ++ tag) ++ rest)
        ≡ guard
            (bytes_eq tag (mac hmac token (label_server ∷ nonce ∷ server_nonce ∷ [])))
            bad_server
  unfolding check_reply
  check_reply-parts token nonce server_nonce tag rest ln lg =
      let size : length (server_nonce ++ tag) ≡ server_hello_len =
        omega (arith, length-append server_nonce tag, ln, lg) in
      rw (
        read_full-append (server_nonce ++ tag) rest server_hello_len size,
        read_hello_bytes,
        take_prefix nonce_len server_nonce tag ln,
        drop_prefix nonce_len server_nonce tag ln,
      )

  pub server_accepts :
      (a : ServerAuthenticator) (nonce server_nonce : Bytes) (now' checked at : ℕ)
      → length nonce ≡ nonce_len
      → Near (unix now') (unix checked)
      → 45 ≤ unix checked
      → unix checked < 2 ^ 63
      → lookup nonce a.seen ≡ none
      → server_handshake hmac a
          (carry checked at server_nonce (client_hello hmac a.token now' nonce))
        ≡ (recorded hmac a nonce at, prove_server hmac a.token nonce (some server_nonce) true)
  server_accepts a nonce server_nonce now' checked at ln near lo hi fresh =
      let x = carry checked at server_nonce (client_hello hmac a.token now' nonce) in
      let below : unix now' < 2 ^ 64 = omega arith in
      let timely = (in_window_iff (unix now') (unix checked) below lo hi).1 (inl near) in
      handshake_hello hmac a x nonce (
        check_hello-client_hello a.token a.token nonce checked now' ln below
        ∙ rw (timely, bytes_eq_refl (mac hmac a.token _)))
      ∙ admit-fresh hmac a nonce x fresh

  -- A client and a server with the same token, whose clocks are within 45 seconds, authenticate
  -- each other, and the server records the nonce, if the nonce is one that it does not remember.
  pub handshake_agree :
      (a : ServerAuthenticator) (nonce server_nonce : Bytes) (now' checked at : ℕ)
      → length nonce ≡ nonce_len
      → length server_nonce ≡ nonce_len
      → Near (unix now') (unix checked)
      → 45 ≤ unix checked
      → unix checked < 2 ^ 63
      → lookup nonce a.seen ≡ none
      → let serve =
          λ (hello : Bytes). server_handshake hmac a (carry checked at server_nonce hello) in
        let hello = client_hello hmac a.token now' nonce in
        ((serve hello).1.outcome ≡ ok tt)
        × ((serve hello).0 ≡ recorded hmac a nonce at)
        × ((client_handshake hmac a.token now' (some nonce) true (λ h. (serve h).1.written)).outcome
            ≡ ok tt)
  unfolding prove_server client_handshake
  handshake_agree a nonce server_nonce now' checked at ln ls near lo hi fresh =
      let run = server_accepts a nonce server_nonce now' checked at ln near lo hi fresh in
      let tag = mac hmac a.token (label_server ∷ nonce ∷ server_nonce ∷ []) in
      (
        ap (λ r. r.1.outcome) run,
        ap (λ r. r.0) run,
        ap (λ r. check_reply hmac a.token nonce r.1.written) run
            ∙ rw (← append-nil (server_nonce ++ tag)) (
                check_reply-parts a.token nonce server_nonce tag [] ls (length-mac a.token _)
                ∙ rw (bytes_eq_refl tag)),
      )

  -- A client whose tag under its own token is not the server's is turned away in silence, and the
  -- server's memory stays as it was.
  pub handshake_foreign :
      (a : ServerAuthenticator) (token' nonce : Bytes) (now' : ℕ) (x : Attempt)
      → x.input ≡ client_hello hmac token' now' nonce
      → length nonce ≡ nonce_len
      → unix now' < 2 ^ 64
      → (let parts = label_client ∷ put_uint64 (unix now') ∷ nonce ∷ [] in
          mac hmac token' parts ≢ mac hmac a.token parts)
      → (server_handshake hmac a x ≡ (a, silent outside_window))
        ⊎ (server_handshake hmac a x ≡ (a, silent bad_token))
  handshake_foreign a token' nonce now' x shape ln lt differ =
      let ts = put_uint64 (unix now') in
      let parts = label_client ∷ ts ∷ nonce ∷ [] in
      let verdict =
        ap (λ i. check_hello hmac a.token i x.checked_at) shape
        ∙ check_hello-client_hello a.token token' nonce x.checked_at now' ln lt in
      elim (Bool-cases (in_window (unix now') (unix x.checked_at))) [
        | inl w ↦ inr (
            handshake_refused hmac a x bad_token (
              verdict
              ∙ rw (w, bytes_eq-ne (mac hmac token' parts) (mac hmac a.token parts) differ)))
        | inr w ↦ inl (handshake_refused hmac a x outside_window (verdict ∙ rw w))
      ]

  check_reply-eq_ok :
      (token nonce input : Bytes)
      → check_reply hmac token nonce input ≡ ok tt
      → (server_nonce : Bytes) × (rest : Bytes) × (input
          ≡ (server_nonce ++ mac hmac token (label_server ∷ nonce ∷ server_nonce ∷ [])) ++ rest)
        × (length server_nonce ≡ nonce_len)
  unfolding check_reply
  check_reply-eq_ok token nonce input h = elim (Result-cases (read_full server_hello_len input)) [
    | inr (e, p) ↦ cc (rw (p, read_hello_bytes) at h)
    | inl ((reply, rest), p) ↦
        let (shape, size) = read_full-eq_ok server_hello_len input reply rest p in
        let s = take nonce_len reply in
        let tag = mac hmac token (label_server ∷ nonce ∷ s ∷ []) in
        let test : guard (bytes_eq (drop nonce_len reply) tag) bad_server ≡ ok tt =
          rw (p, read_hello_bytes) at h in
        let same : drop nonce_len reply ≡ tag =
          ground (arith, bytes_eq_iff (drop nonce_len reply) tag) in
        (
          s,
          rest,
          shape ∙ ap (λ r. r ++ rest) (sym (take-append-drop nonce_len reply) ∙ rw same),
          omega (arith, length-take nonce_len reply),
        )
  ]

  -- A client accepts only an answer that opens with a server nonce and its tag under the token.
  pub client_handshake-proof :
      (token : Bytes) (now : ℕ) (random : Option Bytes) (sends : Bool) (answer : Bytes → Bytes)
      → (client_handshake hmac token now random sends answer).outcome ≡ ok tt
      → (nonce : Bytes) × (server_nonce : Bytes) × (rest : Bytes) × (random ≡ some nonce)
        × (answer (client_hello hmac token now nonce)
            ≡ (server_nonce ++ mac hmac token (label_server ∷ nonce ∷ server_nonce ∷ [])) ++ rest)
        × (length server_nonce ≡ nonce_len)
  unfolding client_handshake
  client_handshake-proof token now none sends answer h = cc
  client_handshake-proof token now (some nonce) false answer h = cc
  client_handshake-proof token now (some nonce) true answer h =
      let (s, rest, shape, size) = check_reply-eq_ok token nonce _ h in
      (nonce, s, rest, refl, shape, size)
