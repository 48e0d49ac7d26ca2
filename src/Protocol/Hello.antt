-- ===== src/Protocol/Hello.antt =====
-- The checks of ServerAuthenticator.Handshake (internal/protocol/protocol.go) on a client hello.
use mathlib.Core.List.{append_assoc}
use cando.Base.{
  ℕ, ◌+◌, ◌≡◌, sym, ap, ◌∙◌, ◌↔◌, inl, inr, true, arith, [], ◌∷◌, ◌++◌, ok, Result-cases, length,
  drop, take-append-drop, length-take, length-drop, guard, ◌>>◌, drop-drop, take_prefix,
  drop_prefix, length-append,
}
use cando.Base.Bytes.{
  Bytes, uint64, read_full, read_full-append, read_full-eq_ok, bytes_eq, bytes_eq_iff,
  bytes_eq_refl,
}
use cando.Base.Dict.{bytes_instance}
use cando.Protocol.{ts_len, nonce_len, client_hello_len, label_client}
use cando.Protocol.Handshake.{
  outside_window, bad_token, mac, verify_hello, check_hello, in_window, unix, read_hello_bytes,
  hello_ts, hello_nonce, hello_mac,
}

module _ (hmac : Bytes → Bytes → Bytes) where
  -- The input opens with a timestamp in the window, a nonce, and the tag of both under the token.
  pub record Genuine (token input : Bytes) (now : ℕ) (nonce : Bytes) : Type 0 where
    pub ts : Bytes
    pub rest : Bytes
    pub shape : input ≡ ts ++ (nonce ++ (mac hmac token (label_client ∷ ts ∷ nonce ∷ []) ++ rest))
    pub ts_length : length ts ≡ ts_len
    pub nonce_length : length nonce ≡ nonce_len
    pub tag_length : length (mac hmac token (label_client ∷ ts ∷ nonce ∷ [])) ≡ 32
    pub timely : in_window (uint64 ts) (unix now) ≡ true

  -- A whole hello of 72 bytes, cut at its fields.
  hello_fields : (hello : Bytes) → hello ≡ hello_ts hello ++ (hello_nonce hello ++ hello_mac hello)
  hello_fields hello =
      sym (take-append-drop ts_len hello)
      ∙ ap (◌++◌ (hello_ts hello)) (
          sym (take-append-drop nonce_len (drop ts_len hello))
          ∙ ap (◌++◌ (hello_nonce hello)) (drop-drop ts_len nonce_len hello))

  -- What the two guards say when they let the hello through.
  verify_hello-eq_ok :
      (token hello : Bytes) (now : ℕ) (nonce : Bytes)
      → verify_hello hmac token hello now ≡ ok nonce
      → (in_window (uint64 (hello_ts hello)) (unix now) ≡ true)
        × (hello_mac hello
            ≡ mac hmac token (label_client ∷ hello_ts hello ∷ hello_nonce hello ∷ []))
        × (nonce ≡ hello_nonce hello)
  unfolding verify_hello
  verify_hello-eq_ok token hello now nonce h = ground (
    arith,
    bytes_eq_iff (hello_mac hello)
        (mac hmac token (label_client ∷ hello_ts hello ∷ hello_nonce hello ∷ [])),
  )

  verify_hello-Genuine :
      (token hello rest : Bytes) (now : ℕ) (nonce : Bytes)
      → length hello ≡ client_hello_len
      → verify_hello hmac token hello now ≡ ok nonce
      → Genuine token (hello ++ rest) now nonce
  verify_hello-Genuine token hello rest now nonce l h =
      let (timely, tag, same) = verify_hello-eq_ok token hello now nonce h in
      rw same (record {
        ts = hello_ts hello;
        rest = rest;
        shape = rw (← tag) (ap (λ xs. xs ++ rest) (hello_fields hello) ∙ simp append_assoc);
        ts_length = omega (arith, length-take ts_len hello);
        nonce_length =
            omega (arith, length-take nonce_len (drop ts_len hello), length-drop ts_len hello);
        tag_length = rw (← tag) (omega (arith, length-drop (ts_len + nonce_len) hello));
        timely = timely;
      })

  check_hello-Genuine :
      (token input : Bytes) (now : ℕ) (nonce : Bytes)
      → check_hello hmac token input now ≡ ok nonce
      → Genuine token input now nonce
  unfolding check_hello
  check_hello-Genuine token input now nonce h =
      elim (Result-cases (read_full client_hello_len input)) [
        | inl ((hello, rest), e) ↦
            let (shape, size) = read_full-eq_ok client_hello_len input hello rest e in
            rw shape
              (verify_hello-Genuine token hello rest now nonce size (rw (e, read_hello_bytes) at h))
        | inr (x, e) ↦ absurd (ground arith)
      ]

  -- The two guards on a hello that is put together from its fields.
  pub verify_hello-parts :
      (token ts nonce tag : Bytes) (now : ℕ)
      → length ts ≡ ts_len
      → length nonce ≡ nonce_len
      → verify_hello hmac token (ts ++ (nonce ++ tag)) now ≡ (do
        guard (in_window (uint64 ts) (unix now)) outside_window
        guard (bytes_eq tag (mac hmac token (label_client ∷ ts ∷ nonce ∷ []))) bad_token
        ok nonce)
  unfolding verify_hello
  verify_hello-parts token ts nonce tag now lt ln = rw (
    take_prefix ts_len ts (nonce ++ tag) lt,
    drop_prefix ts_len ts (nonce ++ tag) lt,
    take_prefix nonce_len nonce tag ln,
    ← drop-drop ts_len nonce_len (ts ++ (nonce ++ tag)),
    drop_prefix ts_len ts (nonce ++ tag) lt,
    drop_prefix nonce_len nonce tag ln,
  )

  -- The same of a hello that comes first in the input.
  pub check_hello-parts :
      (token ts nonce tag rest : Bytes) (now : ℕ)
      → length ts ≡ ts_len
      → length nonce ≡ nonce_len
      → length tag ≡ 32
      → check_hello hmac token ((ts ++ (nonce ++ tag)) ++ rest) now
        ≡ verify_hello hmac token (ts ++ (nonce ++ tag)) now
  unfolding check_hello
  check_hello-parts token ts nonce tag rest now lt ln lg =
      let size : length (ts ++ (nonce ++ tag)) ≡ client_hello_len =
        omega (arith, length-append ts (nonce ++ tag), length-append nonce tag, lt, ln, lg) in
      rw (read_full-append (ts ++ (nonce ++ tag)) rest client_hello_len size, read_hello_bytes)

  Genuine-check_hello :
      (token input : Bytes) (now : ℕ) (nonce : Bytes)
      → Genuine token input now nonce
      → check_hello hmac token input now ≡ ok nonce
  Genuine-check_hello token input now nonce g =
      let tag = mac hmac token (label_client ∷ g.ts ∷ nonce ∷ []) in
      let shape : input ≡ (g.ts ++ (nonce ++ tag)) ++ g.rest = g.shape ∙ simp append_assoc in
      rw (
        shape,
        check_hello-parts token g.ts nonce tag g.rest now g.ts_length g.nonce_length g.tag_length,
        verify_hello-parts token g.ts nonce tag now g.ts_length g.nonce_length,
        g.timely,
        bytes_eq_refl tag,
      )

  -- The checks that need no memory pass exactly on the genuine hellos, and give their nonce.
  pub check_hello_iff :
      (token input : Bytes) (now : ℕ) (nonce : Bytes)
      → (check_hello hmac token input now ≡ ok nonce) ↔ Genuine token input now nonce
  check_hello_iff token input now nonce =
      (check_hello-Genuine token input now nonce, Genuine-check_hello token input now nonce)
