-- ===== src/Transport/Obfuscation/Channel.antt =====
-- What internal/transport/obfs.go delivers.
use native.Mathlib.Nat.{two-pow-succ, add-zero}
use cando.Base.{
  ℕ, zero, suc, ◌+◌, ◌*◌, ◌/◌, ◌%◌, ◌^◌, ◌<◌, ◌≤◌, ◌≡◌, refl, sym, ap, ◌∙◌, false, List, [], ◌∷◌,
  ◌++◌, Option, none, some, leb, if_true, length, take, drop, length-append, take-append-drop,
  length-take, ok, arith,
}
use cando.Base.Bytes.{Bytes, AreBytes, read_full-append}
use cando.Transport.Obfuscation.{
  xor, obfs_nonce_len, buffer_size, Cipher, ObfsConn, new_obfs_conn, obfs_client, obfs_server,
  xor_from, xor_key_stream, read, read_with, read_rest, read_before, write_loop, write_with,
  write_before, write, read_all, keystream_len,
}

-- The bytes of some buffers one after another.
unfoldable pub join : List Bytes → Bytes
join [] = []
join (b ∷ bs) = b ++ join bs

xor_twice : (w a k : ℕ) → a < 2 ^ w → xor w (xor w a k) k ≡ a
unfolding xor
xor_twice zero a k h = omega arith
xor_twice (suc w) a k h =
    let half : a / 2 < 2 ^ w = ground (arith, two-pow-succ w) in
    let tail : ((a + k) % 2 + 2 * xor w (a / 2) (k / 2)) / 2 ≡ xor w (a / 2) (k / 2) =
      omega arith in
    let ih = xor_twice w (a / 2) (k / 2) half in rw (tail, ih) (omega arith)

module _ (stream : Bytes → Bytes → ℕ → ℕ) where
  xor_from_twice :
      (key nonce : Bytes) (n : ℕ) (p : Bytes)
      → AreBytes p
      → xor_from stream key nonce n (xor_from stream key nonce n p) ≡ p
  unfolding xor_from
  xor_from_twice key nonce n [] h = refl
  xor_from_twice key nonce n (b ∷ bs) (hb, hs) =
      rw (xor_twice 8 b (stream key nonce n) hb, xor_from_twice key nonce (suc n) bs hs) refl

  xor_from-append :
      (key nonce : Bytes) (n : ℕ) (p q : Bytes)
      → xor_from stream key nonce n (p ++ q)
        ≡ xor_from stream key nonce n p ++ xor_from stream key nonce (n + length p) q
  unfolding xor_from
  xor_from-append key nonce n [] q = ap (λ m. xor_from stream key nonce m q) (sym (add-zero n))
  xor_from-append key nonce n (b ∷ bs) q =
      ap (λ r. xor 8 b (stream key nonce n) ∷ r)
        (xor_from-append key nonce (suc n) bs q
          ∙ ap (λ m. xor_from stream key nonce (suc n) bs ++ xor_from stream key nonce m q)
              (omega arith))

  -- What a cipher makes of some bytes, and where it stands then.
  abbrev pub ciphered : Cipher → Bytes → Bytes
  ciphered c p = xor_from stream c.key c.nonce c.used p

  abbrev pub advanced : Cipher → ℕ → Cipher
  advanced c n = record c { used = c.used + n }

  -- As long as the keystream reaches.
  xor_key_stream-some :
      (c : Cipher) (p : Bytes)
      → c.used + length p ≤ keystream_len
      → xor_key_stream stream c p ≡ some (ciphered c p, advanced c (length p))
  unfolding xor_key_stream
  xor_key_stream-some c p le = if_true (leb (c.used + length p) keystream_len) _ _ (ground arith)

  -- Nothing further is used up.
  stays_put : (c : Cipher) → c ≡ advanced c 0
  stays_put c = ap (λ n. record c { used = n }) (sym (add-zero c.used))

  write_loop-join :
      (fuel : ℕ) (c : ObfsConn) (p : Bytes)
      → length p ≤ fuel
      → c.wc.used + length p ≤ keystream_len
      → (sent : List Bytes) × (write_loop stream fuel c p
          ≡ some (sent, record c { wc = advanced c.wc (length p) }))
        × (join sent ≡ ciphered c.wc p)
  unfolding write_loop join write_with write_before xor_from
  write_loop-join zero c [] le fits =
      ([], ap (λ w. some ([], record c { wc = w })) (stays_put c.wc), refl)
  write_loop-join zero c (b ∷ bs) le fits = absurd (omega arith)
  write_loop-join (suc f) c [] le fits =
      ([], ap (λ w. some ([], record c { wc = w })) (stays_put c.wc), refl)
  write_loop-join (suc f) c (b ∷ bs) le fits =
      let chunk = take buffer_size (b ∷ bs) in
      let left = drop buffer_size (b ∷ bs) in
      let whole : chunk ++ left ≡ b ∷ bs = take-append-drop buffer_size (b ∷ bs) in
      let parts : length chunk + length left ≡ length (b ∷ bs) =
        sym (length-append chunk left) ∙ ap length whole in
      let some_ = length-take buffer_size (b ∷ bs) in
      let c' = record c { wc = advanced c.wc (length chunk) } in
      let (sent, rest, bytes) = write_loop-join f c' left (omega arith) (omega arith) in
      let next = λ (d : ObfsConn). write_loop stream f d left in
      (
        ciphered c.wc chunk ∷ sent,
        ap (write_with stream c next) (xor_key_stream-some c.wc chunk (omega arith))
            ∙ ap (write_before stream (ciphered c.wc chunk)) rest
            ∙ ap
                (λ n. some (ciphered c.wc chunk ∷ sent, record c { wc = record c.wc { used = n } }))
                (omega arith),
        ap (λ m. ciphered c.wc chunk ++ m) bytes
            ∙ sym (xor_from-append c.wc.key c.wc.nonce c.wc.used chunk left)
            ∙ ap (ciphered c.wc) whole,
      )

  read_all-join :
      (raws : List Bytes) (c : ObfsConn)
      → c.rc.used + length (join raws) ≤ keystream_len
      → read_all stream c raws
        ≡ some (ciphered c.rc (join raws), record c { rc = advanced c.rc (length (join raws)) })
  unfolding read_all read read_with read_rest read_before join xor_from
  read_all-join [] c fits = ap (λ w. some ([], record c { rc = w })) (stays_put c.rc)
  read_all-join (raw ∷ raws) c fits =
      let sizes = length-append raw (join raws) in
      let c' = record c { rc = advanced c.rc (length raw) } in
      let next = λ (d : ObfsConn). read_all stream d raws in
      ap (λ o. read_rest stream next (read_with stream c o))
        (xor_key_stream-some c.rc raw (omega arith))
      ∙ ap (read_before stream (ciphered c.rc raw)) (read_all-join raws c' (omega arith))
      ∙ ap
          (λ n. some (
            ciphered c.rc raw ++ ciphered c'.rc (join raws),
            record c { rc = record c.rc { used = n } },
          ))
          (omega arith)
      ∙ ap (λ m. some (m, record c { rc = advanced c.rc (length (raw ++ join raws)) }))
          (sym (xor_from-append c.rc.key c.rc.nonce c.rc.used raw (join raws)))

  length-xor_from :
      (key nonce : Bytes) (n : ℕ) (p : Bytes) → length (xor_from stream key nonce n p) ≡ length p
  unfolding xor_from
  length-xor_from key nonce n [] = refl
  length-xor_from key nonce n (b ∷ bs) = ap suc (length-xor_from key nonce (suc n) bs)

  -- The bytes that a Write has handed to the carrier.
  abbrev pub sent_by : Option (List Bytes × ObfsConn) → Bytes
  sent_by none = []
  sent_by (some (sent, c)) = join sent

  -- What one end writes, in however many buffers, the other end reads, however the carrier cuts it
  -- up, without a panic at either end, and the two ciphers are in step again: if they were, for bytes,
  -- and as long as the 2^38 bytes of the keystream last.
  pub read_all-write :
      (c d : ObfsConn) (p : Bytes) (raws : List Bytes)
      → AreBytes p
      → d.rc ≡ c.wc
      → c.wc.used + length p ≤ keystream_len
      → join raws ≡ sent_by (write stream c p)
      → (sent : List Bytes) × (c' : ObfsConn) × (d' : ObfsConn) × (write stream c p
          ≡ some (sent, c'))
        × (read_all stream d raws ≡ some (p, d'))
        × (d'.rc ≡ c'.wc)
  unfolding write
  read_all-write c d p raws h same fits cut =
      let (sent, wrote, bytes) = write_loop-join (length p) c p (omega arith) fits in
      let wire : join raws ≡ ciphered c.wc p = cut ∙ ap sent_by wrote ∙ bytes in
      let size : length (join raws) ≡ length p =
        ap length wire ∙ length-xor_from c.wc.key c.wc.nonce c.wc.used p in
      let room : d.rc.used + length (join raws) ≤ keystream_len =
        omega (arith, size, ap (λ k. k.used) same, fits) in
      let got : ciphered d.rc (join raws) ≡ p =
        ap (λ k. ciphered k (join raws)) same
        ∙ ap (ciphered c.wc) wire
        ∙ xor_from_twice c.wc.key c.wc.nonce c.wc.used p h in
      let d' = record d { rc = advanced d.rc (length (join raws)) } in
      (
        sent,
        record c { wc = advanced c.wc (length p) },
        d',
        wrote,
        read_all-join raws d room ∙ ap (λ m. some (m, d')) got,
        ap (λ k. advanced k (length (join raws))) same ∙ ap (advanced c.wc) size,
      )

  -- A call that the keystream does not reach for panics.
  xor_key_stream-panics :
      (c : Cipher) (p : Bytes)
      → keystream_len < c.used + length p
      → xor_key_stream stream c p ≡ none
  unfolding xor_key_stream
  xor_key_stream-panics c p lt = ground arith

-- The server's ciphers for a client's opening bytes are the client's, the other way round, and the
-- bytes after the nonce are left.
pub obfs_server-obfs_client :
    (sum : Bytes → Bytes) (token nonce rest : Bytes)
    → length nonce ≡ obfs_nonce_len
    → (server : ObfsConn) × (obfs_server sum token ((obfs_client sum token nonce).0 ++ rest)
        ≡ ok (server, rest))
      × (server.rc ≡ (obfs_client sum token nonce).1.wc)
      × (server.wc ≡ (obfs_client sum token nonce).1.rc)
unfolding obfs_server obfs_client new_obfs_conn
obfs_server-obfs_client sum token nonce rest e = (
  new_obfs_conn sum token nonce false,
  rw (read_full-append nonce rest obfs_nonce_len e, obfs_server) refl,
  refl,
  refl,
)
