-- ===== src/Transport/Obfuscation.antt =====
-- internal/transport/obfs.go: the obfuscated carrier. The key derivation (SHA-256) and the keystream
-- of XChaCha20 are parameters; the nonce that rand.Read gives is an argument.
pub mod Channel
use cando.Base.{
  ℕ, zero, suc, ◌+◌, ◌*◌, ◌/◌, ◌%◌, ◌^◌, Bool, true, false, Option, none, some, leb, List, [], ◌∷◌,
  ◌++◌, if◌then◌else◌, length, take, drop, Result, ok, err,
}
use cando.Base.Bytes.{Bytes, ReadError, read_full, text}

-- The exclusive or of `w` bits.
unfoldable pub xor : ℕ → ℕ → ℕ → ℕ
xor zero a b = 0
xor (suc w) a b = (a + b) % 2 + 2 * xor w (a / 2) (b / 2)

abbrev pub obfs_nonce_len : ℕ
obfs_nonce_len = 24

-- The size of a pooled buffer.
abbrev pub buffer_size : ℕ
buffer_size = 32 * 1024

-- The bytes that XChaCha20 has for a key and a nonce: its counter of blocks of 64 bytes has 32 bits.
abbrev pub keystream_len : ℕ
keystream_len = 2 ^ 32 * 64

-- A cipher: its key and nonce, and the bytes of its keystream that are used up.
pub record Cipher : Type 0 where
  pub key : Bytes
  pub nonce : Bytes
  pub used : ℕ

pub record ObfsConn : Type 0 where
  pub rc : Cipher
  pub wc : Cipher

-- `sum` is the digest.
module _ (sum : Bytes → Bytes) where
  -- deriveKey
  unfoldable pub derive_key : Bytes → Bytes → Bytes
  derive_key token label = sum (text "cando1-obfs" ++ (0 ∷ label) ++ (0 ∷ token))

  -- newObfsConn
  unfoldable pub new_obfs_conn : Bytes → Bytes → Bool → ObfsConn
  unfolding derive_key
  new_obfs_conn token nonce is_client =
      let c2s : Cipher = record { key = derive_key token (text "c2s"); nonce = nonce; used = 0 } in
      let s2c : Cipher = record { key = derive_key token (text "s2c"); nonce = nonce; used = 0 } in
      if is_client then record { rc = s2c; wc = c2s } else record { rc = c2s; wc = s2c }

  -- obfsClient: what it writes, and the connection.
  unfoldable pub obfs_client : Bytes → Bytes → Bytes × ObfsConn
  unfolding new_obfs_conn
  obfs_client token nonce = (nonce, new_obfs_conn token nonce true)

  -- obfsServer, of what arrives: the connection and what follows the nonce. It writes nothing.
  unfoldable pub obfs_server : Bytes → Bytes → Result ReadError (ObfsConn × Bytes)
  unfolding new_obfs_conn
  obfs_server token input = elim (read_full obfs_nonce_len input) [
    | err e ↦ err e
    | ok (nonce, rest) ↦ ok (new_obfs_conn token nonce false, rest)
  ]

-- `stream key nonce n` is the byte of the keystream at `n`.
module _ (stream : Bytes → Bytes → ℕ → ℕ) where
  -- XORKeyStream from a position of the keystream on.
  unfoldable pub xor_from : Bytes → Bytes → ℕ → Bytes → Bytes
  xor_from key nonce n [] = []
  xor_from key nonce n (b ∷ bs) = xor 8 b (stream key nonce n) ∷ xor_from key nonce (suc n) bs

  -- XORKeyStream. It panics where the keystream does not reach.
  unfoldable pub xor_key_stream : Cipher → Bytes → Option (Bytes × Cipher)
  unfolding xor_from
  xor_key_stream c p =
      if leb (c.used + length p) keystream_len
      then some (xor_from c.key c.nonce c.used p, record c { used = c.used + length p })
      else none

  unfoldable pub read_with : ObfsConn → Option (Bytes × Cipher) → Option (Bytes × ObfsConn)
  read_with c none = none
  read_with c (some (p, rc)) = some (p, record c { rc = rc })

  -- Read, of the bytes that one Read of the carrier gave.
  unfoldable pub read : ObfsConn → Bytes → Option (Bytes × ObfsConn)
  unfolding xor_key_stream read_with
  read c raw = read_with c (xor_key_stream c.rc raw)

  unfoldable pub write_before :
      Bytes → Option (List Bytes × ObfsConn) → Option (List Bytes × ObfsConn)
  write_before enc none = none
  write_before enc (some (more, c)) = some (enc ∷ more, c)

  unfoldable pub write_with :
      ObfsConn
      → (ObfsConn → Option (List Bytes × ObfsConn))
      → Option (Bytes × Cipher)
      → Option (List Bytes × ObfsConn)
  unfolding write_before
  write_with c next none = none
  write_with c next (some (enc, wc)) = write_before enc (next (record c { wc = wc }))

  -- The loop of Write: the buffers that it hands to the carrier. It has fuel for its rounds.
  unfoldable pub write_loop : ℕ → ObfsConn → Bytes → Option (List Bytes × ObfsConn)
  unfolding xor_key_stream write_with
  write_loop zero c p = some ([], c)
  write_loop (suc f) c [] = some ([], c)
  write_loop (suc f) c (b ∷ bs) =
      write_with c (λ c'. write_loop f c' (drop buffer_size (b ∷ bs)))
        (xor_key_stream c.wc (take buffer_size (b ∷ bs)))

  -- Write, whose carrier takes every buffer; nothing where it panics.
  unfoldable pub write : ObfsConn → Bytes → Option (List Bytes × ObfsConn)
  unfolding write_loop
  write c p = write_loop (length p) c p

  unfoldable pub read_before : Bytes → Option (Bytes × ObfsConn) → Option (Bytes × ObfsConn)
  read_before p none = none
  read_before p (some (more, c)) = some (p ++ more, c)

  unfoldable pub read_rest :
      (ObfsConn → Option (Bytes × ObfsConn)) → Option (Bytes × ObfsConn) → Option (Bytes × ObfsConn)
  unfolding read_before
  read_rest next none = none
  read_rest next (some (p, c)) = read_before p (next c)

  -- Reads one after another, each with what the carrier gave.
  unfoldable pub read_all : ObfsConn → List Bytes → Option (Bytes × ObfsConn)
  unfolding read read_rest
  read_all c [] = some ([], c)
  read_all c (raw ∷ raws) = read_rest (λ c'. read_all c' raws) (read c raw)
