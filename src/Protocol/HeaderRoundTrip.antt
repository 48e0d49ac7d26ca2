-- ===== src/Protocol/HeaderRoundTrip.antt =====
-- The stream header of internal/protocol/protocol.go, written and read back.
use cando.Base.{ℕ, ◌+◌, ◌*◌, ◌/◌, ◌%◌, ◌≤◌, ◌≡◌, refl, sym, ◌∙◌, [], ◌∷◌, ◌++◌, arith, length, ok}
use cando.Base.Bytes.{Bytes, AreBytes, put_uint16, read_full-append, read_full-eq_ok}
use cando.Protocol.{max_header_len}
use cando.Protocol.Header.{write_stream_header, read_payload, read_stream_header, read_or_fail}

read_or_fail-append :
    (xs rest : Bytes) (n : ℕ) → length xs ≡ n → read_or_fail n (xs ++ rest) ≡ ok (xs, rest)
unfolding read_or_fail
read_or_fail-append xs rest n e = rw (read_full-append xs rest n e, read_or_fail)

read_or_fail-eq_ok :
    (n : ℕ) (input xs rest : Bytes)
    → read_or_fail n input ≡ ok (xs, rest)
    → (input ≡ xs ++ rest) × (length xs ≡ n)
unfolding read_or_fail
read_or_fail-eq_ok n input xs rest h = ground (arith, read_full-eq_ok n input xs rest)

read_payload-append :
    (kind : ℕ) (payload rest : Bytes)
    → length payload ≤ max_header_len
    → read_payload kind (length payload) (payload ++ rest) ≡ ok ((kind, payload), rest)
unfolding read_payload
read_payload-append kind payload rest h =
    ground (arith, read_or_fail-append payload rest (length payload) refl)

read_payload-eq_ok :
    (kind n : ℕ) (input : Bytes) (kind' : ℕ) (payload rest : Bytes)
    → read_payload kind n input ≡ ok ((kind', payload), rest)
    → (kind' ≡ kind) × (n ≤ max_header_len) × (length payload ≡ n) × (input ≡ payload ++ rest)
unfolding read_payload
read_payload-eq_ok kind n input kind' payload rest h =
    ground (arith, read_or_fail-eq_ok n input payload rest)

read_header_bytes :
    (a b c : ℕ) (t : Bytes) → read_stream_header (a ∷ b ∷ c ∷ t) ≡ read_payload a (b * 256 + c) t
unfolding read_stream_header
read_header_bytes a b c t = rw (read_or_fail-append (a ∷ b ∷ c ∷ []) t 3 refl, read_stream_header)

-- A header that is written is read back, with its kind and payload, and what follows it is left.
pub read-write_stream_header :
    (kind : ℕ) (payload buf rest : Bytes)
    → write_stream_header kind payload ≡ ok buf
    → read_stream_header (buf ++ rest) ≡ ok ((kind, payload), rest)
unfolding write_stream_header put_uint16
read-write_stream_header kind payload buf rest h = ground (
  arith,
  read_payload-append kind payload rest,
  read_header_bytes kind (length payload / 256 % 256) (length payload % 256) (payload ++ rest),
)

-- What is read back is what was written.
pub write-read_stream_header :
    (input : Bytes) (kind : ℕ) (payload rest : Bytes)
    → AreBytes input
    → read_stream_header input ≡ ok ((kind, payload), rest)
    → (buf : Bytes) × (write_stream_header kind payload ≡ ok buf) × (input ≡ buf ++ rest)
unfolding read_stream_header write_stream_header
write-read_stream_header [] kind payload rest bs h = cc
write-read_stream_header (a ∷ []) kind payload rest bs h = cc
write-read_stream_header (a ∷ b ∷ []) kind payload rest bs h = cc
write-read_stream_header (a ∷ b ∷ c ∷ t) kind payload rest bs h =
    let p =
      read_payload-eq_ok a (b * 256 + c) t kind payload rest
        (sym (read_header_bytes a b c t) ∙ h) in
    (kind ∷ (put_uint16 (length payload) ++ payload), ground (arith, p), ground (arith, p))
