-- ===== src/Protocol/Header.antt =====
-- internal/protocol/protocol.go: WriteStreamHeader and ReadStreamHeader. A writer is the buffer
-- that is handed to its one Write; a reader is the bytes that still arrive on the stream.
use cando.Base.{ℕ, [], ◌∷◌, ◌++◌, ltb, ◌==◌, if◌then◌else◌, length, drop, Result, ok, err, ◌>>=◌}
use cando.Base.Bytes.{Bytes, ReadError, read_full, put_uint16, uint16}
use cando.Protocol.{max_header_len}

pub data HeaderError : Type 0 where
  too_long : ℕ → HeaderError
  unread : ReadError → HeaderError

unfoldable pub write_stream_header : ℕ → Bytes → Result HeaderError Bytes
unfolding put_uint16
write_stream_header kind payload =
    if ltb max_header_len (length payload)
    then err (too_long (length payload))
    else ok (kind ∷ (put_uint16 (length payload) ++ payload))

-- `io.ReadFull` with its error passed on.
unfoldable pub read_or_fail : ℕ → Bytes → Result HeaderError (Bytes × Bytes)
unfolding read_full
read_or_fail n input = elim (read_full n input) [ ok r ↦ ok r | err e ↦ err (unread e) ]

-- The body, once the length `n` is known.
unfoldable pub read_payload : ℕ → ℕ → Bytes → Result HeaderError ((ℕ × Bytes) × Bytes)
unfolding read_or_fail
read_payload kind n input =
    if ltb max_header_len n
    then err (too_long n)
    else if n == 0
    then ok ((kind, []), input)
    else do (body, rest) ← read_or_fail n input; ok ((kind, body), rest)

-- `head[0]`; the slice is never empty here.
abbrev pub first_byte : Bytes → ℕ
first_byte [] = 0
first_byte (b ∷ bs) = b

-- The kind and the payload, and the bytes that follow the header.
unfoldable pub read_stream_header : Bytes → Result HeaderError ((ℕ × Bytes) × Bytes)
unfolding read_payload read_or_fail uint16
read_stream_header input = do
  (head, rest) ← read_or_fail 3 input
  read_payload (first_byte head) (uint16 (drop 1 head)) rest
