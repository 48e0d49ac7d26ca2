-- ===== src/Tunnel/Datagram/Relay.antt =====
-- The two loops of bridgeUDP (internal/tunnel/udp.go) against each other.
use mathlib.Core.List.{append_assoc, append-nil}
use cando.Base.{
  ℕ, zero, suc, ◌^◌, ◌≤◌, ◌<◌, ◌≡◌, refl, ap, ◌∙◌, List, [], ◌∷◌, ◌++◌, length, take-length, ok,
  All, arith, le→ltb,
}
use cando.Base.Bytes.{
  Bytes, eof, read_full, read_full-append, put_uint16, uint16, uint16-put_uint16,
}
use cando.Tunnel.Datagram.{
  max_datagram, cut, write_datagram, read_part, read_body, read_after, read_datagram, read_failed,
  to_socket, from_socket,
}

-- A payload that one datagram can carry.
abbrev pub Fits : Bytes → Type 0
Fits d = length d ≤ max_datagram

read_part-append :
    (xs rest : Bytes) (n : ℕ) → length xs ≡ n → read_part n (xs ++ rest) ≡ ok (xs, rest)
unfolding read_part
read_part-append xs rest n e = rw (read_full-append xs rest n e, read_part)

read_body-append :
    (d rest : Bytes) → Fits d → read_body max_datagram (length d) (d ++ rest) ≡ ok (d, rest)
unfolding read_body
read_body-append [] rest h = refl
read_body-append (b ∷ bs) rest h =
    ground (arith, read_part-append (b ∷ bs) rest (length (b ∷ bs)) refl)

abbrev frame : Bytes → Bytes
frame d = put_uint16 (length d) ++ d

length-put_uint16 : (n : ℕ) → length (put_uint16 n) ≡ 2
unfolding put_uint16
length-put_uint16 n = refl

uint16-whole : (n : ℕ) → n < 2 ^ 16 → uint16 (put_uint16 n) ≡ n
uint16-whole n h = rw (← append-nil (put_uint16 n)) (uint16-put_uint16 n [] h)

-- A datagram that is framed is read back whole, and what follows it on the stream is left.
pub read_datagram-frame :
    (d rest : Bytes) → Fits d → read_datagram max_datagram (frame d ++ rest) ≡ ok (d, rest)
unfolding read_datagram read_after
read_datagram-frame d rest h =
    rw (append_assoc, read_part-append (put_uint16 (length d)) (d ++ rest) 2 (length-put_uint16 _))
      (rw (uint16-whole (length d) (omega arith)) (read_body-append d rest h))

write_datagram-frame : (d : Bytes) → Fits d → write_datagram d ≡ ok (frame d)
unfolding write_datagram
write_datagram-frame d h = rw (le→ltb max_datagram (length d) h)

from_socket-cons :
    (d : Bytes) (ds : List Bytes)
    → Fits d
    → from_socket (d ∷ ds) ≡ (frame d ++ (from_socket ds).0, (from_socket ds).1)
unfolding from_socket
from_socket-cons d ds h = rw (take-length max_datagram d h, write_datagram-frame d h, from_socket)

to_socket-frame :
    (f good : ℕ) (d rest : Bytes)
    → Fits d
    → to_socket (suc f) (suc good) (frame d ++ rest)
      ≡ (d ∷ (to_socket f good rest).0, (to_socket f good rest).1)
unfolding to_socket
to_socket-frame f good d rest h = rw (read_datagram-frame d rest h, to_socket)

to_socket_end : (f good : ℕ) → to_socket (suc f) good [] ≡ ([], read_failed (cut eof))
unfolding to_socket read_datagram read_after read_part read_full
to_socket_end f good = refl

-- Datagrams that one end reads from its socket and frames come out of the other end's loop whole, in
-- order and one for one, until the stream ends, if no write fails before.
pub to_socket-from_socket :
    (ds : List Bytes) (fuel good : ℕ)
    → All Fits ds
    → length ds < fuel
    → length ds ≤ good
    → to_socket fuel good (from_socket ds).0 ≡ (ds, read_failed (cut eof))
to_socket-from_socket [] zero good h lt le = absurd (omega arith)
to_socket-from_socket [] (suc f) good h lt le = unfold from_socket in to_socket_end f good
to_socket-from_socket (d ∷ ds) zero good h lt le = absurd (omega arith)
to_socket-from_socket (d ∷ ds) (suc f) zero h lt le = absurd (omega arith)
to_socket-from_socket (d ∷ ds) (suc f) (suc good) h lt le =
    ap (λ r. to_socket (suc f) (suc good) r.0) (from_socket-cons d ds h.0)
    ∙ to_socket-frame f good d (from_socket ds).0 h.0
    ∙ ap (λ r. (d ∷ r.0, r.1)) (to_socket-from_socket ds f good h.1 (omega arith) (omega arith))
