-- ===== src/Tunnel/Datagram/Ends.antt =====
-- The loop of bridgeUDP (internal/tunnel/udp.go) from the stream to the socket ends on every input.
use cando.Base.{
  ℕ, zero, suc, ◌+◌, ◌≤◌, ◌<◌, ◌≡◌, ◌≢◌, refl, length, length-append, Result, ok, err, Result-cases,
  inl, inr, arith,
}
use cando.Base.Bytes.{Bytes, read_full-eq_ok, uint16}
use cando.Tunnel.Datagram.{
  max_datagram, DatagramError, read_part, read_body, read_after, read_datagram, out_of_fuel,
  to_socket,
}

read_part_shrinks :
    (n : ℕ) (input xs rest : Bytes)
    → read_part n input ≡ ok (xs, rest)
    → (length rest + n ≡ length input) × (length xs ≡ n)
unfolding read_part
read_part_shrinks n input xs rest h =
    ground (arith, read_full-eq_ok n input xs rest, length-append xs rest)

read_body_shrinks :
    (size n : ℕ) (input xs rest : Bytes)
    → read_body size n input ≡ ok (xs, rest)
    → (length rest ≤ length input) × (length xs ≤ size)
unfolding read_body
read_body_shrinks size n input xs rest h = ground (arith, read_part_shrinks n input xs rest)

read_after_shrinks :
    (size : ℕ) (input : Bytes) (r : Result DatagramError (Bytes × Bytes)) (xs rest : Bytes)
    → read_part 2 input ≡ r
    → read_after size r ≡ ok (xs, rest)
    → (length rest + 2 ≤ length input) × (length xs ≤ size)
unfolding read_after
read_after_shrinks size input (err e) xs rest p h = cc
read_after_shrinks size input (ok (hdr, mid)) xs rest p h =
    let (taken, _) = read_part_shrinks 2 input hdr mid p in
    let (le, fit) = read_body_shrinks size (uint16 hdr) mid xs rest h in (omega arith, fit)

-- Every datagram that is read takes two bytes of the stream at least, and fits the buffer.
pub read_datagram_shrinks :
    (size : ℕ) (input xs rest : Bytes)
    → read_datagram size input ≡ ok (xs, rest)
    → (length rest + 2 ≤ length input) × (length xs ≤ size)
unfolding read_datagram
read_datagram_shrinks size input xs rest h =
    read_after_shrinks size input (read_part 2 input) xs rest refl h

-- The loop ends by itself on every input: fuel above the length of the input is enough.
pub to_socket-ne-out_of_fuel :
    (f good : ℕ) (input : Bytes) → length input < f → (to_socket f good input).1 ≢ out_of_fuel
unfolding to_socket
to_socket-ne-out_of_fuel zero good input h = absurd (omega arith)
to_socket-ne-out_of_fuel (suc f) zero input h =
    elim (Result-cases (read_datagram max_datagram input)) [
      | inr (e, p) ↦ rw (p, to_socket) (λ q. cc)
      | inl ((d, rest), p) ↦ rw (p, to_socket) (λ q. cc)
    ]
to_socket-ne-out_of_fuel (suc f) (suc g) input h =
    elim (Result-cases (read_datagram max_datagram input)) [
      | inr (e, p) ↦ rw (p, to_socket) (λ q. cc)
      | inl ((d, rest), p) ↦
          rw (p, to_socket)
            (to_socket-ne-out_of_fuel f g rest
              (omega (arith, read_datagram_shrinks max_datagram input d rest p)))
    ]
