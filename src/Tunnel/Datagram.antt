-- ===== src/Tunnel/Datagram.antt =====
-- internal/tunnel/udp.go: the framing of datagrams on a stream, and the two loops of bridgeUDP. A
-- stream is the bytes that still arrive on it; a socket is the datagrams that arrive on it.
pub mod Relay
pub mod Ends
use cando.Base.{
  ℕ, zero, suc, ◌+◌, ◌^◌, Bool, true, false, List, [], ◌∷◌, ◌++◌, ltb, ◌==◌, if◌then◌else◌, length,
  take, Result, ok, err,
}
use cando.Base.Bytes.{Bytes, ReadError, read_full, put_uint16, uint16}

abbrev pub max_datagram : ℕ
max_datagram = 65535

pub data DatagramError : Type 0 where
  too_large exceeds_buffer : ℕ → DatagramError
  cut : ReadError → DatagramError

-- The buffer that writeDatagram hands to its one Write.
unfoldable pub write_datagram : Bytes → Result DatagramError Bytes
unfolding put_uint16
write_datagram payload =
    if ltb max_datagram (length payload)
    then err (too_large (length payload))
    else ok (put_uint16 (length payload) ++ payload)

unfoldable pub read_part : ℕ → Bytes → Result DatagramError (Bytes × Bytes)
read_part n input = elim (read_full n input) [ ok r ↦ ok r | err e ↦ err (cut e) ]

-- The payload, once its length `n` is known, into a buffer of `size` bytes.
unfoldable pub read_body : ℕ → ℕ → Bytes → Result DatagramError (Bytes × Bytes)
read_body size n input =
    if ltb size n
    then err (exceeds_buffer n)
    else if n == 0
    then ok ([], input)
    else read_part n input

unfoldable pub read_after :
    ℕ → Result DatagramError (Bytes × Bytes) → Result DatagramError (Bytes × Bytes)
read_after size (err e) = err e
read_after size (ok (hdr, rest)) = read_body size (uint16 hdr) rest

-- readDatagram: the payload and what is left on the stream.
unfoldable pub read_datagram : ℕ → Bytes → Result DatagramError (Bytes × Bytes)
unfolding read_after
read_datagram size input = read_after size (read_part 2 input)

-- What ended a loop.
pub data Stop : Type 0 where
  read_failed write_rejected : DatagramError → Stop
  write_failed socket_closed out_of_fuel : Stop

-- The loop from the stream to the socket: the datagrams that it wrote, in order, if the first `good`
-- writes succeed and the next one fails. It has fuel for its rounds.
unfoldable pub to_socket : ℕ → ℕ → Bytes → List Bytes × Stop
to_socket zero good input = ([], out_of_fuel)
to_socket (suc f) good input = elim (read_datagram max_datagram input) [
  | err e ↦ ([], read_failed e)
  | ok (payload, rest) ↦ elim good [
    | zero ↦ ([], write_failed)
    | suc g ↦ let (more, stop) = to_socket f g rest in (payload ∷ more, stop)
  ]
]

-- The loop from the socket to the stream: the bytes that it wrote. A read takes what fits its buffer.
unfoldable pub from_socket : List Bytes → Bytes × Stop
from_socket [] = ([], socket_closed)
from_socket (d ∷ ds) = elim (write_datagram (take max_datagram d)) [
  | err e ↦ ([], write_rejected e)
  | ok frame ↦ let (more, stop) = from_socket ds in (frame ++ more, stop)
]
