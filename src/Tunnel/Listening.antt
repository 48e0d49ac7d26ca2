-- ===== src/Tunnel/Listening.antt =====
-- internal/tunnel/client.go: the local sockets of the client: serveForward and serveForwardUDP as far
-- as they listen, Run up to the pool, and Close. A socket is whether it is for datagrams, with its
-- address. Whether the system resolves it and lets a program listen, with those open, is a parameter.
pub mod Released
pub mod Rerun
use cando.Base.{
  ℕ, ◌≡◌, Bool, true, false, not, ◌&&◌, ◌||◌, Option, none, some, List, [], ◌∷◌, ◌++◌,
  if◌then◌else◌,
}
use cando.Base.Bytes.{Bytes, bytes_eq}
use cando.Config.{Forward, is_udp}

abbrev pub Socket : Type 0
Socket = Bool × Bytes

unfoldable pub same_kind : Bool → Bool → Bool
same_kind true b = b
same_kind false b = not b

unfoldable pub same_socket : Socket → Socket → Bool
same_socket a b = same_kind a.0 b.0 && bytes_eq a.1 b.1

unfoldable pub is_among : Socket → List Socket → Bool
is_among a [] = false
is_among a (b ∷ bs) = same_socket b a || is_among a bs

-- The open sockets that are not among these.
unfoldable pub closed_of : List Socket → List Socket → List Socket
closed_of those [] = []
closed_of those (a ∷ opened) =
    let rest = closed_of those opened in if is_among a those then rest else a ∷ rest

-- The open sockets of the program, and those that the client has in forwardLns and packetConns.
pub record Listening : Type 0 where
  pub opened : List Socket
  pub forward_lns : List Socket
  pub packet_conns : List Socket

-- A client that NewClient made.
unfoldable pub new_client : List Socket → Listening
new_client opened = record { opened = opened; forward_lns = []; packet_conns = [] }

unfoldable pub socket_of : Forward → Socket
socket_of f = (is_udp f.protocol, f.local_addr)

unfoldable pub track : Bool → Socket → Listening → Listening
track true a c = record c { packet_conns = c.packet_conns ++ (a ∷ []) }
track false a c = record c { forward_lns = c.forward_lns ++ (a ∷ []) }

unfoldable pub serve_rest :
    (Listening → Listening × Bool) → Listening → Option Listening → Listening × Bool
serve_rest rest c none = (c, false)
serve_rest rest c (some c') = rest c'

module _ (can_listen : List Socket → Socket → Bool) where
  -- serveForward, with serveForwardUDP: none is the error of the listener.
  unfoldable pub serve_forward : Forward → Listening → Option Listening
  serve_forward f c =
      if can_listen c.opened (socket_of f)
      then some
          (track (is_udp f.protocol) (socket_of f) (record c { opened = socket_of f ∷ c.opened }))
      else none

  -- The loop of Run; false is an error that Run returns at once.
  unfoldable pub serve_forwards : List Forward → Listening → Listening × Bool
  serve_forwards [] c = (c, true)
  serve_forwards (f ∷ fs) c = serve_rest (serve_forwards fs) c (serve_forward f c)

-- Close, of what the client listens on.
unfoldable pub close_forwards : Listening → Listening
close_forwards c = record c { opened = closed_of (c.forward_lns ++ c.packet_conns) c.opened }
