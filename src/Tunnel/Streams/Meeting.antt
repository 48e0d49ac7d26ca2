-- ===== src/Tunnel/Streams/Meeting.antt =====
-- The two ends of a stream: what internal/tunnel/client.go and internal/tunnel/server.go write on a
-- stream when they open it, and what the other of them makes of it.
use cando.Base.{
  ℕ, ◌≡◌, refl, ap, ◌∙◌, Bool, Option, none, some, List, [], ◌∷◌, ◌++◌, if◌then◌else◌, Result, ok,
  err, arith,
}
use cando.Base.Bytes.{Bytes, bytes_eq}
use cando.Base.Dict.{Dict, lookup, insert, lookup-insert, bytes_instance}
use cando.Config.{ServerConfig, ClientTarget}
use cando.Protocol.{kind_reverse, kind_forward, kind_forward_udp, kind_reverse_udp}
use cando.Protocol.Header.{HeaderError, read_stream_header, write_stream_header}
use cando.Protocol.HeaderRoundTrip.{read-write_stream_header}
use cando.Tunnel.Dispatch.{
  Sent, piped, written, open_with, dispatch_reverse, open_reverse_udp, dispatch_forward,
  open_forward_udp,
}
use cando.Tunnel.Streams.{
  Network, tcp, udp, Served, refused, dial, service_map, serve_local, reverse_stream,
  handle_reverse_stream, forward_stream, handle_forward_stream,
}
use cando.Tunnel.Streams.Policy.{IsPermitted, denied_iff}

-- The target of the last entry with the name.
unfoldable pub last_target : Option Bytes → Bytes → List ClientTarget → Option Bytes
last_target seen name [] = seen
last_target seen name (svc ∷ rest) =
    last_target (if bytes_eq svc.name name then some svc.local_addr else seen) name rest

lookup-service_map_from :
    (sm : Dict Bytes Bytes) (name : Bytes) (services : List ClientTarget)
    → lookup name (service_map sm services) ≡ last_target (lookup name sm) name services
unfolding service_map last_target
lookup-service_map_from sm name [] = refl
lookup-service_map_from sm name (svc ∷ rest) =
    lookup-service_map_from (insert svc.name svc.local_addr sm) name rest
    ∙ ap (λ o. last_target o name rest) (lookup-insert svc.name name svc.local_addr sm)

written-ok :
    {Session : Type 0} (opens : Session → Bool) (writes : Bytes → Bool)
    (r : Result HeaderError Bytes) (header : Bytes)
    → written opens writes r ≡ piped header
    → r ≡ ok header
unfolding written
written-ok opens writes (ok b) header h = ground arith
written-ok opens writes (err e) header h = ground arith

-- A header that went out is the one that was to be written.
written-piped :
    {Session : Type 0} (opens : Session → Bool) (writes : Bytes → Bool) (kind : ℕ) (payload : Bytes)
    (sess : Option Session) (header : Bytes)
    → open_with opens writes kind payload sess ≡ piped header
    → write_stream_header kind payload ≡ ok header
unfolding open_with
written-piped opens writes kind payload none header h = ground arith
written-piped opens writes kind payload (some sess) header h =
    ground (arith, written-ok opens writes (write_stream_header kind payload) header)

-- The stream is joined to the target over the network, or closed if there is no target.
abbrev pub reach : (Network → Bytes → Bool) → Network → Bytes → Option Bytes → Served
reach up net rest none = refused
reach up net rest (some addr) = dial up net addr rest

serve_local-reach :
    (up : Network → Bytes → Bool) (o : Option Bytes) (rest : Bytes)
    → (serve_local up kind_reverse o rest ≡ reach up tcp rest o)
      × (serve_local up kind_reverse_udp o rest ≡ reach up udp rest o)
unfolding serve_local
serve_local-reach up none rest = (refl, refl)
serve_local-reach up (some addr) rest = (refl, refl)

module _ {Session : Type 0} (opens : Session → Bool) (writes : Bytes → Bool)
    (up : Network → Bytes → Bool) (sess : Option Session) (header rest : Bytes) where
  read_dispatched :
      (kind : ℕ) (payload : Bytes)
      → open_with opens writes kind payload sess ≡ piped header
      → read_stream_header (header ++ rest) ≡ ok ((kind, payload), rest)
  read_dispatched kind payload h =
      read-write_stream_header kind payload header rest
        (written-piped opens writes kind payload sess header h)

  -- The server's side for a user's connection and for a datagram's source.
  abbrev pub open_reverse : Network → Bytes → Sent
  open_reverse tcp name = dispatch_reverse opens writes name sess
  open_reverse udp name = open_reverse_udp opens writes name sess

  -- The client's side for a user's connection and for a datagram's source.
  abbrev pub open_forward : Network → Bytes → Sent
  open_forward tcp target = dispatch_forward opens writes target sess
  open_forward udp target = open_forward_udp opens writes target sess

  -- A stream that the server opened for the service `name`, by dispatchReverse or for a datagram's
  -- source, is joined by the client to the local target of its last entry for the service, dialled
  -- over TCP or UDP, with the bytes that follow the header; without an entry it is closed.
  pub handle_reverse_stream-dispatch :
      (net : Network) (services : List ClientTarget) (name : Bytes)
      → open_reverse net name ≡ piped header
      → handle_reverse_stream up (service_map [] services) (header ++ rest)
        ≡ reach up net rest (last_target none name services)
  unfolding dispatch_reverse open_reverse_udp handle_reverse_stream reverse_stream lookup
  handle_reverse_stream-dispatch tcp services name h =
      ap (reverse_stream up (service_map [] services)) (read_dispatched kind_reverse name h)
      ∙ (serve_local-reach up (lookup name (service_map [] services)) rest).0
      ∙ ap (reach up tcp rest) (lookup-service_map_from [] name services)
  handle_reverse_stream-dispatch udp services name h =
      ap (reverse_stream up (service_map [] services)) (read_dispatched kind_reverse_udp name h)
      ∙ (serve_local-reach up (lookup name (service_map [] services)) rest).1
      ∙ ap (reach up udp rest) (lookup-service_map_from [] name services)

  -- A stream that the client opened for a target that the server's configuration permits, by
  -- dispatchForward or for a datagram's source, has the target dialled over TCP or UDP and joined
  -- with the bytes that follow the header.
  pub handle_forward_stream-dispatch :
      (net : Network) (cfg : ServerConfig) (target : Bytes)
      → IsPermitted cfg target
      → open_forward net target ≡ piped header
      → handle_forward_stream up cfg (header ++ rest) ≡ dial up net target rest
  unfolding dispatch_forward open_forward_udp handle_forward_stream forward_stream
  handle_forward_stream-dispatch tcp cfg target p h =
      let allow = p.allowed in
      let ok_ = (denied_iff cfg.forward_whitelist target).1 p.listed in
      ap (forward_stream up cfg) (read_dispatched kind_forward target h) ∙ rw (allow, ok_) refl
  handle_forward_stream-dispatch udp cfg target p h =
      let allow = p.allowed in
      let ok_ = (denied_iff cfg.forward_whitelist target).1 p.listed in
      ap (forward_stream up cfg) (read_dispatched kind_forward_udp target h) ∙ rw (allow, ok_) refl
