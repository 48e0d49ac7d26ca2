-- ===== src/Tunnel/Streams.antt =====
-- internal/tunnel/client.go and internal/tunnel/server.go: what becomes of an accepted stream, and of
-- a connection that is sent through the tunnel. The input of a stream is the bytes that arrive on it;
-- a dial is a parameter, and so are opening a stream and writing to it.
pub mod Policy
pub mod Meeting
use cando.Base.{
  ℕ, Bool, true, false, not, ◌&&◌, ◌||◌, Option, some, none, List, [], ◌∷◌, ◌++◌, ◌==◌,
  if◌then◌else◌, Result, ok, err,
}
use cando.Base.Bytes.{Bytes}
use cando.Base.Dict.{Dict, lookup, insert, bytes_instance}
use cando.Config.{ClientTarget, ServerConfig}
use cando.Config.Validate.{contains}
use cando.Protocol.{kind_reverse, kind_forward, kind_forward_udp, kind_reverse_udp}
use cando.Protocol.Header.{HeaderError, read_stream_header, write_stream_header}
use cando.Tunnel.Targets.{blocked_forward_target}

-- The network that is dialled.
pub data Network : Type 0 where
  tcp udp : Network

-- What a handler does with its stream: it closes it and dials nothing; it dials and closes it, as
-- the dial fails; it dials and joins the stream to what it reached, for the bytes that follow the
-- header.
pub data Served : Type 0 where
  refused : Served
  unreachable : Network → Bytes → Served
  joined : Network → Bytes → Bytes → Served

-- NewClient: the service names with their targets, where a later one replaces an earlier one.
unfoldable pub service_map : Dict Bytes Bytes → List ClientTarget → Dict Bytes Bytes
service_map sm [] = sm
service_map sm (svc ∷ rest) = service_map (insert svc.name svc.local_addr sm) rest

-- The tests of the whitelist, which is a map in NewServer, and of the address.
unfoldable pub denied : List Bytes → Bytes → Bool
denied [] target = blocked_forward_target target
denied (t ∷ ts) target = not (contains (t ∷ ts) target)

-- The network and the address that are dialled.
unfoldable pub dialled : Served → Option (Network × Bytes)
dialled refused = none
dialled (unreachable net addr) = some (net, addr)
dialled (joined net addr rest) = some (net, addr)

-- The dials of the handlers: `up` tells whether a dial succeeds.
module _ (up : Network → Bytes → Bool) where
  unfoldable pub dial : Network → Bytes → Bytes → Served
  dial net addr rest = if up net addr then joined net addr rest else unreachable net addr

  unfoldable pub serve_local : ℕ → Option Bytes → Bytes → Served
  unfolding dial
  serve_local kind none rest = refused
  serve_local kind (some addr) rest =
      if kind == kind_reverse_udp then dial udp addr rest else dial tcp addr rest

  -- handleReverseStream, after the header.
  unfoldable pub reverse_stream :
      Dict Bytes Bytes → Result HeaderError ((ℕ × Bytes) × Bytes) → Served
  unfolding serve_local
  reverse_stream services (err e) = refused
  reverse_stream services (ok ((kind, name), rest)) =
      if not (kind == kind_reverse) && not (kind == kind_reverse_udp)
      then refused
      else serve_local kind (lookup name services) rest

  -- handleReverseStream
  unfoldable pub handle_reverse_stream : Dict Bytes Bytes → Bytes → Served
  unfolding reverse_stream
  handle_reverse_stream services input = reverse_stream services (read_stream_header input)

  -- handleForwardStream, after the header.
  unfoldable pub forward_stream : ServerConfig → Result HeaderError ((ℕ × Bytes) × Bytes) → Served
  unfolding dial denied
  forward_stream cfg (err e) = refused
  forward_stream cfg (ok ((kind, target), rest)) =
      if not (kind == kind_forward) && not (kind == kind_forward_udp)
      then refused
      else if not cfg.allow_forward
      then refused
      else if denied cfg.forward_whitelist target
      then refused
      else if kind == kind_forward_udp
      then dial udp target rest
      else dial tcp target rest

  -- handleForwardStream
  unfoldable pub handle_forward_stream : ServerConfig → Bytes → Served
  unfolding forward_stream
  handle_forward_stream cfg input = forward_stream cfg (read_stream_header input)
