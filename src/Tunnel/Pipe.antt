-- ===== src/Tunnel/Pipe.antt =====
-- internal/tunnel/pipe.go: pipe and copyOneWay, and the teardown of bridgeUDP in
-- internal/tunnel/udp.go, as steps of their goroutines. What arrives from an end is given; a copy may
-- stop at any time, as its source ends or one of the connections fails, and a copy on closed connections
-- stops at its next read or write.
pub mod Teardown
pub mod Turns
pub mod Ended
use cando.Base.{
  ℕ, Bool, true, false, not, ◌&&◌, ◌||◌, List, [], ◌∷◌, ◌++◌, if◌then◌else◌, take, drop,
}
use cando.Base.Bytes.{Bytes}

-- One direction: what still comes from its source, what its destination has, and whether the copy has
-- stopped.
pub record Way : Type 0 where
  pub pending : Bytes
  pub delivered : Bytes
  pub stopped : Bool

pub record Joint : Type 0 where
  pub to_a : Way
  pub to_b : Way
  pub closed : Bool
  pub returned : Bool

unfoldable pub new_way : Bytes → Way
new_way arriving = record { pending = arriving; delivered = []; stopped = false }

-- With what comes from `b` and from `a`.
unfoldable pub new_joint : Bytes → Bytes → Joint
new_joint from_b from_a = record {
  to_a = new_way from_b;
  to_b = new_way from_a;
  closed = false;
  returned = false;
}

unfoldable pub stop_copy : Way → Way
stop_copy w = record w { stopped = true }

-- copyOneWay: one read of io.CopyBuffer with the write of what it gave. On connections that are closed
-- it fails, so that the copy ends.
unfoldable pub copy_one_way : Bool → ℕ → Way → Way
unfolding stop_copy
copy_one_way closed n w =
    let copied = record w {
      pending = drop n w.pending;
      delivered = w.delivered ++ take n w.pending;
    } in
    if w.stopped then w else if closed then stop_copy w else copied

pub data Event : Type 0 where
  copies_to_a copies_to_b : ℕ → Event
  stops_to_a stops_to_b closes returns : Event

-- When the connections may be closed, by which of the copies have stopped: pipe waits for either of
-- them, and bridgeUDP for the one from the stream to the socket.
unfoldable pub either_stopped : Bool → Bool → Bool
either_stopped to_a to_b = to_a || to_b

unfoldable pub socket_stopped : Bool → Bool → Bool
socket_stopped to_stream to_socket = to_socket

module _ (may_close : Bool → Bool → Bool) where
  unfoldable pub close_both : Joint → Joint
  close_both j = if may_close j.to_a.stopped j.to_b.stopped then record j { closed = true } else j

  unfoldable pub return_ : Joint → Joint
  return_ j =
      if j.closed && (j.to_a.stopped && j.to_b.stopped) then record j { returned = true } else j

  unfoldable pub joint_step : Joint → Event → Joint
  joint_step j (copies_to_a n) = record j { to_a = copy_one_way j.closed n j.to_a }
  joint_step j (copies_to_b n) = record j { to_b = copy_one_way j.closed n j.to_b }
  joint_step j stops_to_a = record j { to_a = stop_copy j.to_a }
  joint_step j stops_to_b = record j { to_b = stop_copy j.to_b }
  joint_step j closes = close_both j
  joint_step j returns = return_ j

  unfoldable pub run : Joint → List Event → Joint
  run j [] = j
  run j (e ∷ es) = run (joint_step j e) es

-- pipe, and the teardown of bridgeUDP.
unfoldable pub pipe : Joint → List Event → Joint
pipe j es = run either_stopped j es

unfoldable pub bridge_udp : Joint → List Event → Joint
bridge_udp j es = run socket_stopped j es
