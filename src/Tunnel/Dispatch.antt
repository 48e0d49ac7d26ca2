-- ===== src/Tunnel/Dispatch.antt =====
-- internal/tunnel/client.go and internal/tunnel/server.go: waitSession, and the side that opens a
-- stream and writes its header. The clock, the set's answers over time, the opening of a stream and
-- the write are parameters.
pub mod Waiting
use cando.Base.{
  ℕ, zero, suc, ◌+◌, Bool, false, Option, some, none, ltb, leb, if◌then◌else◌, Result, ok, err,
}
use cando.Base.Bytes.{Bytes}
use cando.Protocol.{kind_reverse, kind_forward, kind_forward_udp, kind_reverse_udp}
use cando.Protocol.Header.{HeaderError, write_stream_header}

-- The nanoseconds between two polls.
abbrev pub poll_interval : ℕ
poll_interval = 100_000_000

-- What waitSession ends with.
pub data Waited (Session : Type 0) : Type 0 where
  found : ℕ → Session → Waited Session
  timed_out shut_down : ℕ → Waited Session
  out_of_polls : Waited Session

-- Whether `done` is closed at a time or before it, if it is closed at some time.
unfoldable pub closed_by : Option ℕ → ℕ → Bool
closed_by none t = false
closed_by (some c) t = leb c t

-- When the select is woken by `done` that begins at `now`.
unfoldable pub woken_at : Option ℕ → ℕ → ℕ
woken_at none now = now
woken_at (some c) now = if leb c now then now else c

-- One round, with what Pick gives, whether the time is after the deadline, whether `done` wakes the
-- select before its timer, and when, and what the next rounds end with.
unfoldable pub poll :
    {Session : Type 0} → Option Session → ℕ → Bool → Bool → ℕ → Waited Session → Waited Session
poll (some sess) now over ended woken again = found now sess
poll none now over ended woken again =
    if over then timed_out now else if ended then shut_down woken else again

-- waitSession with what Pick gives at a time, and when `done` is closed, if ever. The select waits for
-- `done` or its timer, whichever is first; a poll comes `late` nanoseconds after its timer is due.
module _ {Session : Type 0} (picks : ℕ → Option Session) (closed : Option ℕ) (late : ℕ → ℕ) where
  unfoldable pub wait_until : ℕ → ℕ → ℕ → Waited Session
  unfolding poll closed_by woken_at
  wait_until zero deadline now = out_of_polls
  wait_until (suc polls) deadline now =
      poll (picks now) now (ltb deadline now) (closed_by closed (now + poll_interval))
        (woken_at closed now) (wait_until polls deadline (now + poll_interval + late now))

  unfoldable pub wait_session : ℕ → ℕ → ℕ → Waited Session
  unfolding wait_until
  wait_session polls timeout now = wait_until polls (now + timeout) now

-- What becomes of a user's connection: it is closed, before a stream is opened or with one; or it
-- is joined to a stream on which the header has been written.
pub data Sent : Type 0 where
  no_tunnel no_stream : Sent
  header_failed : Sent
  piped : Bytes → Sent

module _ {Session : Type 0} (opens : Session → Bool) (writes : Bytes → Bool) where
  unfoldable pub written : Result HeaderError Bytes → Sent
  written (err e) = header_failed
  written (ok header) = if writes header then piped header else header_failed

  -- What the four dispatchers share.
  unfoldable pub open_with : ℕ → Bytes → Option Session → Sent
  unfolding written
  open_with kind payload none = no_tunnel
  open_with kind payload (some sess) =
      if opens sess then written (write_stream_header kind payload) else no_stream

  -- dispatchReverse, with the service's name
  unfoldable pub dispatch_reverse : Bytes → Option Session → Sent
  unfolding open_with
  dispatch_reverse name sess = open_with kind_reverse name sess

  -- the `open` of serveReverseUDP
  unfoldable pub open_reverse_udp : Bytes → Option Session → Sent
  unfolding open_with
  open_reverse_udp name sess = open_with kind_reverse_udp name sess

  -- dispatchForward, with the target
  unfoldable pub dispatch_forward : Bytes → Option Session → Sent
  unfolding open_with
  dispatch_forward target sess = open_with kind_forward target sess

  -- the `open` of serveForwardUDP
  unfoldable pub open_forward_udp : Bytes → Option Session → Sent
  unfolding open_with
  open_forward_udp target sess = open_with kind_forward_udp target sess
