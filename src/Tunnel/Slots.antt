-- ===== src/Tunnel/Slots.antt =====
-- internal/tunnel/server.go: the handshake slots, from Run over handleConn to the end of a session.
-- A connection is a number; its goroutine holds a slot until it has released it.
pub mod Balance
use cando.Base.{
  ℕ, suc, ◌+◌, ◌-◌, ◌≡◌, Bool, true, false, Option, some, none, List, [], ◌∷◌, ltb, ◌==◌,
  if◌then◌else◌,
}
use cando.Mux.{SessionSet, new_session_set, add, drop_session, close_all}

abbrev pub max_inflight_handshakes : ℕ
max_inflight_handshakes = 1024

-- The goroutines of handleConn: each with its connection and `slotReleased`.
abbrev pub Conns : Type 0
Conns = List (ℕ × Bool)

-- `hsSem` has `taken` slots in use; `dropped` are the connections that were closed.
pub record Hub (Session : Type 0) : Type 0 where
  pub taken : ℕ
  pub conns : Conns
  pub sessions : SessionSet Session
  pub dropped : List ℕ
  pub done : Bool

-- `slotReleased` of a connection.
unfoldable pub released : ℕ → Conns → Option Bool
released c [] = none
released c ((d, r) ∷ m) = if d == c then some r else released c m

unfoldable pub set_released : ℕ → Conns → Conns
set_released c [] = []
set_released c ((d, r) ∷ m) = if d == c then (d, true) ∷ m else (d, r) ∷ set_released c m

-- The goroutine returns.
unfoldable pub leave : ℕ → Conns → Conns
leave c [] = []
leave c ((d, r) ∷ m) = if d == c then m else (d, r) ∷ leave c m

module _ {Session : Type 0} where
  unfoldable pub new_hub : Hub Session
  new_hub = record { taken = 0; conns = []; sessions = new_session_set; dropped = []; done = false }

  -- An accepted connection, once there is a slot for it: until then Run waits.
  unfoldable pub accept_conn : Hub Session → ℕ → Hub Session
  accept_conn h c =
      if ltb h.taken max_inflight_handshakes
      then record h { taken = h.taken + 1; conns = (c, false) ∷ h.conns }
      else h

  -- The other case of Run's select: the connection is closed, and Run returns.
  unfoldable pub refuse_conn : Hub Session → ℕ → Hub Session
  refuse_conn h c = if h.done then record h { dropped = c ∷ h.dropped } else h

  -- Close, without the listeners that it closes as well; it does its work once.
  unfoldable pub close_server : Hub Session → Hub Session
  close_server h =
      if h.done then h else record h { done = true; sessions = (close_all h.sessions).0 }

  -- releaseSlot, by what `slotReleased` is.
  unfoldable pub release_as : Hub Session → ℕ → Option Bool → Hub Session
  release_as h c none = h
  release_as h c (some true) = h
  release_as h c (some false) = record h { taken = h.taken - 1; conns = set_released c h.conns }

  -- releaseSlot
  unfoldable pub release_slot : Hub Session → ℕ → Hub Session
  unfolding release_as
  release_slot h c = release_as h c (released c h.conns)

  -- The goroutine's end, with the deferred release.
  unfoldable pub finish : Hub Session → ℕ → Hub Session
  unfolding release_slot leave
  finish h c =
      let h' = release_slot h c in record h' { conns = leave c h'.conns; dropped = c ∷ h'.dropped }

  -- The handshake or the multiplexer failed.
  unfoldable pub turn_away : Hub Session → ℕ → Hub Session
  unfolding finish
  turn_away h c = finish h c

  -- The session is up: its slot is free again, and the set has it under a handle.
  unfoldable pub establish : Hub Session → ℕ → Session → Hub Session × ℕ
  unfolding release_slot
  establish h c s =
      let h' = release_slot h c in
      let (sessions, id) = add h'.sessions s in (record h' { sessions = sessions }, id)

  -- AcceptStream failed: the set drops the session, and the goroutine ends.
  unfoldable pub disconnect : Hub Session → ℕ → ℕ → Hub Session
  unfolding finish
  disconnect h c id = finish (record h { sessions = drop_session h.sessions id }) c

-- What happens to the server's connections.
pub data Step {Session : Type 0} (h : Hub Session) : Hub Session → Type 0 where
  accepts : (c : ℕ) → Step h (accept_conn h c)
  refuses : (c : ℕ) → Step h (refuse_conn h c)
  closes : Step h (close_server h)
  turns_away : (c : ℕ) → Step h (turn_away h c)
  establishes : (c : ℕ) (s : Session) → Step h (establish h c s).0
  disconnects : (c id : ℕ) → Step h (disconnect h c id)

pub data Reach {Session : Type 0} (h : Hub Session) : Hub Session → Type 0 where
  here : Reach h h
  next : {g k : Hub Session} → Reach h g → Step g k → Reach h k
