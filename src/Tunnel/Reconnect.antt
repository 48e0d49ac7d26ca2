-- ===== src/Tunnel/Reconnect.antt =====
-- internal/tunnel/client.go: maintainSession, sleep, grow and the client's Close, for one goroutine
-- of the pool. Its run is the list of what happens to it; a delay is an int64 of nanoseconds. What
-- cannot happen in a phase changes nothing.
pub mod Pace
pub mod Race
pub mod Pool
use cando.Base.{ℕ, zero, suc, ◌/◌, Bool, true, false, List, [], ◌∷◌, ◌++◌, if◌then◌else◌}
use cando.Base.Int.{ℤ, pos, negsuc, leb_ℤ, ltb_ℤ, times64}
use cando.Config.{ReconnectConfig}
use cando.Mux.{SessionSet, new_session_set, add, drop_session, close_all}

-- grow
unfoldable pub grow : ℤ → ℤ → ℤ
grow cur max = let next = times64 2 cur in if ltb_ℤ max next then max else next

abbrev pub millisecond : ℕ
millisecond = 1_000_000

abbrev pub five_seconds : ℕ
five_seconds = 5_000_000_000

unfoldable pub min_backoff : ReconnectConfig → ℤ
min_backoff r = times64 millisecond r.min_millis

unfoldable pub max_backoff : ReconnectConfig → ℤ
max_backoff r = times64 millisecond r.max_millis

-- The negative of a natural number.
unfoldable pub minus : ℕ → ℤ
minus zero = pos 0
minus (suc n) = negsuc n

-- `d / 10`, which rounds towards zero.
unfoldable pub tenth : ℤ → ℤ
unfolding minus
tenth (pos n) = pos (n / 10)
tenth (negsuc n) = minus (suc n / 10)

-- minStable
unfoldable pub min_stable : ReconnectConfig → ℤ
min_stable r =
    let least = tenth (times64 3 (max_backoff r)) in
    if ltb_ℤ least (pos five_seconds) then pos five_seconds else least

-- Where the goroutine is: before or in a dial or a handshake; in acceptReverse with the session
-- and its handle; in sleep; returned.
pub data Phase (Session : Type 0) : Type 0 where
  dialing : Phase Session
  serving : ℕ → Session → Phase Session
  sleeping : Phase Session
  stopped : Phase Session

-- The goroutine's variables, the client's session set and `done`, and the sessions closed so far.
pub record World (Session : Type 0) : Type 0 where
  pub backoff : ℤ
  pub phase : Phase Session
  pub sessions : SessionSet Session
  pub done : Bool
  pub closed : List Session

-- A dial, a handshake or the multiplexer failed; a session came up; the session ended after so many
-- nanoseconds; sleep returned; Close was called.
pub data Event (Session : Type 0) : Type 0 where
  failed : Event Session
  established : Session → Event Session
  lost : ℕ → Event Session
  woke : Event Session
  closes : Event Session

module _ {Session : Type 0} (r : ReconnectConfig) where
  unfoldable pub start : World Session
  start = record {
    backoff = min_backoff r;
    phase = dialing;
    sessions = new_session_set;
    done = false;
    closed = [];
  }

  -- The test of `done` with which a round begins.
  unfoldable pub next_round : World Session → World Session
  next_round w = record w { phase = if w.done then stopped else dialing }

  -- After acceptReverse.
  unfoldable pub after_session : World Session → ℕ → World Session
  unfolding next_round
  after_session w elapsed =
      let again = next_round (record w { backoff = min_backoff r }) in
      let quick = record w { phase = sleeping } in
      if w.done
      then record w { phase = stopped }
      else if leb_ℤ (min_stable r) (pos elapsed)
      then again
      else quick

  -- `c.sessions.Remove(id); sess.Close()`
  unfoldable pub end_session : World Session → ℕ → Session → World Session
  end_session w id s = record w { sessions = drop_session w.sessions id; closed = s ∷ w.closed }

  -- After sleep.
  unfoldable pub after_sleep : World Session → World Session
  unfolding next_round
  after_sleep w =
      if w.done
      then record w { phase = stopped }
      else next_round (record w { backoff = grow w.backoff (max_backoff r) })

  -- Close, which does its work once.
  unfoldable pub close_client : World Session → World Session
  close_client w =
      let (rest, ended) = close_all w.sessions in
      if w.done then w else record w { done = true; sessions = rest; closed = ended ++ w.closed }

  unfoldable pub handle_in : World Session → Phase Session → Event Session → World Session
  unfolding after_session after_sleep close_client end_session
  handle_in w phase closes = close_client w
  handle_in w dialing failed = record w { phase = sleeping }
  handle_in w dialing (established s) =
      let (sessions, id) = add w.sessions s in
      record w { phase = serving id s; sessions = sessions }
  handle_in w dialing (lost elapsed) = w
  handle_in w dialing woke = w
  handle_in w (serving id s) (lost elapsed) = after_session (end_session w id s) elapsed
  handle_in w (serving id s) failed = w
  handle_in w (serving id s) (established s') = w
  handle_in w (serving id s) woke = w
  handle_in w sleeping woke = after_sleep w
  handle_in w sleeping failed = w
  handle_in w sleeping (established s) = w
  handle_in w sleeping (lost elapsed) = w
  handle_in w stopped failed = w
  handle_in w stopped (established s) = w
  handle_in w stopped (lost elapsed) = w
  handle_in w stopped woke = w

  unfoldable pub handle : World Session → Event Session → World Session
  unfolding handle_in
  handle w e = handle_in w w.phase e

  unfoldable pub run : World Session → List (Event Session) → World Session
  unfolding handle
  run w [] = w
  run w (e ∷ es) = run (handle w e) es
