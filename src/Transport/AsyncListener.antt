-- ===== src/Transport/AsyncListener.antt =====
-- internal/transport/transport.go: asyncListener, with its acceptLoop, the goroutine of each
-- connection, Accept and Close, as the steps that they take in turn. A connection is a number, also
-- after `setup`. What cannot happen in a state changes nothing.
pub mod Handover
pub mod Bounds
pub mod Leftover
use cando.Base.{
  ℕ, ◌+◌, ◌-◌, Bool, true, false, List, [], ◌∷◌, ◌++◌, ltb, ◌==◌, if◌then◌else◌, length,
}

-- The capacity of `connCh`.
abbrev pub queue_size : ℕ
queue_size = 256

abbrev pub max_handshake_workers : ℕ
max_handshake_workers = 512

-- Where acceptLoop is: in Accept of the listener below, in its select for a slot with a connection,
-- returned.
pub data Loop : Type 0 where
  accepting : Loop
  waiting : ℕ → Loop
  returned : Loop

-- `taken` slots of `sem` are in use. `setting_up` and `offering` are the connections of the
-- goroutines in `setup` and in the select behind it; `queue` is connCh.
pub record AsyncListener : Type 0 where
  pub taken : ℕ
  pub setting_up : List ℕ
  pub offering : List ℕ
  pub queue : List ℕ
  pub done : Bool
  pub loop : Loop
  pub delivered : List ℕ
  pub closed : List ℕ

-- The listener below gives a connection or net.ErrClosed (after any other error the loop goes on or
-- returns as after that one); the two cases of each select; `setup` succeeds or fails; Accept takes
-- a connection from the channel; Close is called.
pub data Event : Type 0 where
  arrived : ℕ → Event
  ln_closed slot given_up taken_out closes : Event
  set_up setup_failed enqueued withdrawn : ℕ → Event

unfoldable pub new_async_listener : AsyncListener
new_async_listener = record {
  taken = 0;
  setting_up = [];
  offering = [];
  queue = [];
  done = false;
  loop = accepting;
  delivered = [];
  closed = [];
}

unfoldable pub has : ℕ → List ℕ → Bool
has c [] = false
has c (d ∷ ds) = if d == c then true else has c ds

-- The goroutine's connection leaves the list.
unfoldable pub without : ℕ → List ℕ → List ℕ
without c [] = []
without c (d ∷ ds) = if d == c then ds else d ∷ without c ds

-- acceptLoop, by where it is.
unfoldable pub loop_step : AsyncListener → Loop → Event → AsyncListener
loop_step l accepting (arrived c) = record l { loop = waiting c }
loop_step l accepting ln_closed = record l { loop = returned }
loop_step l accepting e = l
loop_step l (waiting c) slot =
    if ltb l.taken max_handshake_workers
    then record l { taken = l.taken + 1; setting_up = c ∷ l.setting_up; loop = accepting }
    else l
loop_step l (waiting c) given_up =
    if l.done then record l { loop = returned; closed = c ∷ l.closed } else l
loop_step l (waiting c) e = l
loop_step l returned e = l

-- `setup` returns.
unfoldable pub finish_setup : AsyncListener → ℕ → AsyncListener
finish_setup l c =
    if has c l.setting_up
    then record l { setting_up = without c l.setting_up; offering = c ∷ l.offering }
    else l

unfoldable pub fail_setup : AsyncListener → ℕ → AsyncListener
fail_setup l c =
    if has c l.setting_up
    then record l {
      setting_up = without c l.setting_up;
      closed = c ∷ l.closed;
      taken = l.taken - 1;
    }
    else l

-- The two cases of the goroutine's select, with the deferred release of the slot.
unfoldable pub enqueue : AsyncListener → ℕ → AsyncListener
enqueue l c =
    if has c l.offering
    then (if ltb (length l.queue) queue_size
        then record l {
          offering = without c l.offering;
          queue = l.queue ++ (c ∷ []);
          taken = l.taken - 1;
        }
        else l)
    else l

unfoldable pub withdraw : AsyncListener → ℕ → AsyncListener
withdraw l c =
    if has c l.offering
    then (if l.done
        then record l {
          offering = without c l.offering;
          closed = c ∷ l.closed;
          taken = l.taken - 1;
        }
        else l)
    else l

-- The receive of Accept.
unfoldable pub take_conn : AsyncListener → List ℕ → AsyncListener
take_conn l [] = l
take_conn l (c ∷ rest) = record l { queue = rest; delivered = c ∷ l.delivered }

-- Close
unfoldable pub close_listener : AsyncListener → AsyncListener
close_listener l = record l { done = true }

unfoldable pub step : AsyncListener → Event → AsyncListener
step l (arrived c) = loop_step l l.loop (arrived c)
step l ln_closed = loop_step l l.loop ln_closed
step l slot = loop_step l l.loop slot
step l given_up = loop_step l l.loop given_up
step l taken_out = take_conn l l.queue
step l closes = close_listener l
step l (set_up c) = finish_setup l c
step l (setup_failed c) = fail_setup l c
step l (enqueued c) = enqueue l c
step l (withdrawn c) = withdraw l c

unfoldable pub run : AsyncListener → List Event → AsyncListener
run l [] = l
run l (e ∷ es) = run (step l e) es
