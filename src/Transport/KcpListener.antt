-- ===== src/Transport/KcpListener.antt =====
-- internal/transport/kcp.go: kcpListener, with its acceptLoop, Accept and shutdown, as the steps
-- that the goroutines take in turn. A session is a number; the library's listener gives sessions
-- and errors. What cannot happen in a state changes nothing.
pub mod Handover
use cando.Base.{ℕ, Bool, true, false, List, [], ◌∷◌, ◌++◌, ltb, if◌then◌else◌, length}

-- The capacity of `connCh`.
abbrev pub queue_size : ℕ
queue_size = 128

-- Where acceptLoop is: in AcceptKCP, in its select with a session, returned.
pub data Loop : Type 0 where
  accepting : Loop
  offering : ℕ → Loop
  returned : Loop

-- `connCh` and `done`; what Accept has given out; what has been closed.
pub record KcpListener : Type 0 where
  pub queue : List ℕ
  pub done : Bool
  pub loop : Loop
  pub delivered : List ℕ
  pub closed : List ℕ

-- AcceptKCP gives a session or an error; the select takes the one case or the other; Accept takes a
-- session from the channel; Close is called.
pub data Event : Type 0 where
  arrived : ℕ → Event
  failed enqueued given_up taken closes : Event

unfoldable pub new_kcp_listener : KcpListener
new_kcp_listener = record {
  queue = [];
  done = false;
  loop = accepting;
  delivered = [];
  closed = [];
}

-- shutdown, which does its work once.
unfoldable pub shutdown : KcpListener → KcpListener
shutdown l =
    if l.done then l else record l { done = true; queue = []; closed = l.queue ++ l.closed }

-- The receive of Accept.
unfoldable pub take_conn : KcpListener → List ℕ → KcpListener
take_conn l [] = l
take_conn l (s ∷ rest) = record l { queue = rest; delivered = s ∷ l.delivered }

-- The steps of acceptLoop.
unfoldable pub loop_step : KcpListener → Loop → Event → KcpListener
unfolding shutdown
loop_step l accepting (arrived s) = record l { loop = offering s }
loop_step l accepting failed =
    let l' = shutdown l in
    if l.done then record l { loop = returned } else record l' { loop = returned }
loop_step l accepting e = l
loop_step l (offering s) enqueued =
    if ltb (length l.queue) queue_size
    then record l { queue = l.queue ++ (s ∷ []); loop = accepting }
    else l
loop_step l (offering s) given_up =
    if l.done then record l { loop = returned; closed = s ∷ l.closed } else l
loop_step l (offering s) e = l
loop_step l returned e = l

unfoldable pub step : KcpListener → Event → KcpListener
unfolding loop_step take_conn shutdown
step l taken = take_conn l l.queue
step l closes = shutdown l
step l (arrived s) = loop_step l l.loop (arrived s)
step l failed = loop_step l l.loop failed
step l enqueued = loop_step l l.loop enqueued
step l given_up = loop_step l l.loop given_up

unfoldable pub run : KcpListener → List Event → KcpListener
unfolding step
run l [] = l
run l (e ∷ es) = run (step l e) es
