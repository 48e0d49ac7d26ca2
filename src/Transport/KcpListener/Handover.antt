-- ===== src/Transport/KcpListener/Handover.antt =====
-- What becomes of the sessions that kcpListener (internal/transport/kcp.go) accepts.
use cando.Base.{
  times, times-append, ◌==◌, ℕ, ◌+◌, ◌≡◌, refl, ap, inl, inr, true, false, Bool-cases, List, [],
  ◌∷◌, ◌++◌, ltb, if◌then◌else◌, length, arith,
}
use cando.Transport.KcpListener.{
  queue_size, Loop, accepting, offering, returned, KcpListener, Event, arrived, failed, enqueued,
  given_up, taken, closes, shutdown, take_conn, loop_step, step, run,
}

-- The session in acceptLoop's hands.
unfoldable pub in_hand : ℕ → Loop → ℕ
in_hand x accepting = 0
in_hand x (offering s) = if s == x then 1 else 0
in_hand x returned = 0

-- Where a session is: in the hands of acceptLoop, in the channel, given out or closed.
unfoldable pub placed : ℕ → KcpListener → ℕ
placed x l = in_hand x l.loop + times x l.queue + times x l.delivered + times x l.closed

-- Whether AcceptKCP gives the session in a step, and how often in a run.
unfoldable pub gives : ℕ → Loop → Event → ℕ
gives x accepting (arrived s) = if s == x then 1 else 0
gives x ph e = 0

unfoldable pub given : ℕ → KcpListener → List Event → ℕ
given x l [] = 0
given x l (e ∷ es) = gives x l.loop e + given x (step l e) es

shutdown-placed : (x : ℕ) (l : KcpListener) → placed x (shutdown l) ≡ placed x l
unfolding shutdown placed
shutdown-placed x l = elim (Bool-cases l.done) [
  | inl d ↦ rw d refl
  | inr d ↦ let e = times-append x l.queue l.closed in rw d (omega arith)
]

take_conn-placed :
    (x : ℕ) (l : KcpListener) (q : List ℕ) → l.queue ≡ q → placed x (take_conn l q) ≡ placed x l
unfolding take_conn placed
take_conn-placed x l [] e = refl
take_conn-placed x l (s ∷ rest) e = let q = ap (times x) e in omega arith

loop_step-placed :
    (x : ℕ) (l : KcpListener) (ph : Loop) (e : Event)
    → l.loop ≡ ph
    → placed x (loop_step l ph e) ≡ placed x l + gives x ph e
unfolding loop_step gives placed in_hand shutdown
loop_step-placed x l accepting (arrived s) q = let h = ap (in_hand x) q in omega arith
loop_step-placed x l accepting failed q =
    let h = ap (in_hand x) q in
    elim (Bool-cases l.done) [
      | inl d ↦ rw d (omega arith)
      | inr d ↦ let e = times-append x l.queue l.closed in rw d (omega arith)
    ]
loop_step-placed x l (offering s) enqueued q =
    let h = ap (in_hand x) q in
    let e = times-append x l.queue (s ∷ []) in
    elim (Bool-cases (ltb (length l.queue) queue_size)) [
      | inl lt ↦ rw lt (omega arith)
      | inr ge ↦ rw ge (omega arith)
    ]
loop_step-placed x l (offering s) given_up q =
    let h = ap (in_hand x) q in
    elim (Bool-cases l.done) [ inl d ↦ rw d (omega arith) | inr d ↦ rw d (omega arith) ]
loop_step-placed x l accepting enqueued q = omega arith
loop_step-placed x l accepting given_up q = omega arith
loop_step-placed x l accepting taken q = omega arith
loop_step-placed x l accepting closes q = omega arith
loop_step-placed x l (offering s) (arrived t) q = omega arith
loop_step-placed x l (offering s) failed q = omega arith
loop_step-placed x l (offering s) taken q = omega arith
loop_step-placed x l (offering s) closes q = omega arith
loop_step-placed x l returned (arrived t) q = omega arith
loop_step-placed x l returned failed q = omega arith
loop_step-placed x l returned enqueued q = omega arith
loop_step-placed x l returned given_up q = omega arith
loop_step-placed x l returned taken q = omega arith
loop_step-placed x l returned closes q = omega arith

gives-none : (x : ℕ) (ph : Loop) → (gives x ph taken ≡ 0) × (gives x ph closes ≡ 0)
unfolding gives
gives-none x accepting = (refl, refl)
gives-none x (offering s) = (refl, refl)
gives-none x returned = (refl, refl)

step-placed :
    (x : ℕ) (l : KcpListener) (e : Event) → placed x (step l e) ≡ placed x l + gives x l.loop e
unfolding step
step-placed x l taken =
    let p = take_conn-placed x l l.queue refl in let (none_, _) = gives-none x l.loop in omega arith
step-placed x l closes =
    let p = shutdown-placed x l in let (_, none_) = gives-none x l.loop in omega arith
step-placed x l (arrived s) = loop_step-placed x l l.loop (arrived s) refl
step-placed x l failed = loop_step-placed x l l.loop failed refl
step-placed x l enqueued = loop_step-placed x l l.loop enqueued refl
step-placed x l given_up = loop_step-placed x l l.loop given_up refl

-- A session is in the hands of acceptLoop, in the channel, given out by Accept or closed as often
-- as AcceptKCP has given it: none is lost and none is given out twice.
pub run-placed :
    (x : ℕ) (es : List Event) (l : KcpListener) → placed x (run l es) ≡ placed x l + given x l es
unfolding run given
run-placed x [] l = omega arith
run-placed x (e ∷ es) l =
    let one = step-placed x l e in let rest = run-placed x es (step l e) in omega arith

-- A session that acceptLoop has in hand when Close is called may still enter the channel, after
-- Close has emptied it: when the loop has returned it lies there, neither given out nor closed.
pub run-stranded :
    (s : ℕ) (waiting delivered_ closed_ : List ℕ)
    → run
        (record {
          queue = waiting;
          done = false;
          loop = offering s;
          delivered = delivered_;
          closed = closed_;
        })
        (closes ∷ enqueued ∷ failed ∷ [])
      ≡ record {
        queue = s ∷ [];
        done = true;
        loop = returned;
        delivered = delivered_;
        closed = waiting ++ closed_;
      }
unfolding run step loop_step shutdown
run-stranded s waiting delivered_ closed_ = refl
