-- ===== src/Transport/AsyncListener/Handover.antt =====
-- What becomes of the connections that asyncListener (internal/transport/transport.go) accepts.
use cando.Base.{
  times, times-append, ◌==◌, ℕ, ◌+◌, ◌≡◌, refl, ap, inl, inr, true, Bool-cases, List, [], ◌∷◌, ltb,
  if◌then◌else◌, length, arith,
}
use cando.Transport.AsyncListener.{
  queue_size, max_handshake_workers, Loop, accepting, waiting, returned, AsyncListener, Event,
  arrived, ln_closed, slot, given_up, taken_out, closes, set_up, setup_failed, enqueued, withdrawn,
  has, without, loop_step, finish_setup, fail_setup, enqueue, withdraw, take_conn, close_listener,
  step, run,
}

unfoldable pub in_hand : ℕ → Loop → ℕ
in_hand x accepting = 0
in_hand x (waiting c) = if c == x then 1 else 0
in_hand x returned = 0

-- Where a connection is: in the hands of acceptLoop, of its goroutine, in the channel, given out or
-- closed.
unfoldable pub located : ℕ → AsyncListener → ℕ
located x l =
    in_hand x l.loop
    + times x l.setting_up
    + times x l.offering
    + times x l.queue
    + times x l.delivered
    + times x l.closed

-- Whether the listener below gives the connection in a step, and how often in a run.
unfoldable pub gives : ℕ → Loop → Event → ℕ
gives x accepting (arrived c) = if c == x then 1 else 0
gives x ph e = 0

unfoldable pub given : ℕ → AsyncListener → List Event → ℕ
given x l [] = 0
given x l (e ∷ es) = gives x l.loop e + given x (step l e) es

-- A connection that the list has, taken out once.
times-without :
    (x c : ℕ) (ds : List ℕ)
    → has c ds ≡ true
    → times x ds ≡ (if c == x then 1 else 0) + times x (without c ds)
unfolding has without
times-without x c [] h = absurd (ground arith)
times-without x c (d ∷ ds) h = ground (arith, times-without x c ds)

loop_step-located :
    (x : ℕ) (l : AsyncListener) (ph : Loop) (e : Event)
    → l.loop ≡ ph
    → located x (loop_step l ph e) ≡ located x l + gives x ph e
unfolding loop_step gives located in_hand
loop_step-located x l accepting (arrived c) q = let h = ap (in_hand x) q in omega arith
loop_step-located x l accepting ln_closed q = let h = ap (in_hand x) q in omega arith
loop_step-located x l accepting slot q = omega arith
loop_step-located x l accepting given_up q = omega arith
loop_step-located x l accepting taken_out q = omega arith
loop_step-located x l accepting closes q = omega arith
loop_step-located x l accepting (set_up c) q = omega arith
loop_step-located x l accepting (setup_failed c) q = omega arith
loop_step-located x l accepting (enqueued c) q = omega arith
loop_step-located x l accepting (withdrawn c) q = omega arith
loop_step-located x l (waiting c) slot q =
    let h = ap (in_hand x) q in
    elim (Bool-cases (ltb l.taken max_handshake_workers)) [
      | inl lt ↦ rw lt (omega arith)
      | inr ge ↦ rw ge (omega arith)
    ]
loop_step-located x l (waiting c) given_up q =
    let h = ap (in_hand x) q in
    elim (Bool-cases l.done) [ inl d ↦ rw d (omega arith) | inr d ↦ rw d (omega arith) ]
loop_step-located x l (waiting c) (arrived d) q = omega arith
loop_step-located x l (waiting c) ln_closed q = omega arith
loop_step-located x l (waiting c) taken_out q = omega arith
loop_step-located x l (waiting c) closes q = omega arith
loop_step-located x l (waiting c) (set_up d) q = omega arith
loop_step-located x l (waiting c) (setup_failed d) q = omega arith
loop_step-located x l (waiting c) (enqueued d) q = omega arith
loop_step-located x l (waiting c) (withdrawn d) q = omega arith
loop_step-located x l returned e q = omega arith

-- Only acceptLoop is given connections.
abbrev IsLoopEvent : Event → Type 0
IsLoopEvent (arrived c) = Unit
IsLoopEvent ln_closed = Unit
IsLoopEvent slot = Unit
IsLoopEvent given_up = Unit
IsLoopEvent taken_out = ⊥
IsLoopEvent closes = ⊥
IsLoopEvent (set_up c) = ⊥
IsLoopEvent (setup_failed c) = ⊥
IsLoopEvent (enqueued c) = ⊥
IsLoopEvent (withdrawn c) = ⊥

gives-other : (x : ℕ) (ph : Loop) (e : Event) → (IsLoopEvent e → ⊥) → gives x ph e ≡ 0
unfolding gives
gives-other x accepting (arrived c) n = absurd (n tt)
gives-other x accepting ln_closed n = refl
gives-other x accepting slot n = refl
gives-other x accepting given_up n = refl
gives-other x accepting taken_out n = refl
gives-other x accepting closes n = refl
gives-other x accepting (set_up c) n = refl
gives-other x accepting (setup_failed c) n = refl
gives-other x accepting (enqueued c) n = refl
gives-other x accepting (withdrawn c) n = refl
gives-other x (waiting c) e n = refl
gives-other x returned e n = refl

finish_setup-located :
    (x : ℕ) (l : AsyncListener) (c : ℕ) → located x (finish_setup l c) ≡ located x l
unfolding finish_setup located
finish_setup-located x l c = elim (Bool-cases (has c l.setting_up)) [
  | inl h ↦ let t = times-without x c l.setting_up h in rw h (omega arith)
  | inr h ↦ rw h refl
]

fail_setup-located : (x : ℕ) (l : AsyncListener) (c : ℕ) → located x (fail_setup l c) ≡ located x l
unfolding fail_setup located
fail_setup-located x l c = elim (Bool-cases (has c l.setting_up)) [
  | inl h ↦ let t = times-without x c l.setting_up h in rw h (omega arith)
  | inr h ↦ rw h refl
]

enqueue-located : (x : ℕ) (l : AsyncListener) (c : ℕ) → located x (enqueue l c) ≡ located x l
unfolding enqueue located
enqueue-located x l c = elim (Bool-cases (has c l.offering)) [
  | inl h ↦
      let t = times-without x c l.offering h in
      let a = times-append x l.queue (c ∷ []) in
      elim (Bool-cases (ltb (length l.queue) queue_size)) [
        | inl lt ↦ rw (h, lt) (omega arith)
        | inr ge ↦ rw (h, ge) refl
      ]
  | inr h ↦ rw h refl
]

withdraw-located : (x : ℕ) (l : AsyncListener) (c : ℕ) → located x (withdraw l c) ≡ located x l
unfolding withdraw located
withdraw-located x l c = elim (Bool-cases (has c l.offering)) [
  | inl h ↦
      let t = times-without x c l.offering h in
      elim (Bool-cases l.done) [ inl d ↦ rw (h, d) (omega arith) | inr d ↦ rw (h, d) refl ]
  | inr h ↦ rw h refl
]

take_conn-located :
    (x : ℕ) (l : AsyncListener) (q : List ℕ) → l.queue ≡ q → located x (take_conn l q) ≡ located x l
unfolding take_conn located
take_conn-located x l [] e = refl
take_conn-located x l (c ∷ rest) e = let q = ap (times x) e in omega arith

step-located :
    (x : ℕ) (l : AsyncListener) (e : Event) → located x (step l e) ≡ located x l + gives x l.loop e
unfolding step close_listener located
step-located x l (arrived c) = loop_step-located x l l.loop (arrived c) refl
step-located x l ln_closed = loop_step-located x l l.loop ln_closed refl
step-located x l slot = loop_step-located x l l.loop slot refl
step-located x l given_up = loop_step-located x l l.loop given_up refl
step-located x l taken_out =
    omega (arith, take_conn-located x l l.queue refl, gives-other x l.loop taken_out (λ u. u))
step-located x l closes = omega (arith, gives-other x l.loop closes (λ u. u))
step-located x l (set_up c) =
    omega (arith, finish_setup-located x l c, gives-other x l.loop (set_up c) (λ u. u))
step-located x l (setup_failed c) =
    omega (arith, fail_setup-located x l c, gives-other x l.loop (setup_failed c) (λ u. u))
step-located x l (enqueued c) =
    omega (arith, enqueue-located x l c, gives-other x l.loop (enqueued c) (λ u. u))
step-located x l (withdrawn c) =
    omega (arith, withdraw-located x l c, gives-other x l.loop (withdrawn c) (λ u. u))

-- A connection is in the hands of acceptLoop or of its goroutine, in the channel, given out by Accept
-- or closed as often as the listener below has given it: none is lost and none is given out twice.
pub run-located :
    (x : ℕ) (es : List Event) (l : AsyncListener)
    → located x (run l es) ≡ located x l + given x l es
unfolding run given
run-located x [] l = omega arith
run-located x (e ∷ es) l =
    let one = step-located x l e in let rest = run-located x es (step l e) in omega arith
