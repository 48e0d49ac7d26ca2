-- ===== src/Transport/AsyncListener/Leftover.antt =====
-- What Close of asyncListener (internal/transport/transport.go) leaves in its channel.
use mathlib.Core.List.{append_assoc, append-nil}
use cando.Base.{
  arith, ℕ, ◌≡◌, refl, sym, ap, ◌∙◌, inl, inr, Bool-cases, List, [], ◌∷◌, ◌++◌, ltb, length, All,
}
use cando.Transport.AsyncListener.{
  queue_size, Loop, accepting, waiting, returned, AsyncListener, Event, arrived, ln_closed, slot,
  given_up, taken_out, closes, set_up, setup_failed, enqueued, withdrawn, has, loop_step,
  finish_setup, fail_setup, enqueue, withdraw, close_listener, step, run,
}

-- Accept takes no connection from the channel.
abbrev pub LeavesQueue : Event → Type 0
LeavesQueue (arrived c) = Unit
LeavesQueue ln_closed = Unit
LeavesQueue slot = Unit
LeavesQueue given_up = Unit
LeavesQueue taken_out = ⊥
LeavesQueue closes = Unit
LeavesQueue (set_up c) = Unit
LeavesQueue (setup_failed c) = Unit
LeavesQueue (enqueued c) = Unit
LeavesQueue (withdrawn c) = Unit

-- The queue of the one begins with that of the other.
abbrev pub Extends : List ℕ → List ℕ → Type 0
Extends q q' = (more : List ℕ) × (q' ≡ q ++ more)

same_queue : (q : List ℕ) → Extends q q
same_queue q = ([], sym (append-nil q))

loop_step-queue : (l : AsyncListener) (ph : Loop) (e : Event) → (loop_step l ph e).queue ≡ l.queue
unfolding loop_step
loop_step-queue l accepting (arrived c) = refl
loop_step-queue l accepting ln_closed = refl
loop_step-queue l accepting slot = refl
loop_step-queue l accepting given_up = refl
loop_step-queue l accepting taken_out = refl
loop_step-queue l accepting closes = refl
loop_step-queue l accepting (set_up c) = refl
loop_step-queue l accepting (setup_failed c) = refl
loop_step-queue l accepting (enqueued c) = refl
loop_step-queue l accepting (withdrawn c) = refl
loop_step-queue l (waiting c) slot = ground arith
loop_step-queue l (waiting c) given_up = ground arith
loop_step-queue l (waiting c) (arrived d) = refl
loop_step-queue l (waiting c) ln_closed = refl
loop_step-queue l (waiting c) taken_out = refl
loop_step-queue l (waiting c) closes = refl
loop_step-queue l (waiting c) (set_up d) = refl
loop_step-queue l (waiting c) (setup_failed d) = refl
loop_step-queue l (waiting c) (enqueued d) = refl
loop_step-queue l (waiting c) (withdrawn d) = refl
loop_step-queue l returned e = refl

looped : (l : AsyncListener) (e : Event) → Extends l.queue (loop_step l l.loop e).queue
looped l e = ([], loop_step-queue l l.loop e ∙ sym (append-nil l.queue))

enqueue-Extends : (l : AsyncListener) (c : ℕ) → Extends l.queue (enqueue l c).queue
unfolding enqueue
enqueue-Extends l c = elim (Bool-cases (has c l.offering)) [
  | inl h ↦ elim (Bool-cases (ltb (length l.queue) queue_size)) [
    | inl lt ↦ rw (h, lt) (c ∷ [], refl)
    | inr ge ↦ rw (h, ge) (same_queue l.queue)
  ]
  | inr h ↦ rw h (same_queue l.queue)
]

step-Extends : (l : AsyncListener) (e : Event) → LeavesQueue e → Extends l.queue (step l e).queue
unfolding step close_listener finish_setup fail_setup withdraw
step-Extends l (arrived c) n = looped l (arrived c)
step-Extends l ln_closed n = looped l ln_closed
step-Extends l slot n = looped l slot
step-Extends l given_up n = looped l given_up
step-Extends l taken_out n = absurd n
step-Extends l closes n = same_queue l.queue
step-Extends l (set_up c) n = ([], ground (arith, append-nil l.queue))
step-Extends l (setup_failed c) n = ([], ground (arith, append-nil l.queue))
step-Extends l (enqueued c) n = enqueue-Extends l c
step-Extends l (withdrawn c) n = ([], ground (arith, append-nil l.queue))

-- Without an Accept, every connection that is in the channel stays there, whatever else happens, a
-- Close as well: nobody closes it.
pub run-Extends :
    (es : List Event) (l : AsyncListener) → All LeavesQueue es → Extends l.queue (run l es).queue
unfolding run
run-Extends [] l n = same_queue l.queue
run-Extends (e ∷ es) l n =
    let (a, f) = step-Extends l e n.0 in
    let (b, g) = run-Extends es (step l e) n.1 in
    (a ++ b, g ∙ ap (λ q. q ++ b) f ∙ append_assoc l.queue a b)
