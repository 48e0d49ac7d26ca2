-- ===== src/Transport/AsyncListener/Bounds.antt =====
-- The limits of asyncListener (internal/transport/transport.go), and what Close leaves in its channel.
use cando.Base.{
  ℕ, suc, ◌+◌, ◌≡◌, ◌≤◌, refl, ap, inl, inr, true, Bool-cases, List, [], ◌∷◌, ltb, length, arith,
  length-append,
}
use cando.Transport.AsyncListener.{
  queue_size, max_handshake_workers, Loop, accepting, waiting, returned, AsyncListener, Event,
  arrived, ln_closed, slot, given_up, taken_out, closes, set_up, setup_failed, enqueued, withdrawn,
  new_async_listener, has, without, loop_step, finish_setup, fail_setup, enqueue, withdraw,
  take_conn, close_listener, step, run,
}

-- The slots in use are those of the goroutines, and the channel holds no more than it can.
pub record IsBounded (l : AsyncListener) : Type 0 where
  pub slots : l.taken ≡ length l.setting_up + length l.offering
  pub workers : l.taken ≤ max_handshake_workers
  pub room : length l.queue ≤ queue_size

length-without : (c : ℕ) (ds : List ℕ) → has c ds ≡ true → length ds ≡ suc (length (without c ds))
unfolding has without
length-without c [] h = absurd (ground arith)
length-without c (d ∷ ds) h = ground (arith, length-without c ds)

new-IsBounded : IsBounded new_async_listener
unfolding new_async_listener
new-IsBounded = record { slots = refl; workers = omega arith; room = omega arith }

loop_step-IsBounded :
    (l : AsyncListener) (ph : Loop) (e : Event) → IsBounded l → IsBounded (loop_step l ph e)
unfolding loop_step
loop_step-IsBounded l accepting (arrived c) b = record {
  slots = b.slots;
  workers = b.workers;
  room = b.room;
}
loop_step-IsBounded l accepting ln_closed b = record {
  slots = b.slots;
  workers = b.workers;
  room = b.room;
}
loop_step-IsBounded l accepting slot b = b
loop_step-IsBounded l accepting given_up b = b
loop_step-IsBounded l accepting taken_out b = b
loop_step-IsBounded l accepting closes b = b
loop_step-IsBounded l accepting (set_up c) b = b
loop_step-IsBounded l accepting (setup_failed c) b = b
loop_step-IsBounded l accepting (enqueued c) b = b
loop_step-IsBounded l accepting (withdrawn c) b = b
loop_step-IsBounded l (waiting c) slot b = elim (Bool-cases (ltb l.taken max_handshake_workers)) [
  | inl lt ↦
      rw lt (record { slots = omega (arith, b.slots); workers = ground arith; room = b.room })
  | inr ge ↦ rw ge b
]
loop_step-IsBounded l (waiting c) given_up b = elim (Bool-cases l.done) [
  | inl d ↦ rw d (record { slots = b.slots; workers = b.workers; room = b.room })
  | inr d ↦ rw d (record { slots = b.slots; workers = b.workers; room = b.room })
]
loop_step-IsBounded l (waiting c) (arrived d) b = b
loop_step-IsBounded l (waiting c) ln_closed b = b
loop_step-IsBounded l (waiting c) taken_out b = b
loop_step-IsBounded l (waiting c) closes b = b
loop_step-IsBounded l (waiting c) (set_up d) b = b
loop_step-IsBounded l (waiting c) (setup_failed d) b = b
loop_step-IsBounded l (waiting c) (enqueued d) b = b
loop_step-IsBounded l (waiting c) (withdrawn d) b = b
loop_step-IsBounded l returned e b = b

-- A goroutine goes from `setup` to its select.
finish_setup-IsBounded : (l : AsyncListener) (c : ℕ) → IsBounded l → IsBounded (finish_setup l c)
unfolding finish_setup
finish_setup-IsBounded l c b = elim (Bool-cases (has c l.setting_up)) [
  | inl h ↦ rw h (record {
    slots = omega (arith, b.slots, length-without c l.setting_up h);
    workers = b.workers;
    room = b.room;
  })
  | inr h ↦ rw h b
]

fail_setup-IsBounded : (l : AsyncListener) (c : ℕ) → IsBounded l → IsBounded (fail_setup l c)
unfolding fail_setup
fail_setup-IsBounded l c b = elim (Bool-cases (has c l.setting_up)) [
  | inl h ↦ rw h (record {
    slots = omega (arith, b.slots, length-without c l.setting_up h);
    workers = omega (arith, b.workers);
    room = b.room;
  })
  | inr h ↦ rw h b
]

enqueue-IsBounded : (l : AsyncListener) (c : ℕ) → IsBounded l → IsBounded (enqueue l c)
unfolding enqueue
enqueue-IsBounded l c b = elim (Bool-cases (has c l.offering)) [
  | inl h ↦ elim (Bool-cases (ltb (length l.queue) queue_size)) [
    | inl lt ↦
        rw (h, lt)
          (record {
            slots = omega (arith, b.slots, length-without c l.offering h);
            workers = omega (arith, b.workers);
            room = ground (arith, length-append l.queue (c ∷ []));
          })
    | inr ge ↦ rw (h, ge) b
  ]
  | inr h ↦ rw h b
]

withdraw-IsBounded : (l : AsyncListener) (c : ℕ) → IsBounded l → IsBounded (withdraw l c)
unfolding withdraw
withdraw-IsBounded l c b = elim (Bool-cases (has c l.offering)) [
  | inl h ↦ elim (Bool-cases l.done) [
    | inl d ↦
        rw (h, d)
          (record {
            slots = omega (arith, b.slots, length-without c l.offering h);
            workers = omega (arith, b.workers);
            room = b.room;
          })
    | inr d ↦ rw (h, d) (record { slots = b.slots; workers = b.workers; room = b.room })
  ]
  | inr h ↦ rw h b
]

take_conn-IsBounded :
    (l : AsyncListener) (q : List ℕ) → l.queue ≡ q → IsBounded l → IsBounded (take_conn l q)
unfolding take_conn
take_conn-IsBounded l [] e b = b
take_conn-IsBounded l (c ∷ rest) e b =
    let f = ap length e in
    record { slots = b.slots; workers = b.workers; room = omega (arith, f, b.room) }

step-IsBounded : (l : AsyncListener) (e : Event) → IsBounded l → IsBounded (step l e)
unfolding step close_listener
step-IsBounded l (arrived c) b = loop_step-IsBounded l l.loop (arrived c) b
step-IsBounded l ln_closed b = loop_step-IsBounded l l.loop ln_closed b
step-IsBounded l slot b = loop_step-IsBounded l l.loop slot b
step-IsBounded l given_up b = loop_step-IsBounded l l.loop given_up b
step-IsBounded l taken_out b = take_conn-IsBounded l l.queue refl b
step-IsBounded l closes b = record { slots = b.slots; workers = b.workers; room = b.room }
step-IsBounded l (set_up c) b = finish_setup-IsBounded l c b
step-IsBounded l (setup_failed c) b = fail_setup-IsBounded l c b
step-IsBounded l (enqueued c) b = enqueue-IsBounded l c b
step-IsBounded l (withdrawn c) b = withdraw-IsBounded l c b

run_from-IsBounded : (es : List Event) (l : AsyncListener) → IsBounded l → IsBounded (run l es)
unfolding run
run_from-IsBounded [] l b = b
run_from-IsBounded (e ∷ es) l b = run_from-IsBounded es (step l e) (step-IsBounded l e b)

-- However the goroutines take turns, the slots in use are those of the goroutines, of which there
-- are at most 512, and the channel holds at most 256 connections.
pub run-IsBounded : (es : List Event) → IsBounded (run new_async_listener es)
run-IsBounded es = run_from-IsBounded es new_async_listener new-IsBounded
