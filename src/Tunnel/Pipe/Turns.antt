-- ===== src/Tunnel/Pipe/Turns.antt =====
-- internal/tunnel/pipe.go: behind Close, a copy that takes a turn has stopped.
use cando.Base.{
  ℕ, ◌≡◌, ◌⊎◌, refl, sym, ap, ◌∙◌, Bool, true, false, List, [], ◌∷◌, arith, Bool-cases, inl, inr,
}
use cando.Tunnel.Pipe.{
  Way, Joint, copy_one_way, stop_copy, Event, copies_to_a, copies_to_b, stops_to_a, stops_to_b,
  closes, returns, close_both, return_, joint_step, run,
}

-- The goroutine that copies to `a` takes a turn: it tries to copy, or stops by itself.
abbrev pub has_turn_a : List Event → Bool
has_turn_a [] = false
has_turn_a (copies_to_a n ∷ es) = true
has_turn_a (stops_to_a ∷ es) = true
has_turn_a (copies_to_b n ∷ es) = has_turn_a es
has_turn_a (stops_to_b ∷ es) = has_turn_a es
has_turn_a (closes ∷ es) = has_turn_a es
has_turn_a (returns ∷ es) = has_turn_a es

abbrev pub has_turn_b : List Event → Bool
has_turn_b [] = false
has_turn_b (copies_to_b n ∷ es) = true
has_turn_b (stops_to_b ∷ es) = true
has_turn_b (copies_to_a n ∷ es) = has_turn_b es
has_turn_b (stops_to_a ∷ es) = has_turn_b es
has_turn_b (closes ∷ es) = has_turn_b es
has_turn_b (returns ∷ es) = has_turn_b es

closed_copy_stops : (c : Bool) (n : ℕ) (w : Way) → c ≡ true → (copy_one_way c n w).stopped ≡ true
unfolding copy_one_way stop_copy
closed_copy_stops c n w e = ground (arith, e)

module _ (may_close : Bool → Bool → Bool) where
  pub close_again : (j : Joint) → j.closed ≡ true → close_both may_close j ≡ j
  unfolding close_both
  close_again j c =
      let e = ap {A = Bool} (λ b. record j { closed = b }) (sym c) in
      elim (Bool-cases (may_close j.to_a.stopped j.to_b.stopped)) [
        | inl m ↦ rw m e
        | inr m ↦ rw m refl
      ]

  return_closed : (j : Joint) → j.closed ≡ true → (return_ may_close j).closed ≡ true
  unfolding return_
  return_closed j c = ground (arith, c)

  stays_closed :
      (j : Joint) (e : Event) → j.closed ≡ true → (joint_step may_close j e).closed ≡ true
  unfolding joint_step
  stays_closed j (copies_to_a n) c = c
  stays_closed j (copies_to_b n) c = c
  stays_closed j stops_to_a c = c
  stays_closed j stops_to_b c = c
  stays_closed j closes c = ap (λ k. k.closed) (close_again j c) ∙ c
  stays_closed j returns c = return_closed j c

  pub run-closed :
      (j : Joint) (es : List Event) → j.closed ≡ true → (run may_close j es).closed ≡ true
  unfolding run
  run-closed j [] c = c
  run-closed j (e ∷ es) c = run-closed (joint_step may_close j e) es (stays_closed j e c)

  pub closed_where_due :
      (j : Joint)
      → may_close j.to_a.stopped j.to_b.stopped ≡ true
      → (close_both may_close j).closed ≡ true
  unfolding close_both
  closed_where_due j m = rw m refl

  -- Behind Close, a copy that has stopped or has a turn is one that has stopped.
  turn_a :
      (j : Joint) (e : Event) (es : List Event)
      → j.closed ≡ true
      → (j.to_a.stopped ≡ true) ⊎ (has_turn_a (e ∷ es) ≡ true)
      → ((joint_step may_close j e).to_a.stopped ≡ true) ⊎ (has_turn_a es ≡ true)
  unfolding joint_step stop_copy close_both return_
  turn_a j (copies_to_a n) es c h = inl (closed_copy_stops j.closed n j.to_a c)
  turn_a j stops_to_a es c h = inl refl
  turn_a j (copies_to_b n) es c h = h
  turn_a j stops_to_b es c h = h
  turn_a j closes es c h = ground (arith, h)
  turn_a j returns es c h = ground (arith, h)

  turn_b :
      (j : Joint) (e : Event) (es : List Event)
      → j.closed ≡ true
      → (j.to_b.stopped ≡ true) ⊎ (has_turn_b (e ∷ es) ≡ true)
      → ((joint_step may_close j e).to_b.stopped ≡ true) ⊎ (has_turn_b es ≡ true)
  unfolding joint_step stop_copy close_both return_
  turn_b j (copies_to_b n) es c h = inl (closed_copy_stops j.closed n j.to_b c)
  turn_b j stops_to_b es c h = inl refl
  turn_b j (copies_to_a n) es c h = h
  turn_b j stops_to_a es c h = h
  turn_b j closes es c h = ground (arith, h)
  turn_b j returns es c h = ground (arith, h)

  pub turns_stop_a :
      (j : Joint) (es : List Event)
      → j.closed ≡ true
      → (j.to_a.stopped ≡ true) ⊎ (has_turn_a es ≡ true)
      → (run may_close j es).to_a.stopped ≡ true
  unfolding run
  turns_stop_a j [] c h = ground (arith, h)
  turns_stop_a j (e ∷ es) c h =
      turns_stop_a (joint_step may_close j e) es (stays_closed j e c) (turn_a j e es c h)

  pub turns_stop_b :
      (j : Joint) (es : List Event)
      → j.closed ≡ true
      → (j.to_b.stopped ≡ true) ⊎ (has_turn_b es ≡ true)
      → (run may_close j es).to_b.stopped ≡ true
  unfolding run
  turns_stop_b j [] c h = ground (arith, h)
  turns_stop_b j (e ∷ es) c h =
      turns_stop_b (joint_step may_close j e) es (stays_closed j e c) (turn_b j e es c h)
