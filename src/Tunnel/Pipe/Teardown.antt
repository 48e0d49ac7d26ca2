-- ===== src/Tunnel/Pipe/Teardown.antt =====
-- internal/tunnel/pipe.go and udp.go: what pipe delivers, and how it ends.
use cando.Base.{
  ℕ, ◌≡◌, refl, sym, ap, ◌∙◌, Bool, true, ◌&&◌, List, [], ◌∷◌, ◌++◌, ◌⊎◌, if_true, take, drop,
  arith, Bool-cases, inl, inr, take-append-drop,
}
use mathlib.Core.List.{append_assoc}
use cando.Base.Bytes.{Bytes}
use cando.Tunnel.Pipe.{
  Way, Joint, copy_one_way, stop_copy, Event, copies_to_a, copies_to_b, stops_to_a, stops_to_b,
  closes, returns, close_both, return_, joint_step, run,
}

-- What a direction has delivered and what is still to come.
abbrev pub whole : Way → Bytes
whole w = w.delivered ++ w.pending

copied_lem : (n : ℕ) (w : Way) → (w.delivered ++ take n w.pending) ++ drop n w.pending ≡ whole w
copied_lem n w =
    append_assoc w.delivered (take n w.pending) (drop n w.pending)
    ∙ ap (λ xs. w.delivered ++ xs) (take-append-drop n w.pending)

copy_one_way-whole : (c : Bool) (n : ℕ) (w : Way) → whole (copy_one_way c n w) ≡ whole w
unfolding copy_one_way stop_copy
copy_one_way-whole c n w = elim (Bool-cases w.stopped) [
  | inl e ↦ rw e refl
  | inr e ↦ elim (Bool-cases c) [ inl d ↦ rw (e, d) refl | inr d ↦ rw (e, d) (copied_lem n w) ]
]

-- Both directions as they were.
abbrev pub Same : Joint → Joint → Type 0
Same j k = (whole j.to_a ≡ whole k.to_a) × (whole j.to_b ≡ whole k.to_b)

module _ (may_close : Bool → Bool → Bool) where
  close_both-ways :
      (j : Joint)
      → ((close_both may_close j).to_a ≡ j.to_a) × ((close_both may_close j).to_b ≡ j.to_b)
  unfolding close_both
  close_both-ways j = elim (Bool-cases (may_close j.to_a.stopped j.to_b.stopped)) [
    | inl e ↦ rw e (refl, refl)
    | inr e ↦ rw e (refl, refl)
  ]

  joint_step-Same : (j : Joint) (e : Event) → Same (joint_step may_close j e) j
  unfolding joint_step stop_copy return_
  joint_step-Same j (copies_to_a n) = (copy_one_way-whole j.closed n j.to_a, refl)
  joint_step-Same j (copies_to_b n) = (refl, copy_one_way-whole j.closed n j.to_b)
  joint_step-Same j stops_to_a = (refl, refl)
  joint_step-Same j stops_to_b = (refl, refl)
  joint_step-Same j closes = let (p, q) = close_both-ways j in (ap whole p, ap whole q)
  joint_step-Same j returns = elim (Bool-cases (j.closed && (j.to_a.stopped && j.to_b.stopped))) [
    | inl e ↦ rw e (refl, refl)
    | inr e ↦ rw e (refl, refl)
  ]

  pub run-Same : (j : Joint) (es : List Event) → Same (run may_close j es) j
  unfolding run
  run-Same j [] = (refl, refl)
  run-Same j (e ∷ es) =
      let (p, q) = run-Same (joint_step may_close j e) es in
      let (p', q') = joint_step-Same j e in (p ∙ p', q ∙ q')

  -- What holds behind the steps: it is closed only where that was due, and it has returned only
  -- where both connections are closed and both copies have stopped.
  pub record IsOrdered (j : Joint) : Type 0 where
    pub due : j.closed ≡ true → may_close j.to_a.stopped j.to_b.stopped ≡ true
    pub over :
        j.returned ≡ true → (j.closed ≡ true) × ((j.to_a.stopped ≡ true) × (j.to_b.stopped ≡ true))

-- A copy stops or goes on, and never starts again.
copy_one_way-stopped :
    (c : Bool) (n : ℕ) (w : Way)
    → ((copy_one_way c n w).stopped ≡ w.stopped) ⊎ ((copy_one_way c n w).stopped ≡ true)
unfolding copy_one_way stop_copy
copy_one_way-stopped c n w = elim (Bool-cases w.stopped) [
  | inl e ↦ rw e (inl refl)
  | inr e ↦ elim (Bool-cases c) [ inl d ↦ rw (e, d) (inr refl) | inr d ↦ rw (e, d) (inl refl) ]
]

-- Behind its end nothing is copied.
pub copy_one_way-over : (c : Bool) (n : ℕ) (w : Way) → w.stopped ≡ true → copy_one_way c n w ≡ w
unfolding copy_one_way
copy_one_way-over c n w e = if_true w.stopped w _ e

pub stop_twice : (w : Way) → w.stopped ≡ true → stop_copy w ≡ w
unfolding stop_copy
stop_twice w e = ap {A = Bool} (λ s. record w { stopped = s }) (sym e)

-- A further stop_copy does not undo what was due.
abbrev pub Grows : (Bool → Bool → Bool) → Type 0
Grows may_close =
    (a b : Bool) → may_close a b ≡ true → (may_close true b ≡ true) × (may_close a true ≡ true)

module _ (may_close : Bool → Bool → Bool) (grows : Grows may_close) where
  close_both-IsOrdered :
      (j : Joint) → IsOrdered may_close j → IsOrdered may_close (close_both may_close j)
  unfolding close_both
  close_both-IsOrdered j h = elim (Bool-cases (may_close j.to_a.stopped j.to_b.stopped)) [
    | inl e ↦ rw e (record { due = λ c. e; over = λ r. (refl, (h.over r).1) })
    | inr e ↦ rw e h
  ]

  return_-IsOrdered :
      (j : Joint) → IsOrdered may_close j → IsOrdered may_close (return_ may_close j)
  unfolding return_
  return_-IsOrdered j h = elim (Bool-cases (j.closed && (j.to_a.stopped && j.to_b.stopped))) [
    | inl e ↦ rw e (record { due = h.due; over = λ r. ground (arith, e) })
    | inr e ↦ rw e h
  ]

  joint_step-IsOrdered :
      (j : Joint) (e : Event)
      → IsOrdered may_close j
      → IsOrdered may_close (joint_step may_close j e)
  unfolding joint_step stop_copy
  joint_step-IsOrdered j (copies_to_a n) h = elim (copy_one_way-stopped j.closed n j.to_a) [
    | inl s ↦ record {
      due = λ c. ap (λ b. may_close b j.to_b.stopped) s ∙ h.due c;
      over = λ r. let (c, (a, b)) = h.over r in (c, (s ∙ a, b));
    }
    | inr s ↦ record {
      due = λ c. ap (λ b. may_close b j.to_b.stopped) s ∙ (grows _ _ (h.due c)).0;
      over = λ r. let (c, (a, b)) = h.over r in (c, (s, b));
    }
  ]
  joint_step-IsOrdered j (copies_to_b n) h = elim (copy_one_way-stopped j.closed n j.to_b) [
    | inl s ↦ record {
      due = λ c. ap (may_close j.to_a.stopped) s ∙ h.due c;
      over = λ r. let (c, (a, b)) = h.over r in (c, (a, s ∙ b));
    }
    | inr s ↦ record {
      due = λ c. ap (may_close j.to_a.stopped) s ∙ (grows _ _ (h.due c)).1;
      over = λ r. let (c, (a, b)) = h.over r in (c, (a, s));
    }
  ]
  joint_step-IsOrdered j stops_to_a h = record {
    due = λ c. (grows _ _ (h.due c)).0;
    over = λ r. let (c, (a, b)) = h.over r in (c, (refl, b));
  }
  joint_step-IsOrdered j stops_to_b h = record {
    due = λ c. (grows _ _ (h.due c)).1;
    over = λ r. let (c, (a, b)) = h.over r in (c, (a, refl));
  }
  joint_step-IsOrdered j closes h = close_both-IsOrdered j h
  joint_step-IsOrdered j returns h = return_-IsOrdered j h

  pub run-IsOrdered :
      (j : Joint) (es : List Event)
      → IsOrdered may_close j
      → IsOrdered may_close (run may_close j es)
  unfolding run
  run-IsOrdered j [] h = h
  run-IsOrdered j (e ∷ es) h =
      run-IsOrdered (joint_step may_close j e) es (joint_step-IsOrdered j e h)
