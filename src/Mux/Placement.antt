-- ===== src/Mux/Placement.antt =====
-- Where Pick of internal/mux/mux.go places a stream.
use native.Mathlib.Nat.{le_trans}
use cando.Base.{
  Holds, tests, ℕ, ◌+◌, ◌≤◌, ◌<◌, ◌≡◌, ◌⊎◌, ◌↔◌, refl, inl, inr, Bool, true, false, Bool-cases,
  Option, some, none, List, [], ◌∷◌, arith, ltb, All, ltb→lt, length,
}
use cando.Base.Dict.{Dict}
use cando.Mux.{SessionSet, pick_loop, pick, max_int, values, healthy_loop, healthy, count}

module _ {Session : Type 0} (is_closed : Session → Bool) (num_streams : Session → ℕ) where
  -- Open, and with room for a stream.
  abbrev pub IsOpen : Session → Type 0
  IsOpen s = (is_closed s ≡ false) × (num_streams s < max_int)

  -- The best so far is an open session, and `n` is its load.
  abbrev IsBest : Option Session → ℕ → Type 0
  IsBest none n = n ≡ max_int
  IsBest (some s) n = IsOpen s × (num_streams s ≡ n)

  -- What the loop returns: a session from the list or the one that it had, at most as loaded as any
  -- open one that it met.
  abbrev Answer : Option Session → ℕ → Dict ℕ Session → Option Session → Type 0
  Answer best n m none =
      (best ≡ none) × All (λ t. is_closed t ≡ false → max_int ≤ num_streams t) (values m)
  Answer best n m (some s) =
      IsOpen s
      × (num_streams s ≤ n)
      × ((best ≡ some s) ⊎ Holds (values m) s)
      × All (λ t. is_closed t ≡ false → num_streams s ≤ num_streams t) (values m)

  IsBest-none : (best : Option Session) (n : ℕ) → best ≡ none → IsBest best n → n ≡ max_int
  IsBest-none none n e h = h
  IsBest-none (some s) n e h = cc

  -- A session that is closed, or not better, changes nothing.
  Result-skip :
      (best : Option Session) (n id : ℕ) (t : Session) (m : Dict ℕ Session) (r : Option Session)
      → IsBest best n
      → (is_closed t ≡ false → n ≤ num_streams t)
      → Answer best n m r
      → Answer best n ((id, t) ∷ m) r
  unfolding values
  Result-skip best n id t m none h w (e, rest) =
      (e, ((λ o. rw (← IsBest-none best n e h) (w o)), rest))
  Result-skip best n id t m (some s) h w (o, le, inl e, rest) =
      (o, le, inl e, ((λ p. le_trans le (w p)), rest))
  Result-skip best n id t m (some s) h w (o, le, inr held, rest) =
      (o, le, inr (inr held), ((λ p. le_trans le (w p)), rest))

  -- A better session takes over.
  Result-take :
      (best : Option Session) (n id : ℕ) (t : Session) (m : Dict ℕ Session) (r : Option Session)
      → num_streams t < n
      → Answer (some t) (num_streams t) m r
      → Answer best n ((id, t) ∷ m) r
  unfolding values
  Result-take best n id t m none lt (e, rest) = cc
  Result-take best n id t m (some s) lt (o, le, inl e, rest) =
      (o, omega arith, inr (inl (cc)), ((λ p. le), rest))
  Result-take best n id t m (some s) lt (o, le, inr held, rest) =
      (o, omega arith, inr (inr held), ((λ p. le), rest))

  pick_loop-Result :
      (best : Option Session) (n : ℕ) (m : Dict ℕ Session)
      → IsBest best n
      → n ≤ max_int
      → Answer best n m (pick_loop is_closed num_streams best n m)
  unfolding pick_loop values
  pick_loop-Result none n [] h l = (refl, tt)
  pick_loop-Result (some s) n [] h l = (h.0, omega arith, inl refl, tt)
  pick_loop-Result best n ((id, t) ∷ rest) h l = elim (Bool-cases (is_closed t)) [
    | inl c ↦ rw c (Result-skip best n id t rest _ h (λ o. cc) (pick_loop-Result best n rest h l))
    | inr o ↦ elim (Bool-cases (ltb (num_streams t) n)) [
      | inl lt ↦
          rw (o, lt)
            (Result-take best n id t rest _ (ltb→lt _ _ lt) (
              pick_loop-Result (some t) (num_streams t) rest ((o, omega tests), refl)
                (omega tests)))
      | inr ge ↦
          rw (o, ge)
            (Result-skip best n id t rest _ h (λ p. ground arith)
              (pick_loop-Result best n rest h l))
    ]
  ]

  -- Pick returns an open session of the set that carries no more streams than any other open one,
  -- in whatever order the map is walked; and nothing only when no session is open with room for one.
  abbrev pub Picked : List Session → Option Session → Type 0
  Picked l none = All (λ t. is_closed t ≡ false → max_int ≤ num_streams t) l
  Picked l (some s) =
      IsOpen s × Holds l s × All (λ t. is_closed t ≡ false → num_streams s ≤ num_streams t) l

  Result-Picked :
      (m : Dict ℕ Session) (r : Option Session) → Answer none max_int m r → Picked (values m) r
  Result-Picked m none (e, h) = h
  Result-Picked m (some s) (o, le, inl e, h) = cc
  Result-Picked m (some s) (o, le, inr held, h) = (o, held, h)

  pub pick-Picked :
      (s : SessionSet Session) → Picked (values s.sessions) (pick is_closed num_streams s)
  unfolding pick
  pick-Picked s =
      Result-Picked s.sessions _ (pick_loop-Result none max_int s.sessions refl (omega arith))

module _ {Session : Type 0} (is_closed : Session → Bool) where
  healthy_loop_bounds :
      (n : ℕ) (m : Dict ℕ Session)
      → (n ≤ healthy_loop is_closed n m)
        × (healthy_loop is_closed n m ≤ n + length m)
        × ((healthy_loop is_closed n m ≡ n) ↔ All (λ t. is_closed t ≡ true) (values m))
  unfolding healthy_loop values
  healthy_loop_bounds n [] = ground arith
  healthy_loop_bounds n ((id, t) ∷ rest) = elim (Bool-cases (is_closed t)) [
    | inl c ↦ rw c (ground (arith, c, healthy_loop_bounds n rest))
    | inr o ↦ rw o (ground (arith, o, healthy_loop_bounds (n + 1) rest))
  ]

  -- Healthy counts at most the registered sessions, and is zero exactly when all are closed.
  pub healthy_bounds :
      (s : SessionSet Session)
      → (healthy is_closed s ≤ count s)
        × ((healthy is_closed s ≡ 0) ↔ All (λ t. is_closed t ≡ true) (values s.sessions))
  unfolding healthy count
  healthy_bounds s = ground (arith, healthy_loop_bounds 0 s.sessions)
