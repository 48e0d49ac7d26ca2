-- ===== src/Mux/Identity.antt =====
-- The handles of SessionSet in internal/mux/mux.go.
use cando.Base.{ℕ, ◌+◌, ◌%◌, ◌^◌, ◌≤◌, ◌<◌, ◌≡◌, ◌≢◌, List, [], ◌∷◌, arith, All, length}
use cando.Base.Dict.{Dict, insert, remove, nat_eq}
use cando.Mux.{SessionSet, add, drop_session, count, close_all}

-- The calls that change the set.
pub data Call (Session : Type 0) : Type 0 where
  adds : Session → Call Session
  removes : ℕ → Call Session
  closes : Call Session

module _ {Session : Type 0} where
  -- The handles are below `n`, and no two are the same.
  abbrev pub HandlesBelow : ℕ → Dict ℕ Session → Type 0
  HandlesBelow n [] = Unit {0}
  HandlesBelow n ((id, s) ∷ m) = (id < n) × All (λ e. e.0 ≢ id) m × HandlesBelow n m

  abbrev pub IsHandled : SessionSet Session → Type 0
  IsHandled s = HandlesBelow s.next_id s.sessions

  HandlesBelow-mono : (n k : ℕ) (m : Dict ℕ Session) → n ≤ k → HandlesBelow n m → HandlesBelow k m
  HandlesBelow-mono n k [] le h = tt
  HandlesBelow-mono n k ((id, s) ∷ m) le h = (omega arith, h.1, HandlesBelow-mono n k m le h.2)

  All-insert :
      (n id : ℕ) (v : Session) (m : Dict ℕ Session)
      → n ≢ id
      → All (λ e. e.0 ≢ id) m
      → All (λ e. e.0 ≢ id) (insert n v m)
  unfolding insert
  All-insert n id v [] ne h = (ne, tt)
  All-insert n id v ((j, w) ∷ m) ne h = ground (arith, All-insert n id v m)

  insert-HandlesBelow :
      (n : ℕ) (v : Session) (m : Dict ℕ Session)
      → HandlesBelow n m
      → HandlesBelow (n + 1) (insert n v m)
  unfolding insert
  insert-HandlesBelow n v [] h = (omega arith, tt, tt)
  insert-HandlesBelow n v ((id, s) ∷ m) (lt, new, h) =
      ground (arith, All-insert n id v m, insert-HandlesBelow n v m)

  All-remove :
      (n id : ℕ) (m : Dict ℕ Session) → All (λ e. e.0 ≢ id) m → All (λ e. e.0 ≢ id) (remove n m)
  unfolding remove
  All-remove n id [] h = tt
  All-remove n id ((j, w) ∷ m) h = ground (arith, All-remove n id m)

  remove-HandlesBelow :
      (n id : ℕ) (m : Dict ℕ Session) → HandlesBelow n m → HandlesBelow n (remove id m)
  unfolding remove
  remove-HandlesBelow n id [] h = tt
  remove-HandlesBelow n id ((j, w) ∷ m) h =
      ground (arith, All-remove id j m, remove-HandlesBelow n id m)

  insert-new :
      (n : ℕ) (v : Session) (m : Dict ℕ Session)
      → HandlesBelow n m
      → (length (insert n v m) ≡ length m + 1) × (remove n (insert n v m) ≡ m)
  unfolding insert remove
  insert-new n v [] h = ground arith
  insert-new n v ((id, s) ∷ m) h = ground (arith, insert-new n v m)

  next_id-add :
      (s : SessionSet Session) (v : Session)
      → s.next_id + 1 < 2 ^ 64
      → (add s v).0.next_id ≡ s.next_id + 1
  unfolding add
  next_id-add s v h = omega arith

  -- Below the wrap of the counter, Add takes a handle that is not in use: the handles stay distinct,
  -- the count grows by one, and Remove with that handle gives the sessions back as they were.
  pub add-IsHandled :
      (s : SessionSet Session) (v : Session)
      → IsHandled s
      → s.next_id + 1 < 2 ^ 64
      → IsHandled (add s v).0
        × (count (add s v).0 ≡ count s + 1)
        × ((drop_session (add s v).0 (add s v).1).sessions ≡ s.sessions)
  unfolding add drop_session count
  add-IsHandled s v h lt =
      let (size, back) = insert-new s.next_id v s.sessions h in
      let next : (s.next_id + 1) % 2 ^ 64 ≡ s.next_id + 1 = omega arith in
      (rw next (insert-HandlesBelow s.next_id v s.sessions h), size, back)

  pub step : SessionSet Session → Call Session → SessionSet Session
  step s (adds v) = (add s v).0
  step s (removes id) = drop_session s id
  step s closes = (close_all s).0

  pub run : SessionSet Session → List (Call Session) → SessionSet Session
  run s [] = s
  run s (c ∷ cs) = run (step s c) cs

  step-IsHandled :
      (s : SessionSet Session) (c : Call Session)
      → IsHandled s
      → s.next_id + 1 < 2 ^ 64
      → IsHandled (step s c) × ((step s c).next_id ≤ s.next_id + 1)
  unfolding step
  step-IsHandled s (adds v) h lt = ((add-IsHandled s v h lt).0, omega (arith, next_id-add s v lt))
  step-IsHandled s (removes id) h lt =
      unfold drop_session in (remove-HandlesBelow s.next_id id s.sessions h, omega arith)
  step-IsHandled s closes h lt = unfold close_all in (tt, omega arith)

  -- Handles stay distinct over any history of calls that is too short for the counter to reach
  -- 2 ^ 64.
  pub run-IsHandled :
      (cs : List (Call Session)) (s : SessionSet Session)
      → IsHandled s
      → s.next_id + length cs < 2 ^ 64
      → IsHandled (run s cs)
  unfolding run
  run-IsHandled [] s h lt = h
  run-IsHandled (c ∷ cs) s h lt =
      let (h', le) = step-IsHandled s c h (omega arith) in
      run-IsHandled cs (step s c) h' (omega arith)
