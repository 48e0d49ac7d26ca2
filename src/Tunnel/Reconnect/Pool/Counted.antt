-- ===== src/Tunnel/Reconnect/Pool/Counted.antt =====
-- internal/tunnel/client.go: the sessions in the set of a pool are those that its goroutines serve.
use cando.Base.{
  ℕ, ◌+◌, ◌^◌, ◌≤◌, ◌<◌, ◌≡◌, inl, inr, refl, sym, subst, ap, ◌∙◌, some, List, [], ◌∷◌, ◌==◌,
  if◌then◌else◌, arith, length, times, Bool-cases, ==_iff, Option-cases, All,
}
use cando.Base.Dict.{nat_eq}
use cando.Config.{ReconnectConfig}
use cando.Mux.{new_session_set, add, drop_session}
use cando.Tunnel.Reconnect.{World, Event, min_backoff, handle}
use cando.Tunnel.Reconnect.Pool.{
  Worker, Pool, nth, set_nth, start_pool, world_of, put_back, worker_step, pool_step, run_pool,
}
use cando.Tunnel.Reconnect.Pool.Served.{
  handles_in, served, keys, times-insert, times-remove, times-set_nth, times-copies, Change, kept,
  came, went, IsOwn, handle_in-Change,
}

-- Each handle is in the set as often as a goroutine serves with it, which is at most once, and those
-- to come are not in use.
pub record IsCounted {Session : Type 0} (p : Pool Session) : Type 0 where
  pub counted : (k : ℕ) → times k (keys p.sessions.sessions) ≡ times k (served p.workers)
  pub once : (k : ℕ) → times k (served p.workers) ≤ 1
  pub fresh : (k : ℕ) → p.sessions.next_id ≤ k → times k (served p.workers) ≡ 0

joined_at_most_once : (t : ℕ → ℕ) (k n : ℕ) → t n ≡ 0 → t k ≤ 1 → t k + times k (n ∷ []) ≤ 1
joined_at_most_once t k n z le = elim (Bool-cases (n == k)) [
  | inl same ↦ let z' = subst (λ j. t j ≡ 0) ((==_iff n k).0 same) z in ground arith
  | inr apart ↦ ground arith
]

times-single_above : (k n : ℕ) → n < k → times k (n ∷ []) ≡ 0
times-single_above k n lt = ground arith

left_in_the_set :
    (k id a b c : ℕ) → a + times k (id ∷ []) ≡ b → b ≤ 1 → c ≡ b → (if id == k then 0 else c) ≡ a
left_in_the_set k id a b c e le f = ground arith

module _ {Session : Type 0} (p : Pool Session) (i : ℕ) (w : Worker Session) (v : World Session)
    (found : nth i p.workers ≡ some w) (h : IsCounted p) where
  kept-IsCounted :
      v.sessions ≡ p.sessions → handles_in v.phase ≡ handles_in w.1 → IsCounted (put_back p i v)
  unfolding put_back
  kept-IsCounted e f =
      let moved = λ (k : ℕ). times-set_nth k i w (v.backoff, v.phase) p.workers found in
      let same = λ (k : ℕ). ap (times k) f in
      let set = λ (k : ℕ). ap (λ s. times k (keys s.sessions)) e in
      record {
        counted = λ k. omega (arith, moved k, same k, set k, h.counted k);
        once = λ k. omega (arith, moved k, same k, h.once k);
        fresh = λ k le. omega (arith, moved k, same k, h.fresh k (subst (λ s. s.next_id ≤ k) e le));
      }

  came-IsCounted :
      (s : Session)
      → v.sessions ≡ (add p.sessions s).0
      → handles_in w.1 ≡ []
      → handles_in v.phase ≡ p.sessions.next_id ∷ []
      → p.sessions.next_id + 1 < 2 ^ 64
      → IsCounted (put_back p i v)
  unfolding put_back add
  came-IsCounted s e f g lt =
      let n = p.sessions.next_id in
      let moved = λ (k : ℕ). times-set_nth k i w (v.backoff, v.phase) p.workers found in
      let before = λ (k : ℕ). ap (times k) f in
      let after = λ (k : ℕ). ap (times k) g in
      let unused = h.counted n ∙ h.fresh n (omega arith) in
      let set = λ (k : ℕ). ap (λ t. times k (keys t.sessions)) e in
      let next = ap (λ t. t.next_id) e in
      record {
        counted = λ k. omega (
          arith,
          moved k,
          before k,
          after k,
          set k,
          h.counted k,
          times-insert k n s p.sessions.sessions unused,
        );
        once = λ k. omega (
          arith,
          moved k,
          before k,
          after k,
          joined_at_most_once (λ j. times j (served p.workers)) k n (h.fresh n (omega arith))
              (h.once k),
        );
        fresh = λ k le. omega (
          arith,
          moved k,
          before k,
          after k,
          times-single_above k n (omega (arith, next, le)),
          h.fresh k (omega (arith, next, le)),
        );
      }

  went-IsCounted :
      (id : ℕ)
      → v.sessions ≡ drop_session p.sessions id
      → handles_in w.1 ≡ id ∷ []
      → handles_in v.phase ≡ []
      → IsCounted (put_back p i v)
  unfolding put_back drop_session
  went-IsCounted id e f g =
      let moved = λ (k : ℕ). times-set_nth k i w (v.backoff, v.phase) p.workers found in
      let before = λ (k : ℕ). ap (times k) f in
      let after = λ (k : ℕ). ap (times k) g in
      let set = λ (k : ℕ). ap (λ t. times k (keys t.sessions)) e in
      let next = ap (λ t. t.next_id) e in
      record {
        counted = λ k.
            set k
            ∙ times-remove k id p.sessions.sessions
            ∙ left_in_the_set k id (times k (served (set_nth i (v.backoff, v.phase) p.workers)))
                (times k (served p.workers)) (times k (keys p.sessions.sessions))
                (omega (arith, moved k, before k, after k)) (h.once k) (h.counted k);
        once = λ k. omega (arith, moved k, before k, after k, h.once k);
        fresh =
            λ k le. omega (arith, moved k, before k, after k, h.fresh k (omega (arith, next, le)));
      }

module _ {Session : Type 0} (p : Pool Session) (i : ℕ) (w : Worker Session) (v : World Session)
    (found : nth i p.workers ≡ some w) (h : IsCounted p) where
  Change-IsCounted :
      p.sessions.next_id + 1 < 2 ^ 64 → Change (world_of p w) v → IsCounted (put_back p i v)
  unfolding world_of
  Change-IsCounted lt (kept e f) = kept-IsCounted p i w v found h e f
  Change-IsCounted lt (came s e f g) = came-IsCounted p i w v found h s e f g lt
  Change-IsCounted lt (went id e f g) = went-IsCounted p i w v found h id e f g

  Change-next_id :
      p.sessions.next_id + 1 < 2 ^ 64
      → Change (world_of p w) v
      → v.sessions.next_id ≤ p.sessions.next_id + 1
  unfolding world_of add drop_session
  Change-next_id lt (kept e f) = omega (arith, ap (λ s. s.next_id) e)
  Change-next_id lt (came s e f g) = omega (arith, ap (λ s. s.next_id) e)
  Change-next_id lt (went id e f g) = omega (arith, ap (λ s. s.next_id) e)

module _ {Session : Type 0} (r : ReconnectConfig) where
  pool_step-IsCounted :
      (p : Pool Session) (i : ℕ) (e : Event Session)
      → p.sessions.next_id + 1 < 2 ^ 64
      → IsOwn e
      → IsCounted p
      → IsCounted (pool_step r p (i, e))
        × ((pool_step r p (i, e)).sessions.next_id ≤ p.sessions.next_id + 1)
  unfolding pool_step worker_step handle put_back
  pool_step-IsCounted p i e lt own h = elim (Option-cases (nth i p.workers)) [
    | inl gone ↦
        let same : pool_step r p (i, e) ≡ p = ap (worker_step r p i e) gone in
        subst (λ q. IsCounted q × (q.sessions.next_id ≤ p.sessions.next_id + 1)) (sym same)
          (h, omega arith)
    | inr (w, found) ↦
        let v = handle r (world_of p w) e in
        let same : pool_step r p (i, e) ≡ put_back p i v = ap (worker_step r p i e) found in
        let change = handle_in-Change r (world_of p w) (world_of p w).phase e refl own in
        subst (λ q. IsCounted q × (q.sessions.next_id ≤ p.sessions.next_id + 1)) (sym same)
          (Change-IsCounted p i w v found h lt change, Change-next_id p i w v found h lt change)
  ]

  run-IsCounted :
      (p : Pool Session) (es : List (ℕ × Event Session))
      → p.sessions.next_id + length es < 2 ^ 64
      → All (λ e. IsOwn e.1) es
      → IsCounted p
      → IsCounted (run_pool r p es)
  unfolding run_pool
  run-IsCounted p [] lt own h = h
  run-IsCounted p ((i, e) ∷ es) lt (o, own) h =
      let (h', le) = pool_step-IsCounted p i e (omega arith) o h in
      run-IsCounted (pool_step r p (i, e)) es (omega (arith, le, lt)) own h'

  start_pool-IsCounted : (size : ℕ) → IsCounted (start_pool {Session = Session} r size)
  unfolding start_pool new_session_set
  start_pool-IsCounted size =
      let none_served = λ (k : ℕ). times-copies Session k size (min_backoff r) in
      record {
        counted = λ k. sym (none_served k);
        once = λ k. omega (arith, none_served k);
        fresh = λ k le. none_served k;
      }

  -- Whatever happens to the client's goroutines, in any order and short of 2^64 events and of Close, a
  -- handle is in the session set exactly as often as a goroutine serves the session with it, no two
  -- goroutines serve with the same handle, and the handles from the next one on are unused.
  pub run_pool-IsCounted :
      (size : ℕ) (es : List (ℕ × Event Session))
      → length es < 2 ^ 64
      → All (λ e. IsOwn e.1) es
      → IsCounted (run_pool r (start_pool r size) es)
  unfolding start_pool new_session_set
  run_pool-IsCounted size es lt own =
      run-IsCounted (start_pool r size) es (omega (arith, lt)) own (start_pool-IsCounted size)
