-- ===== src/Tunnel/Slots/Balance.antt =====
-- The goroutines of internal/tunnel/server.go and their handshake slots.
use cando.Mux.{drop_session}
use cando.Base.{
  ◌∙◌, sym, ltb→lt, ◌≢◌, ℕ, suc, ◌≡◌, ◌≤◌, refl, ap, inl, inr, Bool, true, false, Bool-cases,
  Option, some, none, Option-cases, [], ◌∷◌, ltb, if◌then◌else◌, arith,
}
use cando.Tunnel.Slots.{
  refuse_conn, close_server, refuses, closes, max_inflight_handshakes, Conns, Hub, release_as,
  released, set_released, leave, new_hub, accept_conn, release_slot, finish, turn_away, establish,
  disconnect, Step, accepts, turns_away, establishes, disconnects, Reach, here, next,
}

-- The goroutines that hold a slot.
unfoldable pub holding : Conns → ℕ
holding [] = 0
holding ((c, r) ∷ m) = if r then holding m else suc (holding m)

-- Every slot in use is held by one goroutine before its session is up, and there are no more.
pub record IsBalanced {Session : Type 0} (h : Hub Session) : Type 0 where
  pub held : h.taken ≡ holding h.conns
  pub bounded : h.taken ≤ max_inflight_handshakes

holding-set_released :
    (c : ℕ) (m : Conns) → released c m ≡ some false → suc (holding (set_released c m)) ≡ holding m
unfolding holding released set_released
holding-set_released c [] e = ground arith
holding-set_released c ((d, r) ∷ m) e = ground (arith, holding-set_released c m)

released-set_released :
    (c : ℕ) (m : Conns) → released c m ≡ some false → released c (set_released c m) ≡ some true
unfolding released set_released
released-set_released c [] e = ground arith
released-set_released c ((d, r) ∷ m) e = ground (arith, released-set_released c m)

holding-leave : (c : ℕ) (m : Conns) → released c m ≡ some true → holding (leave c m) ≡ holding m
unfolding holding released leave
holding-leave c [] e = ground arith
holding-leave c ((d, r) ∷ m) e = ground (arith, holding-leave c m)

leave-absent : (c : ℕ) (m : Conns) → released c m ≡ none → leave c m ≡ m
unfolding released leave
leave-absent c [] e = refl
leave-absent c ((d, r) ∷ m) e = ground (arith, leave-absent c m)

release_as-IsBalanced :
    {Session : Type 0} (h : Hub Session) (c : ℕ) (o : Option Bool)
    → released c h.conns ≡ o
    → IsBalanced h
    → IsBalanced (release_as h c o) × (released c (release_as h c o).conns ≢ some false)
unfolding release_as
release_as-IsBalanced h c none e b = (b, λ q. ground arith)
release_as-IsBalanced h c (some true) e b = (b, λ q. ground arith)
release_as-IsBalanced h c (some false) e b =
    let one = holding-set_released c h.conns e in
    let held = b.held in
    let bounded = b.bounded in
    (
      record { held = omega arith; bounded = omega arith },
      λ q. ground (arith, released-set_released c h.conns e),
    )

release_slot-IsBalanced :
    {Session : Type 0} (h : Hub Session) (c : ℕ)
    → IsBalanced h
    → IsBalanced (release_slot h c) × (released c (release_slot h c).conns ≢ some false)
unfolding release_slot
release_slot-IsBalanced h c b = release_as-IsBalanced h c (released c h.conns) refl b

holding-left : (c : ℕ) (m : Conns) → released c m ≢ some false → holding (leave c m) ≡ holding m
holding-left c m ne = elim (Option-cases (released c m)) [
  | inl e ↦ ap holding (leave-absent c m e)
  | inr (r, e) ↦ elim (Bool-cases r) [
    | inl q ↦ holding-leave c m (e ∙ ap some q)
    | inr q ↦ absurd (ne (e ∙ ap some q))
  ]
]

finish-IsBalanced :
    {Session : Type 0} (h : Hub Session) (c : ℕ) → IsBalanced h → IsBalanced (finish h c)
unfolding finish
finish-IsBalanced h c b =
    let (b', ne) = release_slot-IsBalanced h c b in
    record {
      held = b'.held ∙ sym (holding-left c (release_slot h c).conns ne);
      bounded = b'.bounded;
    }

accept_conn-IsBalanced :
    {Session : Type 0} (h : Hub Session) (c : ℕ) → IsBalanced h → IsBalanced (accept_conn h c)
unfolding accept_conn holding
accept_conn-IsBalanced h c b = elim (Bool-cases (ltb h.taken max_inflight_handshakes)) [
  | inr q ↦ rw q b
  | inl q ↦
      let held = b.held in
      let lt = ltb→lt h.taken max_inflight_handshakes q in
      rw q (record { held = omega arith; bounded = omega arith })
]

refuse_conn-IsBalanced :
    {Session : Type 0} (h : Hub Session) (c : ℕ) → IsBalanced h → IsBalanced (refuse_conn h c)
unfolding refuse_conn
refuse_conn-IsBalanced h c b = elim (Bool-cases h.done) [
  | inl d ↦ rw d (record { held = b.held; bounded = b.bounded })
  | inr d ↦ rw d (record { held = b.held; bounded = b.bounded })
]

close_server-IsBalanced :
    {Session : Type 0} (h : Hub Session) → IsBalanced h → IsBalanced (close_server h)
unfolding close_server
close_server-IsBalanced h b = elim (Bool-cases h.done) [
  | inl d ↦ rw d (record { held = b.held; bounded = b.bounded })
  | inr d ↦ rw d (record { held = b.held; bounded = b.bounded })
]

Step-IsBalanced : {Session : Type 0} {h g : Hub Session} → Step h g → IsBalanced h → IsBalanced g
unfolding turn_away establish disconnect
Step-IsBalanced {h = h} (accepts c) b = accept_conn-IsBalanced h c b
Step-IsBalanced {h = h} (refuses c) b = refuse_conn-IsBalanced h c b
Step-IsBalanced {h = h} closes b = close_server-IsBalanced h b
Step-IsBalanced {h = h} (turns_away c) b = finish-IsBalanced h c b
Step-IsBalanced {h = h} (establishes c s) b =
    let b' = (release_slot-IsBalanced h c b).0 in record { held = b'.held; bounded = b'.bounded }
Step-IsBalanced {h = h} (disconnects c id) b =
    finish-IsBalanced (record h { sessions = drop_session h.sessions id }) c
      (record { held = b.held; bounded = b.bounded })

-- However connections are accepted, refused, turned away, established and lost and Close is called,
-- from the start on the slots in use are those of the goroutines that have not released theirs, each
-- its one, and at most 1024.
pub Reach-IsBalanced : {Session : Type 0} {h : Hub Session} → Reach new_hub h → IsBalanced h
unfolding new_hub holding
Reach-IsBalanced here = record { held = refl; bounded = omega arith }
Reach-IsBalanced (next r s) = Step-IsBalanced s (Reach-IsBalanced r)
