-- ===== src/Tunnel/Pipe/Ended.antt =====
-- internal/tunnel/pipe.go and udp.go: pipe and the teardown of bridgeUDP as a whole.
use cando.Base.{
  ◌≡◌, refl, subst, sym, ap, ◌∙◌, Bool, true, ◌&&◌, List, [], ◌∷◌, ◌++◌, arith, Bool-cases, inl,
  inr,
}
use cando.Base.Bytes.{Bytes}
use cando.Tunnel.Pipe.{
  Way, Joint, new_way, new_joint, Event, copies_to_a, copies_to_b, stops_to_a, stops_to_b, closes,
  returns, either_stopped, socket_stopped, close_both, return_, joint_step, run, pipe, bridge_udp,
}
use cando.Tunnel.Pipe.Turns.{
  close_again, has_turn_a, has_turn_b, run-closed, turns_stop_a, turns_stop_b, closed_where_due,
}
use cando.Tunnel.Pipe.Teardown.{run-Same, copy_one_way-over, stop_twice, Grows, run-IsOrdered}

-- Closed, with both copies stopped and the function returned.
abbrev IsOver : Joint → Type 0
IsOver j =
    ((j.closed ≡ true) × (j.returned ≡ true)) × ((j.to_a.stopped ≡ true) × (j.to_b.stopped ≡ true))

-- What a pair of goroutines that closes by `may_close` keeps to, from what came from `b` and from `a`.
pub record IsTornDown (may_close : Bool → Bool → Bool) (from_b from_a : Bytes) (j : Joint)
    : Type 0 where
  pub to_a : j.to_a.delivered ++ j.to_a.pending ≡ from_b
  pub to_b : j.to_b.delivered ++ j.to_b.pending ≡ from_a
  pub due : j.closed ≡ true → may_close j.to_a.stopped j.to_b.stopped ≡ true
  pub over : j.returned ≡ true → IsOver j
  pub final : j.returned ≡ true → (more : List Event) → run may_close j more ≡ j

module _ (may_close : Bool → Bool → Bool) where
  return_again : (j : Joint) → j.returned ≡ true → return_ may_close j ≡ j
  unfolding return_
  return_again j r =
      let e = ap {A = Bool} (λ b. record j { returned = b }) (sym r) in
      elim (Bool-cases (j.closed && (j.to_a.stopped && j.to_b.stopped))) [
        | inl m ↦ rw m e
        | inr m ↦ rw m refl
      ]

  joint_step-over : (j : Joint) (e : Event) → IsOver j → joint_step may_close j e ≡ j
  unfolding joint_step
  joint_step-over j (copies_to_a n) h =
      ap {A = Way} (λ w. record j { to_a = w }) (copy_one_way-over j.closed n j.to_a h.1.0)
  joint_step-over j (copies_to_b n) h =
      ap {A = Way} (λ w. record j { to_b = w }) (copy_one_way-over j.closed n j.to_b h.1.1)
  joint_step-over j stops_to_a h =
      ap {A = Way} (λ w. record j { to_a = w }) (stop_twice j.to_a h.1.0)
  joint_step-over j stops_to_b h =
      ap {A = Way} (λ w. record j { to_b = w }) (stop_twice j.to_b h.1.1)
  joint_step-over j closes h = close_again may_close j h.0.0
  joint_step-over j returns h = return_again j h.0.1

  run-over : (j : Joint) (es : List Event) → IsOver j → run may_close j es ≡ j
  unfolding run
  run-over j [] h = refl
  run-over j (e ∷ es) h = ap (λ k. run may_close k es) (joint_step-over j e h) ∙ run-over j es h

  run-IsTornDown :
      (from_b from_a : Bytes) (es : List Event)
      → Grows may_close
      → IsTornDown may_close from_b from_a (run may_close (new_joint from_b from_a) es)
  unfolding new_joint new_way
  run-IsTornDown from_b from_a es g =
      let start = new_joint from_b from_a in
      let (a, b) = run-Same may_close start es in
      let h = run-IsOrdered may_close g start es (record { due = λ c. cc; over = λ r. cc }) in
      record {
        to_a = a;
        to_b = b;
        due = h.due;
        over = λ r. (((h.over r).0, r), (h.over r).1);
        final = λ r more. run-over _ more (((h.over r).0, r), (h.over r).1);
      }

either_stopped-Grows : Grows either_stopped
unfolding either_stopped
either_stopped-Grows a b h = ground arith

socket_stopped-Grows : Grows socket_stopped
unfolding socket_stopped
socket_stopped-Grows a b h = (h, refl)

-- Whatever pipe's goroutines do and however they are ordered, each end has a first part of what the
-- other sent, in order and once, and the rest is still to come; the connections are closed only after
-- a copy has stopped; and pipe returns only with both connections closed and both copies stopped, after
-- which nothing changes any more.
pub pipe-IsTornDown :
    (from_b from_a : Bytes) (es : List Event)
    → IsTornDown either_stopped from_b from_a (pipe (new_joint from_b from_a) es)
unfolding pipe
pipe-IsTornDown from_b from_a es =
    run-IsTornDown either_stopped from_b from_a es either_stopped-Grows

-- bridgeUDP tears down in the same way, but closes only after the copy to the socket has stopped.
pub bridge_udp-IsTornDown :
    (from_b from_a : Bytes) (es : List Event)
    → IsTornDown socket_stopped from_b from_a (bridge_udp (new_joint from_b from_a) es)
unfolding bridge_udp
bridge_udp-IsTornDown from_b from_a es =
    run-IsTornDown socket_stopped from_b from_a es socket_stopped-Grows

run-append :
    (may_close : Bool → Bool → Bool) (j : Joint) (es fs : List Event)
    → run may_close j (es ++ fs) ≡ run may_close (run may_close j es) fs
unfolding run
run-append may_close j [] fs = refl
run-append may_close j (e ∷ es) fs = run-append may_close (joint_step may_close j e) es fs

module _ (may_close : Bool → Bool → Bool) where
  return_-IsOver :
      (j : Joint)
      → j.closed ≡ true
      → j.to_a.stopped ≡ true
      → j.to_b.stopped ≡ true
      → IsOver (return_ may_close j)
  unfolding return_
  return_-IsOver j c a b = rw (c, a, b) ((refl, refl), (refl, refl))

  -- Close, a turn of either copy, and the end of the function.
  run_out :
      (j : Joint) (turns more : List Event)
      → may_close j.to_a.stopped j.to_b.stopped ≡ true
      → has_turn_a turns ≡ true
      → has_turn_b turns ≡ true
      → IsOver (run may_close j (closes ∷ (turns ++ (returns ∷ more))))
  unfolding run joint_step
  run_out j turns more m a b =
      let k = close_both may_close j in
      let c : k.closed ≡ true = closed_where_due may_close j m in
      let l = run may_close k turns in
      let o =
        return_-IsOver l (run-closed may_close k turns c) (turns_stop_a may_close k turns c (inr a))
          (turns_stop_b may_close k turns c (inr b)) in
      subst IsOver
        (sym (run-append may_close k turns (returns ∷ more) ∙ run-over may_close _ more o)) o

-- Once either copy has stopped, pipe returns: after its Close, a turn of each of the two goroutines, in
-- which a copy that has not stopped fails on the closed connections, and the end of pipe, whatever else
-- happens before, between and behind.
pub pipe-returns :
    (from_b from_a : Bytes) (before turns more : List Event)
    → let j = pipe (new_joint from_b from_a) before in
      either_stopped j.to_a.stopped j.to_b.stopped ≡ true
      → has_turn_a turns ≡ true
      → has_turn_b turns ≡ true
      → (pipe (new_joint from_b from_a) (before ++ (closes ∷ (turns ++ (returns ∷ more))))).returned
        ≡ true
unfolding pipe
pipe-returns from_b from_a before turns more h a b =
    let last = closes ∷ (turns ++ (returns ∷ more)) in
    ap (λ j. j.returned) (run-append either_stopped (new_joint from_b from_a) before last)
    ∙ (run_out either_stopped (run either_stopped (new_joint from_b from_a) before) turns more h a
        b).0.1
