-- ===== src/Tunnel/Reconnect/Pool/Served.antt =====
-- internal/tunnel/client.go: the handles that a pool's goroutines serve with, and what one step of a
-- goroutine does to them and to the session set.
use cando.Base.{
  ℕ, zero, suc, ◌+◌, ◌≡◌, refl, sym, ap, ◌∙◌, some, List, [], ◌∷◌, ◌++◌, ◌==◌, if◌then◌else◌, arith,
  times, times-append,
}
use cando.Base.Dict.{Dict, insert, remove, nat_eq}
use cando.Base.Int.{ℤ}
use cando.Config.{ReconnectConfig}
use cando.Mux.{add, drop_session}
use cando.Tunnel.Reconnect.{
  Phase, dialing, serving, sleeping, stopped, World, Event, failed, established, lost, woke, closes,
  next_round, after_session, end_session, after_sleep, handle_in,
}
use cando.Tunnel.Reconnect.Pool.{Worker, nth, set_nth, copies}

-- The handle of the session that is served in a phase.
abbrev pub handles_in : {Session : Type 0} → Phase Session → List ℕ
handles_in dialing = []
handles_in (serving id s) = id ∷ []
handles_in sleeping = []
handles_in stopped = []

abbrev pub served : {Session : Type 0} → List (Worker Session) → List ℕ
served [] = []
served (w ∷ ws) = handles_in w.1 ++ served ws

abbrev pub keys : {Session : Type 0} → Dict ℕ Session → List ℕ
keys [] = []
keys ((id, s) ∷ m) = id ∷ keys m

module _ {Session : Type 0} where
  pub times-insert :
      (k n : ℕ) (v : Session) (m : Dict ℕ Session)
      → times n (keys m) ≡ 0
      → times k (keys (insert n v m)) ≡ times k (keys m) + times k (n ∷ [])
  unfolding insert
  times-insert k n v [] h = omega arith
  times-insert k n v ((id, s) ∷ m) h = ground (arith, times-insert k n v m)

  pub times-remove :
      (k id : ℕ) (m : Dict ℕ Session)
      → times k (keys (remove id m)) ≡ (if id == k then 0 else times k (keys m))
  unfolding remove
  times-remove k id [] = ground arith
  times-remove k id ((j, s) ∷ m) = ground (arith, times-remove k id m)

  pub times-set_nth :
      (k i : ℕ) (w v : Worker Session) (ws : List (Worker Session))
      → nth i ws ≡ some w
      → times k (served (set_nth i v ws)) + times k (handles_in w.1)
        ≡ times k (served ws) + times k (handles_in v.1)
  unfolding nth set_nth
  times-set_nth k i w v [] h = absurd (ground arith)
  times-set_nth k zero w v (x ∷ ws) h =
      let e : x ≡ w = ground (arith, h) in
      let f = ap (λ u. times k (handles_in u.1)) e in
      omega (
        arith,
        f,
        times-append k (handles_in v.1) (served ws),
        times-append k (handles_in x.1) (served ws),
      )
  times-set_nth k (suc i) w v (x ∷ ws) h = omega (
    arith,
    times-set_nth k i w v ws h,
    times-append k (handles_in x.1) (served ws),
    times-append k (handles_in x.1) (served (set_nth i v ws)),
  )

pub times-copies :
    (Session : Type 0) (k n : ℕ) (b : ℤ)
    → times k (served {Session = Session} (copies n (b, dialing))) ≡ 0
unfolding copies
times-copies Session k zero b = refl
times-copies Session k (suc n) b = times-copies Session k n b

-- What one step of a goroutine does to the set and to the handle that it serves: nothing, a session
-- comes up, or its session ends.
pub data Change {Session : Type 0} (w : World Session) (v : World Session) : Type 0 where
  kept : v.sessions ≡ w.sessions → handles_in v.phase ≡ handles_in w.phase → Change w v
  came :
      (s : Session)
      → v.sessions ≡ (add w.sessions s).0
      → handles_in w.phase ≡ []
      → handles_in v.phase ≡ w.sessions.next_id ∷ []
      → Change w v
  went :
      (id : ℕ)
      → v.sessions ≡ drop_session w.sessions id
      → handles_in w.phase ≡ id ∷ []
      → handles_in v.phase ≡ []
      → Change w v

module _ {Session : Type 0} where
  -- Nobody calls Close.
  abbrev pub IsOwn : Event Session → Type 0
  IsOwn closes = ⊥
  IsOwn failed = Unit
  IsOwn (established s) = Unit
  IsOwn (lost n) = Unit
  IsOwn woke = Unit

module _ {Session : Type 0} (r : ReconnectConfig) where
  after_session-rests :
      (w : World Session) (elapsed : ℕ)
      → ((after_session r w elapsed).sessions ≡ w.sessions)
        × (handles_in (after_session r w elapsed).phase ≡ [])
  unfolding after_session next_round
  after_session-rests w elapsed = ground arith

  after_sleep-rests :
      (w : World Session)
      → ((after_sleep r w).sessions ≡ w.sessions) × (handles_in (after_sleep r w).phase ≡ [])
  unfolding after_sleep next_round
  after_sleep-rests w = ground arith

  pub handle_in-Change :
      (w : World Session) (phase : Phase Session) (e : Event Session)
      → w.phase ≡ phase
      → IsOwn e
      → Change w (handle_in r w phase e)
  unfolding handle_in end_session add
  handle_in-Change w dialing failed h o = kept refl (ap handles_in (sym h))
  handle_in-Change w dialing (established s) h o = came s refl (ap handles_in h) refl
  handle_in-Change w (serving id s) (lost n) h o =
      let (a, b) = after_session-rests (end_session r w id s) n in went id a (ap handles_in h) b
  handle_in-Change w sleeping woke h o =
      let (a, b) = after_sleep-rests w in kept a (b ∙ ap handles_in (sym h))
  handle_in-Change w phase closes h o = absurd o
  handle_in-Change w dialing (lost n) h o = kept refl refl
  handle_in-Change w dialing woke h o = kept refl refl
  handle_in-Change w (serving id s) failed h o = kept refl refl
  handle_in-Change w (serving id s) (established s') h o = kept refl refl
  handle_in-Change w (serving id s) woke h o = kept refl refl
  handle_in-Change w sleeping failed h o = kept refl refl
  handle_in-Change w sleeping (established s) h o = kept refl refl
  handle_in-Change w sleeping (lost n) h o = kept refl refl
  handle_in-Change w stopped failed h o = kept refl refl
  handle_in-Change w stopped (established s) h o = kept refl refl
  handle_in-Change w stopped (lost n) h o = kept refl refl
  handle_in-Change w stopped woke h o = kept refl refl
