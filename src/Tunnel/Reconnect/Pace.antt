-- ===== src/Tunnel/Reconnect/Pace.antt =====
-- How fast maintainSession (internal/tunnel/client.go) redials.
use native.Mathlib.Nat.{pow-succ', add-mul, mul-le-mul_left, one-le-pow}
use cando.Base.{
  ◌∙◌, sym, inl, inr, ℕ, suc, zero, ◌+◌, ◌*◌, ◌≤◌, ◌<◌, ◌^◌, ◌≡◌, refl, ap, true, false, List, [],
  ◌∷◌, if◌then◌else◌, Bool-cases, ltb, min, arith,
}
use cando.Base.Int.{ℤ, pos, negsuc, pos_part, leb_ℤ, ltb_ℤ, times64, times64_exact}
use cando.Config.{ReconnectConfig}
use cando.Tunnel.Reconnect.{
  grow, millisecond, five_seconds, min_backoff, max_backoff, tenth, min_stable, Phase, dialing,
  serving, sleeping, stopped, World, Event, failed, established, lost, woke, closes, start,
  next_round, after_session, after_sleep, end_session, close_client, handle_in, handle, run,
}

-- Delays of positive milliseconds, the least first, below about thirty years.
pub record IsPaced (r : ReconnectConfig) (lo hi : ℕ) : Type 0 where
  pub least : r.min_millis ≡ pos lo
  pub most : r.max_millis ≡ pos hi
  pub positive : 0 < lo
  pub ordered : lo ≤ hi
  pub bounded : hi ≤ 1_000_000_000_000

module _ (r : ReconnectConfig) (lo hi : ℕ) (p : IsPaced r lo hi) where
  min_backoff_exact : min_backoff r ≡ pos (millisecond * lo)
  unfolding min_backoff
  min_backoff_exact = rw p.least ground (arith, p.ordered, p.bounded, times64_exact millisecond lo)

  max_backoff_exact : max_backoff r ≡ pos (millisecond * hi)
  unfolding max_backoff
  max_backoff_exact = rw p.most ground (arith, p.bounded, times64_exact millisecond hi)

  grow_exact :
      (b : ℕ)
      → b ≤ millisecond * hi
      → grow (pos b) (max_backoff r) ≡ pos (min (2 * b) (millisecond * hi))
  unfolding grow
  grow_exact b le =
      rw
        (
          max_backoff_exact,
          times64_exact 2 b (ground (arith, p.bounded, le)) (ground (arith, p.bounded, le)),
        )
        (ground (arith, p.bounded))

at_least_five :
    (x : ℤ)
    → leb_ℤ (pos five_seconds) (if ltb_ℤ x (pos five_seconds) then pos five_seconds else x) ≡ true
at_least_five (pos n) = ground arith
at_least_five (negsuc n) = ground arith

min_stable_least :
    (r : ReconnectConfig) (n : ℕ) → leb_ℤ (min_stable r) (pos n) ≡ true → five_seconds ≤ n
unfolding min_stable
min_stable_least r n e = ground (arith, at_least_five (tenth (times64 3 (max_backoff r))))

-- The backoff lies between the bounds.
pub data Within (lo hi : ℕ) (b : ℤ) : Type 0 where
  within : (n : ℕ) → b ≡ pos n → millisecond * lo ≤ n → n ≤ millisecond * hi → Within lo hi b

module _ (r : ReconnectConfig) (lo hi : ℕ) (p : IsPaced r lo hi) where
  pub min_backoff-Within : Within lo hi (min_backoff r)
  min_backoff-Within =
      within (millisecond * lo) (min_backoff_exact r lo hi p) (omega arith)
        (omega (arith, p.ordered))

  grow-Within : (b : ℤ) → Within lo hi b → Within lo hi (grow b (max_backoff r))
  grow-Within b (within n e l h) =
      let q = p.ordered in
      rw e (
        within (min (2 * n) (millisecond * hi)) (grow_exact r lo hi p n h) (omega arith)
          (omega arith))

  after_session-Within :
      {Session : Type 0} (w : World Session) (n : ℕ)
      → Within lo hi w.backoff
      → Within lo hi (after_session r w n).backoff
  unfolding after_session next_round
  after_session-Within w n h = elim (Bool-cases w.done) [
    | inl d ↦ rw d h
    | inr d ↦ elim (Bool-cases (leb_ℤ (min_stable r) (pos n))) [
      | inl q ↦ rw (d, q) min_backoff-Within
      | inr q ↦ rw (d, q) h
    ]
  ]

  after_sleep-Within :
      {Session : Type 0} (w : World Session)
      → Within lo hi w.backoff
      → Within lo hi (after_sleep r w).backoff
  unfolding after_sleep next_round
  after_sleep-Within w h = elim (Bool-cases w.done) [
    | inl d ↦ rw d h
    | inr d ↦ rw d (grow-Within w.backoff h)
  ]

  close_client-Within :
      {Session : Type 0} (w : World Session)
      → Within lo hi w.backoff
      → Within lo hi (close_client r w).backoff
  unfolding close_client
  close_client-Within w h = elim (Bool-cases w.done) [ inl d ↦ rw d h | inr d ↦ rw d h ]

  handle-Within :
      {Session : Type 0} (w : World Session) (ph : Phase Session) (e : Event Session)
      → Within lo hi w.backoff
      → Within lo hi (handle_in r w ph e).backoff
  unfolding handle_in
  handle-Within w ph closes h = close_client-Within w h
  handle-Within w (serving id s) (lost n) h = after_session-Within (end_session r w id s) n h
  handle-Within w sleeping woke h = after_sleep-Within w h
  handle-Within w dialing failed h = h
  handle-Within w dialing (established s) h = h
  handle-Within w dialing (lost n) h = h
  handle-Within w dialing woke h = h
  handle-Within w (serving id s) failed h = h
  handle-Within w (serving id s) (established s') h = h
  handle-Within w (serving id s) woke h = h
  handle-Within w sleeping failed h = h
  handle-Within w sleeping (established s) h = h
  handle-Within w sleeping (lost n) h = h
  handle-Within w stopped failed h = h
  handle-Within w stopped (established s) h = h
  handle-Within w stopped (lost n) h = h
  handle-Within w stopped woke h = h

  -- However dials fail, sessions come and go and Close is called, the backoff stays between the
  -- configured bounds, for delays of positive milliseconds below about thirty years.
  pub run-Within :
      {Session : Type 0} (es : List (Event Session)) (w : World Session)
      → Within lo hi w.backoff
      → Within lo hi (run r w es).backoff
  unfolding run handle
  run-Within [] w h = h
  run-Within (e ∷ es) w h = run-Within es (handle r w e) (handle-Within w w.phase e h)

-- The dials in a run, and the nanoseconds that sleeping and serving take in it. A sleep that Close
-- ends takes none.
abbrev pub tries : {Session : Type 0} → Phase Session → Event Session → ℕ
tries dialing failed = 1
tries dialing (established s) = 1
tries ph e = 0

abbrev pub takes : {Session : Type 0} → World Session → Phase Session → Event Session → ℕ
takes w (serving id s) (lost n) = n
takes w sleeping woke = if w.done then 0 else pos_part w.backoff
takes w ph e = 0

module _ {Session : Type 0} (r : ReconnectConfig) where
  abbrev pub dials : World Session → List (Event Session) → ℕ
  dials w [] = 0
  dials w (e ∷ es) = tries w.phase e + dials (handle r w e) es

  abbrev pub passed : World Session → List (Event Session) → ℕ
  passed w [] = 0
  passed w (e ∷ es) = takes w w.phase e + passed (handle r w e) es

-- What a phase may still owe: a dial is free where one is due.
abbrev credit : {Session : Type 0} → ℕ → Phase Session → ℕ
credit u dialing = u
credit u ph = 0

abbrev pub unit_of : ℕ → ℕ
unit_of lo = min (millisecond * lo) five_seconds

module _ (r : ReconnectConfig) (lo hi : ℕ) (p : IsPaced r lo hi) where
  after_session-pays :
      {Session : Type 0} (w : World Session) (n : ℕ)
      → credit (unit_of lo) (after_session r w n).phase ≤ n
  unfolding after_session next_round
  after_session-pays w n = elim (Bool-cases w.done) [
    | inl d ↦ rw d (omega arith)
    | inr d ↦ elim (Bool-cases (leb_ℤ (min_stable r) (pos n))) [
      | inl q ↦ let le = min_stable_least r n q in rw (d, q) (omega arith)
      | inr q ↦ rw (d, q) (omega arith)
    ]
  ]

  after_sleep-pays :
      {Session : Type 0} (w : World Session)
      → Within lo hi w.backoff
      → credit (unit_of lo) (after_sleep r w).phase ≤ takes w sleeping woke
  unfolding after_sleep next_round
  after_sleep-pays w (within n e l h) = elim (Bool-cases w.done) [
    | inl d ↦ rw d (omega arith)
    | inr d ↦ rw (d, e) (omega arith)
  ]

  close_client-phase : {Session : Type 0} (w : World Session) → (close_client r w).phase ≡ w.phase
  unfolding close_client
  close_client-phase w = elim (Bool-cases w.done) [ inl d ↦ rw d refl | inr d ↦ rw d refl ]

  tries-closes : {Session : Type 0} (ph : Phase Session) → tries ph closes ≡ 0
  tries-closes dialing = refl
  tries-closes (serving id s) = refl
  tries-closes sleeping = refl
  tries-closes stopped = refl

  -- A dial is paid for by the time that passes before the next one is due.
  pays :
      {Session : Type 0} (w : World Session) (ph : Phase Session) (e : Event Session)
      → w.phase ≡ ph
      → Within lo hi w.backoff
      → tries ph e * unit_of lo + credit (unit_of lo) (handle_in r w ph e).phase
        ≤ takes w ph e + credit (unit_of lo) ph
  unfolding handle_in
  pays w ph closes q h = rw (close_client-phase w, q, tries-closes ph) (omega arith)
  pays w (serving id s) (lost n) q h =
      let le = after_session-pays (end_session r w id s) n in omega arith
  pays w sleeping woke q h = let le = after_sleep-pays w h in omega arith
  pays w dialing failed q h = omega arith
  pays w dialing (established s) q h = omega arith
  pays w dialing (lost n) q h = rw q (omega arith)
  pays w dialing woke q h = rw q (omega arith)
  pays w (serving id s) failed q h = rw q (omega arith)
  pays w (serving id s) (established s') q h = rw q (omega arith)
  pays w (serving id s) woke q h = rw q (omega arith)
  pays w sleeping failed q h = rw q (omega arith)
  pays w sleeping (established s) q h = rw q (omega arith)
  pays w sleeping (lost n) q h = rw q (omega arith)
  pays w stopped failed q h = rw q (omega arith)
  pays w stopped (established s) q h = rw q (omega arith)
  pays w stopped (lost n) q h = rw q (omega arith)
  pays w stopped woke q h = rw q (omega arith)

  dials-passed :
      {Session : Type 0} (es : List (Event Session)) (w : World Session)
      → Within lo hi w.backoff
      → dials r w es * unit_of lo ≤ passed r w es + credit (unit_of lo) w.phase
  unfolding handle
  dials-passed [] w h = omega arith
  dials-passed (e ∷ es) w h =
      let one = pays w w.phase e refl h in
      let rest = dials-passed es (handle r w e) (handle-Within r lo hi p w w.phase e h) in
      rw (add-mul (tries w.phase e) (dials r (handle r w e) es) (unit_of lo)) (omega arith)

  -- For delays of positive milliseconds below about thirty years: from its start each of the client's
  -- goroutines dials at most once for each shortest delay or five seconds, whichever is less, of the
  -- time that its sleeps and its sessions take, and once more.
  pub start-dials :
      {Session : Type 0} (es : List (Event Session))
      → dials r (start r) es * unit_of lo ≤ passed r (start r) es + unit_of lo
  unfolding start
  start-dials es = dials-passed es (start r) (min_backoff-Within r lo hi p)

-- `n` failures in a row, each followed by its sleep.
unfoldable pub failures : {Session : Type 0} → ℕ → List (Event Session)
failures zero = []
failures (suc n) = failed ∷ woke ∷ failures n

one_failure :
    {Session : Type 0} (r : ReconnectConfig) (w : World Session)
    → w.phase ≡ dialing
    → w.done ≡ false
    → handle r (handle r w failed) woke
      ≡ record w { phase = dialing; backoff = grow w.backoff (max_backoff r) }
unfolding handle handle_in after_sleep next_round
one_failure {Session} r w ph d =
    let asleep : World Session = record w { phase = sleeping } in
    let slept : after_sleep r asleep
        ≡ record w { phase = dialing; backoff = grow w.backoff (max_backoff r) } =
      rw d refl in
    ap (λ v. handle r v woke) (ap (λ x. handle_in r w x failed) ph) ∙ slept

doubled : (m b h : ℕ) → 0 < m → min (m * min (2 * b) h) h ≡ min (2 * m * b) h
doubled m b h one =
    let le : h ≤ m * h = grind arith in
    let e : 2 * m * b ≡ m * (2 * b) = grind arith in
    elim (Bool-cases (ltb h (2 * b))) [
      | inl q ↦
          let o : min (2 * b) h ≡ h = ground arith in
          let le' : m * h ≤ m * (2 * b) = grind (arith, mul-le-mul_left m) in
          rw (o, e) (omega arith)
      | inr q ↦ let o : min (2 * b) h ≡ 2 * b = ground arith in rw (o, e) refl
    ]

module _ (r : ReconnectConfig) (lo hi : ℕ) (p : IsPaced r lo hi) where
  -- For delays of positive milliseconds below about thirty years: from a backoff of at most the
  -- longest, before a dial and without Close, the backoff after `n` failures in a row, each with its
  -- sleep, is `2 ^ n` times as long, or the longest if that is less.
  pub run-failures :
      {Session : Type 0} (n : ℕ) (w : World Session) (b : ℕ)
      → w.phase ≡ dialing
      → w.done ≡ false
      → w.backoff ≡ pos b
      → b ≤ millisecond * hi
      → (run r w (failures n)).backoff ≡ pos (min (2 ^ n * b) (millisecond * hi))
  unfolding run failures
  run-failures zero w b ph d e le = e ∙ ap pos (omega arith)
  run-failures (suc n) w b ph d e le =
      let again = record w { phase = dialing; backoff = grow w.backoff (max_backoff r) } in
      let grown : again.backoff ≡ pos (min (2 * b) (millisecond * hi)) =
        ap (λ x. grow x (max_backoff r)) e ∙ grow_exact r lo hi p b le in
      ap (λ v. (run r v (failures n)).backoff) (one_failure r w ph d)
      ∙ run-failures n again (min (2 * b) (millisecond * hi)) refl d grown (omega arith)
      ∙ ap pos (doubled (2 ^ n) b (millisecond * hi) (one-le-pow n 2 (omega arith)))
      ∙ ap (λ k. pos (min (k * b) (millisecond * hi))) (sym (pow-succ' 2 n))
