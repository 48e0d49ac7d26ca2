-- ===== src/Tunnel/Dispatch/Waiting.antt =====
-- How waitSession (internal/tunnel/client.go, internal/tunnel/server.go) ends.
use cando.Base.{
  refl, inl, inr, ltb→lt, ℕ, zero, suc, ◌+◌, ◌*◌, ◌<◌, ◌≤◌, ◌≡◌, ◌⊎◌, true, false, Bool-cases,
  Option, none, some, ltb, arith,
}
use cando.Tunnel.Dispatch.{
  poll_interval, closed_by, woken_at, poll, Waited, found, timed_out, shut_down, out_of_polls,
  wait_until, wait_session,
}

-- `done` was closed by then.
abbrev pub WasClosed : Option ℕ → ℕ → Type 0
WasClosed none t = ⊥
WasClosed (some c) t = c ≤ t

-- The end came at a time: with the session that Pick gave then, or after the deadline while Pick gave
-- none, or with `done` closed.
abbrev pub HasCause :
    {Session : Type 0} → (ℕ → Option Session) → Option ℕ → ℕ → Waited Session → Type 0
HasCause picks closed deadline (found t sess) = picks t ≡ some sess
HasCause picks closed deadline (timed_out t) = (picks t ≡ none) × (deadline < t)
HasCause picks closed deadline (shut_down t) = WasClosed closed t
HasCause picks closed deadline out_of_polls = ⊥

abbrev pub time_of : {Session : Type 0} → Waited Session → ℕ
time_of (found t sess) = t
time_of (timed_out t) = t
time_of (shut_down t) = t
time_of out_of_polls = 0

-- Not after the start, or at most so much after `done` is closed, if it is.
abbrev pub IsPrompt : Option ℕ → ℕ → ℕ → ℕ → Type 0
IsPrompt none start most t = Unit
IsPrompt (some c) start most t = (t ≤ start) ⊎ (t ≤ c + most)

pub record EndsWell {Session : Type 0} (picks : ℕ → Option Session) (closed : Option ℕ)
    (start deadline most : ℕ) (w : Waited Session) : Type 0 where
  pub cause : HasCause picks closed deadline w
  pub in_time : time_of w ≤ deadline + poll_interval + most
  pub prompt : IsPrompt closed start most (time_of w)

module _ {Session : Type 0} (picks : ℕ → Option Session) (closed : Option ℕ) (late : ℕ → ℕ)
    (most : ℕ) (timely : (t : ℕ) → late t ≤ most) where
  closed-IsPrompt :
      (start deadline now : ℕ) (o : Option ℕ)
      → closed_by o (now + poll_interval) ≡ true
      → now ≤ deadline
      → IsPrompt o start most now
      → WasClosed o (woken_at o now)
        × (woken_at o now ≤ deadline + poll_interval + most)
        × IsPrompt o start most (woken_at o now)
  unfolding closed_by woken_at
  closed-IsPrompt start deadline now none e le p = absurd (ground arith)
  closed-IsPrompt start deadline now (some c) e le p = ground arith

  next_poll-IsPrompt :
      (start now : ℕ) (o : Option ℕ)
      → closed_by o (now + poll_interval) ≡ false
      → IsPrompt o start most (now + poll_interval + late now)
  unfolding closed_by
  next_poll-IsPrompt start now none e = tt
  next_poll-IsPrompt start now (some c) e = inr (ground (arith, timely now))

  poll-EndsWell :
      (start deadline now : ℕ) (o : Option Session) (again : Waited Session)
      → picks now ≡ o
      → now ≤ deadline + poll_interval + most
      → IsPrompt closed start most now
      → (ltb deadline now ≡ false
          → closed_by closed (now + poll_interval) ≡ false
          → EndsWell picks closed start deadline most again)
      → EndsWell picks closed start deadline most (
          poll o now
            (ltb deadline now)
            (closed_by closed (now + poll_interval))
            (woken_at closed now)
            again)
  unfolding poll
  poll-EndsWell start deadline now (some sess) again e le p next = record {
    cause = e;
    in_time = le;
    prompt = p;
  }
  poll-EndsWell start deadline now none again e le p next = elim (Bool-cases (ltb deadline now)) [
    | inl q ↦ rw q (record { cause = (e, ltb→lt deadline now q); in_time = le; prompt = p })
    | inr q ↦ elim (Bool-cases (closed_by closed (now + poll_interval))) [
      | inl d ↦
          let (c, b, r) = closed-IsPrompt start deadline now closed d (ground arith) p in
          rw (q, d) (record { cause = c; in_time = b; prompt = r })
      | inr d ↦ rw (q, d) (next q d)
    ]
  ]

  wait_until-EndsWell :
      (polls start deadline now : ℕ)
      → deadline < now + polls * poll_interval
      → now ≤ deadline + poll_interval + most
      → IsPrompt closed start most now
      → EndsWell picks closed start deadline most
          (wait_until picks closed late (suc polls) deadline now)
  unfolding wait_until
  wait_until-EndsWell zero start deadline now lt le p =
      poll-EndsWell start deadline now (picks now) out_of_polls refl le p
        (λ q d. absurd (ground arith))
  wait_until-EndsWell (suc polls) start deadline now lt le p =
      let later = now + poll_interval + late now in
      poll-EndsWell start deadline now (picks now)
        (wait_until picks closed late (suc polls) deadline later) refl le p
        (λ q d.
          wait_until-EndsWell polls start deadline later (omega arith) (ground (arith, timely now))
            (next_poll-IsPrompt start now closed d))

start-IsPrompt : (closed : Option ℕ) (most now : ℕ) → IsPrompt closed now most now
start-IsPrompt none most now = tt
start-IsPrompt (some c) most now = inl (omega arith)

-- With a poll for each tenth of a second of the timeout, one for what is left and one more, and polls
-- that come at most `most` nanoseconds late, waitSession ends: with a session that Pick gave then, or
-- without one, after the deadline when Pick gave none, or after `done` was closed. It ends at most a
-- tenth of a second and `most` nanoseconds after the deadline, and, if `done` is closed after its
-- start, at most `most` nanoseconds after that.
pub wait_session-EndsWell :
    {Session : Type 0} (picks : ℕ → Option Session) (closed : Option ℕ) (late : ℕ → ℕ)
    (most polls timeout now : ℕ)
    → ((t : ℕ) → late t ≤ most)
    → timeout < polls * poll_interval
    → EndsWell picks closed now
        (now + timeout)
        most
        (wait_session picks closed late (suc polls) timeout now)
unfolding wait_session
wait_session-EndsWell picks closed late most polls timeout now timely lt =
    wait_until-EndsWell picks closed late most timely polls now (now + timeout) now (omega arith)
      (omega arith) (start-IsPrompt closed most now)
