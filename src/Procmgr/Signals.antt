-- ===== src/Procmgr/Signals.antt =====
-- internal/procmgr/procmgr.go: which signals Stop sends, and how long it waits.
use cando.Base.{
  subst, ltb→lt, if_true, ℕ, zero, suc, ◌+◌, ◌≡◌, ◌≤◌, ◌<◌, refl, true, false, Option, none, some,
  ◌∷◌, arith, ◌⊎◌, inl, inr, ◌∙◌, ap, ltb, Bool-cases, sym,
}
use cando.Base.Int.{pos}
use cando.System.{
  Os, Proc, sigterm, sigkill, running, zombie, ending, remove_file, kill, tick, gone, older,
  older_as, deliver, asked_to_end, set_proc_same,
}
use cando.Procmgr.{Instance, force_kill, or_else, await_exit, stop, read_pid}
use cando.Procmgr.Kills.{process_alive-none, process_alive-some, kill_proc-allowed, kill_proc-none}
use cando.Procmgr.Stopping.{stop_tracked, termed}

-- The process ends in so many tenths of a second, and nobody has to wait for it.
abbrev pub Lasts : ℕ → Option Proc → Type 0
Lasts zero o = o ≡ none
Lasts (suc n) o = (p : Proc) × (o ≡ some p) × (p.life ≡ ending n) × (p.child ≡ false)

-- The process is still there after so many, and at each before.
abbrev pub Survives : ℕ → Option Proc → Type 0
Survives zero o = (p : Proc) × (o ≡ some p) × (p.allowed ≡ true)
Survives (suc n) o = ((p : Proc) × (o ≡ some p)) × Survives n (older o)

older-Lasts : (n : ℕ) (p : Proc) → p.life ≡ ending n → p.child ≡ false → Lasts n (older (some p))
unfolding older older_as gone
older-Lasts zero p l c = rw (l, c) refl
older-Lasts (suc n) p l c = rw l (record p { life = ending n }, refl, refl, c)

-- Stop's loop sees the process end, and sends nothing more.
await_exit-Lasts :
    (m g : ℕ) (i : Instance) (k : ℕ) (os : Os)
    → g ≤ m
    → Lasts g (os.procs (suc k))
    → ((await_exit m i (pos (suc k)) os).sent ≡ os.sent)
      × ((await_exit m i (pos (suc k)) os).clock ≡ os.clock + g)
unfolding await_exit remove_file force_kill kill or_else tick
await_exit-Lasts zero zero i k os h l =
    rw (l, kill_proc-none sigkill (suc k) os) (refl, omega arith)
await_exit-Lasts zero (suc g) i k os h l = absurd (omega arith)
await_exit-Lasts (suc m) zero i k os h l = rw (process_alive-none k os l) (refl, omega arith)
await_exit-Lasts (suc m) (suc g) i k os h (p, e, l, c) =
    let r = await_exit-Lasts m g i k (tick os) (omega arith) (rw e (older-Lasts g p l c)) in
    rw (process_alive-some k os p e) (r.0, omega (arith, r.1))

-- Stop's loop runs out of turns, and the process is killed.
await_exit-Survives :
    (m : ℕ) (i : Instance) (k : ℕ) (os : Os)
    → Survives m (os.procs (suc k))
    → ((await_exit m i (pos (suc k)) os).sent ≡ (suc k, sigkill) ∷ os.sent)
      × ((await_exit m i (pos (suc k)) os).clock ≡ os.clock + m)
unfolding await_exit remove_file force_kill kill or_else tick
await_exit-Survives zero i k os (p, e, a) =
    rw (e, kill_proc-allowed sigkill (suc k) os p a) (refl, omega arith)
await_exit-Survives (suc m) i k os ((p, e), s) =
    let r = await_exit-Survives m i k (tick os) s in
    rw (process_alive-some k os p e) (r.0, omega (arith, r.1))

ending-Survives :
    (m n : ℕ) (p : Proc) → m ≤ n → p.allowed ≡ true → p.life ≡ ending n → Survives m (some p)
unfolding older older_as
ending-Survives zero n p h a l = (p, refl, a)
ending-Survives (suc m) zero p h a l = absurd (omega arith)
ending-Survives (suc m) (suc n) p h a l =
    ((p, refl), rw l (ending-Survives m n (record p { life = ending n }) (omega arith) a refl))

-- What stays as it is survives.
steady-Survives :
    (m : ℕ) (p : Proc) → p.allowed ≡ true → older (some p) ≡ some p → Survives m (some p)
steady-Survives zero p a e = (p, refl, a)
steady-Survives (suc m) p a e = ((p, refl), rw e (steady-Survives m p a e))

-- SIGTERM alone, and the time until the process ended.
abbrev pub Graceful : ℕ → ℕ → Os → Os → Type 0
Graceful g pid os os' = (os'.sent ≡ (pid, sigterm) ∷ os.sent) × (os'.clock ≡ os.clock + g)

-- SIGTERM, two seconds, and SIGKILL.
abbrev pub Forced : ℕ → Os → Os → Type 0
Forced pid os os' =
    (os'.sent ≡ (pid, sigkill) ∷ (pid, sigterm) ∷ os.sent) × (os'.clock ≡ os.clock + 20)

-- By how many tenths of a second a process takes to end on SIGTERM, if it does not ignore it.
abbrev pub Sends : Option ℕ → ℕ → Os → Os → Type 0
Sends none pid os os' = Forced pid os os'
Sends (some g) pid os os' = ((g ≤ 20) × Graceful g pid os os') ⊎ ((20 < g) × Forced pid os os')

asked-Lasts : (g : ℕ) (p : Proc) → p.child ≡ false → Lasts g (asked_to_end running (some g) p)
unfolding asked_to_end gone
asked-Lasts zero p c = rw c refl
asked-Lasts (suc n) p c = (record p { life = ending n }, refl, refl, c)

asked-Survives :
    (m g : ℕ) (p : Proc) → m < g → p.allowed ≡ true → Survives m (asked_to_end running (some g) p)
unfolding asked_to_end
asked-Survives m zero p h a = absurd (omega arith)
asked-Survives m (suc n) p h a =
    ending-Survives m n (record p { life = ending n }) (omega arith) a refl

running-Survives :
    (m : ℕ) (p : Proc)
    → p.allowed ≡ true
    → p.life ≡ running
    → Survives m (asked_to_end running none p)
unfolding asked_to_end older older_as
running-Survives m p a l = steady-Survives m p a (ap (λ x. older_as x p) l)

-- The process right after SIGTERM.
termed_proc :
    (k : ℕ) (p : Proc) (g : Option ℕ) (os : Os)
    → p.life ≡ running
    → p.grace ≡ g
    → (termed (suc k) p os).procs (suc k) ≡ asked_to_end running g p
unfolding termed deliver
termed_proc k p g os l e =
    set_proc_same (suc k) (asked_to_end p.life p.grace p) os.procs
    ∙ ap (λ x. asked_to_end x p.grace p) l
    ∙ ap (λ x. asked_to_end running x p) e

termed-Forced :
    (i : Instance) (k : ℕ) (p : Proc) (os : Os)
    → Survives 20 ((termed (suc k) p os).procs (suc k))
    → Forced (suc k) os (await_exit 20 i (pos (suc k)) (termed (suc k) p os))
unfolding termed
termed-Forced i k p os s = await_exit-Survives 20 i k (termed (suc k) p os) s

termed-Graceful :
    (g : ℕ) (i : Instance) (k : ℕ) (p : Proc) (os : Os)
    → g ≤ 20
    → Lasts g ((termed (suc k) p os).procs (suc k))
    → Graceful g (suc k) os (await_exit 20 i (pos (suc k)) (termed (suc k) p os))
unfolding termed
termed-Graceful g i k p os h l = await_exit-Lasts 20 g i k (termed (suc k) p os) h l

termed-Sends :
    (g : Option ℕ) (i : Instance) (k : ℕ) (p : Proc) (os : Os)
    → p.grace ≡ g
    → p.allowed ≡ true
    → p.life ≡ running
    → p.child ≡ false
    → Sends g (suc k) os (await_exit 20 i (pos (suc k)) (termed (suc k) p os))
termed-Sends none i k p os e a l c =
    termed-Forced i k p os
      (subst (Survives 20) (sym (termed_proc k p none os l e)) (running-Survives 20 p a l))
termed-Sends (some g) i k p os e a l c = elim (Bool-cases (ltb 20 g)) [
  | inl h ↦ inr (
    ltb→lt 20 g h,
    termed-Forced i k p os (
        subst (Survives 20) (sym (termed_proc k p (some g) os l e))
          (asked-Survives 20 g p (ltb→lt 20 g h) a)),
  )
  | inr h ↦ inl (
    ground arith,
    termed-Graceful g i k p os (ground arith)
        (subst (Lasts g) (sym (termed_proc k p (some g) os l e)) (asked-Lasts g p c)),
  )
]

-- A running process that is tracked, that the caller may signal and whose parent has ended is sent
-- SIGTERM by Stop, and nothing else if it ends within two seconds of it, for which Stop waits just as
-- long as it takes; if it takes longer or ignores SIGTERM, it is sent SIGKILL after two seconds.
pub stop-Sends :
    (i : Instance) (os : Os) (k : ℕ) (p : Proc)
    → read_pid i os ≡ some (pos (suc k))
    → os.procs (suc k) ≡ some p
    → p.allowed ≡ true
    → p.life ≡ running
    → p.child ≡ false
    → Sends p.grace (suc k) os (stop i os).1
stop-Sends i os k p r e a l c =
    rw (stop_tracked i os k p r e a) (termed-Sends p.grace i k p os refl a l c)

-- A child that ends at once on SIGTERM is still taken for alive as long as its parent, the caller,
-- runs: Stop waits two seconds for it and sends it SIGKILL.
pub stop-Forced :
    (i : Instance) (os : Os) (k : ℕ) (p : Proc)
    → read_pid i os ≡ some (pos (suc k))
    → os.procs (suc k) ≡ some p
    → p.allowed ≡ true
    → p.life ≡ running
    → p.child ≡ true
    → p.grace ≡ some 0
    → Forced (suc k) os (stop i os).1
unfolding asked_to_end gone older older_as
stop-Forced i os k p r e a l c g = rw (stop_tracked i os k p r e a) (
    termed-Forced i k p os (
      subst (Survives 20)
        (sym (
          termed_proc k p (some 0) os l g
          ∙ if_true p.child (some (record p { life = zombie })) none c))
        (steady-Survives 20 (record p { life = zombie }) a refl)))
