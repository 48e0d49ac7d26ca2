-- ===== src/Procmgr/Settled.antt =====
-- internal/procmgr/procmgr.go: what Stop and Start leave of the command of a configuration.
use cando.Base.{
  ℕ, zero, suc, ◌≡◌, ◌<◌, ◌^◌, refl, Bool, false, Option, none, some, arith, ◌∙◌, ap, sym, subst,
  ◌⊎◌, inl, inr, Bool-cases,
}
use cando.Base.Bytes.{Bytes}
use cando.Base.Int.{ℤ, pos, negsuc}
use cando.Base.Decimal.{itoa}
use cando.System.{Os, Proc, write_file, remove_file, kill, sigterm}
use cando.Procmgr.{
  Instance, process_alive, read_pid, status, command, spawned, stop, stop_pid, after_sigterm,
  terminate,
}
use cando.Procmgr.Kills.{
  process_alive-negative, kill_proc-denied, process_alive-none, process_alive-some, Down,
}
use cando.Procmgr.Stopping.{IsStopped, stop-IsStopped}
use cando.Procmgr.Starting.{status-some, read_pid-write_file, fresh}
use cando.Procmgr.Tracking.{Runs, IsAlive, same, aged-Runs, set_proc-Runs, IsTracked, IsIdle}

-- Nothing changed, or nothing of the command is alive.
abbrev pub Settled : Bytes → Instance → Os → Os → Type 0
Settled exe i os os' = (os' ≡ os) ⊎ (IsIdle exe i os' × (os'.writable ≡ os.writable))

module _ (exe : Bytes) (i : Instance) where
  -- Where the number in the pid file is of no process, the command is not alive.
  IsIdle-unless :
      (os : Os) (r : Option ℤ)
      → IsTracked exe i os
      → read_pid i os ≡ r
      → ((k : ℕ) → r ≡ some (pos (suc k)) → os.procs (suc k) ≡ none)
      → IsIdle exe i os
  IsIdle-unless os r t e f a zero u = absurd (omega (arith, (t.tracked a zero u).1))
  IsIdle-unless os r t e f a (suc k) u =
      subst (Runs a (command exe i)) (f k (sym e ∙ (t.tracked a (suc k) u).2)) u

  stale-Settled :
      (os : Os) (r : ℤ)
      → process_alive os r ≡ false
      → IsIdle exe i os
      → Settled exe i os (stop_pid i os (some r)).1
  unfolding stop_pid remove_file
  stale-Settled os r e h = rw e (inr (h, refl))

  Down-ends : (a b : Bool) (o : Option Proc) → Down b o → Runs a (command exe i) o → ⊥
  Down-ends a b none d r = r
  Down-ends a b (some p) d r = subst IsAlive d.1 r.2

  -- Of the command, only the process that was stopped was alive.
  stopped-IsIdle :
      (os os' : Os) (k : ℕ) (b : Bool)
      → IsTracked exe i os
      → read_pid i os ≡ some (pos (suc k))
      → IsStopped b i (suc k) 20 os os'
      → IsIdle exe i os'
  stopped-IsIdle os os' k b t e s a q u = elim (same q (suc k)) [
    | inl h ↦
        Down-ends a b (os'.procs (suc k)) s.down
          (subst (λ x. Runs a (command exe i) (os'.procs x)) h u)
    | inr h ↦ h (
        ground (
          arith,
          (t.tracked a q (
              aged-Runs s.spent a (command exe i) (os.procs q)
                (subst (Runs a (command exe i)) (s.others q h) u))).2,
        ))
  ]

  stop_read : (os : Os) (r : Option ℤ) → read_pid i os ≡ r → stop i os ≡ stop_pid i os r
  unfolding stop
  stop_read os r e = ap (stop_pid i os) e

  stop_denied :
      (os : Os) (k : ℕ) (p : Proc)
      → os.procs (suc k) ≡ some p
      → p.allowed ≡ false
      → (stop_pid i os (some (pos (suc k)))).1 ≡ os
  unfolding stop_pid terminate kill after_sigterm
  stop_denied os k p e a =
      rw (process_alive-some k os p e, e, kill_proc-denied sigterm (suc k) os p a) refl

  -- Stop, by what the number in the pid file is of.
  stop_proc-Settled :
      (os : Os) (k : ℕ) (o : Option Proc)
      → IsTracked exe i os
      → read_pid i os ≡ some (pos (suc k))
      → os.procs (suc k) ≡ o
      → Settled exe i os (stop i os).1
  stop_proc-Settled os k none t r e = rw (stop_read os (some (pos (suc k))) r) (
      stale-Settled os (pos (suc k)) (process_alive-none k os e) (
        IsIdle-unless os (some (pos (suc k))) t r
          (λ j f. subst (λ x. os.procs (suc x) ≡ none) (ground arith) e)))
  stop_proc-Settled os k (some p) t r e = elim (Bool-cases p.allowed) [
    | inl a ↦
        let s = (stop-IsStopped i os k p r e a).1 in
        inr (stopped-IsIdle os (stop i os).1 k p.child t r s, s.writable)
    | inr a ↦ inl (ap (λ x. x.1) (stop_read os (some (pos (suc k))) r) ∙ stop_denied os k p e a)
  ]

  stop_pid-Settled :
      (os : Os) (r : Option ℤ)
      → IsTracked exe i os
      → read_pid i os ≡ r
      → Settled exe i os (stop i os).1
  unfolding stop_pid process_alive
  stop_pid-Settled os none t e = inl (ap (λ x. x.1) (stop_read os none e))
  stop_pid-Settled os (some (negsuc n)) t e = rw (stop_read os (some (negsuc n)) e) (
      stale-Settled os (negsuc n) (process_alive-negative n os)
        (IsIdle-unless os (some (negsuc n)) t e (λ k f. absurd (ground arith))))
  stop_pid-Settled os (some (pos zero)) t e = rw (stop_read os (some (pos 0)) e) (
      stale-Settled os (pos 0) refl
        (IsIdle-unless os (some (pos 0)) t e (λ k f. absurd (ground arith))))
  stop_pid-Settled os (some (pos (suc k))) t e = stop_proc-Settled os k (os.procs (suc k)) t e refl

  pub stop-Settled : (os : Os) → IsTracked exe i os → Settled exe i os (stop i os).1
  stop-Settled os t = stop_pid-Settled os (read_pid i os) t refl

  pub Settled-IsTracked :
      (os os' : Os) → IsTracked exe i os → Settled exe i os os' → IsTracked exe i os'
  Settled-IsTracked os os' t (inl e) = subst (IsTracked exe i) (sym e) t
  Settled-IsTracked os os' t (inr (h, w)) = record {
    log = ap (λ f. f i.log_path) w ∙ t.log;
    pid = ap (λ f. f i.pid_path) w ∙ t.pid;
    tracked = λ a q u. absurd (h a q u);
  }

  found :
      (os : Os) (k : ℕ) (a : Bool) (o : Option Proc)
      → os.procs (suc k) ≡ o
      → Runs a (command exe i) o
      → read_pid i os ≡ some (pos (suc k))
      → (status i os).0 ≡ false
      → ⊥
  found os k a none e u r s = u
  found os k a (some p) e u r s = ground (arith, status-some i os k p r e)

  -- Where Status tells of nothing, nothing of the command is alive.
  pub status-IsIdle : (os : Os) → IsTracked exe i os → (status i os).0 ≡ false → IsIdle exe i os
  status-IsIdle os t s a zero u = omega (arith, (t.tracked a zero u).1)
  status-IsIdle os t s a (suc k) u =
      found os k a (os.procs (suc k)) refl u (t.tracked a (suc k) u).2 s

  pub idle-IsTracked :
      (os os' : Os)
      → IsTracked exe i os
      → IsIdle exe i os
      → os'.procs ≡ os.procs
      → os'.writable ≡ os.writable
      → IsTracked exe i os'
  idle-IsTracked os os' t h p w =
      Settled-IsTracked os os' t
        (inr ((λ a q u. h a q (subst (λ f. Runs a (command exe i) (f q)) p u)), w))

  -- A process that is started where nothing of the command is alive, with its number written.
  pub spawned-IsTracked :
      (os : Os) (k : ℕ) (grace : Option ℕ)
      → IsTracked exe i os
      → IsIdle exe i os
      → suc k < 2 ^ 63
      → IsTracked exe i (write_file i.pid_path (itoa (suc k)) (spawned exe i (suc k) grace os))
  unfolding spawned write_file
  spawned-IsTracked os k grace t h n = record {
    log = t.log;
    pid = t.pid;
    tracked = λ a q u.
        elim (set_proc-Runs a (command exe i) (suc k) q (some (fresh exe i grace)) os.procs u) [
          | inl (e, f) ↦ (
            sym f.1,
            ground arith,
            read_pid-write_file i (suc k) (spawned exe i (suc k) grace os) n
                ∙ ap (λ x. some (pos x)) (sym e),
          )
          | inr (e, f) ↦ absurd (h a q f)
        ];
  }
