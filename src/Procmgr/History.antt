-- ===== src/Procmgr/History.antt =====
-- internal/procmgr/procmgr.go over time: Start, Stop and Restart of one configuration, while other
-- programs start, processes end, and the program that started them ends.
use cando.Base.{
  ℕ, zero, suc, ◌≡◌, ◌≢◌, ◌<◌, ◌^◌, refl, Bool, true, Option, none, some, List, arith, sym, subst,
  inl, inr, Bool-cases,
}
use cando.Base.Bytes.{Bytes}
use cando.Base.Int.{pos}
use cando.System.{Os, Proc, set_proc, exits, ended, caller_ends, tick}
use cando.Procmgr.{
  Instance, read_pid, status, command, Spawn, created, launch, start, stop, restart, start_after,
  StopError,
}
use cando.Procmgr.Starting.{created_rest, status-some}
use cando.Procmgr.Settled.{
  idle-IsTracked, spawned-IsTracked, stop-Settled, status-IsIdle, Settled-IsTracked,
}
use cando.Procmgr.Tracking.{
  Runs, older-Runs, ended-Runs, orphan-Runs, set_proc-Runs, IsTracked, IsIdle,
}

-- A number that the system can give a process.
abbrev pub FitsPid : Spawn → Type 0
FitsPid none = Unit
FitsPid (some (pid, grace)) = (0 < pid) × (pid < 2 ^ 63)

module _ (exe : Bytes) (i : Instance) where
  launch-IsTracked :
      (os : Os) (spawn : Spawn)
      → IsTracked exe i os
      → IsIdle exe i os
      → FitsPid spawn
      → IsTracked exe i (launch exe i spawn os).1
  unfolding launch
  launch-IsTracked os none t h f = t
  launch-IsTracked os (some (zero, grace)) t h f = absurd (omega (arith, f.0))
  launch-IsTracked os (some (suc k, grace)) t h f =
      rw t.pid (spawned-IsTracked exe i os k grace t h f.1)

  start-IsTracked :
      (os : Os) (spawn : Spawn)
      → IsTracked exe i os
      → FitsPid spawn
      → IsTracked exe i (start exe i spawn os).1
  unfolding start
  start-IsTracked os spawn t f = elim (Bool-cases (status i os).0) [
    | inl s ↦ rw s t
    | inr s ↦
        let h = status-IsIdle exe i os t s in
        let c = created_rest i.log_path (os.files i.log_path) os in
        rw (s, t.log)
          (launch-IsTracked (created i.log_path (os.files i.log_path) os) spawn
            (idle-IsTracked exe i os (created i.log_path (os.files i.log_path) os) t h c.0 c.1)
            (subst (λ g. (a : Bool) (q : ℕ) → Runs a (command exe i) (g q) → ⊥) (sym c.0) h) f)
  ]

  stop-IsTracked : (os : Os) → IsTracked exe i os → IsTracked exe i (stop i os).1
  stop-IsTracked os t = Settled-IsTracked exe i os (stop i os).1 t (stop-Settled exe i os t)

  start_after-IsTracked :
      (spawn : Spawn) (r : Option StopError × Os)
      → IsTracked exe i r.1
      → FitsPid spawn
      → IsTracked exe i (start_after exe i spawn r).1
  unfolding start_after
  start_after-IsTracked spawn (none, os) t f = start-IsTracked os spawn t f
  start_after-IsTracked spawn (some e, os) t f = t

  restart-IsTracked :
      (os : Os) (spawn : Spawn)
      → IsTracked exe i os
      → FitsPid spawn
      → IsTracked exe i (restart exe i spawn os).1
  unfolding restart
  restart-IsTracked os spawn t f = elim (Bool-cases (status i os).0) [
    | inl s ↦ rw s (start_after-IsTracked spawn (stop i os) (stop-IsTracked os t) f)
    | inr s ↦ rw s (start-IsTracked os spawn t f)
  ]

-- One thing that happens to the system.
pub data Step (exe : Bytes) (i : Instance) : Os → Os → Type 0 where
  starts : (os : Os) (spawn : Spawn) → FitsPid spawn → Step exe i os (start exe i spawn os).1
  restarts : (os : Os) (spawn : Spawn) → FitsPid spawn → Step exe i os (restart exe i spawn os).1
  stops : (os : Os) → Step exe i os (stop i os).1
  ticks : (os : Os) → Step exe i os (tick os)
  exit : (os : Os) (pid : ℕ) → Step exe i os (exits pid os)
  ends : (os : Os) → Step exe i os (caller_ends os)
  other_starts :
      (os : Os) (pid : ℕ) (p : Proc)
      → os.procs pid ≡ none
      → p.argv ≢ command exe i
      → Step exe i os (record os { procs = set_proc pid (some p) os.procs })

pub data Steps (exe : Bytes) (i : Instance) : Os → Os → Type 0 where
  done : (os : Os) → Steps exe i os os
  next : (os os' os'' : Os) → Step exe i os os' → Steps exe i os' os'' → Steps exe i os os''

Step-IsTracked :
    (exe : Bytes) (i : Instance) {os os' : Os}
    → Step exe i os os'
    → IsTracked exe i os
    → IsTracked exe i os'
unfolding tick exits caller_ends read_pid
Step-IsTracked exe i (starts os spawn f) t = start-IsTracked exe i os spawn t f
Step-IsTracked exe i (restarts os spawn f) t = restart-IsTracked exe i os spawn t f
Step-IsTracked exe i (stops os) t = stop-IsTracked exe i os t
Step-IsTracked exe i (ticks os) t = record {
  log = t.log;
  pid = t.pid;
  tracked = λ a q u. t.tracked a q (older-Runs a (command exe i) (os.procs q) u);
}
Step-IsTracked exe i (exit os n) t = record {
  log = t.log;
  pid = t.pid;
  tracked = λ a q u. elim (set_proc-Runs a (command exe i) n q (ended (os.procs n)) os.procs u) [
    | inl (e, f) ↦ absurd (ended-Runs a (command exe i) (os.procs n) f)
    | inr (e, f) ↦ t.tracked a q f
  ];
}
Step-IsTracked exe i (ends os) t = record {
  log = t.log;
  pid = t.pid;
  tracked = λ a q u. t.tracked a q (orphan-Runs a (command exe i) (os.procs q) u);
}
Step-IsTracked exe i (other_starts os n p e c) t = record {
  log = t.log;
  pid = t.pid;
  tracked = λ a q u. elim (set_proc-Runs a (command exe i) n q (some p) os.procs u) [
    | inl (h, f) ↦ absurd (c f.0)
    | inr (h, f) ↦ t.tracked a q f
  ];
}

Steps-IsTracked :
    (exe : Bytes) (i : Instance) {os os' : Os}
    → Steps exe i os os'
    → IsTracked exe i os
    → IsTracked exe i os'
Steps-IsTracked exe i (done os) t = t
Steps-IsTracked exe i (next os os' os'' s r) t = Steps-IsTracked exe i r (Step-IsTracked exe i s t)

alive_status :
    (i : Instance) (os : Os) (a : Bool) (q : ℕ) (c : List Bytes) (o : Option Proc)
    → os.procs q ≡ o
    → Runs a c o
    → 0 < q
    → read_pid i os ≡ some (pos q)
    → status i os ≡ (true, pos q)
alive_status i os a q c none e u h r = absurd u
alive_status i os a zero c (some p) e u h r = absurd (omega (arith, h))
alive_status i os a (suc k) c (some p) e u h r = status-some i os k p r e

-- Whatever is done with a configuration, from a system in which its command is not alive and its two
-- files can be written: starts, stops and restarts, the passing of time, ends of any processes, the
-- end of the program that started them, and starts of other commands, while nothing but procmgr starts
-- a process with the very arguments of this command. A process of the command that is alive is then
-- the one that Status tells, so that there is at most one, and may be signalled.
pub Steps-status :
    (exe : Bytes) (i : Instance) (os os' : Os) (a : Bool) (q : ℕ)
    → os.writable i.log_path ≡ true
    → os.writable i.pid_path ≡ true
    → IsIdle exe i os
    → Steps exe i os os'
    → Runs a (command exe i) (os'.procs q)
    → (a ≡ true) × (status i os' ≡ (true, pos q))
Steps-status exe i os os' a q l w h s u =
    let t =
      Steps-IsTracked exe i s (record { log = l; pid = w; tracked = λ b p v. absurd (h b p v) }) in
    let (f, g, r) = t.tracked a q u in
    (f, alive_status i os' a q (command exe i) (os'.procs q) refl u g r)
