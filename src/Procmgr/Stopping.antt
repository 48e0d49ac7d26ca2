-- ===== src/Procmgr/Stopping.antt =====
-- internal/procmgr/procmgr.go: what Stop does to the process, to the others and to the file.
use cando.Base.{
  ℕ, zero, suc, ◌+◌, ◌≡◌, ◌≢◌, ◌≤◌, refl, Bool, true, Option, none, some, ◌∷◌, if◌then◌else◌, arith,
  ap, ◌∙◌, sym,
}
use cando.Base.Int.{pos}
use cando.System.{
  Os, Proc, sigterm, sigkill, remove_file, kill, tick, set_proc, set_file, deliver, asked_to_end,
  set_proc_same, set_proc_other,
}
use cando.Procmgr.{
  Instance, terminate, force_kill, await_exit, after_sigterm, stop_pid, stop, read_pid,
}
use cando.Procmgr.Kills.{
  aged, Owned, Down, older-Owned, kill_proc-Down, kill_proc-other, kill_proc-rest,
  kill_proc-allowed, process_alive-none, process_alive-some, asked_to_end-Owned,
}

-- What is so after waiting for the process `pid` for `n` steps at most: `spent` of them passed.
pub record IsStopped (c : Bool) (i : Instance) (pid n : ℕ) (os os' : Os) : Type 0 where
  pub spent : ℕ
  pub bound : spent ≤ n
  pub clock : os'.clock ≡ os.clock + spent
  pub down : Down c (os'.procs pid)
  pub others : (q : ℕ) → q ≢ pid → os'.procs q ≡ aged spent (os.procs q)
  pub files :
      os'.files ≡ (if os.removable i.pid_path then set_file i.pid_path none os.files else os.files)
  pub writable : os'.writable ≡ os.writable

-- One turn of the loop of Stop, whose other turns go from the next tick.
waited :
    (n : ℕ) (c : Bool) (i : Instance) (k : ℕ) (os : Os) (o : Option Proc)
    → os.procs (suc k) ≡ o
    → Owned c o
    → IsStopped c i (suc k) n (tick os) (await_exit n i (pos (suc k)) (tick os))
    → IsStopped c i (suc k) (suc n) os (await_exit (suc n) i (pos (suc k)) os)
unfolding await_exit aged remove_file tick
waited n c i k os none e h r = rw (process_alive-none k os e) (record {
  spent = 0;
  bound = omega arith;
  clock = omega arith;
  down = rw e tt;
  others = λ q m. refl;
  files = refl;
  writable = refl;
})
waited n c i k os (some p) e h r = rw (process_alive-some k os p e) (record {
  spent = suc r.spent;
  bound = omega (arith, r.bound);
  clock = omega (arith, r.clock);
  down = r.down;
  others = r.others;
  files = r.files;
  writable = r.writable;
})

-- The loop of Stop, by what the process is.
await_exit-IsStopped :
    (n : ℕ) (c : Bool) (i : Instance) (k : ℕ) (os : Os)
    → Owned c (os.procs (suc k))
    → IsStopped c i (suc k) n os (await_exit n i (pos (suc k)) os)
unfolding await_exit aged remove_file force_kill kill tick
await_exit-IsStopped zero c i k os h =
    let rest = kill_proc-rest sigkill (suc k) os (os.procs (suc k)) in
    record {
      spent = 0;
      bound = omega arith;
      clock = omega (arith, rest.0);
      down = kill_proc-Down c k os (os.procs (suc k)) refl h;
      others = λ q n. kill_proc-other sigkill (suc k) os (os.procs (suc k)) q n;
      files = rw (rest.3, rest.1) refl;
      writable = rest.2;
    }
await_exit-IsStopped (suc n) c i k os h =
    waited n c i k os (os.procs (suc k)) refl h
      (await_exit-IsStopped n c i k (tick os) (older-Owned c (os.procs (suc k)) h))

-- Right after SIGTERM was sent.
unfoldable pub termed : ℕ → Proc → Os → Os
termed pid p os = record os {
  procs = set_proc pid (deliver sigterm p) os.procs;
  sent = (pid, sigterm) ∷ os.sent;
}

-- Stop of a process that is tracked and that the caller may signal.
pub stop_tracked :
    (i : Instance) (os : Os) (k : ℕ) (p : Proc)
    → read_pid i os ≡ some (pos (suc k))
    → os.procs (suc k) ≡ some p
    → p.allowed ≡ true
    → stop i os ≡ (none, await_exit 20 i (pos (suc k)) (termed (suc k) p os))
unfolding stop stop_pid terminate kill after_sigterm termed
stop_tracked i os k p r e a =
    rw (r, process_alive-some k os p e, e, kill_proc-allowed sigterm (suc k) os p a) refl

termed-Owned :
    (k : ℕ) (p : Proc) (os : Os)
    → p.allowed ≡ true
    → Owned p.child ((termed (suc k) p os).procs (suc k))
unfolding termed deliver
termed-Owned k p os a =
    rw (set_proc_same (suc k) (asked_to_end p.life p.grace p) os.procs)
      (asked_to_end-Owned p.child p.life p.grace p (a, refl))

termed-IsStopped :
    (i : Instance) (os os' : Os) (k : ℕ) (p : Proc)
    → IsStopped p.child i (suc k) 20 (termed (suc k) p os) os'
    → IsStopped p.child i (suc k) 20 os os'
unfolding termed
termed-IsStopped i os os' k p r = record {
  spent = r.spent;
  bound = r.bound;
  clock = r.clock;
  down = r.down;
  others = λ q n.
      r.others q n
      ∙ ap (aged r.spent) (set_proc_other (suc k) q (deliver sigterm p) os.procs (λ x. n (sym x)));
  files = r.files;
  writable = r.writable;
}

-- Stop of a process that is tracked and that the caller may signal reports no error. Within two
-- seconds nothing runs under its number, and unless it is the caller's child nothing is left there;
-- every other process is what it would be after that time, and every file but that of the pid, which
-- is removed if it can be, is as before.
pub stop-IsStopped :
    (i : Instance) (os : Os) (k : ℕ) (p : Proc)
    → read_pid i os ≡ some (pos (suc k))
    → os.procs (suc k) ≡ some p
    → p.allowed ≡ true
    → ((stop i os).0 ≡ none) × IsStopped p.child i (suc k) 20 os (stop i os).1
stop-IsStopped i os k p r e a = rw (stop_tracked i os k p r e a) (
  refl,
  termed-IsStopped i os (await_exit 20 i (pos (suc k)) (termed (suc k) p os)) k p
      (await_exit-IsStopped 20 p.child i k (termed (suc k) p os) (termed-Owned k p os a)),
)
