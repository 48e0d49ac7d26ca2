-- ===== src/Cli/Lifecycle.antt =====
-- main.go: a tunnel in the background, from its start to its stop.
use cando.Base.{
  ◌++◌, ℕ, suc, ◌≡◌, ◌<◌, ◌^◌, refl, true, false, Option, none, some, ◌∷◌, ok, arith, ap, ◌∙◌,
}
use cando.Base.Bytes.{Bytes, text}
use cando.Base.Int.{pos}
use cando.Base.Decimal.{itoa}
use cando.Config.{Config}
use cando.Config.Load.{load}
use cando.System.{Os, Proc, caller_ends, orphan, orphan_as, write_file}
use cando.Procmgr.{StopError, stop, status, read_pid, spawned, created}
use cando.Procmgr.LogTail.{log_tail}
use cando.Procmgr.Starting.{
  started_proc, created_rest, stop-status, start_run, fresh, status-some, read_pid-write_file,
}
use cando.Procmgr.Stopping.{stop-IsStopped}
use cando.Cli.{
  World, started, stopped, told, starting, act, spawn_loaded, spawn_with, start_outcome,
  stop_outcome, printed, main,
}
use cando.Cli.Commands.{
  dash_c, paths, instance_paths, control_dash_c, main_start, status_line, stop_line,
}

-- What the tunnel's start needs: a configuration that loads, and a system that lets it be started.
pub record IsStartable (w : World) (os : Os) (path abs exe : Bytes) (k : ℕ) (grace : Option ℕ)
    : Type 0 where
  pub absolute : w.abs path ≡ some abs
  pub loads : (c : Config) × (load w.unmarshal (os.files path) ≡ ok c)
  pub self : w.self_exe ≡ some exe
  pub spawn : w.spawn ≡ some (suc k, grace)
  pub fits : suc k < 2 ^ 63
  pub idle : (status (paths abs) os).0 ≡ false
  pub log : os.writable (abs ++ text ".log") ≡ true
  pub pid : os.writable (abs ++ text ".pid") ≡ true
  pub removable : os.removable (abs ++ text ".pid") ≡ true

-- The system after the start, in which the program that started the tunnel has ended.
unfoldable after_start : Os → Bytes → Bytes → ℕ → Option ℕ → Os
after_start os abs exe k grace = write_file (abs ++ text ".pid") (itoa (suc k)) (
    spawned exe (paths abs) (suc k) grace
      (created (abs ++ text ".log") (os.files (abs ++ text ".log")) os))

act-started :
    (w : World) (os : Os) (path abs exe : Bytes) (k : ℕ) (grace : Option ℕ)
    → IsStartable w os path abs exe k grace
    → act w os starting path (paths abs)
      ≡ (started (pos (suc k)) (abs ++ text ".log"), after_start os abs exe k grace)
unfolding act spawn_loaded spawn_with start_outcome after_start
act-started w os path abs exe k grace r =
    rw (r.loads.1, r.self, r.spawn, start_run exe (paths abs) k grace os r.idle r.log r.pid) refl

-- The process that was started, without its parent.
abbrev orphaned : Bytes → Bytes → Option ℕ → Proc
orphaned exe abs grace = record (fresh exe (paths abs) grace) { child = false }

after_start_proc :
    (os : Os) (abs exe : Bytes) (k : ℕ) (grace : Option ℕ)
    → (caller_ends (after_start os abs exe k grace)).procs (suc k) ≡ some (orphaned exe abs grace)
unfolding after_start caller_ends orphan orphan_as
after_start_proc os abs exe k grace = ap orphan (
    started_proc exe (paths abs) k grace
      (created (abs ++ text ".log") (os.files (abs ++ text ".log")) os))

after_start_pid :
    (os : Os) (abs exe : Bytes) (k : ℕ) (grace : Option ℕ)
    → suc k < 2 ^ 63
    → read_pid (paths abs) (caller_ends (after_start os abs exe k grace)) ≡ some (pos (suc k))
unfolding after_start caller_ends read_pid
after_start_pid os abs exe k grace h =
    read_pid-write_file (paths abs) (suc k)
      (spawned exe (paths abs) (suc k) grace
        (created (abs ++ text ".log") (os.files (abs ++ text ".log")) os))
      h

after_start_removable :
    (os : Os) (abs exe : Bytes) (k : ℕ) (grace : Option ℕ)
    → (caller_ends (after_start os abs exe k grace)).removable ≡ os.removable
unfolding after_start caller_ends write_file spawned
after_start_removable os abs exe k grace =
    (created_rest (abs ++ text ".log") (os.files (abs ++ text ".log")) os).2

stop_outcome-none : (r : Option StopError × Os) → r.0 ≡ none → stop_outcome r ≡ (stopped, r.1)
unfolding stop_outcome
stop_outcome-none (none, os) e = refl
stop_outcome-none (some x, os) e = absurd (ground arith)

-- `cando1 start`, `status`, `stop` and `status` with `-c` and one path, where the tunnel can be
-- started, the program of the first command ends, and the tunnel goes on: the first prints the
-- number of the process, the second tells it as running, the third stops it, and the last tells that
-- nothing runs.
pub main_lifecycle :
    (w : World) (os : Os) (b : ℕ) (path abs exe : Bytes) (k : ℕ) (grace : Option ℕ)
    → IsStartable w os (b ∷ path) abs exe k grace
    → let args = dash_c (b ∷ path) in
      let r = main w os (text "start" ∷ args) in
      let r2 = main w (caller_ends r.1) (text "status" ∷ args) in
      let r3 = main w r2.1 (text "stop" ∷ args) in
      let r4 = main w r3.1 (text "status" ∷ args) in
      (r.0 ≡ started (pos (suc k)) (abs ++ text ".log"))
      × (r2.0 ≡ told (true, pos (suc k)) (printed (log_tail (paths abs) 30 (caller_ends r.1))))
      × (r3.0 ≡ stopped)
      × (r4.0 ≡ told (false, pos 0) (printed (log_tail (paths abs) 30 r3.1)))
main_lifecycle w os b path abs exe k grace r =
    let os' = caller_ends (after_start os abs exe k grace) in
    let i = paths abs in
    let e : main w os (text "start" ∷ dash_c (b ∷ path))
        ≡ (started (pos (suc k)) (abs ++ text ".log"), after_start os abs exe k grace) =
      main_start w os (dash_c (b ∷ path))
      ∙ control_dash_c w os starting b path abs i r.absolute (instance_paths abs)
      ∙ act-started w os (b ∷ path) abs exe k grace r in
    let p = after_start_proc os abs exe k grace in
    let n = after_start_pid os abs exe k grace r.fits in
    let s : stop_outcome (stop i os') ≡ (stopped, (stop i os').1) =
      stop_outcome-none (stop i os') (stop-IsStopped i os' k (orphaned exe abs grace) n p refl).0 in
    let h = ap (λ f. f i.pid_path) (after_start_removable os abs exe k grace) ∙ r.removable in
    rw
      (
        e,
        status_line w os' b path abs r.absolute,
        status-some i os' k (orphaned exe abs grace) n p,
        stop_line w os' b path abs r.absolute,
        s,
        status_line w (stop i os').1 b path abs r.absolute,
        stop-status i os' k (orphaned exe abs grace) n p refl h,
      )
      (refl, refl, refl, refl)
