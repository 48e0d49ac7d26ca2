-- ===== src/Tests/ProcRuns.antt =====
-- Runs of internal/procmgr and of main.go's commands on a small system: one configuration, /c, with
-- its files next to it.
use cando.Base.{
  ap, sym, subst, ℕ, ◌≡◌, refl, true, false, Option, none, some, [], ◌∷◌, if◌then◌else◌, ok, err,
  arith, ◌==◌,
}
use cando.Base.Bytes.{Bytes, text, bytes_eq}
use cando.Base.Int.{pos}
use cando.Base.Decimal.{atoi, scan_digits, is_digit, in_range, positive}
use cando.Base.Text.{is_empty, trim_space, trim_left, trim_right, is_space}
use cando.Config.Normalize.{normalize, norm_server, option_map}
use cando.App.{Runnable, run_config, role_of}
use cando.System.{tick, Os, Proc, exits, caller_ends, set_proc, write_file}
use cando.Menu.{Input, ask, ask_default}
use cando.Procmgr.Kills.{Down}
use cando.Procmgr.Restarting.{restart-status}
use cando.Procmgr.{
  restart, for_config, instance_at, Instance, start, stop, status, read_pid, parsed, status_of,
  command, launch, spawned, created,
}
use cando.Procmgr.Stopping.{IsStopped, stop-IsStopped}
use cando.Procmgr.Starting.{fresh}
use cando.Procmgr.Tracking.{Runs}
use cando.Procmgr.History.{done, next, starts, Steps-status}
use cando.Procmgr.LogTail.{log_tail}
use cando.Cli.{
  World, server, run_role, ran, parse_flags, main, started, told, stopped, printed, run_path,
  run_loaded, run_outcome, role_fits, classify, named, name_value, name_is, after_flag,
}
use cando.Cli.Commands.{dash_c, paths}
use cando.Cli.Lifecycle.{main_lifecycle}
use cando.Tests.ConfigRuns.{web, serving, loads, listening}

abbrev tunnel : Instance
tunnel = paths (text "/c")

-- The pid file and the log of the configuration, and the system that has them.
abbrev files_of : Option Bytes → Option Bytes → Bytes → Option Bytes
files_of pid log q =
    if bytes_eq q (text "/c.pid")
    then pid
    else if bytes_eq q (text "/c.log")
    then log
    else if bytes_eq q (text "c")
    then some []
    else none

abbrev system : Option Bytes → Option Bytes → (ℕ → Option Proc) → Os
system pid log procs = record {
  files = files_of pid log;
  writable = λ q. true;
  removable = λ q. true;
  procs = procs;
  sent = [];
  clock = 0;
}

abbrev only : Proc → ℕ → Option Proc
only p q = if q == 7 then some p else none

abbrev quiet : Os
quiet = system none none (λ q. none)

abbrev child : Option ℕ → Proc
child grace = fresh (text "cando1") tunnel grace

abbrev orphan_of : Option ℕ → Proc
orphan_of grace = record (child grace) { child = false }

abbrev held : Proc → Os
held p = system (some (text "7")) none (only p)

reads_pid : (p : Proc) → read_pid tunnel (held p) ≡ some (pos 7)
unfolding read_pid parsed atoi scan_digits is_digit in_range positive trim_space trim_left
    trim_right is_space is_empty bytes_eq
reads_pid p = refl

quiet_told : status tunnel quiet ≡ (false, pos 0)
unfolding status status_of read_pid parsed bytes_eq
quiet_told = refl

-- A process that takes two tenths of a second.
stop-IsStopped_example :
    ((stop tunnel (held (orphan_of (some 2)))).0 ≡ none)
    × IsStopped false tunnel 7 20
        (held (orphan_of (some 2)))
        (stop tunnel (held (orphan_of (some 2)))).1
stop-IsStopped_example =
    stop-IsStopped tunnel (held (orphan_of (some 2))) 6 (orphan_of (some 2)) (reads_pid _) refl refl

quiet_idle : (status tunnel quiet).0 ≡ false
quiet_idle = ap (λ x. x.0) quiet_told

abbrev sealed : Os
sealed = record quiet { writable = λ q. bytes_eq q (text "/c.log") }

-- A second passes, and another process starts.
abbrev ended_child : Os
ended_child = exits 7 (held (child none))

abbrev still_there : Os
still_there = record (tick ended_child) {
  procs = set_proc 9 (some (child none)) (tick ended_child).procs;
}

running_again : (start (text "cando1") tunnel (some (7, none)) quiet).1.procs 7 ≡ some (child none)
unfolding start launch spawned created write_file set_proc status status_of read_pid parsed bytes_eq
    command
running_again = refl

Steps-status_example :
    (true ≡ true)
    × (status tunnel (start (text "cando1") tunnel (some (7, none)) quiet).1 ≡ (true, pos 7))
Steps-status_example =
    Steps-status (text "cando1") tunnel quiet
      (start (text "cando1") tunnel (some (7, none)) quiet).1 true 7 refl refl (λ a q u. u)
      (next quiet _ _ (starts quiet (some (7, none)) (omega arith, omega arith)) (done _))
      (subst (Runs true (command (text "cando1") tunnel)) (sym running_again) (refl, refl, tt))

abbrev world : World
world = record {
  abs = λ path. some (text "/c");
  self_exe = some (text "cando1");
  unmarshal = λ bytes. some (serving (web ∷ []));
  dialer = λ cl. true;
  menu_ends = true;
  run_ends = λ r. true;
  spawn = some (7, none);
}

main_lifecycle_example :
    let args = dash_c (text "c") in
    let r = main world quiet (text "start" ∷ args) in
    let r2 = main world (caller_ends r.1) (text "status" ∷ args) in
    let r3 = main world r2.1 (text "stop" ∷ args) in
    let r4 = main world r3.1 (text "status" ∷ args) in
    (r.0 ≡ started (pos 7) (text "/c.log"))
    × (r2.0 ≡ told (true, pos 7) (printed (log_tail tunnel 30 (caller_ends r.1))))
    × (r3.0 ≡ stopped)
    × (r4.0 ≡ told (false, pos 0) (printed (log_tail tunnel 30 r3.1)))
main_lifecycle_example =
    main_lifecycle world quiet 99 [] (text "/c") (text "cando1") 6 none (record {
      absolute = refl;
      loads = (normalize (serving (web ∷ [])), unfold bytes_eq in loads);
      self = refl;
      spawn = refl;
      fits = omega arith;
      idle = quiet_idle;
      log = refl;
      pid = refl;
      removable = refl;
    })

served :
    run_role world quiet server (dash_c (text "c"))
    ≡ ran (Runnable.server (norm_server (listening (web ∷ []))))
unfolding run_role run_path run_loaded run_outcome role_fits parse_flags classify named name_value
    name_is after_flag bytes_eq is_empty normalize option_map run_config role_of
served = rw loads refl

-- A value after `=`, a flag that is not there, and the request for help.
flags :
    (parse_flags [] (text "--c=x.toml" ∷ text "rest" ∷ []) ≡ ok (text "x.toml"))
    × (parse_flags [] (text "-q" ∷ []) ≡ err 2)
    × (parse_flags [] (text "-h" ∷ []) ≡ err 0)
    × (parse_flags [] (text "-c" ∷ []) ≡ err 2)
unfolding parse_flags classify named name_value name_is after_flag bytes_eq is_empty
flags = (refl, refl, refl, refl)

restart-status_example :
    ((restart (text "cando1") tunnel (some (8, none)) (held (orphan_of (some 2)))).0
      ≡ (pos 8, none))
    × (status tunnel (restart (text "cando1") tunnel (some (8, none)) (held (orphan_of (some 2)))).1
        ≡ (true, pos 8))
    × ((restart (text "cando1") tunnel (some (8, none)) (held (orphan_of (some 2)))).1.procs 8
        ≡ some (child none))
    × Down false ((stop tunnel (held (orphan_of (some 2)))).1.procs 7)
restart-status_example =
    restart-status (text "cando1") tunnel 6 7 none (held (orphan_of (some 2))) (orphan_of (some 2))
      (reads_pid _) refl refl refl refl refl (omega arith)

abbrev chosen : Input
chosen = text "c" ∷ text "yes" ∷ []

chosen_path : (ask_default (text "cando1-server.toml") chosen).0 ≡ text "c"
unfolding ask_default ask trim_space trim_left trim_right is_space is_empty
chosen_path = refl

chosen_paths : for_config world.abs (text "c") ≡ some tunnel
unfolding for_config instance_at
chosen_paths = refl
