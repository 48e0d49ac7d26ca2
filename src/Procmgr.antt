-- ===== src/Procmgr.antt =====
-- internal/procmgr/procmgr.go and procmgr_unix.go: the background process of a configuration. An
-- Instance has its paths; the file of the pid and the process live in System's Os, and each
-- operation takes the Os and gives the next one.
pub mod Kills
pub mod Stopping
pub mod LogTail
pub mod Settled
pub mod History
pub mod Tracking
pub mod Starting
pub mod Lingering
pub mod Restarting
pub mod Signals
use cando.Base.{
  ℕ, zero, suc, Bool, true, false, Option, none, some, List, [], ◌∷◌, ◌++◌, if◌then◌else◌, Result,
  ok, err,
}
use cando.Base.Bytes.{Bytes, text}
use cando.Base.Int.{ℤ, pos, leb_ℤ, pos_part}
use cando.Base.Text.{trim_space}
use cando.Base.Decimal.{itoa, atoi}
use cando.System.{
  Os, Errno, esrch, eperm, sigterm, sigkill, running, write_file, remove_file, kill, probe, tick,
  set_proc,
}

-- Instance
pub record Instance : Type 0 where
  pub config_path : Bytes
  pub pid_path : Bytes
  pub log_path : Bytes

unfoldable pub instance_at : Option Bytes → Option Instance
instance_at none = none
instance_at (some abs) =
    some
      (record { config_path = abs; pid_path = abs ++ text ".pid"; log_path = abs ++ text ".log" })

-- For, with filepath.Abs.
unfoldable pub for_config : (Bytes → Option Bytes) → Bytes → Option Instance
for_config abs path = instance_at (abs path)

-- `err == nil || err == syscall.EPERM`
unfoldable pub answers : Result Errno (Unit {0}) → Bool
answers (ok u) = true
answers (err esrch) = false
answers (err eperm) = true

-- processAlive
unfoldable pub process_alive : Os → ℤ → Bool
process_alive os pid =
    if leb_ℤ pid (pos 0) then false else answers (probe (os.procs (pos_part pid)))

-- terminate: Stop calls it, and forceKill, with a pid that is positive.
unfoldable pub terminate : Os → ℤ → Result Errno Os
terminate os pid = kill sigterm (pos_part pid) os

unfoldable pub or_else : Os → Result Errno Os → Os
or_else os (ok os') = os'
or_else os (err e) = os

-- forceKill, whose error nobody looks at.
unfoldable pub force_kill : Os → ℤ → Os
force_kill os pid = or_else os (kill sigkill (pos_part pid) os)

unfoldable pub parsed : Option Bytes → Option ℤ
parsed none = none
parsed (some b) = atoi (trim_space b)

-- readPid; there is no need to tell its errors apart.
unfoldable pub read_pid : Instance → Os → Option ℤ
read_pid i os = parsed (os.files i.pid_path)

unfoldable pub status_of : Os → Option ℤ → Bool × ℤ
status_of os none = (false, pos 0)
status_of os (some p) =
    if leb_ℤ p (pos 0)
    then (false, pos 0)
    else if process_alive os p
    then (true, p)
    else (false, pos 0)

-- Status
unfoldable pub status : Instance → Os → Bool × ℤ
status i os = status_of os (read_pid i os)

pub data StopError : Type 0 where
  no_pid_file signal_failed : StopError
  stale : ℤ → StopError

pub data StartError : Type 0 where
  already_running : ℤ → StartError
  open_log exec_failed write_pid : StartError
  stop_failed : StopError → StartError

-- `exe -c <config>`
unfoldable pub command : Bytes → Instance → List Bytes
command exe i = exe ∷ text "-c" ∷ i.config_path ∷ []

-- What the process writes to the log is not modelled.
-- What the system gives exec.Cmd.Start: the pid, and how long the process takes on SIGTERM.
abbrev pub Spawn : Type 0
Spawn = Option (ℕ × Option ℕ)

-- OpenFile with O_CREATE and O_APPEND.
unfoldable pub created : Bytes → Option Bytes → Os → Os
created path none os = write_file path [] os
created path (some b) os = os

unfoldable pub spawned : Bytes → Instance → ℕ → Option ℕ → Os → Os
spawned exe i pid grace os = record os {
  procs =
      set_proc pid
        (some (record {
          argv = command exe i;
          allowed = true;
          child = true;
          grace = grace;
          life = running;
        }))
        os.procs;
}

unfoldable pub launch : Bytes → Instance → Spawn → Os → (ℤ × Option StartError) × Os
launch exe i none os = ((pos 0, some exec_failed), os)
launch exe i (some (pid, grace)) os =
    let os' = spawned exe i pid grace os in
    if os.writable i.pid_path
    then ((pos pid, none), write_file i.pid_path (itoa pid) os')
    else ((pos pid, some write_pid), os')

-- Start
unfoldable pub start : Bytes → Instance → Spawn → Os → (ℤ × Option StartError) × Os
start exe i spawn os =
    let s = status i os in
    if s.0
    then ((s.1, some (already_running s.1)), os)
    else if os.writable i.log_path
    then launch exe i spawn (created i.log_path (os.files i.log_path) os)
    else ((pos 0, some open_log), os)

-- The loop of Stop, and what follows it.
unfoldable pub await_exit : ℕ → Instance → ℤ → Os → Os
await_exit zero i pid os = remove_file i.pid_path (force_kill os pid)
await_exit (suc n) i pid os =
    let rest = await_exit n i pid (tick os) in
    if process_alive os pid then rest else remove_file i.pid_path os

unfoldable pub after_sigterm : Instance → ℤ → Os → Result Errno Os → Option StopError × Os
after_sigterm i pid os (err e) = (some signal_failed, os)
after_sigterm i pid os (ok os') = (none, await_exit 20 i pid os')

unfoldable pub stop_pid : Instance → Os → Option ℤ → Option StopError × Os
stop_pid i os none = (some no_pid_file, os)
stop_pid i os (some pid) =
    if process_alive os pid
    then after_sigterm i pid os (terminate os pid)
    else (some (stale pid), remove_file i.pid_path os)

-- Stop
unfoldable pub stop : Instance → Os → Option StopError × Os
stop i os = stop_pid i os (read_pid i os)

unfoldable pub start_after :
    Bytes → Instance → Spawn → Option StopError × Os → (ℤ × Option StartError) × Os
start_after exe i spawn (none, os) = start exe i spawn os
start_after exe i spawn (some e, os) = ((pos 0, some (stop_failed e)), os)

-- Restart
unfoldable pub restart : Bytes → Instance → Spawn → Os → (ℤ × Option StartError) × Os
restart exe i spawn os =
    if (status i os).0 then start_after exe i spawn (stop i os) else start exe i spawn os
