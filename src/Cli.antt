-- ===== src/Cli.antt =====
-- main.go: the commands of the program, with the one flag that Go's flag package parses for them.
-- What a command finds and leaves is System's Os.
pub mod Commands
pub mod Lifecycle
pub mod Checks
use cando.Base.{
  is_some, ℕ, ◌≡◌, Bool, true, false, ◌||◌, Option, none, some, List, [], ◌∷◌, Result, ok, err,
  ◌==◌, ltb, length, if◌then◌else◌,
}
use cando.Base.Bytes.{Bytes, text, bytes_eq}
use cando.Base.Int.{ℤ}
use cando.Base.Text.{is_empty}
use cando.Config.{Config, ServerConfig, ClientConfig}
use cando.Config.Load.{LoadError, load}
use cando.App.{RunError, Runnable, run_config}
use cando.System.{Os}
use cando.Procmgr.{Instance, for_config, StartError, StopError, Spawn, start, stop, status, restart}
use cando.Procmgr.LogTail.{log_tail}

-- What one argument is for a flag set whose only flag is the text `c`: no flag, the end of the
-- flags, a failure with its exit status, the flag with its value, or the flag before its value.
pub data Flag : Type 0 where
  no_flag end_of_flags needs_value : Flag
  failed : ℕ → Flag
  value : Bytes → Flag

unfoldable pub name_is : Bytes → Option Bytes → Flag
name_is name v =
    if bytes_eq name (text "c")
    then given v
    else if bytes_eq name (text "help") || bytes_eq name (text "h")
    then failed 0
    else failed 2
  where
    given : Option Bytes → Flag
    given none = needs_value
    given (some b) = value b

-- The name up to `=`, and the value behind it; the first byte belongs to the name.
unfoldable pub name_value : Bytes → Bytes × Option Bytes
name_value [] = ([], none)
name_value (c ∷ s) =
    let rest = name_value s in if c == 61 then ([], some s) else (c ∷ rest.0, rest.1)

unfoldable pub named : Bytes → Flag
named [] = failed 2
named (c ∷ s) =
    let rest = name_value s in
    if (c == 45) || (c == 61) then failed 2 else name_is (c ∷ rest.0) rest.1

unfoldable pub classify : Bytes → Flag
classify [] = no_flag
classify (c ∷ []) = no_flag
classify (c ∷ d ∷ s) =
    if c == 45
    then (if d == 45 then (if is_empty s then end_of_flags else named s) else named (d ∷ s))
    else no_flag

unfoldable pub after_flag :
    Flag → Bytes → Result ℕ Bytes → (Bytes → Result ℕ Bytes) → Result ℕ Bytes
after_flag no_flag cur next rest = ok cur
after_flag end_of_flags cur next rest = ok cur
after_flag needs_value cur next rest = next
after_flag (failed n) cur next rest = err n
after_flag (value v) cur next rest = rest v

-- FlagSet.Parse with ExitOnError: the path, or the status with which the program exits.
unfoldable pub parse_flags : Bytes → List Bytes → Result ℕ Bytes
parse_flags cur [] = ok cur
parse_flags cur (s ∷ []) = after_flag (classify s) cur (err 2) (λ v. ok v)
parse_flags cur (s ∷ v ∷ args) =
    let next = parse_flags v args in
    after_flag (classify s) cur next (λ w. parse_flags w (v ∷ args))

-- What the program does and how it ends: `exited` is os.Exit with a status, `ran` a tunnel that came
-- to its end.
pub data Outcome : Type 0 where
  showed_menu showed_version showed_token showed_usage stopped : Outcome
  exited : ℕ → Outcome
  ran : Runnable → Outcome
  started : ℤ → Bytes → Outcome
  told : Bool × ℤ → List Bytes → Outcome
  logged : List Bytes → Outcome

-- What the rest of the system does: filepath.Abs, SelfExe, the TOML decoder, NewClient, whether the
-- menu and a tunnel end without an error, and what is spawned.
pub record World : Type 0 where
  pub abs : Bytes → Option Bytes
  pub self_exe : Option Bytes
  pub unmarshal : Bytes → Option Config
  pub dialer : ClientConfig → Bool
  pub menu_ends : Bool
  pub run_ends : Runnable → Bool
  pub spawn : Spawn

pub data Role : Type 0 where
  any server client : Role

-- Whether runRole lets the configuration through.
unfoldable pub role_fits : Role → Config → Bool
role_fits any c = true
role_fits server c = is_some c.server
role_fits client c = is_some c.client

unfoldable pub run_outcome : (Runnable → Bool) → Result RunError Runnable → Outcome
run_outcome ends (err e) = exited 1
run_outcome ends (ok r) = if ends r then ran r else exited 1

unfoldable pub run_loaded : World → Role → Result LoadError Config → Outcome
run_loaded w role (err e) = exited 1
run_loaded w role (ok c) =
    if role_fits role c then run_outcome w.run_ends (run_config w.dialer c).1 else exited 1

unfoldable pub run_path : World → Os → Role → Result ℕ Bytes → Outcome
run_path w os role (err n) = exited n
run_path w os role (ok path) =
    if is_empty path then exited 2 else run_loaded w role (load w.unmarshal (os.files path))

-- runRole
unfoldable pub run_role : World → Os → Role → List Bytes → Outcome
run_role w os role args = run_path w os role (parse_flags [] args)

pub data Action : Type 0 where
  starting stopping telling restarting logging : Action

unfoldable pub start_outcome : Instance → (ℤ × Option StartError) × Os → Outcome × Os
start_outcome i ((pid, none), os) = (started pid i.log_path, os)
start_outcome i ((pid, some e), os) = (exited 1, os)

unfoldable pub stop_outcome : Option StopError × Os → Outcome × Os
stop_outcome (none, os) = (stopped, os)
stop_outcome (some e, os) = (exited 1, os)

-- The lines that printLogTail prints.
unfoldable pub printed : Option (List Bytes) → List Bytes
printed none = []
printed (some lines) = lines

unfoldable pub spawn_with : World → Os → Bool → Instance → Option Bytes → Outcome × Os
spawn_with w os again i none = (exited 1, os)
spawn_with w os again i (some exe) =
    start_outcome i (if again then restart exe i w.spawn os else start exe i w.spawn os)

unfoldable pub spawn_loaded : World → Os → Bool → Instance → Result LoadError Config → Outcome × Os
spawn_loaded w os again i (err e) = (exited 1, os)
spawn_loaded w os again i (ok c) = spawn_with w os again i w.self_exe

unfoldable pub act : World → Os → Action → Bytes → Instance → Outcome × Os
act w os starting path i = spawn_loaded w os false i (load w.unmarshal (os.files path))
act w os restarting path i = spawn_loaded w os true i (load w.unmarshal (os.files path))
act w os stopping path i = stop_outcome (stop i os)
act w os telling path i = (told (status i os) (printed (log_tail i 30 os)), os)
act w os logging path i = (logged (printed (log_tail i 30 os)), os)

unfoldable pub act_on : World → Os → Action → Bytes → Option Instance → Outcome × Os
act_on w os a path none = (exited 1, os)
act_on w os a path (some i) = act w os a path i

unfoldable pub control_path : World → Os → Action → Result ℕ Bytes → Outcome × Os
control_path w os a (err n) = (exited n, os)
control_path w os a (ok path) =
    if is_empty path then (exited 2, os) else act_on w os a path (for_config w.abs path)

-- procControl
unfoldable pub proc_control : World → Os → Action → List Bytes → Outcome × Os
proc_control w os a args = control_path w os a (parse_flags [] args)

unfoldable pub run_menu : World → Outcome
run_menu w = if w.menu_ends then showed_menu else exited 1

unfoldable pub starts_with_dash : Bytes → Bool
starts_with_dash [] = false
starts_with_dash (c ∷ s) = c == 45

-- main: the switch on the first argument. The menu's own doings are not part of the Os here.
unfoldable pub dispatch : World → Os → Bytes → List Bytes → Outcome × Os
dispatch w os cmd args =
    if bytes_eq cmd (text "menu")
    then (run_menu w, os)
    else if bytes_eq cmd (text "version")
        || (bytes_eq cmd (text "-v") || bytes_eq cmd (text "--version"))
    then (showed_version, os)
    else if bytes_eq cmd (text "gen-token")
    then (showed_token, os)
    else if bytes_eq cmd (text "help") || (bytes_eq cmd (text "-h") || bytes_eq cmd (text "--help"))
    then (showed_usage, os)
    else if bytes_eq cmd (text "server")
    then (run_role w os server args, os)
    else if bytes_eq cmd (text "client")
    then (run_role w os client args, os)
    else if bytes_eq cmd (text "start")
    then proc_control w os starting args
    else if bytes_eq cmd (text "stop")
    then proc_control w os stopping args
    else if bytes_eq cmd (text "status")
    then proc_control w os telling args
    else if bytes_eq cmd (text "restart")
    then proc_control w os restarting args
    else if bytes_eq cmd (text "logs")
    then proc_control w os logging args
    else if starts_with_dash cmd
    then (run_role w os any (cmd ∷ args), os)
    else (exited 2, os)

unfoldable pub main : World → Os → List Bytes → Outcome × Os
main w os [] = (run_menu w, os)
main w os (cmd ∷ args) = dispatch w os cmd args
