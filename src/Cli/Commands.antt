-- ===== src/Cli/Commands.antt =====
-- main.go: how a command of the process control gets to its instance.
use cando.Base.{◌++◌, ℕ, ◌≡◌, refl, some, List, [], ◌∷◌, ok, ◌∙◌}
use cando.Base.Bytes.{Bytes, text, bytes_eq}
use cando.Base.Text.{is_empty}
use cando.System.{Os}
use cando.Procmgr.{Instance, for_config, instance_at, stop, status}
use cando.Procmgr.LogTail.{log_tail}
use cando.Cli.{
  World, told, Action, starting, stopping, telling, classify, parse_flags, after_flag, proc_control,
  control_path, act_on, act, stop_outcome, printed, dispatch, main, named, name_value, name_is,
}

-- `-c <path>`
abbrev pub dash_c : Bytes → List Bytes
dash_c path = text "-c" ∷ path ∷ []

pub parse_dash_c : (path : Bytes) → parse_flags [] (dash_c path) ≡ ok path
unfolding parse_flags classify after_flag named name_value name_is bytes_eq
parse_dash_c path = refl

-- The action with the path and the instance that it has.
pub control_dash_c :
    (w : World) (os : Os) (a : Action) (b : ℕ) (path : Bytes) (abs : Bytes) (i : Instance)
    → w.abs (b ∷ path) ≡ some abs
    → instance_at (some abs) ≡ some i
    → proc_control w os a (dash_c (b ∷ path)) ≡ act w os a (b ∷ path) i
unfolding proc_control control_path is_empty for_config act_on
control_dash_c w os a b path abs i e f = rw (parse_dash_c (b ∷ path), e, f) refl

pub main_start :
    (w : World) (os : Os) (args : List Bytes)
    → main w os (text "start" ∷ args) ≡ proc_control w os starting args
unfolding main dispatch bytes_eq
main_start w os args = refl

pub main_stop :
    (w : World) (os : Os) (args : List Bytes)
    → main w os (text "stop" ∷ args) ≡ proc_control w os stopping args
unfolding main dispatch bytes_eq
main_stop w os args = refl

pub main_status :
    (w : World) (os : Os) (args : List Bytes)
    → main w os (text "status" ∷ args) ≡ proc_control w os telling args
unfolding main dispatch bytes_eq
main_status w os args = refl

-- The files of an absolute path.
abbrev pub paths : Bytes → Instance
paths abs = record {
  config_path = abs;
  pid_path = abs ++ text ".pid";
  log_path = abs ++ text ".log";
}

pub instance_paths : (abs : Bytes) → instance_at (some abs) ≡ some (paths abs)
unfolding instance_at
instance_paths abs = refl

pub status_line :
    (w : World) (os : Os) (b : ℕ) (path abs : Bytes)
    → w.abs (b ∷ path) ≡ some abs
    → main w os (text "status" ∷ dash_c (b ∷ path))
      ≡ (told (status (paths abs) os) (printed (log_tail (paths abs) 30 os)), os)
unfolding act
status_line w os b path abs e =
    main_status w os (dash_c (b ∷ path))
    ∙ control_dash_c w os telling b path abs (paths abs) e (instance_paths abs)

pub stop_line :
    (w : World) (os : Os) (b : ℕ) (path abs : Bytes)
    → w.abs (b ∷ path) ≡ some abs
    → main w os (text "stop" ∷ dash_c (b ∷ path)) ≡ stop_outcome (stop (paths abs) os)
unfolding act
stop_line w os b path abs e =
    main_stop w os (dash_c (b ∷ path))
    ∙ control_dash_c w os stopping b path abs (paths abs) e (instance_paths abs)
