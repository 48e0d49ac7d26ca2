-- ===== src/Menu/Background.antt =====
-- internal/menu/manage.go: startBackground, stopBackground and the restart that the editor offers, as
-- far as they change the system; the World is that of the commands of main.go.
use cando.Base.{◌≡◌, refl, Bool, true, false, Option, none, some, Result, ok, err, if◌then◌else◌}
use cando.Base.Bytes.{Bytes, text}
use cando.Config.{Config}
use cando.Config.Load.{LoadError, load}
use cando.System.{Os}
use cando.Procmgr.{Instance, for_config, start, stop, status, restart}
use cando.Procmgr.History.{Steps, done, next, starts, stops, restarts, FitsPid}
use cando.Cli.{World}
use cando.Menu.{Input, ask_default, ask_yes_no}

unfoldable pub started_by : World → Os → Instance → Option Bytes → Os
started_by w os i none = os
started_by w os i (some exe) = (start exe i w.spawn os).1

unfoldable pub started_at : World → Os → Option Instance → Os
started_at w os none = os
started_at w os (some i) = started_by w os i w.self_exe

unfoldable pub started_loaded : World → Os → Option Instance → Result LoadError Config → Os
started_loaded w os i (err e) = os
started_loaded w os i (ok c) = started_at w os i

-- startBackground
unfoldable pub start_background : World → Os → Input → Os
start_background w os input =
    let path = (ask_default (text "cando1-server.toml") input).0 in
    started_loaded w os (for_config w.abs path) (load w.unmarshal (os.files path))

unfoldable pub stopped_at : Os → Option Instance → Os
stopped_at os none = os
stopped_at os (some i) = (stop i os).1

-- stopBackground
unfoldable pub stop_background : World → Os → Input → Os
stop_background w os input =
    stopped_at os (for_config w.abs (ask_default (text "cando1-server.toml") input).0)

unfoldable pub restarted_by : World → Os → Instance → Option Bytes → Os
restarted_by w os i none = os
restarted_by w os i (some exe) = (restart exe i w.spawn os).1

unfoldable pub restarted_at : World → Os → Input → Option Instance → Os
restarted_at w os input none = os
restarted_at w os input (some i) =
    if (status i os).0
    then (if (ask_yes_no true input).0 then restarted_by w os i w.self_exe else os)
    else os

-- offerRestart
unfoldable pub offer_restart : World → Os → Bytes → Input → Os
offer_restart w os path input = restarted_at w os input (for_config w.abs path)

started_loaded-Steps :
    (w : World) (os : Os) (exe : Bytes) (i : Instance) (r : Result LoadError Config)
    → w.self_exe ≡ some exe
    → FitsPid w.spawn
    → Steps exe i os (started_loaded w os (some i) r)
unfolding started_loaded started_at started_by
started_loaded-Steps w os exe i (err e) s f = done os
started_loaded-Steps w os exe i (ok c) s f = rw s (
    next os (start exe i w.spawn os).1 (start exe i w.spawn os).1 (starts os w.spawn f)
      (done (start exe i w.spawn os).1))

restarted_at-Steps :
    (w : World) (os : Os) (exe : Bytes) (i : Instance) (input : Input) (a b : Bool)
    → (status i os).0 ≡ a
    → (ask_yes_no true input).0 ≡ b
    → w.self_exe ≡ some exe
    → FitsPid w.spawn
    → Steps exe i os (restarted_at w os input (some i))
unfolding restarted_at restarted_by
restarted_at-Steps w os exe i input false b h g s f = rw h (done os)
restarted_at-Steps w os exe i input true false h g s f = rw (h, g) (done os)
restarted_at-Steps w os exe i input true true h g s f =
    rw (h, g, s)
      (next os (restart exe i w.spawn os).1 (restart exe i w.spawn os).1 (restarts os w.spawn f)
        (done (restart exe i w.spawn os).1))

-- Whatever the menu does to the background process of a configuration is a history of starts, stops
-- and restarts of it, so that what holds of all of those holds of the menu.
pub background-Steps :
    (w : World) (os : Os) (exe path : Bytes) (i : Instance) (input : Input)
    → (ask_default (text "cando1-server.toml") input).0 ≡ path
    → for_config w.abs path ≡ some i
    → w.self_exe ≡ some exe
    → FitsPid w.spawn
    → Steps exe i os (start_background w os input)
      × Steps exe i os (stop_background w os input)
      × Steps exe i os (offer_restart w os path input)
unfolding start_background stop_background stopped_at offer_restart
background-Steps w os exe path i input p c s f =
    rw (p, c)
      (
        started_loaded-Steps w os exe i (load w.unmarshal (os.files path)) s f,
        next os (stop i os).1 (stop i os).1 (stops os) (done (stop i os).1),
        restarted_at-Steps w os exe i input (status i os).0 (ask_yes_no true input).0 refl refl s f,
      )
