-- ===== src/Menu/Wizard/Running.antt =====
-- internal/menu/wizard.go: wizard as a whole, with writeFile and startBackgroundPath. That os.Stat
-- finds a file is taken to be that it can be read.
use cando.Base.{Bool, true, false, is_some, if◌then◌else◌, Result, ok, err}
use cando.Base.Bytes.{Bytes, text, bytes_eq}
use cando.Config.{Config}
use cando.Config.Load.{LoadError, load}
use cando.System.{Os, write_file}
use cando.Procmgr.{for_config}
use cando.Cli.{World}
use cando.Menu.{Input, ask_yes_no}
use cando.Menu.Editor.{Stuck}
use cando.Menu.Background.{started_at}
use cando.Menu.Wizard.{WizardData, wizard_data}
use cando.Menu.Wizard.Files.{build_server_toml, build_client_toml}

abbrev pub server_path : Bytes
server_path = text "cando1-server.toml"

abbrev pub client_path : Bytes
client_path = text "cando1-client.toml"

pub data WriteError : Type 0 where
  aborted refused : WriteError

unfoldable pub write_at : Bytes → Bytes → Os → Input → Os × Result WriteError Input
write_at path content os input =
    if os.writable path then (write_file path content os, ok input) else (os, err refused)

unfoldable pub overwrite : Bytes → Bytes → Os → Bool × Input → Os × Result WriteError Input
overwrite path content os (true, input) = write_at path content os input
overwrite path content os (false, input) = (os, err aborted)

-- writeFile, of this package.
unfoldable pub write_asking : Bytes → Bytes → Os → Input → Os × Result WriteError Input
write_asking path content os input =
    if is_some (os.files path)
    then overwrite path content os (ask_yes_no false input)
    else write_at path content os input

unfoldable pub write_second :
    Bytes → Bytes → Os × Result WriteError Input → Os × Result WriteError Input
write_second path content (os, err e) = (os, err e)
write_second path content (os, ok input) = write_asking path content os input

-- Both files; an error at the second leaves the first.
unfoldable pub write_both : WizardData → Os → Input → Os × Result WriteError Input
write_both d os input =
    write_second client_path (build_client_toml d)
      (write_asking server_path (build_server_toml d) os input)

unfoldable pub path_of : Bytes → Bytes
path_of machine = if bytes_eq machine (text "server") then server_path else client_path

-- startBackgroundPath
unfoldable pub start_background_path : World → Bytes → Os → Os
start_background_path w path os = started_at w os (for_config w.abs path)

-- How wizard ends; what is run is what Load gave.
pub data End : Type 0 where
  stuck : Stuck → End
  not_written : WriteError → End
  left in_background : End
  run_here : Result LoadError Config → End

unfoldable pub run_now : World → Bytes → Os → Input → Os × End
run_now w path os input =
    if (ask_yes_no true input).0
    then (start_background_path w path os, in_background)
    else (os, run_here (load w.unmarshal (os.files path)))

unfoldable pub offer_run : World → Bytes → Os × Result WriteError Input → Os × End
offer_run w machine (os, err e) = (os, not_written e)
offer_run w machine (os, ok input) =
    let now = ask_yes_no false input in
    if now.0 then run_now w (path_of machine) os now.1 else (os, left)

unfoldable pub after_answers : World → Os → Result Stuck (WizardData × Input) → Os × End
after_answers w os (err e) = (os, stuck e)
after_answers w os (ok (d, input)) = offer_run w d.this_machine (write_both d os input)

-- wizard
unfoldable pub wizard : World → Bytes → Os → Input → Os × End
wizard w generated os input = after_answers w os (wizard_data generated input)
