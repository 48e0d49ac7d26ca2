-- ===== src/Menu/Cloudflare.antt =====
-- internal/menu/cloudflare.go: cloudflareSetup.
pub mod Fronted
use cando.Base.{Bool, true, false, Option, none, some, [], ◌++◌, if◌then◌else◌, Result, ok, err}
use cando.Base.Bytes.{Bytes, text}
use cando.Base.Int.{pos}
use cando.Config.{transport_wss}
use cando.System.{Os}
use cando.Cli.{World}
use cando.Menu.{Input, ask_default, ask_required, ask_yes_no}
use cando.Menu.Editor.{Stuck, asks_for_ever}
use cando.Menu.Mappings.{gather_forwards}
use cando.Menu.Wizard.{WizardData, ask_token, forwards_given}
use cando.Menu.Wizard.Running.{
  WriteError, write_both, path_of, start_background_path, End, stuck, not_written, left,
  in_background,
}

-- The data for a domain: Cloudflare's edge has a certificate for it that the client verifies.
unfoldable pub fronted : Bytes → Bytes → Bytes → WizardData
fronted domain token machine = record {
  scenario = 1;
  transport = transport_wss;
  token = token;
  server_addr = domain ++ text ":443";
  bind_port = text "443";
  sni = domain;
  host = domain;
  ws_path = text "/cando";
  fingerprint = text "chrome";
  obfs = false;
  insecure = false;
  pool_size = pos 2;
  forwards = [];
  services = [];
  this_machine = machine;
}

unfoldable pub with_domain : Bytes → Option (Bytes × Input) → Result Stuck (WizardData × Input)
with_domain generated none = err asks_for_ever
with_domain generated (some (domain, input)) =
    let ip = ask_default (text "<foreign-server-ip>") input in
    let token = ask_token generated ip.1 in
    let here = ask_yes_no true token.1 in
    forwards_given (fronted domain token.0 (if here.0 then text "server" else text "client"))
      (gather_forwards here.1)

-- The prompts, up to the data that is written out.
unfoldable pub cloudflare_data : Bytes → Input → Result Stuck (WizardData × Input)
cloudflare_data generated input = with_domain generated (ask_required input)

unfoldable pub offer_start : World → Bytes → Os × Result WriteError Input → Os × End
offer_start w machine (os, err e) = (os, not_written e)
offer_start w machine (os, ok input) =
    if (ask_yes_no false input).0
    then (start_background_path w (path_of machine) os, in_background)
    else (os, left)

unfoldable pub set_up : World → Os → Result Stuck (WizardData × Input) → Os × End
set_up w os (err e) = (os, stuck e)
set_up w os (ok (d, input)) = offer_start w d.this_machine (write_both d os input)

-- cloudflareSetup
unfoldable pub cloudflare_setup : World → Bytes → Os → Input → Os × End
cloudflare_setup w generated os input = set_up w os (cloudflare_data generated input)
