-- ===== src/Menu/Wizard.antt =====
-- internal/menu/wizard.go: the prompts of wizard, which make the data that both configurations are
-- generated from.
pub mod Files
pub mod Reading
pub mod Plain
pub mod Printed
pub mod Questions
pub mod Answers
pub mod Pair
pub mod Quoted
pub mod Written
pub mod Loading
pub mod Ending
pub mod Running
pub mod Outcome
pub mod Duplicates
use cando.Base.{
  ◌≡◌, ℕ, zero, suc, Bool, true, false, Option, none, some, List, [], ◌∷◌, ◌++◌, if◌then◌else◌,
  ◌==◌, Result, ok, err, ◌>>=◌, length,
}
use cando.Base.Bytes.{Bytes, text, bytes_eq}
use cando.Base.Int.{ℤ, pos}
use cando.Base.Decimal.{atoi}
use cando.Base.Text.{is_empty, to_lower, trim_space}
use cando.Config.{Forward, valid_transport, transport_tls, transport_tcp, proto_tcp, is_tls, is_ws}
use cando.Menu.{Input, ask, ask_default, ask_required, ask_yes_no, ask_int}
use cando.Menu.Editor.{Stuck, asks_for_ever, out_of_fuel}
use cando.Menu.Mappings.{ServicePair, gather_forwards, gather_services}
use cando.Tunnel.Addresses.{cut_last}

-- wizardData
pub record WizardData : Type 0 where
  pub scenario : ℕ
  pub transport : Bytes
  pub token : Bytes
  pub server_addr : Bytes
  pub bind_port : Bytes
  pub sni : Bytes
  pub host : Bytes
  pub ws_path : Bytes
  pub fingerprint : Bytes
  pub obfs : Bool
  pub insecure : Bool
  pub pool_size : ℤ
  pub forwards : List Forward
  pub services : List ServicePair
  pub this_machine : Bytes

-- firstNonEmpty
unfoldable pub first_non_empty : List Bytes → Bytes
first_non_empty [] = []
first_non_empty (v ∷ vals) =
    let rest = first_non_empty vals in if is_empty (trim_space v) then rest else v

unfoldable pub port_behind : Bytes → Option (Bytes × Bytes) → Bytes
port_behind def none = def
port_behind def (some (before, after)) = if is_empty after then def else after

-- portOf, of what stands before and after the last ':'.
unfoldable pub port_of : Bytes → Bytes → Bytes
port_of hostport def = port_behind def (cut_last b':' hostport)

-- The topology, and which role this machine has in it.
unfoldable pub ask_topology : Input → ℕ × Input
ask_topology input =
    let v = ask_default (text "1") input in (if bytes_eq v.0 (text "2") then 2 else 1, v.1)

unfoldable pub iran_role : ℕ → Bytes
iran_role scenario = if scenario == 1 then text "client" else text "server"

unfoldable pub foreign_role : ℕ → Bytes
foreign_role scenario = if scenario == 1 then text "server" else text "client"

unfoldable pub ask_machine : ℕ → Input → Bytes × Input
ask_machine scenario input =
    let here = ask_yes_no true input in
    (if here.0 then iran_role scenario else foreign_role scenario, here.1)

unfoldable pub ask_transport : Input → Bytes × Input
ask_transport input =
    let v = ask_default (text "tls") input in
    let t = to_lower v.0 in (if valid_transport t then t else transport_tls, v.1)

-- `generated` is the text of genToken.
unfoldable pub ask_token : Bytes → Input → Bytes × Input
ask_token generated input =
    let v = ask_default [] input in (if is_empty v.0 then generated else v.0, v.1)

-- The answers that only some transports are asked for; the others stay empty.
pub record Camouflage : Type 0 where
  pub sni : Bytes
  pub insecure : Bool
  pub fingerprint : Bytes
  pub ws_path : Bytes
  pub host : Bytes
  pub obfs : Bool

abbrev no_camouflage : Camouflage
no_camouflage = record {
  sni = [];
  insecure = false;
  fingerprint = [];
  ws_path = [];
  host = [];
  obfs = false;
}

unfoldable pub ask_tls : Bool → Camouflage → Input → Camouflage × Input
ask_tls false c input = (c, input)
ask_tls true c input =
    let sni = ask_default (text "www.example.com") input in
    let insecure = ask_yes_no true sni.1 in
    let fingerprint = ask_default (text "chrome") insecure.1 in
    (record c { sni = sni.0; insecure = insecure.0; fingerprint = fingerprint.0 }, fingerprint.1)

unfoldable pub ask_ws : Bool → Camouflage → Input → Camouflage × Input
ask_ws false c input = (c, input)
ask_ws true c input =
    let path = ask_default (text "/cando") input in
    let host = ask_default (first_non_empty (c.sni ∷ text "www.example.com" ∷ [])) path.1 in
    (record c { ws_path = path.0; host = host.0 }, host.1)

unfoldable pub ask_obfs : Bool → Camouflage → Input → Camouflage × Input
ask_obfs false c input = (c, input)
ask_obfs true c input = let obfs = ask_yes_no true input in (record c { obfs = obfs.0 }, obfs.1)

unfoldable pub ask_camouflage : Bytes → Input → Camouflage × Input
ask_camouflage transport input =
    let tls = ask_tls (is_tls transport) no_camouflage input in
    let ws = ask_ws (is_ws transport) tls.0 tls.1 in
    ask_obfs (bytes_eq transport transport_tcp) ws.0 ws.1

unfoldable pub forwards_given :
    WizardData → Result Stuck (List Forward × Input) → Result Stuck (WizardData × Input)
forwards_given d (err e) = err e
forwards_given d (ok (forwards, rest)) = ok (record d { forwards = forwards }, rest)

unfoldable pub services_given :
    WizardData → Result Stuck (List ServicePair × Input) → Result Stuck (WizardData × Input)
services_given d (err e) = err e
services_given d (ok (services, rest)) = ok (record d { services = services }, rest)

-- The mappings: forwards in the first scenario, services in the other.
unfoldable pub ask_mappings : Bool → WizardData → Input → Result Stuck (WizardData × Input)
ask_mappings true d input = forwards_given d (gather_forwards input)
ask_mappings false d input = services_given d (gather_services input)

-- The questions behind the address, to the first of which `input` answers.
unfoldable pub with_address :
    ℕ → Bytes → Bytes → Bytes → Option (Bytes × Input) → Result Stuck (WizardData × Input)
with_address scenario machine transport token none = err asks_for_ever
with_address scenario machine transport token (some (addr, input)) =
    let c = ask_camouflage transport input in
    let pool = ask_int (pos 2) c.1 in
    ask_mappings (scenario == 1)
      (record {
        scenario = scenario;
        transport = transport;
        token = token;
        server_addr = addr;
        bind_port = port_of addr (text "443");
        sni = c.0.sni;
        host = c.0.host;
        ws_path = c.0.ws_path;
        fingerprint = c.0.fingerprint;
        obfs = c.0.obfs;
        insecure = c.0.insecure;
        pool_size = pool.0;
        forwards = [];
        services = [];
        this_machine = machine;
      })
      pool.1

-- wizard, up to the data that it writes out.
unfoldable pub wizard_data : Bytes → Input → Result Stuck (WizardData × Input)
wizard_data generated input =
    let topology = ask_topology input in
    let machine = ask_machine topology.0 topology.1 in
    let transport = ask_transport machine.1 in
    let token = ask_token generated transport.1 in
    with_address topology.0 machine.0 transport.0 token.0 (ask_required token.1)
