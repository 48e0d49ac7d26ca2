-- ===== src/Menu/Mappings.antt =====
-- internal/menu/wizard.go: gatherForwards and gatherServices. A list of mappings has fuel for its
-- entries, each of which takes a line at least.
pub mod Complete
pub mod Ending
use cando.Base.{
  ◌≡◌, ℕ, zero, suc, Bool, true, false, Option, none, some, List, [], ◌∷◌, ◌++◌, if◌then◌else◌,
  ◌==◌, Result, ok, err, ◌>>=◌, length,
}
use cando.Base.Bytes.{Bytes, text, bytes_eq}
use cando.Base.Int.{ℤ, pos}
use cando.Base.Decimal.{atoi}
use cando.Base.Text.{is_empty, to_lower, trim_space}
use cando.Config.{Forward, valid_transport, transport_tls, transport_tcp, proto_tcp, is_tls, is_ws}
use cando.Menu.{Input, ask, ask_default, ask_required, ask_yes_no, ask_proto}
use cando.Menu.Editor.{Stuck, asks_for_ever, out_of_fuel}
use cando.Tunnel.Addresses.{cut_last}

-- svcPair
pub record ServicePair : Type 0 where
  pub name : Bytes
  pub protocol : Bytes
  pub public_bind : Bytes
  pub local_addr : Bytes

module _ {A : Type 0} where
  -- The loop of gatherForwards and gatherServices; `read` asks for the rest of an entry.
  unfoldable pub gather :
      (Bytes → Input → A × Input) → ℕ → List A → Input → Result Stuck (List A × Input)
  gather read zero out input = err out_of_fuel
  gather read (suc f) out input =
      let name = trim_space (ask input).0 in
      let entry = read name (ask input).1 in
      let more = gather read f (out ++ (entry.0 ∷ [])) entry.1 in
      if is_empty name then ok (out, (ask input).1) else more

  unfoldable pub or_one : A → List A → List A
  or_one a [] = a ∷ []
  or_one a (x ∷ xs) = x ∷ xs

  unfoldable pub or_default : A → Result Stuck (List A × Input) → Result Stuck (List A × Input)
  or_default a (err e) = err e
  or_default a (ok (out, rest)) = ok (or_one a out, rest)

  unfoldable pub gathered : A → (Bytes → Input → A × Input) → Input → Result Stuck (List A × Input)
  gathered a read input = or_default a (gather read (suc (length input)) [] input)

abbrev pub default_forward : Forward
default_forward = record {
  name = text "svc1";
  protocol = proto_tcp;
  local_addr = text "0.0.0.0:1080";
  target_addr = text "127.0.0.1:1080";
}

abbrev pub default_service : ServicePair
default_service = record {
  name = text "svc1";
  protocol = proto_tcp;
  public_bind = text "0.0.0.0:8443";
  local_addr = text "127.0.0.1:8443";
}

unfoldable pub read_forward : Bytes → Input → Forward × Input
read_forward name input =
    let proto = ask_proto input in
    let local = ask_default (text "0.0.0.0:1080") proto.1 in
    let target = ask_default (text "127.0.0.1:1080") local.1 in
    (
      record { name = name; protocol = proto.0; local_addr = local.0; target_addr = target.0 },
      target.1,
    )

unfoldable pub read_service : Bytes → Input → ServicePair × Input
read_service name input =
    let proto = ask_proto input in
    let bind = ask_default (text "0.0.0.0:8443") proto.1 in
    let local = ask_default (text "127.0.0.1:8443") bind.1 in
    (
      record { name = name; protocol = proto.0; public_bind = bind.0; local_addr = local.0 },
      local.1,
    )

-- gatherForwards and gatherServices
unfoldable pub gather_forwards : Input → Result Stuck (List Forward × Input)
gather_forwards input = gathered default_forward read_forward input

unfoldable pub gather_services : Input → Result Stuck (List ServicePair × Input)
gather_services input = gathered default_service read_service input
