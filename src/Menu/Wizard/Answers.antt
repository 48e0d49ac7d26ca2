-- ===== src/Menu/Wizard/Answers.antt =====
-- internal/menu/wizard.go: what the prompts of wizard make of printable lines is complete.
use cando.Base.{
  ℕ, ◌≡◌, ◌≢◌, ◌⊎◌, inl, inr, true, false, Option, none, some, List, [], ◌==◌, Result, ok, err,
  arith, All,
}
use cando.Base.Bytes.{Bytes, text}
use cando.Base.Int.{pos}
use cando.Config.{Forward}
use cando.Config.Shape.{IsTransport}
use cando.Config.Tags.Document.{IsPlain}
use cando.Menu.{Input}
use cando.Menu.Editor.{Stuck}
use cando.Menu.Mappings.{ServicePair}
use cando.Menu.Wizard.{
  WizardData, forwards_given, services_given, with_address, ask_mappings, wizard_data,
}
use cando.Menu.Mappings.Complete.{
  IsMapped, IsServed, Complete, gather_forwards-Complete, gather_services-Complete,
}
use cando.Menu.Wizard.Questions.{
  ask_camouflage-Gives, ask_transport-Gives, ask_token-Gives, ask_machine-ArePlain,
  ask_topology-Gives,
}
use cando.Menu.Wizard.Plain.{
  IsText, ArePlain, ask_int-ArePlain, Answered, ask_required-Answered, port_of-IsPlain,
}

-- One of the two scenarios has its mappings.
abbrev pub HasMappings : WizardData → Type 0
HasMappings d = ((d.scenario ≡ 1) × (d.forwards ≢ [])) ⊎ ((d.scenario ≡ 2) × (d.services ≢ []))

==_true : (n : ℕ) → n ≡ 1 → (n == 1) ≡ true
==_true n e = ground arith

==_false : (n : ℕ) → n ≡ 2 → (n == 1) ≡ false
==_false n e = ground arith

-- The data is complete but for its mappings.
pub record IsBegun (d : WizardData) : Type 0 where
  pub carried : IsTransport d.transport
  pub token : IsText d.token
  pub dialled : IsText d.server_addr
  pub port : IsPlain d.bind_port
  pub sni : IsPlain d.sni
  pub host : IsPlain d.host
  pub ws_path : IsPlain d.ws_path
  pub fingerprint : IsPlain d.fingerprint
  pub forwards : All IsMapped d.forwards
  pub services : All IsServed d.services

pub record IsReady (d : WizardData) : Type 0 where
  pub begun : IsBegun d
  pub mapped : HasMappings d

-- What comes to its end is ready.
abbrev pub EndsReady : Result Stuck (WizardData × Input) → Type 0
EndsReady (err e) = Unit
EndsReady (ok r) = IsReady r.0

-- The data with its mappings.
mapped-IsBegun :
    (d : WizardData) (fs : List Forward) (ss : List ServicePair)
    → IsBegun d
    → All IsMapped fs
    → All IsServed ss
    → IsBegun (record d { forwards = fs; services = ss })
mapped-IsBegun d fs ss b f s = record {
  carried = b.carried;
  token = b.token;
  dialled = b.dialled;
  port = b.port;
  sni = b.sni;
  host = b.host;
  ws_path = b.ws_path;
  fingerprint = b.fingerprint;
  forwards = f;
  services = s;
}

pub forwards_given-EndsReady :
    (d : WizardData) (r : Result Stuck (List Forward × Input))
    → IsBegun d
    → d.scenario ≡ 1
    → Complete IsMapped r
    → EndsReady (forwards_given d r)
unfolding forwards_given
forwards_given-EndsReady d (err e) b s c = tt
forwards_given-EndsReady d (ok (l, rest)) b s c = record {
  begun = mapped-IsBegun d l d.services b c.1.0 b.services;
  mapped = inl (s, c.0);
}

pub services_given-EndsReady :
    (d : WizardData) (r : Result Stuck (List ServicePair × Input))
    → IsBegun d
    → d.scenario ≡ 2
    → Complete IsServed r
    → EndsReady (services_given d r)
unfolding services_given
services_given-EndsReady d (err e) b s c = tt
services_given-EndsReady d (ok (l, rest)) b s c = record {
  begun = mapped-IsBegun d d.forwards l b b.forwards c.1.0;
  mapped = inr (s, c.0);
}

ask_mappings-EndsReady :
    (d : WizardData) (input : Input)
    → IsBegun d
    → (d.scenario ≡ 1) ⊎ (d.scenario ≡ 2)
    → ArePlain input
    → EndsReady (ask_mappings (d.scenario == 1) d input)
unfolding ask_mappings
ask_mappings-EndsReady d input b (inl s) h =
    rw (==_true d.scenario s) (forwards_given-EndsReady d _ b s (gather_forwards-Complete input h))
ask_mappings-EndsReady d input b (inr s) h =
    rw (==_false d.scenario s) (services_given-EndsReady d _ b s (gather_services-Complete input h))

with_address-EndsReady :
    (scenario : ℕ) (machine transport token : Bytes) (o : Option (Bytes × Input))
    → (scenario ≡ 1) ⊎ (scenario ≡ 2)
    → IsTransport transport
    → IsText token
    → Answered o
    → EndsReady (with_address scenario machine transport token o)
unfolding with_address
with_address-EndsReady scenario machine transport token none s t k a = tt
with_address-EndsReady scenario machine transport token (some (addr, input)) s t k a =
    let (c, h) = ask_camouflage-Gives transport input a.1 in
    ask_mappings-EndsReady _ _
      record {
        carried = t;
        token = k;
        dialled = a.0;
        port = port_of-IsPlain addr (text "443") a.0.1 (omega arith);
        sni = c.sni;
        host = c.host;
        ws_path = c.ws_path;
        fingerprint = c.fingerprint;
        forwards = tt;
        services = tt;
      }
      s (ask_int-ArePlain (pos 2) _ h)

-- The data that wizard makes of printable lines without quotes and backslashes is complete: a known
-- transport, a token and an address that are not empty, and at least one mapping, each with its
-- fields filled in.
pub wizard_data-EndsReady :
    (generated : Bytes) (input : Input)
    → IsText generated
    → ArePlain input
    → EndsReady (wizard_data generated input)
unfolding wizard_data
wizard_data-EndsReady generated input g h =
    let (s, h1) = ask_topology-Gives input h in
    let h2 = ask_machine-ArePlain _ _ h1 in
    let (t, h3) = ask_transport-Gives _ h2 in
    let (k, h4) = ask_token-Gives generated _ g h3 in
    with_address-EndsReady _ _ _ _ _ s t k (ask_required-Answered _ h4)
