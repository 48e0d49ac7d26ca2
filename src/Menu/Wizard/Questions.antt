-- ===== src/Menu/Wizard/Questions.antt =====
-- internal/menu/wizard.go: the answers to the questions of wizard before the mappings.
use cando.Base.{ℕ, ◌≡◌, ◌⊎◌, Bool, true, false, [], ◌∷◌, arith}
use cando.Base.Bytes.{Bytes, text, bytes_eq}
use cando.Base.Text.{to_lower}
use cando.Config.{transport_tcp, is_tls, is_ws}
use cando.Config.Shape.{IsTransport}
use cando.Config.Tags.Document.{IsPlain}
use cando.Config.Accepted.{valid_transport_iff, is_empty_iff}
use cando.Menu.{Input, ask_default}
use cando.Menu.Wizard.{
  first_non_empty, ask_topology, ask_machine, ask_transport, ask_token, Camouflage, no_camouflage,
  ask_tls, ask_ws, ask_obfs, ask_camouflage,
}
use cando.Menu.Mappings.Complete.{Gives}
use cando.Menu.Wizard.Plain.{
  IsText, ArePlain, ask_default-IsText, ask_default-IsPlain, ask_yes_no-ArePlain,
  first_non_empty-IsPlain,
}

pub record IsCamouflage (c : Camouflage) : Type 0 where
  pub sni : IsPlain c.sni
  pub host : IsPlain c.host
  pub ws_path : IsPlain c.ws_path
  pub fingerprint : IsPlain c.fingerprint

chrome_text : IsText (text "chrome")
chrome_text = ((λ e. cc), omega arith)

ask_tls-Gives :
    (b : Bool) (c : Camouflage) (input : Input)
    → IsCamouflage c
    → ArePlain input
    → Gives IsCamouflage (ask_tls b c input)
unfolding ask_tls
ask_tls-Gives false c input k h = (k, h)
ask_tls-Gives true c input k h =
    let (sni, h1) = ask_default-IsText (text "www.example.com") input ((λ e. cc), omega arith) h in
    let h2 = ask_yes_no-ArePlain true _ h1 in
    let (print, h3) = ask_default-IsText (text "chrome") _ chrome_text h2 in
    (record { sni = sni.1; host = k.host; ws_path = k.ws_path; fingerprint = print.1 }, h3)

ask_ws-Gives :
    (b : Bool) (c : Camouflage) (input : Input)
    → IsCamouflage c
    → ArePlain input
    → Gives IsCamouflage (ask_ws b c input)
unfolding ask_ws
ask_ws-Gives false c input k h = (k, h)
ask_ws-Gives true c input k h =
    let (path, h1) = ask_default-IsText (text "/cando") input ((λ e. cc), omega arith) h in
    let (host, h2) =
      ask_default-IsPlain (first_non_empty (c.sni ∷ text "www.example.com" ∷ [])) _
        (first_non_empty-IsPlain c.sni _ k.sni (omega arith)) h1 in
    (record { sni = k.sni; host = host; ws_path = path.1; fingerprint = k.fingerprint }, h2)

ask_obfs-Gives :
    (b : Bool) (c : Camouflage) (input : Input)
    → IsCamouflage c
    → ArePlain input
    → Gives IsCamouflage (ask_obfs b c input)
unfolding ask_obfs
ask_obfs-Gives false c input k h = (k, h)
ask_obfs-Gives true c input k h = (
  record { sni = k.sni; host = k.host; ws_path = k.ws_path; fingerprint = k.fingerprint },
  ask_yes_no-ArePlain true input h,
)

pub ask_camouflage-Gives :
    (t : Bytes) (input : Input) → ArePlain input → Gives IsCamouflage (ask_camouflage t input)
unfolding ask_camouflage
ask_camouflage-Gives t input h =
    let (k1, h1) =
      ask_tls-Gives (is_tls t) no_camouflage input
        (record { sni = tt; host = tt; ws_path = tt; fingerprint = tt }) h in
    let (k2, h2) = ask_ws-Gives (is_ws t) _ _ k1 h1 in
    ask_obfs-Gives (bytes_eq t transport_tcp) _ _ k2 h2

pub ask_transport-Gives : (input : Input) → ArePlain input → Gives IsTransport (ask_transport input)
unfolding ask_transport
ask_transport-Gives input h =
    let t = to_lower (ask_default (text "tls") input).0 in
    ground (
      arith,
      valid_transport_iff t,
      (ask_default-IsText (text "tls") input ((λ e. cc), omega arith) h).1,
    )

pub ask_token-Gives :
    (generated : Bytes) (input : Input)
    → IsText generated
    → ArePlain input
    → Gives IsText (ask_token generated input)
unfolding ask_token
ask_token-Gives generated input g h =
    let (token, rest) = ask_default-IsPlain [] input tt h in
    ground (arith, is_empty_iff (ask_default [] input).0)

pub ask_machine-ArePlain :
    (scenario : ℕ) (input : Input) → ArePlain input → ArePlain (ask_machine scenario input).1
unfolding ask_machine
ask_machine-ArePlain scenario input h = ask_yes_no-ArePlain true input h

pub ask_topology-Gives :
    (input : Input) → ArePlain input → Gives (λ s. (s ≡ 1) ⊎ (s ≡ 2)) (ask_topology input)
unfolding ask_topology
ask_topology-Gives input h = ground (arith, ask_default-IsPlain (text "1") input (omega arith) h)
