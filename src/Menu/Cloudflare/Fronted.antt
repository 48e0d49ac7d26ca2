-- ===== src/Menu/Cloudflare/Fronted.antt =====
-- internal/menu/cloudflare.go: the two files of cloudflareSetup are a server and a client that fit,
-- and the client verifies the certificate of the domain.
use cando.Base.{◌≡◌, false, Option, none, some, [], ◌++◌, Result, ok, err}
use cando.Base.Bytes.{Bytes, text}
use cando.Base.Text.{is_empty, trim_space}
use cando.Config.{Config, ClientConfig, transport_wss}
use cando.Menu.{Input}
use cando.Menu.Editor.{Stuck}
use cando.Menu.Mappings.Complete.{Complete}
use cando.Menu.Wizard.{WizardData}
use cando.Menu.Wizard.Answers.{IsReady}

-- A text with more than blanks in it, as askRequired gives it.
abbrev IsShown : Bytes → Type 0
IsShown t = is_empty (trim_space t) ≡ false

-- The client that speaks to the edge as a browser does, and verifies the edge's certificate.
pub record IsFronted (cl : ClientConfig) : Type 0 where
  pub carried : cl.transport ≡ transport_wss
  pub verified : cl.insecure ≡ false
  pub named : cl.host ≡ cl.sni
  pub dialled : cl.server_addr ≡ cl.sni ++ text ":443"

-- What the prompts of cloudflareSetup give.
pub record IsFront (d : WizardData) : Type 0 where
  pub ready : IsReady d
  pub shown : IsShown d.sni
  pub same : (d.host ≡ d.sni) × (d.server_addr ≡ d.sni ++ text ":443")
  pub flags : (d.transport ≡ transport_wss) × (d.insecure ≡ false)
  pub nothing : d.services ≡ []

abbrev EndsFront : Result Stuck (WizardData × Input) → Type 0
EndsFront (err e) = Unit
EndsFront (ok r) = IsFront r.0

-- What askRequired gives is trimmed and not empty.
abbrev Shows : Option (Bytes × Input) → Type 0
Shows none = Unit
Shows (some r) = IsShown r.0
