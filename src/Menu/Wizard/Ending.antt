-- ===== src/Menu/Wizard/Ending.antt =====
-- internal/menu/wizard.go: when wizard comes to the end of its prompts.
use cando.Base.{
  ℕ, ◌≡◌, ◌≢◌, ◌⊎◌, ◌↔◌, refl, Bool, true, false, Option, none, some, List, [], ◌∷◌, ◌==◌, Result,
  ok, err, arith, drop, Bool-cases, inl, inr,
}
use cando.Base.Bytes.{Bytes}
use cando.Base.Text.{is_empty, trim_space}
use cando.Config.{Forward}
use cando.Config.Accepted.{is_empty_iff}
use cando.Menu.{Input, ask, ask_default, ask_required, ask_yes_no}
use cando.Menu.Editor.{Stuck}
use cando.Menu.Mappings.{ServicePair}
use cando.Menu.Mappings.Ending.{Comes, gather_forwards-Comes, gather_services-Comes}
use cando.Menu.Wizard.{
  WizardData, ask_topology, ask_machine, ask_transport, ask_token, forwards_given, services_given,
  ask_mappings, with_address, wizard_data,
}

-- Some line is not blank.
abbrev pub HasText : Input → Type 0
HasText [] = ⊥
HasText (line ∷ input) = (trim_space line ≢ []) ⊎ HasText input

abbrev Found : Option (Bytes × Input) → Type 0
Found none = ⊥
Found (some r) = Unit

ask_required-Found : (input : Input) → Found (ask_required input) ↔ HasText input
unfolding ask_required
ask_required-Found [] = ((λ h. h), (λ h. h))
ask_required-Found (line ∷ input) = elim (Bool-cases (is_empty (trim_space line))) [
  | inl e ↦ rw e (ground (arith, ask_required-Found input, is_empty_iff (trim_space line)))
  | inr e ↦ rw e ((λ h. inl ((is_empty_iff (trim_space line)).0 e)), (λ h. tt))
]

forwards_given-Comes :
    (d : WizardData) (r : Result Stuck (List Forward × Input))
    → Comes r
    → Comes (forwards_given d r)
unfolding forwards_given
forwards_given-Comes d (err e) h = h
forwards_given-Comes d (ok (l, rest)) h = tt

services_given-Comes :
    (d : WizardData) (r : Result Stuck (List ServicePair × Input))
    → Comes r
    → Comes (services_given d r)
unfolding services_given
services_given-Comes d (err e) h = h
services_given-Comes d (ok (l, rest)) h = tt

ask_mappings-Comes : (b : Bool) (d : WizardData) (input : Input) → Comes (ask_mappings b d input)
unfolding ask_mappings
ask_mappings-Comes true d input = forwards_given-Comes d _ (gather_forwards-Comes input)
ask_mappings-Comes false d input = services_given-Comes d _ (gather_services-Comes input)

with_address-Comes :
    (scenario : ℕ) (machine transport token : Bytes) (o : Option (Bytes × Input))
    → Comes (with_address scenario machine transport token o) ↔ Found o
unfolding with_address
with_address-Comes scenario machine transport token none = ((λ h. h), (λ h. h))
with_address-Comes scenario machine transport token (some (addr, input)) =
    ((λ h. tt), (λ h. ask_mappings-Comes (scenario == 1) _ _))

-- The four prompts before the one for the address take a line each.
four_asked :
    (generated : Bytes) (input : Input)
    → let t = ask_topology input in
      (ask_token generated (ask_transport (ask_machine t.0 t.1).1).1).1 ≡ drop 4 input
unfolding ask_topology ask_machine ask_transport ask_token ask_default ask_yes_no ask
four_asked generated [] = refl
four_asked generated (a ∷ []) = refl
four_asked generated (a ∷ b ∷ []) = refl
four_asked generated (a ∷ b ∷ c ∷ []) = refl
four_asked generated (a ∷ b ∷ c ∷ d ∷ input) = refl

-- The prompts of wizard come to their end exactly if one of the lines behind the first four is not
-- blank: askRequired for the address is the only one that can ask for ever.
pub wizard_data-Comes :
    (generated : Bytes) (input : Input)
    → Comes (wizard_data generated input) ↔ HasText (drop 4 input)
unfolding wizard_data
wizard_data-Comes generated input = rw (← four_asked generated input) (
  (λ h. (ask_required-Found _).0 ((with_address-Comes _ _ _ _ _).0 h)),
  (λ h. (with_address-Comes _ _ _ _ _).1 ((ask_required-Found _).1 h)),
)
