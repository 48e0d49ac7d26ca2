-- ===== src/Menu/Mappings/Ending.antt =====
-- internal/menu/wizard.go: the loops of gatherForwards and gatherServices come to their end, and so
-- does wizard if askRequired does.
use cando.Base.{
  ℕ, zero, suc, ◌≤◌, ◌<◌, List, [], ◌∷◌, ◌++◌, Result, ok, err, length, arith, Bool-cases, inl, inr,
}
use cando.Base.Bytes.{Bytes, text}
use cando.Base.Text.{is_empty, trim_space, trim_left, trim_right}
use cando.Menu.{Input, ask, ask_default, ask_proto}
use cando.Menu.Editor.{Stuck}
use cando.Menu.Ending.{ask_default-length, ask_proto-length}
use cando.Menu.Mappings.{
  gather, or_default, gathered, default_forward, default_service, read_forward, read_service,
  gather_forwards, gather_services,
}

-- The prompts come to their end, with an answer.
abbrev pub Comes : {A : Type 0} → Result Stuck (A × Input) → Type 0
Comes (err e) = ⊥
Comes (ok r) = Unit

module _ {A : Type 0} where
  abbrev Shrinks : (Bytes → Input → A × Input) → Type 0
  Shrinks read = (name : Bytes) (input : Input) → length (read name input).1 ≤ length input

  gather-Comes :
      (read : Bytes → Input → A × Input) (f : ℕ) (out : List A) (input : Input)
      → Shrinks read
      → length input < f
      → Comes (gather read f out input)
  unfolding gather ask trim_space trim_left trim_right is_empty
  gather-Comes read zero out input s l = absurd (omega arith)
  gather-Comes read (suc f) out [] s l = tt
  gather-Comes read (suc f) out (line ∷ input) s l =
      let name = trim_right (trim_left line) in
      let r = read name input in
      elim (Bool-cases (is_empty name)) [
        | inl e ↦ rw e tt
        | inr e ↦ rw e (gather-Comes read f (out ++ (r.0 ∷ [])) r.1 s (omega (arith, s name input)))
      ]

  or_default-Comes : (a : A) (r : Result Stuck (List A × Input)) → Comes r → Comes (or_default a r)
  unfolding or_default
  or_default-Comes a (err e) h = h
  or_default-Comes a (ok (out, rest)) h = tt

read_forward-Shrinks : Shrinks read_forward
unfolding read_forward
read_forward-Shrinks name input =
    let proto = ask_proto input in
    let local = ask_default (text "0.0.0.0:1080") proto.1 in
    omega (
      arith,
      ask_proto-length input,
      ask_default-length (text "0.0.0.0:1080") proto.1,
      ask_default-length (text "127.0.0.1:1080") local.1,
    )

read_service-Shrinks : Shrinks read_service
unfolding read_service
read_service-Shrinks name input =
    let proto = ask_proto input in
    let bind = ask_default (text "0.0.0.0:8443") proto.1 in
    omega (
      arith,
      ask_proto-length input,
      ask_default-length (text "0.0.0.0:8443") proto.1,
      ask_default-length (text "127.0.0.1:8443") bind.1,
    )

pub gather_forwards-Comes : (input : Input) → Comes (gather_forwards input)
unfolding gather_forwards gathered
gather_forwards-Comes input =
    or_default-Comes default_forward _
      (gather-Comes read_forward _ [] input read_forward-Shrinks (omega arith))

pub gather_services-Comes : (input : Input) → Comes (gather_services input)
unfolding gather_services gathered
gather_services-Comes input =
    or_default-Comes default_service _
      (gather-Comes read_service _ [] input read_service-Shrinks (omega arith))
