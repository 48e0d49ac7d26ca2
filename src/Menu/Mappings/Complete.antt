-- ===== src/Menu/Mappings/Complete.antt =====
-- internal/menu/wizard.go: gatherForwards and gatherServices of printable lines.
use cando.Base.{
  ℕ, zero, suc, ◌≢◌, inl, inr, refl, List, [], ◌∷◌, Result, ok, err, length, arith, All, All-append,
  Bool-cases,
}
use cando.Base.Bytes.{Bytes}
use cando.Base.Text.{is_empty, trim_space}
use cando.Config.{Forward}
use cando.Config.Shape.{IsProto}
use cando.Config.Accepted.{is_empty_iff}
use cando.Menu.{Input, ask}
use cando.Menu.Editor.{Stuck}
use cando.Menu.Mappings.{
  gather, or_one, or_default, gathered, default_forward, default_service, read_forward,
  read_service, gather_forwards, gather_services, ServicePair,
}
use cando.Menu.Wizard.Plain.{
  IsText, ArePlain, trim_space-IsPlain, ask-IsPlain, ask_default-IsText, ask_proto-IsProto,
}

pub record IsMapped (f : Forward) : Type 0 where
  pub name : IsText f.name
  pub protocol : IsProto f.protocol
  pub local_addr : IsText f.local_addr
  pub target_addr : IsText f.target_addr

pub record IsServed (s : ServicePair) : Type 0 where
  pub name : IsText s.name
  pub protocol : IsProto s.protocol
  pub public_bind : IsText s.public_bind
  pub local_addr : IsText s.local_addr

-- An answer, and the lines behind it.
abbrev pub Gives : {A : Type 0} → (A → Type 0) → A × Input → Type 0
Gives P r = P r.0 × ArePlain r.1

module _ {A : Type 0} (P : A → Type 0) where
  abbrev AllRead : (Bytes → Input → A × Input) → Type 0
  AllRead read =
      (name : Bytes) (input : Input) → IsText name → ArePlain input → Gives P (read name input)

  -- What a list that comes to its end holds.
  abbrev Gathered : Result Stuck (List A × Input) → Type 0
  Gathered (err e) = Unit
  Gathered (ok r) = Gives (All P) r

  gather-Gathered :
      (read : Bytes → Input → A × Input) (f : ℕ) (out : List A) (input : Input)
      → AllRead read
      → All P out
      → ArePlain input
      → Gathered (gather read f out input)
  unfolding gather
  gather-Gathered read zero out input good o h = tt
  gather-Gathered read (suc f) out input good o h =
      let (line, rest) = ask-IsPlain input h in
      let name = trim_space (ask input).0 in
      elim (Bool-cases (is_empty name)) [
        | inl e ↦ rw e (o, rest)
        | inr e ↦
            let (one, more) =
              good name (ask input).1 ((is_empty_iff name).0 e, trim_space-IsPlain _ line) rest in
            rw e (gather-Gathered read f _ _ good (All-append P out _ o (one, tt)) more)
      ]

  or_one-All : (a : A) (l : List A) → P a → All P l → All P (or_one a l)
  unfolding or_one
  or_one-All a [] h k = (h, tt)
  or_one-All a (x ∷ xs) h k = k

  or_one-ne : (a : A) (l : List A) → or_one a l ≢ []
  unfolding or_one
  or_one-ne a [] = λ e. cc
  or_one-ne a (x ∷ xs) = λ e. cc

  -- What a list that was asked for holds: it is not empty.
  abbrev pub Complete : Result Stuck (List A × Input) → Type 0
  Complete (err e) = Unit
  Complete (ok r) = (r.0 ≢ []) × Gives (All P) r

  or_default-Complete :
      (a : A) (r : Result Stuck (List A × Input)) → P a → Gathered r → Complete (or_default a r)
  unfolding or_default
  or_default-Complete a (err e) h k = tt
  or_default-Complete a (ok (out, rest)) h k = (or_one-ne a out, (or_one-All a out h k.0, k.1))

  gathered-Complete :
      (a : A) (read : Bytes → Input → A × Input) (input : Input)
      → P a
      → AllRead read
      → ArePlain input
      → Complete (gathered a read input)
  unfolding gathered
  gathered-Complete a read input h good p =
      or_default-Complete a _ h (gather-Gathered read (suc (length input)) [] input good tt p)

default_forward-IsMapped : IsMapped default_forward
default_forward-IsMapped = record {
  name = ((λ e. cc), omega arith);
  protocol = inl refl;
  local_addr = ((λ e. cc), omega arith);
  target_addr = ((λ e. cc), omega arith);
}

default_service-IsServed : IsServed default_service
default_service-IsServed = record {
  name = ((λ e. cc), omega arith);
  protocol = inl refl;
  public_bind = ((λ e. cc), omega arith);
  local_addr = ((λ e. cc), omega arith);
}

read_forward-IsMapped : AllRead IsMapped read_forward
unfolding read_forward
read_forward-IsMapped name input n h =
    let (proto, h1) = ask_proto-IsProto input h in
    let (local, h2) = ask_default-IsText _ _ default_forward-IsMapped.local_addr h1 in
    let (target, h3) = ask_default-IsText _ _ default_forward-IsMapped.target_addr h2 in
    (record { name = n; protocol = proto; local_addr = local; target_addr = target }, h3)

read_service-IsServed : AllRead IsServed read_service
unfolding read_service
read_service-IsServed name input n h =
    let (proto, h1) = ask_proto-IsProto input h in
    let (bind, h2) = ask_default-IsText _ _ default_service-IsServed.public_bind h1 in
    let (local, h3) = ask_default-IsText _ _ default_service-IsServed.local_addr h2 in
    (record { name = n; protocol = proto; public_bind = bind; local_addr = local }, h3)

pub gather_forwards-Complete :
    (input : Input) → ArePlain input → Complete IsMapped (gather_forwards input)
unfolding gather_forwards
gather_forwards-Complete input h =
    gathered-Complete IsMapped default_forward read_forward input default_forward-IsMapped
      read_forward-IsMapped h

pub gather_services-Complete :
    (input : Input) → ArePlain input → Complete IsServed (gather_services input)
unfolding gather_services
gather_services-Complete input h =
    gathered-Complete IsServed default_service read_service input default_service-IsServed
      read_service-IsServed h
