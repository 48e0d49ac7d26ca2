-- ===== src/Menu/Wizard/Plain.antt =====
-- internal/menu/menu.go: the prompts give plain answers for plain lines.
use cando.Base.{
  ℕ, Bool, Option, none, some, [], ◌∷◌, if◌then◌else◌, arith, All, Bool-cases, Option-cases, inl,
  inr, subst, ◌==◌,
}
use cando.Base.Bytes.{Bytes, text}
use cando.Base.Int.{ℤ}
use cando.Base.Text.{is_empty, trim_space, trim_left, trim_right}
use cando.Config.Shape.{IsFilled, IsProto}
use cando.Config.Tags.Document.{IsPlain}
use cando.Config.Accepted.{is_empty_iff}
use cando.Menu.{Input, ask, ask_default, ask_required, ask_yes_no, ask_proto, ask_int}
use cando.Menu.Wizard.{first_non_empty, port_behind, port_of}
use cando.Tunnel.Addresses.{cut_last}

abbrev pub IsText : Bytes → Type 0
IsText t = IsFilled t × IsPlain t

abbrev pub ArePlain : Input → Type 0
ArePlain = All IsPlain

trim_left-IsPlain : (s : Bytes) → IsPlain s → IsPlain (trim_left s)
unfolding trim_left
trim_left-IsPlain [] h = h
trim_left-IsPlain (c ∷ cs) h = ground (arith, trim_left-IsPlain cs h.1)

trim_right-IsPlain : (s : Bytes) → IsPlain s → IsPlain (trim_right s)
unfolding trim_right
trim_right-IsPlain [] h = h
trim_right-IsPlain (c ∷ cs) h = ground (arith, trim_right-IsPlain cs h.1)

pub trim_space-IsPlain : (s : Bytes) → IsPlain s → IsPlain (trim_space s)
unfolding trim_space
trim_space-IsPlain s h = trim_right-IsPlain _ (trim_left-IsPlain s h)

pub ask-IsPlain : (input : Input) → ArePlain input → IsPlain (ask input).0 × ArePlain (ask input).1
unfolding ask
ask-IsPlain [] h = (tt, tt)
ask-IsPlain (line ∷ input) h = h

or_default_text : (v def : Bytes) → IsPlain v → IsText def → IsText (if is_empty v then def else v)
unfolding is_empty
or_default_text [] def h d = d
or_default_text (b ∷ bs) def h d = ((λ e. cc), h)

pub ask_default-IsText :
    (def : Bytes) (input : Input)
    → IsText def
    → ArePlain input
    → IsText (ask_default def input).0 × ArePlain (ask_default def input).1
unfolding ask_default
ask_default-IsText def input d h =
    let (line, rest) = ask-IsPlain input h in
    (or_default_text (trim_space (ask input).0) def (trim_space-IsPlain _ line) d, rest)

if_empty-IsPlain :
    (v def : Bytes) → IsPlain v → IsPlain def → IsPlain (if is_empty v then def else v)
unfolding is_empty
if_empty-IsPlain [] def h d = d
if_empty-IsPlain (b ∷ bs) def h d = h

pub ask_default-IsPlain :
    (def : Bytes) (input : Input)
    → IsPlain def
    → ArePlain input
    → IsPlain (ask_default def input).0 × ArePlain (ask_default def input).1
unfolding ask_default
ask_default-IsPlain def input d h =
    let (line, rest) = ask-IsPlain input h in
    (if_empty-IsPlain (trim_space (ask input).0) def (trim_space-IsPlain _ line) d, rest)

pub ask_yes_no-ArePlain :
    (def : Bool) (input : Input) → ArePlain input → ArePlain (ask_yes_no def input).1
unfolding ask_yes_no
ask_yes_no-ArePlain def input h = (ask-IsPlain input h).1

pub ask_int-ArePlain : (def : ℤ) (input : Input) → ArePlain input → ArePlain (ask_int def input).1
unfolding ask_int
ask_int-ArePlain def input h = (ask-IsPlain input h).1

-- What a prompt that does not ask for ever gives.
abbrev pub Answered : Option (Bytes × Input) → Type 0
Answered none = Unit
Answered (some r) = IsText r.0 × ArePlain r.1

pub ask_required-Answered : (input : Input) → ArePlain input → Answered (ask_required input)
unfolding ask_required
ask_required-Answered [] h = tt
ask_required-Answered (line ∷ input) h = elim (Bool-cases (is_empty (trim_space line))) [
  | inl e ↦ rw e (ask_required-Answered input h.1)
  | inr e ↦ rw e (((is_empty_iff (trim_space line)).0 e, trim_space-IsPlain line h.0), h.1)
]

proto_text : IsText (text "tcp")
proto_text = ((λ e. cc), omega arith)

pub ask_proto-IsProto :
    (input : Input) → ArePlain input → IsProto (ask_proto input).0 × ArePlain (ask_proto input).1
unfolding ask_proto
ask_proto-IsProto input h = ground (arith, ask_default-IsText (text "tcp") input proto_text h)

pub first_non_empty-IsPlain :
    (a b : Bytes) → IsPlain a → IsPlain b → IsPlain (first_non_empty (a ∷ b ∷ []))
unfolding first_non_empty
first_non_empty-IsPlain a b h k = ground arith

-- What stands behind a byte that was found.
abbrev BehindIsPlain : Option (Bytes × Bytes) → Type 0
BehindIsPlain none = Unit
BehindIsPlain (some r) = IsPlain r.1

found_here :
    (c b : ℕ) (bs : Bytes) → IsPlain bs → BehindIsPlain (if b == c then some ([], bs) else none)
found_here c b bs h = ground arith

cut_last-IsPlain : (c : ℕ) (s : Bytes) → IsPlain s → BehindIsPlain (cut_last c s)
unfolding cut_last
cut_last-IsPlain c [] h = tt
cut_last-IsPlain c (b ∷ bs) h = elim (Option-cases (cut_last c bs)) [
  | inl e ↦ rw e (found_here c b bs h.1)
  | inr (r, e) ↦ rw e (subst BehindIsPlain e (cut_last-IsPlain c bs h.1))
]

port_behind-IsPlain :
    (def : Bytes) (o : Option (Bytes × Bytes))
    → IsPlain def
    → BehindIsPlain o
    → IsPlain (port_behind def o)
unfolding port_behind
port_behind-IsPlain def none d h = d
port_behind-IsPlain def (some (before, after)) d h = ground arith

pub port_of-IsPlain : (s def : Bytes) → IsPlain s → IsPlain def → IsPlain (port_of s def)
unfolding port_of
port_of-IsPlain s def h d = port_behind-IsPlain def (cut_last b':' s) d (cut_last-IsPlain b':' s h)
