-- ===== src/Menu.antt =====
-- internal/menu: the prompts of menu.go, and the helpers of manage.go and wizard.go. What the user
-- types is a list of lines, each without its end; behind the last of them every prompt gets an empty
-- text, as ask drops the error.
pub mod Editor
pub mod Mappings
pub mod Wizard
pub mod Cloudflare
pub mod Picked
pub mod Kept
pub mod Saved
pub mod Background
pub mod Ending
use cando.Base.{
  ℕ, zero, suc, ◌-◌, Bool, true, false, not, ◌||◌, ◌&&◌, Option, none, some, List, [], ◌∷◌, ltb,
  if◌then◌else◌,
}
use cando.Base.Bytes.{Bytes, text, bytes_eq}
use cando.Base.Int.{ℤ, pos, negsuc}
use cando.Base.Decimal.{atoi}
use cando.Base.Text.{is_empty, to_lower, trim_space}
use cando.Config.{proto_tcp, proto_udp}

abbrev pub Input : Type 0
Input = List Bytes

-- ask
unfoldable pub ask : Input → Bytes × Input
ask [] = ([], [])
ask (line ∷ input) = (line, input)

-- askDefault
unfoldable pub ask_default : Bytes → Input → Bytes × Input
ask_default def input =
    let v = trim_space (ask input).0 in (if is_empty v then def else v, (ask input).1)

-- askRequired; none is the loop that never ends, behind the last line.
unfoldable pub ask_required : Input → Option (Bytes × Input)
ask_required [] = none
ask_required (line ∷ input) =
    let again = ask_required input in
    let v = trim_space line in if is_empty v then again else some (v, input)

-- askYesNo
unfoldable pub ask_yes_no : Bool → Input → Bool × Input
ask_yes_no def input =
    let v = to_lower (trim_space (ask input).0) in
    (if is_empty v then def else bytes_eq v (text "y") || bytes_eq v (text "yes"), (ask input).1)

unfoldable pub int_or : ℤ → Option ℤ → ℤ
int_or def none = def
int_or def (some n) = n

-- askInt
unfoldable pub ask_int : ℤ → Input → ℤ × Input
ask_int def input =
    let v = trim_space (ask input).0 in
    (if is_empty v then def else int_or def (atoi v), (ask input).1)

-- askProto
unfoldable pub ask_proto : Input → Bytes × Input
ask_proto input =
    let r = ask_default (text "tcp") input in
    (if bytes_eq (to_lower (trim_space r.0)) proto_udp then proto_udp else proto_tcp, r.1)

unfoldable pub in_list : ℕ → Option ℤ → ℤ
in_list n none = negsuc 0
in_list n (some (negsuc i)) = negsuc 0
in_list n (some (pos i)) = if ltb i 1 || ltb n i then negsuc 0 else pos (i - 1)

unfoldable pub index_of : ℕ → Bytes → ℤ
index_of n v = if is_empty v then negsuc 0 else in_list n (atoi v)

-- pickIndex
unfoldable pub pick_index : ℕ → Input → ℤ × Input
pick_index zero input = (negsuc 0, input)
pick_index (suc n) input = (index_of (suc n) (trim_space (ask input).0), (ask input).1)

module _ {ℓ} {A : Type ℓ} where
  unfoldable pub remove_at : ℕ → List A → List A
  remove_at n [] = []
  remove_at zero (x ∷ xs) = xs
  remove_at (suc n) (x ∷ xs) = x ∷ remove_at n xs

  -- deleteAt
  unfoldable pub delete_at : List A → ℤ → List A
  delete_at xs (negsuc i) = xs
  delete_at xs (pos i) = remove_at i xs
