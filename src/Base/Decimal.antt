-- ===== src/Base/Decimal.antt =====
-- Go's strconv.Itoa and strconv.Atoi, on the bytes of a text; an `int` has 64 bits.
use Prim.Native.Nat.{ℕ, zero, suc, ◌+◌, ◌-◌, ◌*◌, ◌/◌, ◌%◌, ◌^◌, ◌<◌, ◌≤◌}
use mathlib.Core.Path.{◌≡◌, refl}
use mathlib.Core.Logic.{inl, inr}
use mathlib.Core.Bool.{Bool, true, false, ◌&&◌}
use mathlib.Core.Option.{Option, none, some}
use mathlib.Core.List.{[], ◌∷◌}
use native.Mathlib.Omega.{arith}
use cando.Base.Tests.{ltb, leb, ◌==◌, if◌then◌else◌, Bool-cases}
use cando.Base.Lists.{All}
use cando.Base.Bytes.{Bytes}
use cando.Base.Int.{ℤ, pos, negsuc}
use cando.Base.Text.{is_space, trim_left, trim_right, trim_space}

-- The digits of a number in front of a text, with fuel for the digits.
unfoldable pub digits : ℕ → ℕ → Bytes → Bytes
digits zero n out = out
digits (suc f) n out =
    let rest = digits f (n / 10) ((48 + n % 10) ∷ out) in
    if ltb n 10 then (48 + n % 10) ∷ out else rest

-- strconv.Itoa, of a number that is not negative.
unfoldable pub itoa : ℕ → Bytes
unfolding digits
itoa n = digits (suc n) n []

unfoldable pub is_digit : ℕ → Bool
is_digit b = leb 48 b && leb b 57

-- The value of a text of digits, of which there is at least one where `seen` is set.
unfoldable pub scan_digits : Bool → ℕ → Bytes → Option ℕ
unfolding is_digit
scan_digits seen val [] = if seen then some val else none
scan_digits seen val (b ∷ bs) =
    let rest = scan_digits true (val * 10 + (b - 48)) bs in if is_digit b then rest else none

unfoldable pub in_range : ℕ → Option ℕ → Option ℕ
in_range limit none = none
in_range limit (some n) = if ltb n limit then some n else none

unfoldable pub positive : Option ℕ → Option ℤ
positive none = none
positive (some n) = some (pos n)

unfoldable pub negative : Option ℕ → Option ℤ
negative none = none
negative (some zero) = some (pos 0)
negative (some (suc n)) = some (negsuc n)

-- strconv.Atoi: nothing for a text that is no number or whose number does not fit.
unfoldable pub atoi : Bytes → Option ℤ
unfolding scan_digits in_range positive negative
atoi [] = none
atoi (b ∷ bs) =
    if b == 45
    then negative (in_range (2 ^ 63 + 1) (scan_digits false 0 bs))
    else if b == 43
    then positive (in_range (2 ^ 63) (scan_digits false 0 bs))
    else positive (in_range (2 ^ 63) (scan_digits false 0 (b ∷ bs)))

abbrev pub IsDigit : ℕ → Type 0
IsDigit b = (48 ≤ b) × (b ≤ 57)

-- One digit read.
scan-digit :
    (seen : Bool) (val n : ℕ) (out : Bytes)
    → scan_digits seen val ((48 + n % 10) ∷ out) ≡ scan_digits true (val * 10 + n % 10) out
unfolding scan_digits is_digit
scan-digit seen val n out =
    let e : 48 + n % 10 - 48 ≡ n % 10 = omega arith in
    let d : (leb 48 (48 + n % 10) && leb (48 + n % 10) 57) ≡ true = ground arith in rw (d, e) refl

-- What Itoa puts in front is read as the number.
scan-digits :
    (f n : ℕ) (out : Bytes) → n < f → scan_digits false 0 (digits f n out) ≡ scan_digits true n out
unfolding digits
scan-digits zero n out h = absurd (omega arith)
scan-digits (suc f) n out h = elim (Bool-cases (ltb n 10)) [
  | inl e ↦ let v : 0 * 10 + n % 10 ≡ n = ground arith in rw (e, scan-digit false 0 n out, v)
  | inr e ↦
      let v : n / 10 * 10 + n % 10 ≡ n = omega arith in
      rw (
        e,
        scan-digits f (n / 10) ((48 + n % 10) ∷ out) (ground arith),
        scan-digit true (n / 10) n out,
        v,
      )
]

digits-IsDigit : (f n : ℕ) (out : Bytes) → All IsDigit out → All IsDigit (digits f n out)
unfolding digits
digits-IsDigit zero n out h = h
digits-IsDigit (suc f) n out h = elim (Bool-cases (ltb n 10)) [
  | inl e ↦ rw e ((omega arith, omega arith), h)
  | inr e ↦ rw e (digits-IsDigit f (n / 10) ((48 + n % 10) ∷ out) ((omega arith, omega arith), h))
]

-- A text of digits has nothing to trim.
trim_left-digits : (s : Bytes) → All IsDigit s → trim_left s ≡ s
unfolding trim_left is_space
trim_left-digits [] h = refl
trim_left-digits (b ∷ s) h = ground arith

trim_right-digits : (s : Bytes) → All IsDigit s → trim_right s ≡ s
unfolding trim_right is_space
trim_right-digits [] h = refl
trim_right-digits (b ∷ s) h = ground (arith, trim_right-digits s h.1)

trim_space-itoa : (n : ℕ) → trim_space (itoa n) ≡ itoa n
unfolding trim_space itoa
trim_space-itoa n =
    let d = digits-IsDigit (suc n) n [] tt in
    rw (trim_left-digits (digits (suc n) n []) d) (trim_right-digits (digits (suc n) n []) d)

-- A text of digits is read without a sign.
atoi-digits :
    (s : Bytes) (n : ℕ)
    → All IsDigit s
    → scan_digits false 0 s ≡ some n
    → n < 2 ^ 63
    → atoi s ≡ some (pos n)
unfolding atoi scan_digits in_range positive
atoi-digits [] n d e h = ground arith
atoi-digits (b ∷ s) n d e h = ground arith

-- The decimal text of a number that an int can hold is read back as the number.
pub atoi-itoa : (n : ℕ) → n < 2 ^ 63 → atoi (trim_space (itoa n)) ≡ some (pos n)
unfolding itoa scan_digits
atoi-itoa n h = rw (trim_space-itoa n) (
    atoi-digits (digits (suc n) n []) n (digits-IsDigit (suc n) n [] tt)
      (scan-digits (suc n) n [] (omega arith)) h)
