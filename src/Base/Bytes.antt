-- ===== src/Base/Bytes.antt =====
-- Byte sequences: big-endian numbers of encoding/binary, equality, and io.ReadFull.
use Prim.Native.Char.{code}
use Prim.Native.String.{String}
use Prim.Native.Nat.{ℕ, zero, suc, ◌+◌, ◌*◌, ◌/◌, ◌%◌, ◌^◌, ◌<◌}
use mathlib.Core.Path.{◌≡◌, refl}
use mathlib.Core.Logic.{◌↔◌, ◌≢◌}
use mathlib.Core.Bool.{Bool, true, false, ◌&&◌}
use mathlib.Core.List.{List, [], ◌∷◌, ◌++◌}
use native.Mathlib.Omega.{arith}
use cando.Base.Tests.{◌==◌, ==_iff, ltb, le→ltb, if◌then◌else◌}
use cando.Base.Lists.{
  length, take, drop, take-append, drop-append, length-append, All, take-append-drop, length-take,
}
use cando.Base.Results.{Result, ok, err}

-- A Go `[]byte` or `string`.
abbrev pub Bytes : Type 0
Bytes = List ℕ

abbrev pub IsByte : ℕ → Type 0
IsByte b = b < 256

abbrev pub AreBytes : Bytes → Type 0
AreBytes = All IsByte

-- The bytes of an ASCII literal.
abbrev pub text : String → Bytes
text String.[] = []
text (String.◌∷◌ c s) = code c ∷ text s

unfoldable pub bytes_eq : Bytes → Bytes → Bool
bytes_eq [] [] = true
bytes_eq [] (y ∷ ys) = false
bytes_eq (x ∷ xs) [] = false
bytes_eq (x ∷ xs) (y ∷ ys) = (x == y) && bytes_eq xs ys

pub bytes_eq_iff : (xs ys : Bytes) → (bytes_eq xs ys ≡ true) ↔ (xs ≡ ys)
unfolding bytes_eq
bytes_eq_iff [] [] = ground arith
bytes_eq_iff [] (y ∷ ys) = ground arith
bytes_eq_iff (x ∷ xs) [] = ground arith
bytes_eq_iff (x ∷ xs) (y ∷ ys) = ground (arith, ==_iff x y, bytes_eq_iff xs ys)

pub bytes_eq_refl : (xs : Bytes) → bytes_eq xs xs ≡ true
bytes_eq_refl xs = (bytes_eq_iff xs xs).1 refl

-- binary.BigEndian.PutUint16 and AppendUint16, of `uint16(n)`.
unfoldable pub put_uint16 : ℕ → Bytes
put_uint16 n = (n / 256 % 256) ∷ (n % 256) ∷ []

-- binary.BigEndian.Uint16 of the first two bytes.
unfoldable pub uint16 : Bytes → ℕ
uint16 (hi ∷ lo ∷ rest) = hi * 256 + lo
uint16 (hi ∷ []) = 0
uint16 [] = 0

pub uint16-put_uint16 : (n : ℕ) (rest : Bytes) → n < 2 ^ 16 → uint16 (put_uint16 n ++ rest) ≡ n
unfolding uint16 put_uint16
uint16-put_uint16 n rest h = omega arith

pub put_uint16-AreBytes : (n : ℕ) → AreBytes (put_uint16 n)
unfolding put_uint16
put_uint16-AreBytes n = omega arith

-- The bytes of `n`, the most significant first, in `k` places.
unfoldable pub put_be : ℕ → ℕ → Bytes
put_be zero n = []
put_be (suc k) n = put_be k (n / 256) ++ (n % 256) ∷ []

unfoldable pub be_from : ℕ → Bytes → ℕ
be_from acc [] = acc
be_from acc (b ∷ bs) = be_from (acc * 256 + b) bs

-- binary.BigEndian.PutUint64 and Uint64.
unfoldable pub put_uint64 : ℕ → Bytes
unfolding put_be
put_uint64 n = put_be 8 n

unfoldable pub uint64 : Bytes → ℕ
unfolding be_from
uint64 bs = be_from 0 bs

pub length-put_uint64 : (n : ℕ) → length (put_uint64 n) ≡ 8
unfolding put_uint64
length-put_uint64 n = refl

pub uint64-put_uint64 : (n : ℕ) → n < 2 ^ 64 → uint64 (put_uint64 n) ≡ n
unfolding put_uint64 uint64
uint64-put_uint64 n h = omega arith

pub data ReadError : Type 0 where
  eof unexpected_eof : ReadError

-- io.ReadFull for `n` bytes, on the bytes that still arrive before the stream ends.
unfoldable pub read_full : ℕ → Bytes → Result ReadError (Bytes × Bytes)
read_full n input =
    if ltb (length input) n
    then (if length input == 0 then err eof else err unexpected_eof)
    else ok (take n input, drop n input)

pub read_full-append :
    (xs rest : Bytes) (n : ℕ) → length xs ≡ n → read_full n (xs ++ rest) ≡ ok (xs, rest)
unfolding read_full
read_full-append xs rest n e =
    rw (le→ltb (length (xs ++ rest)) n (omega (arith, length-append xs rest)), ← e)
      (λ i. ok (take-append xs rest i, drop-append xs rest i))

-- What was read and what is left make up the input, and the read part has the length asked for.
pub read_full-eq_ok :
    (n : ℕ) (input xs rest : Bytes)
    → read_full n input ≡ ok (xs, rest)
    → (input ≡ xs ++ rest) × (length xs ≡ n)
unfolding read_full
read_full-eq_ok n input xs rest h = ground (arith, take-append-drop n input, length-take n input)

pub bytes_eq-ne : (xs ys : Bytes) → xs ≢ ys → bytes_eq xs ys ≡ false
bytes_eq-ne xs ys n = ground (arith, bytes_eq_iff xs ys)
