-- ===== src/Menu/Picked.antt =====
-- internal/menu/manage.go: pickIndex and deleteAt delete the entry whose number the user types.
use cando.Base.{
  length-append, ℕ, zero, suc, ◌+◌, ◌-◌, ◌≡◌, ◌<◌, ◌^◌, refl, ap, List, [], ◌∷◌, ◌++◌, arith,
  length, some, ltb, ◌||◌, false,
}
use cando.Base.Bytes.{Bytes}
use cando.Base.Int.{ℤ, pos}
use cando.Base.Decimal.{itoa, atoi, atoi-itoa}
use cando.Base.Text.{is_empty, trim_space}
use cando.Menu.{Input, ask, pick_index, index_of, in_list, delete_at, remove_at}

remove_at-append :
    {A : Type 0} (xs : List A) (y : A) (zs : List A)
    → remove_at (length xs) (xs ++ y ∷ zs) ≡ xs ++ zs
unfolding remove_at
remove_at-append [] y zs = refl
remove_at-append (x ∷ xs) y zs = ap (◌∷◌ x) (remove_at-append xs y zs)

in_list-number : (n k : ℕ) → k < n → in_list n (some (pos (k + 1))) ≡ pos k
unfolding in_list
in_list-number n k h =
    let e : (ltb (k + 1) 1 || ltb n (k + 1)) ≡ false = ground arith in
    let f : k + 1 - 1 ≡ k = omega arith in rw (e, f) refl

atoi-empty : (v : Bytes) (i : ℤ) → atoi v ≡ some i → is_empty v ≡ false
unfolding atoi is_empty
atoi-empty [] i h = cc h
atoi-empty (b ∷ v) i h = refl

index_of-number : (n k : ℕ) → k < n → n < 2 ^ 63 → index_of n (trim_space (itoa (k + 1))) ≡ pos k
unfolding index_of
index_of-number n k h l =
    let a = atoi-itoa (k + 1) (omega arith) in
    rw (atoi-empty (trim_space (itoa (k + 1))) (pos (k + 1)) a, a) (in_list-number n k h)

pick_index-number :
    (n k : ℕ) (input : Input)
    → k < n
    → n < 2 ^ 63
    → pick_index n (itoa (k + 1) ∷ input) ≡ (pos k, input)
unfolding pick_index ask
pick_index-number zero k input h l = absurd (omega arith)
pick_index-number (suc n) k input h l = rw (index_of-number (suc n) k h l) refl

-- The number that the list shows next to an entry, counted from one, typed at the prompt deletes this
-- entry and no other.
pub delete_at-pick_index :
    {A : Type 0} (xs : List A) (y : A) (zs : List A) (input : Input)
    → length (xs ++ y ∷ zs) < 2 ^ 63
    → (delete_at
          (xs ++ y ∷ zs)
          (pick_index (length (xs ++ y ∷ zs)) (itoa (length xs + 1) ∷ input)).0
        ≡ xs ++ zs)
      × ((pick_index (length (xs ++ y ∷ zs)) (itoa (length xs + 1) ∷ input)).1 ≡ input)
unfolding delete_at
delete_at-pick_index xs y zs input l =
    rw
      (pick_index-number (length (xs ++ y ∷ zs)) (length xs) input
        (omega (arith, length-append xs (y ∷ zs))) l)
      (remove_at-append xs y zs, refl)
