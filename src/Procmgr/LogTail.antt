-- ===== src/Procmgr/LogTail.antt =====
-- internal/procmgr/procmgr.go: LogTail, with strings.TrimRight of line feeds and strings.Split at
-- them.
use mathlib.Core.List.{append-nil}
use cando.Base.{
  ◌<◌, ==_iff, lt→ltb, ℕ, ◌-◌, ◌≡◌, refl, Bool, false, ◌&&◌, Option, none, some, List, [], ◌∷◌,
  ◌++◌, ltb, ◌==◌, if◌then◌else◌, arith, length, drop, Bool-cases, inl, inr, ap, ◌∙◌, ◌≢◌,
}
use cando.Base.Bytes.{Bytes}
use cando.Base.Text.{is_empty}
use cando.System.{Os}
use cando.Procmgr.{Instance}

-- strings.TrimRight(s, "\n")
unfoldable pub trim_lines : Bytes → Bytes
trim_lines [] = []
trim_lines (c ∷ s) = let rest = trim_lines s in if (c == 10) && is_empty rest then [] else c ∷ rest

unfoldable pub onto_first : ℕ → List Bytes → List Bytes
onto_first c [] = (c ∷ []) ∷ []
onto_first c (l ∷ ls) = (c ∷ l) ∷ ls

-- strings.Split(s, "\n")
unfoldable pub split_lines : Bytes → List Bytes
split_lines [] = [] ∷ []
split_lines (c ∷ s) = let rest = split_lines s in if c == 10 then [] ∷ rest else onto_first c rest

-- `len(lines) == 1 && lines[0] == ""`
unfoldable pub is_blank : List Bytes → Bool
is_blank [] = false
is_blank (l ∷ []) = is_empty l
is_blank (l ∷ m ∷ ls) = false

unfoldable pub last_lines : ℕ → List Bytes → List Bytes
last_lines n lines =
    if ltb 0 n && ltb n (length lines) then drop (length lines - n) lines else lines

unfoldable pub tail_of : ℕ → Option Bytes → Option (List Bytes)
tail_of n none = none
tail_of n (some b) =
    let lines = split_lines (trim_lines b) in
    if is_blank lines then some [] else some (last_lines n lines)

-- LogTail, which is asked for no negative number of lines; none is the error of ReadFile.
unfoldable pub log_tail : Instance → ℕ → Os → Option (List Bytes)
log_tail i n os = tail_of n (os.files i.log_path)

-- The lines of a text, each with the line feed that ends it.
unfoldable pub unlines : List Bytes → Bytes
unlines [] = []
unlines (l ∷ ls) = l ++ 10 ∷ unlines ls

-- No line feed stands in the line.
abbrev pub IsLine : Bytes → Type 0
IsLine [] = Unit
IsLine (c ∷ s) = (c ≢ 10) × IsLine s

abbrev pub AreLines : List Bytes → Type 0
AreLines [] = Unit
AreLines (l ∷ ls) = IsLine l × AreLines ls

-- The last line is not empty, and there is one.
abbrev pub EndsFilled : List Bytes → Type 0
EndsFilled [] = ⊥
EndsFilled ([] ∷ []) = ⊥
EndsFilled ((c ∷ s) ∷ []) = Unit
EndsFilled (l ∷ m ∷ ls) = EndsFilled (m ∷ ls)

-- The lines with line feeds between them.
unfoldable joined : List Bytes → Bytes
joined [] = []
joined (l ∷ []) = l
joined (l ∷ m ∷ ls) = l ++ 10 ∷ joined (m ∷ ls)

trim_lines-append : (l r : Bytes) → IsLine l → trim_lines (l ++ r) ≡ l ++ trim_lines r
unfolding trim_lines
trim_lines-append [] r h = refl
trim_lines-append (c ∷ l) r h = ground (arith, trim_lines-append l r h.1, ==_iff c 10)

trim_lines-feed :
    (r : Bytes) → is_empty (trim_lines r) ≡ false → trim_lines (10 ∷ r) ≡ 10 ∷ trim_lines r
unfolding trim_lines
trim_lines-feed r h = rw h refl

joined_filled :
    (l : Bytes) (ls : List Bytes) → EndsFilled (l ∷ ls) → is_empty (joined (l ∷ ls)) ≡ false
unfolding joined is_empty
joined_filled [] [] h = absurd h
joined_filled (c ∷ l) [] h = refl
joined_filled [] (m ∷ ls) h = refl
joined_filled (c ∷ l) (m ∷ ls) h = refl

ends_later : (l m : Bytes) (ls : List Bytes) → EndsFilled (l ∷ m ∷ ls) → EndsFilled (m ∷ ls)
ends_later [] m ls h = h
ends_later (c ∷ l) m ls h = h

trim_feed : trim_lines (10 ∷ []) ≡ []
unfolding trim_lines is_empty
trim_feed = refl

==_ne : (a b : ℕ) → a ≢ b → (a == b) ≡ false
==_ne a b h = ground arith

trim_lines-unlines :
    (l : Bytes) (ls : List Bytes)
    → AreLines (l ∷ ls)
    → EndsFilled (l ∷ ls)
    → trim_lines (unlines (l ∷ ls)) ≡ joined (l ∷ ls)
unfolding unlines joined
trim_lines-unlines l [] a e =
    trim_lines-append l (10 ∷ []) a.0 ∙ ap (◌++◌ l) trim_feed ∙ append-nil l
trim_lines-unlines l (m ∷ ls) a e =
    let r = trim_lines-unlines m ls a.1 (ends_later l m ls e) in
    let f = ap is_empty r ∙ joined_filled m ls (ends_later l m ls e) in
    trim_lines-append l (10 ∷ unlines (m ∷ ls)) a.0
    ∙ ap (◌++◌ l) (trim_lines-feed (unlines (m ∷ ls)) f ∙ ap (◌∷◌ 10) r)

split_lines-line : (l : Bytes) → IsLine l → split_lines l ≡ l ∷ []
unfolding split_lines onto_first
split_lines-line [] h = refl
split_lines-line (c ∷ l) h = rw (split_lines-line l h.1, ==_ne c 10 h.0) refl

split_lines-append : (l r : Bytes) → IsLine l → split_lines (l ++ 10 ∷ r) ≡ l ∷ split_lines r
unfolding split_lines onto_first
split_lines-append [] r h = refl
split_lines-append (c ∷ l) r h = rw (split_lines-append l r h.1, ==_ne c 10 h.0) refl

split_lines-joined :
    (l : Bytes) (ls : List Bytes) → AreLines (l ∷ ls) → split_lines (joined (l ∷ ls)) ≡ l ∷ ls
unfolding joined
split_lines-joined l [] a = split_lines-line l a.0
split_lines-joined l (m ∷ ls) a =
    split_lines-append l (joined (m ∷ ls)) a.0 ∙ ap (◌∷◌ l) (split_lines-joined m ls a.1)

is_blank-filled : (l : Bytes) (ls : List Bytes) → EndsFilled (l ∷ ls) → is_blank (l ∷ ls) ≡ false
unfolding is_blank is_empty
is_blank-filled [] [] h = absurd h
is_blank-filled (c ∷ l) [] h = refl
is_blank-filled l (m ∷ ls) h = refl

last_lines_lem : (n : ℕ) (ls : List Bytes) → 0 < n → last_lines n ls ≡ drop (length ls - n) ls
unfolding last_lines
last_lines_lem n ls h = elim (Bool-cases (ltb n (length ls))) [
  | inl e ↦ rw (lt→ltb 0 n h, e) refl
  | inr e ↦ let z : length ls - n ≡ 0 = ground arith in rw (lt→ltb 0 n h, e, z) refl
]

-- Of a log of lines that each end in a line feed, the last of them not empty, LogTail gives the last
-- `n` lines, or all if there are fewer.
pub log_tail_lem :
    (i : Instance) (n : ℕ) (os : Os) (l : Bytes) (ls : List Bytes)
    → os.files i.log_path ≡ some (unlines (l ∷ ls))
    → AreLines (l ∷ ls)
    → EndsFilled (l ∷ ls)
    → 0 < n
    → log_tail i n os ≡ some (drop (length (l ∷ ls) - n) (l ∷ ls))
unfolding log_tail tail_of
log_tail_lem i n os l ls f a e h =
    rw (f, trim_lines-unlines l ls a e, split_lines-joined l ls a, is_blank-filled l ls e)
      (ap some (last_lines_lem n (l ∷ ls) h))
