-- ===== src/Menu/Wizard/Printed.antt =====
-- internal/menu/wizard.go: the lines of the two files are TOML for their tables.
use cando.Base.{
  ℕ, zero, suc, ◌+◌, ◌*◌, ◌/◌, ◌%◌, ◌<◌, ◌≡◌, refl, sym, subst, ◌∙◌, true, false, ltb, Bool-cases,
  inl, inr, List, [], ◌∷◌, ◌++◌, All, arith,
}
use mathlib.Core.List.{append_assoc, append-nil}
use cando.Base.Bytes.{Bytes, text}
use cando.Base.Decimal.{digits, itoa}
use cando.Base.Int.{pos, negsuc}
use cando.Config.Tags.{Value, string, integer, boolean, Entry, key, comment, Table, table, element}
use cando.Config.Tags.Document.{
  IsNumeral, digit, digits_then, IsValue, quoted, natural, minus, yes_, no_, IsLine, pair, remark,
  AreLines, no_lines, line_then, Denotes, ends, blank, remark_then, opens, opens_element,
  IsPlainValue, IsPlainEntry, IsPlainTable, IsRemark,
}
use cando.Menu.Wizard.Files.{
  print_integer, print_boolean, print_value, print_entry, print_entries, print_table, print_more,
  print_tables,
}

-- What Itoa puts in front of a text is a numeral.
digits-IsNumeral :
    (f n : ℕ) (out : Bytes) → n < f → (t : Bytes) × (digits f n out ≡ t ++ out) × IsNumeral t n
unfolding digits
digits-IsNumeral zero n out h = absurd (omega arith)
digits-IsNumeral (suc f) n out h = elim (Bool-cases (ltb n 10)) [
  | inl e ↦
      let v : n % 10 ≡ n = ground arith in
      rw e (
        (48 + n % 10) ∷ [],
        refl,
        subst (IsNumeral ((48 + n % 10) ∷ [])) v (digit (n % 10) (omega arith)),
      )
  | inr e ↦
      let v : n / 10 * 10 + n % 10 ≡ n = omega arith in
      let last = (48 + n % 10) ∷ [] in
      let (t, same, h') = digits-IsNumeral f (n / 10) (last ++ out) (ground arith) in
      rw e (
        t ++ last,
        same ∙ sym (append_assoc t last out),
        subst (IsNumeral (t ++ last)) v
            (digits_then t (n / 10) (n % 10) h' (ground arith) (omega arith)),
      )
]

itoa-IsNumeral : (n : ℕ) → IsNumeral (itoa n) n
unfolding itoa
itoa-IsNumeral n =
    let (t, same, h) = digits-IsNumeral (suc n) n [] (omega arith) in
    subst (λ s. IsNumeral s n) (sym (same ∙ append-nil t)) h

print_value-IsValue : (v : Value) → IsPlainValue v → IsValue (print_value v) v
unfolding print_value print_integer print_boolean
print_value-IsValue (string s) h = quoted s h
print_value-IsValue (integer (pos n)) h = natural (itoa n) n (itoa-IsNumeral n)
print_value-IsValue (integer (negsuc n)) h = minus (itoa (suc n)) n (itoa-IsNumeral (suc n))
print_value-IsValue (boolean true) h = yes_
print_value-IsValue (boolean false) h = no_

print_entry-IsLine : (e : Entry) → IsPlainEntry e → IsLine (print_entry e) e
unfolding print_entry
print_entry-IsLine (key k v) h = pair k (print_value v) v h.0 (print_value-IsValue v h.1)
print_entry-IsLine (comment c) h = remark c h

print_entries-AreLines : (es : List Entry) → All IsPlainEntry es → AreLines (print_entries es) es
unfolding print_entries
print_entries-AreLines [] h = no_lines
print_entries-AreLines (e ∷ es) h =
    line_then (print_entry e) (print_entries es) e es (print_entry-IsLine e h.0)
      (print_entries-AreLines es h.1)

print_table-Denotes :
    (t : Table) (rest : Bytes) (ts : List Table)
    → IsPlainTable t
    → Denotes rest ts
    → Denotes (print_table t ++ rest) (t ∷ ts)
unfolding print_table
print_table-Denotes (table name es) rest ts h d =
    opens name (print_entries es) rest es ts h.0 (print_entries-AreLines es h.1) d
print_table-Denotes (element name es) rest ts h d =
    opens_element name (print_entries es) rest es ts h.0 (print_entries-AreLines es h.1) d

print_more-Denotes : (ts : List Table) → All IsPlainTable ts → Denotes (print_more ts) ts
unfolding print_more
print_more-Denotes [] h = ends
print_more-Denotes (t ∷ ts) h =
    blank (print_table t ++ print_more ts) (t ∷ ts)
      (print_table-Denotes t (print_more ts) ts h.0 (print_more-Denotes ts h.1))

-- With the remark that stands in front.
pub print_tables-Denotes :
    (c : Bytes) (ts : List Table)
    → IsRemark c
    → All IsPlainTable ts
    → Denotes (text "#" ++ c ++ text "\n" ++ print_tables ts) ts
unfolding print_tables
print_tables-Denotes c [] r h = remark_then c [] [] r ends
print_tables-Denotes c (t ∷ ts) r h =
    remark_then c (print_table t ++ print_more ts) (t ∷ ts) r
      (print_table-Denotes t (print_more ts) ts h.0 (print_more-Denotes ts h.1))
