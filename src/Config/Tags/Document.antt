-- ===== src/Config/Tags/Document.antt =====
-- The part of TOML that the configuration files of internal/menu/wizard.go are written in, as a relation
-- between a text and the tables that it stands for. It knows nothing of the functions that print them.
use cando.Base.{
  ℕ, suc, ◌+◌, ◌*◌, ◌<◌, ◌≤◌, ◌≡◌, ◌≢◌, All, true, false, Option, some, List, [], ◌∷◌, ◌++◌,
}
use cando.Base.Bytes.{Bytes, text}
use cando.Base.Int.{pos, negsuc}
use cando.Config.{Config}
use cando.Config.Tags.{
  Value, string, integer, boolean, Entry, key, comment, Table, table, element, config_of,
}

-- What a basic string holds as it is: printable ASCII without a quote and a backslash.
abbrev pub IsPlain : Bytes → Type 0
IsPlain = All λ c. (32 ≤ c) × (c ≤ 126) × (c ≢ b'"') × (c ≢ b'\\')

-- Of bare keys, those of small letters and underscores.
abbrev pub IsBare : Bytes → Type 0
IsBare [] = ⊥
IsBare (c ∷ cs) = All (λ b. (95 ≤ b) × (b ≤ 122) × (b ≢ 96)) (c ∷ cs)

pub data IsName : Bytes → Type 0 where
  bare : (a : Bytes) → IsBare a → IsName a
  dotted : (a b : Bytes) → IsBare a → IsBare b → IsName (a ++ text "." ++ b)

-- A decimal number, without leading zeros.
pub data IsNumeral : Bytes → ℕ → Type 0 where
  digit : (d : ℕ) → d < 10 → IsNumeral ((48 + d) ∷ []) d
  digits_then :
      (t : Bytes) (n d : ℕ)
      → IsNumeral t n
      → 0 < n
      → d < 10
      → IsNumeral (t ++ ((48 + d) ∷ [])) (n * 10 + d)

pub data IsValue : Bytes → Value → Type 0 where
  quoted : (s : Bytes) → IsPlain s → IsValue (text "\"" ++ s ++ text "\"") (string s)
  natural : (t : Bytes) (n : ℕ) → IsNumeral t n → IsValue t (integer (pos n))
  minus : (t : Bytes) (n : ℕ) → IsNumeral t (suc n) → IsValue (text "-" ++ t) (integer (negsuc n))
  yes_ : IsValue (text "true") (boolean true)
  no_ : IsValue (text "false") (boolean false)

-- From a `#` to the end of the line.
abbrev pub IsRemark : Bytes → Type 0
IsRemark = All λ c. (32 ≤ c) × (c ≤ 126)

pub data IsLine : Bytes → Entry → Type 0 where
  pair :
      (k t : Bytes) (v : Value)
      → IsBare k
      → IsValue t v
      → IsLine (k ++ text " = " ++ t ++ text "\n") (key k v)
  remark : (c : Bytes) → IsRemark c → IsLine (text "# " ++ c ++ text "\n") (comment c)

pub data AreLines : Bytes → List Entry → Type 0 where
  no_lines : AreLines [] []
  line_then :
      (a b : Bytes) (e : Entry) (es : List Entry)
      → IsLine a e
      → AreLines b es
      → AreLines (a ++ b) (e ∷ es)

-- Tables one after another, with blank lines and remarks in front of them.
pub data Denotes : Bytes → List Table → Type 0 where
  ends : Denotes [] []
  blank : (rest : Bytes) (ts : List Table) → Denotes rest ts → Denotes (text "\n" ++ rest) ts
  remark_then :
      (c rest : Bytes) (ts : List Table)
      → IsRemark c
      → Denotes rest ts
      → Denotes (text "#" ++ c ++ text "\n" ++ rest) ts
  opens :
      (name body rest : Bytes) (es : List Entry) (ts : List Table)
      → IsName name
      → AreLines body es
      → Denotes rest ts
      → Denotes (text "[" ++ name ++ text "]\n" ++ body ++ rest) (table name es ∷ ts)
  opens_element :
      (name body rest : Bytes) (es : List Entry) (ts : List Table)
      → IsName name
      → AreLines body es
      → Denotes rest ts
      → Denotes (text "[[" ++ name ++ text "]]\n" ++ body ++ rest) (element name es ∷ ts)

-- What the program relies on of the TOML decoder: of a file that is TOML for these tables, it makes
-- what the tags say.
abbrev pub Decodes : (Bytes → Option Config) → Bytes → List Table → Type 0
Decodes unmarshal file ts = Denotes file ts → unmarshal file ≡ some (config_of ts)

-- Tables that print as TOML: with names, keys, values and comments that the syntax has room for.
abbrev pub IsPlainValue : Value → Type 0
IsPlainValue (string s) = IsPlain s
IsPlainValue (integer n) = Unit
IsPlainValue (boolean b) = Unit

abbrev pub IsPlainEntry : Entry → Type 0
IsPlainEntry (key k v) = IsBare k × IsPlainValue v
IsPlainEntry (comment c) = IsRemark c

abbrev pub IsPlainTable : Table → Type 0
IsPlainTable (table name es) = IsName name × All IsPlainEntry es
IsPlainTable (element name es) = IsName name × All IsPlainEntry es
