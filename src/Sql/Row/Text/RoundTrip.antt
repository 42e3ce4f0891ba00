-- ===== src/Sql/Row/Text/RoundTrip.antt =====
-- A stored row is read back when its names and texts do not hold the separators.
use arch_db.Prelude.{
  ℕ, ◌≡◌, refl, some, List, [], ◌∷◌, ◌++◌, ok, ◌>>=◌, unwrap, append_assoc, ap, ◌∙◌, append-nil,
}
use arch_db.Prelude.Str.{Str, codes}
use arch_db.Prelude.TreeMap.{TreeMap, IsSorted, insert_last}
use arch_db.Prelude.Text.{
  split, split_once, join, strip_prefix, Lacks, AllLack, split-join, split_once-append,
  Lacks-append, join-first,
}
use arch_db.Prelude.Decimal.{IsI64, parse_i64-decimal_ℤ, decimal_ℤ-Lacks}
use arch_db.Sql.Row.{RowValue, integer, text, Row, new, insert}
use arch_db.Sql.Row.Text.{value_text, pair_texts, serialize, read_value, read_pairs, deserialize}

abbrev pub IsPlainValue : RowValue → Type 0
IsPlainValue (integer i) = IsI64 i
IsPlainValue (text s) = Lacks b'|' s

-- No name holds `|` or `=`, and no text holds `|`.
abbrev pub AllPlain : TreeMap RowValue → Type 0
AllPlain [] = Unit {0}
AllPlain ((column, value) ∷ values) =
    Lacks b'|' column × Lacks b'=' column × IsPlainValue value × AllPlain values

pub read_value-value_text : (v : RowValue) → IsPlainValue v → read_value (value_text v) ≡ ok v
unfolding read_value value_text strip_prefix
read_value-value_text (integer i) h =
    ap (λ n. unwrap n >>= λ k. ok (integer k)) (parse_i64-decimal_ℤ i h)
read_value-value_text (text s) h = refl

value_text-Lacks : (v : RowValue) → IsPlainValue v → Lacks b'|' (value_text v)
unfolding value_text
value_text-Lacks (integer i) h = (refl, (refl, decimal_ℤ-Lacks b'|' i refl refl))
value_text-Lacks (text s) h = (refl, (refl, h))

pub pair_text-Lacks :
    (column : Str) (value : RowValue)
    → Lacks b'|' column
    → IsPlainValue value
    → Lacks b'|' (column ++ b'=' ∷ value_text value)
pair_text-Lacks column value h a =
    Lacks-append b'|' column (b'=' ∷ value_text value) h (refl, value_text-Lacks value a)

pair_texts-AllLack :
    (values : TreeMap RowValue) → AllPlain values → AllLack b'|' (pair_texts values)
unfolding pair_texts
pair_texts-AllLack [] a = tt
pair_texts-AllLack ((column, value) ∷ values) a =
    (pair_text-Lacks column value a.0 a.2, pair_texts-AllLack values a.3)

pub read_step :
    (column pair : Str) (raw : Str) (value : RowValue) (pairs : List Str) (row : Row)
    → split_once b'=' pair ≡ some (column, raw)
    → read_value raw ≡ ok value
    → read_pairs (pair ∷ pairs) row ≡ read_pairs pairs (insert column value row)
unfolding read_pairs
read_step column pair raw value pairs row a b = rw (a, b) refl

insert_last_lem :
    (column : Str) (value : RowValue) (before values : TreeMap RowValue)
    → IsSorted (before ++ (column, value) ∷ values)
    → insert column value (record { values = before })
      ≡ record { values = before ++ (column, value) ∷ [] }
unfolding insert
insert_last_lem column value before values s =
    ap (λ m. record { values = m }) (insert_last column value before values s)

read_pairs-pair_texts :
    (values before : TreeMap RowValue)
    → AllPlain values
    → IsSorted (before ++ values)
    → read_pairs (pair_texts values) (record { values = before })
      ≡ ok (record { values = before ++ values })
unfolding pair_texts
read_pairs-pair_texts [] before a s = unfold read_pairs in rw append-nil refl
read_pairs-pair_texts ((column, value) ∷ values) before a s =
    read_step column (column ++ b'=' ∷ value_text value) (value_text value) value
      (pair_texts values) (record { values = before })
      (split_once-append b'=' column (value_text value) a.1) (read_value-value_text value a.2)
    ∙ ap (read_pairs (pair_texts values)) (insert_last_lem column value before values s)
    ∙ read_pairs-pair_texts values (before ++ (column, value) ∷ []) a.3 (rw append_assoc s)
    ∙ rw append_assoc refl

-- A text that is not empty is split.
pub deserialize_lem :
    (s : Str) (head : Str) (tail : Str) (c : ℕ)
    → s ≡ head ++ c ∷ tail
    → deserialize s ≡ read_pairs (split b'|' s) new
unfolding deserialize
deserialize_lem [] [] tail c e = cc
deserialize_lem [] (h ∷ head) tail c e = cc
deserialize_lem (x ∷ s) head tail c e = refl

serialize_nil : serialize (record { values = [] }) ≡ []
unfolding serialize
serialize_nil = refl

round_trip :
    (values : TreeMap RowValue)
    → IsSorted values
    → AllPlain values
    → deserialize (serialize (record { values = values })) ≡ ok (record { values = values })
round_trip [] s a = ap deserialize serialize_nil ∙ unfold deserialize in refl
round_trip ((column, value) ∷ values) s a =
    let pair = column ++ b'=' ∷ value_text value in
    let joined = join (codes "|") (pair ∷ pair_texts values) in
    let first =
      join-first (codes "|") pair (pair_texts values) b'=' column (value_text value) refl in
    unfold serialize in
    deserialize_lem joined column first.0 b'=' first.1
    ∙ ap (λ parts. read_pairs parts new)
        (split-join b'|' pair (pair_texts values)
          (unfold pair_texts in pair_texts-AllLack ((column, value) ∷ values) a))
    ∙ unfold pair_texts in read_pairs-pair_texts ((column, value) ∷ values) [] a s

-- A row in the order of its columns, with `i64` numbers, whose names hold neither `|` nor `=` and whose texts
-- do not hold `|`, is read back from its text.
pub deserialize-serialize_row :
    (row : Row) → IsSorted row.values → AllPlain row.values → deserialize (serialize row) ≡ ok row
deserialize-serialize_row row s a = round_trip row.values s a
