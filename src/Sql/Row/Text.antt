-- ===== src/Sql/Row/Text.antt =====
-- The text form of a row, in which it is stored: `serialize` and `deserialize` of sql/row.rs.
pub mod RoundTrip
pub mod Separators
use arch_db.Prelude.{ℕ, Option, none, some, List, [], ◌∷◌, ◌++◌, Result, ok, panic, ◌>>=◌, unwrap}
use arch_db.Prelude.Str.{Str, codes}
use arch_db.Prelude.Int.{ℤ}
use arch_db.Prelude.TreeMap.{TreeMap}
use arch_db.Prelude.Text.{split, split_once, join, strip_prefix}
use arch_db.Prelude.Decimal.{decimal_ℤ, parse_i64}
use arch_db.Sql.Row.{RowValue, integer, text, Row, new, insert}

unfoldable pub value_text : RowValue → Str
value_text (integer i) = codes "i:" ++ decimal_ℤ i
value_text (text s) = codes "t:" ++ s

unfoldable pub pair_texts : TreeMap RowValue → List Str
unfolding value_text
pair_texts [] = []
pair_texts ((column, value) ∷ values) = (column ++ b'=' ∷ value_text value) ∷ pair_texts values

unfoldable pub serialize : Row → Str
unfolding pair_texts join
serialize row = join (codes "|") (pair_texts row.values)

unfoldable pub read_value : Str → Result RowValue
unfolding strip_prefix parse_i64
read_value value = elim (strip_prefix (codes "i:") value) [
  | some v ↦ do i ← unwrap (parse_i64 v); ok (integer i)
  | none ↦ elim (strip_prefix (codes "t:") value) [ some v ↦ ok (text v) | none ↦ panic ]
]

-- `for pair in input.split('|')`
unfoldable pub read_pairs : List Str → Row → Result Row
unfolding split_once read_value insert
read_pairs [] row = ok row
read_pairs (pair ∷ pairs) row = do
  (column, raw) ← unwrap (split_once b'=' pair)
  value ← read_value raw
  read_pairs pairs (insert column value row)

unfoldable pub deserialize : Str → Result Row
unfolding read_pairs split
deserialize [] = ok new
deserialize (c ∷ input) = read_pairs (split b'|' (c ∷ input)) new

-- `as_storage_string`, which is also the `Display` of a value
unfoldable pub as_storage_string : RowValue → Str
as_storage_string (integer i) = decimal_ℤ i
as_storage_string (text s) = s

unfoldable pub as_integer : RowValue → Option ℤ
as_integer (integer i) = some i
as_integer (text s) = none
