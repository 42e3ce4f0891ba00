-- ===== src/Sql/Row.antt =====
-- sql/row.rs: the rows of a table. `Row::values` is a `BTreeMap`.
pub mod Laws
pub mod Text
use arch_db.Prelude.{Option, none, some, List, [], ◌∷◌, length, if◌then◌else◌, ◌==◌, not}
use arch_db.Prelude.Str.{Str}
use arch_db.Prelude.Int.{ℤ}
use arch_db.Prelude.TreeMap
use arch_db.Prelude.TreeMap.{TreeMap}

pub data RowValue : Type 0 where
  integer : ℤ → RowValue
  text : Str → RowValue

pub data RowError : Type 0 where
  column_value_count_mismatch unknown_column : RowError

pub record Row : Type 0 where
  pub values : TreeMap RowValue

pub data RowResult (A : Type 0) : Type 0 where
  ok : A → RowResult A
  err : RowError → RowResult A

abbrev pub new : Row
new = record { values = [] }

unfoldable pub insert : Str → RowValue → Row → Row
insert column value row = record { values = TreeMap.insert column value row.values }

unfoldable pub get : Str → Row → Option RowValue
get column row = TreeMap.lookup column row.values

-- `get_mut` and the assignment through it: the key stays, its value changes.
unfoldable pub update : Str → RowValue → Row → RowResult Row
update column value row = elim (TreeMap.lookup column row.values) [
  | some existing ↦ ok (record { values = TreeMap.insert column value row.values })
  | none ↦ err unknown_column
]

-- The loop over `columns.zip(values)`.
unfoldable pub insert_all : List Str → List RowValue → Row → Row
unfolding insert
insert_all (column ∷ columns) (value ∷ values) row =
    insert_all columns values (insert column value row)
insert_all _ _ row = row

unfoldable pub from_columns : List Str → List RowValue → RowResult Row
unfolding insert_all
from_columns columns values =
    if not (length columns == length values)
    then err column_value_count_mismatch
    else ok (insert_all columns values new)
