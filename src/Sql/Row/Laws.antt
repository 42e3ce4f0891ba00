-- ===== src/Sql/Row/Laws.antt =====
-- What can be read from a row after it is built or changed.
use arch_db.Prelude.{
  ◌≡◌, refl, Option, none, some, ◌∙◌, List, [], ◌∷◌, length, if◌then◌else◌, ==_self, Option-cases,
  inl, inr, ◌⊎◌,
}
use arch_db.Prelude.Str.{Str, str_eq}
use arch_db.Prelude.TreeMap.{lookup, IsSorted, insert-IsSorted, lookup-insert}
use arch_db.Sql.Row.{
  Row, RowValue, ok, err, unknown_column, new, insert, get, update, insert_all, from_columns,
}

-- The value that stands at the last place of the column in the list, or else `found`.
unfoldable pub last_value : Str → List Str → List RowValue → Option RowValue → Option RowValue
last_value column (c ∷ cs) (v ∷ vs) found =
    last_value column cs vs (if str_eq c column then some v else found)
last_value column _ _ found = found

get-insert :
    (c column : Str) (v : RowValue) (row : Row)
    → get column (insert c v row) ≡ (if str_eq c column then some v else get column row)
unfolding get insert
get-insert c column v row = lookup-insert c column v row.values

get-insert_all :
    (column : Str) (cs : List Str) (vs : List RowValue) (row : Row)
    → get column (insert_all cs vs row) ≡ last_value column cs vs (get column row)
unfolding insert_all last_value
get-insert_all column (c ∷ cs) (v ∷ vs) row =
    get-insert_all column cs vs (insert c v row) ∙ rw (get-insert c column v row)
get-insert_all column [] vs row = refl
get-insert_all column (c ∷ cs) [] row = refl

insert_all-IsSorted :
    (cs : List Str) (vs : List RowValue) (row : Row)
    → IsSorted row.values
    → IsSorted (insert_all cs vs row).values
unfolding insert_all
insert_all-IsSorted (c ∷ cs) (v ∷ vs) row s =
    insert_all-IsSorted cs vs (insert c v row) (unfold insert in insert-IsSorted c v row.values s)
insert_all-IsSorted [] vs row s = s
insert_all-IsSorted (c ∷ cs) [] row s = s

-- From as many values as columns `from_columns` builds a row, in the order of its columns, in which a
-- column has the value at its last place in the list, and a column that is not in the list has none.
pub get-from_columns :
    (cs : List Str) (vs : List RowValue)
    → length cs ≡ length vs
    → (row : Row) × (from_columns cs vs ≡ ok row)
      × IsSorted row.values
      × ((column : Str) → get column row ≡ last_value column cs vs none)
unfolding from_columns get lookup
get-from_columns cs vs h = (
  insert_all cs vs new,
  rw (h, ==_self (length vs)) refl,
  insert_all-IsSorted cs vs new tt,
  λ column. get-insert_all column cs vs new,
)

-- `update` of a column that the row has changes the value of this column alone; of another column it
-- returns the error `UnknownColumn`.
pub get-update :
    (column : Str) (value : RowValue) (row : Row)
    → ((get column row ≡ none) × (update column value row ≡ err unknown_column))
      ⊎ ((row' : Row) × (update column value row ≡ ok row')
          × ((k : Str) → get k row' ≡ (if str_eq column k then some value else get k row)))
unfolding get update insert
get-update column value row = elim (Option-cases (get column row)) [
  | inl e ↦ inl (e, rw (e, update) refl)
  | inr (old, e) ↦
      inr
        (insert column value row, rw (e, update) refl, λ k. lookup-insert column k value row.values)
]
