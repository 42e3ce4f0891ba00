-- ===== src/Tests/Clauses.antt =====
-- WHERE clauses.
use arch_db.Prelude.{◌≡◌, refl, [], ◌∷◌, List, none, ◌⊎◌, if◌then◌else◌, some}
use arch_db.Prelude.Str.{codes, str_eq, Str}
use arch_db.Prelude.Int.{pos, negsuc}
use arch_db.Prelude.TreeMap
use arch_db.Sql.Ast.{
  Expr, identifier, number, string, binary, equal, not_equal, greater_than, greater_than_or_equal,
  less_than, less_than_or_equal, and,
}
use arch_db.Sql.Row
use arch_db.Sql.Row.{Row, RowValue, integer, text}
use arch_db.Sql.Row.Laws.{last_value, get-from_columns, get-update}
use arch_db.Sql.Expression.{evaluate}
use arch_db.Sql.Expression.Operators.{negated, evaluate_dual}
use arch_db.Sql.Expression.Meaning.{
  Decides, WellTyped, both, ints, texts, is_greater_than, is_equal, evaluate-Satisfies,
}
use arch_db.Prelude.TreeMap.{IsSorted}

abbrev person : Row
person = record {
  values = (codes "age", integer (pos 30)) ∷ (codes "name", text (codes "Ann")) ∷ [];
}

abbrev age : Expr
age = identifier (codes "age")

abbrev limit : Expr
limit = number (negsuc 4)

evaluate_dual_example :
    (evaluate person (binary age not_equal limit)
      ≡ negated (evaluate person (binary age equal limit)))
    × (evaluate person (binary age greater_than_or_equal limit)
        ≡ negated (evaluate person (binary age less_than limit)))
    × (evaluate person (binary age less_than_or_equal limit)
        ≡ negated (evaluate person (binary age greater_than limit)))
evaluate_dual_example = evaluate_dual person age limit

abbrev adult_ann : Expr
adult_ann =
    binary (binary age greater_than (number (pos 17))) and
      (binary (identifier (codes "name")) equal (string (codes "Ann")))

adult_ann-WellTyped : WellTyped person adult_ann
unfolding Row.get TreeMap.lookup str_eq
adult_ann-WellTyped =
    both (binary age greater_than (number (pos 17)))
      (binary (identifier (codes "name")) equal (string (codes "Ann")))
      (ints (codes "age") greater_than (pos 30) (pos 17) is_greater_than refl)
      (texts (codes "name") equal (codes "Ann") (codes "Ann") is_equal refl)

evaluate-Satisfies_example : Decides person adult_ann
evaluate-Satisfies_example = evaluate-Satisfies person adult_ann adult_ann-WellTyped

abbrev named : List Str
named = codes "name" ∷ codes "age" ∷ codes "name" ∷ []

abbrev given : List RowValue
given = text (codes "Bo") ∷ integer (pos 4) ∷ text (codes "Cy") ∷ []

get-from_columns_example :
    (row : Row) × (Row.from_columns named given ≡ Row.ok row)
    × IsSorted row.values
    × ((column : Str) → Row.get column row ≡ last_value column named given none)
get-from_columns_example = get-from_columns named given refl

get-update_example :
    ((Row.get (codes "age") person ≡ none)
      × (Row.update (codes "age") (integer (pos 31)) person ≡ Row.err Row.unknown_column))
    ⊎ ((row' : Row) × (Row.update (codes "age") (integer (pos 31)) person ≡ Row.ok row')
        × ((k : Str)
            → Row.get k row'
              ≡ (if str_eq (codes "age") k then some (integer (pos 31)) else Row.get k person)))
get-update_example = get-update (codes "age") (integer (pos 31)) person
