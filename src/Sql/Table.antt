-- ===== src/Sql/Table.antt =====
-- sql/table.rs: the keys under which rows and the values of indexes are stored.
pub mod Order
use arch_db.Prelude.{
  ℕ, zero, suc, ◌+◌, ◌/◌, ◌%◌, Option, none, some, List, [], ◌∷◌, ◌++◌, if◌then◌else◌, Result, ok,
  panic, ◌>>=◌, unwrap,
}
use arch_db.Prelude.Str.{Str, codes, str_eq}
use arch_db.Prelude.Int.{ℤ, pos, negsuc}
use arch_db.Prelude.Decimal.{decimal_ℤ, parse_i64}
use arch_db.Sql.Ast.{DataType, Expr, BinaryOperator}
use arch_db.Sql.Row.{RowValue, integer, text, Row, get}
use arch_db.Sql.Row.Text.{as_storage_string}
use arch_db.Sql.Catalog.{TableSchema, Column, primary_key}

-- A `Result<_, String>`: `Ok` and `Err`
pub data TextResult (A : Type 0) : Type 0 where
  done : A → TextResult A
  refused : Str → TextResult A

unfoldable pub primary_key_value : TableSchema → Row → Option Str
unfolding primary_key get as_storage_string
primary_key_value schema row = elim (primary_key schema) [
  | none ↦ none
  | some pk ↦ elim (get pk.name row) [ none ↦ none | some value ↦ some (as_storage_string value) ]
]

unfoldable pub storage_key : TableSchema → Row → Option Str
unfolding primary_key_value
storage_key schema row = elim (primary_key_value schema row) [
  | none ↦ none
  | some pk ↦ some (schema.name ++ b':' ∷ pk)
]

unfoldable pub storage_key_from_primary_key : TableSchema → RowValue → Option Str
unfolding primary_key as_storage_string
storage_key_from_primary_key schema value = elim (primary_key schema) [
  | none ↦ none
  | some pk ↦ some (schema.name ++ b':' ∷ as_storage_string value)
]

-- The last `width` digits of `n`, with zeros in front.
unfoldable pub fixed : ℕ → ℕ → Str
fixed zero n = []
fixed (suc width) n = fixed width (n / 10) ++ (48 + n % 10) ∷ []

-- `{:020}` of an `i64`, which has at most nineteen digits; a sign counts for the width.
unfoldable pub encode_index_value : RowValue → Str
unfolding fixed
encode_index_value (integer (pos n)) = fixed 20 n
encode_index_value (integer (negsuc n)) = b'-' ∷ fixed 19 (suc n)
encode_index_value (text s) = s

unfoldable pub decode_index_value : Str → DataType → Result RowValue
unfolding parse_i64
decode_index_value encoded DataType.int = do i ← unwrap (parse_i64 encoded); ok (integer i)
decode_index_value encoded DataType.text = ok (text encoded)

-- The error messages are left without the names that the source prints in them.
unfoldable pub expr_text : Expr → TextResult Str
expr_text (Expr.number n) = done (decimal_ℤ n)
expr_text (Expr.string s) = done s
expr_text _ = refused (codes "unsupported WHERE value")

unfoldable pub is_column : Expr → Column → TextResult Str
is_column (Expr.identifier name) pk =
    if str_eq name pk.name then done name else refused (codes "WHERE must use primary key")
is_column _ pk = refused (codes "left side of WHERE must be a column")

unfoldable pub key_of : TableSchema → Column → Expr → TextResult Str
unfolding expr_text is_column
key_of schema pk (Expr.binary left BinaryOperator.equal right) = elim (is_column left pk) [
  | refused why ↦ refused why
  | done name ↦ elim (expr_text right) [
    | refused why ↦ refused why
    | done value ↦ done (schema.name ++ b':' ∷ value)
  ]
]
key_of schema pk _ = refused (codes "unsupported WHERE clause")

unfoldable pub storage_key_from_expr : TableSchema → Expr → TextResult Str
unfolding primary_key key_of
storage_key_from_expr schema expr = elim (primary_key schema) [
  | none ↦ refused (codes "table has no primary key")
  | some pk ↦ key_of schema pk expr
]
