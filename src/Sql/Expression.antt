-- ===== src/Sql/Expression.antt =====
-- sql/expression.rs: the evaluation of a WHERE clause on a row.
pub mod Meaning
pub mod Operators
use arch_db.Prelude.{
  ◌++◌, ◌≡◌, Bool, true, false, not, Option, none, some, if◌then◌else◌, Result, ok, err, ◌>>=◌,
  other,
}
use arch_db.Prelude.Str.{Str, codes, str_eq, str_lt, str_le}
use arch_db.Prelude.Int.{ℤ, eqb_ℤ, ltb_ℤ, leb_ℤ}
use arch_db.Sql.Ast.{
  Expr, identifier, number, string, binary, BinaryOperator, equal, not_equal, greater_than,
  greater_than_or_equal, less_than, less_than_or_equal, and, or,
}
use arch_db.Sql.Row
use arch_db.Sql.Row.{Row, RowValue, integer, text}

-- `values`: the value of the column on the left, and the expression on the right.
unfoldable pub values : Row → Expr → Expr → Result (RowValue × Expr)
values row (identifier column) right = elim (Row.get column row) [
  | some value ↦ ok (value, right)
  | none ↦ err (other (codes "unknown column '" ++ (column ++ codes "'")))
]
values row left right = err (other (codes "left side of WHERE must be a column"))

-- The `match (lhs, rhs)` that the comparisons share.
unfoldable pub compared : (ℤ → ℤ → Bool) → (Str → Str → Bool) → RowValue → Expr → Result Bool
compared on_ints on_texts (integer a) (number b) = ok (on_ints a b)
compared on_ints on_texts (text a) (string b) = ok (on_texts a b)
compared on_ints on_texts _ _ = err (other (codes "type mismatch in WHERE clause"))

unfoldable pub evaluate_equal : Row → Expr → Expr → Result Bool
unfolding values compared
evaluate_equal row left right = do (lhs, rhs) ← values row left right; compared eqb_ℤ str_eq lhs rhs

unfoldable pub evaluate_not_equal : Row → Expr → Expr → Result Bool
unfolding evaluate_equal
evaluate_not_equal row left right = do same ← evaluate_equal row left right; ok (not same)

unfoldable pub evaluate_greater_than : Row → Expr → Expr → Result Bool
unfolding values compared
evaluate_greater_than row left right = do
  (lhs, rhs) ← values row left right
  compared (λ a b. ltb_ℤ b a) (λ a b. str_lt b a) lhs rhs

unfoldable pub evaluate_greater_than_or_equal : Row → Expr → Expr → Result Bool
unfolding values compared
evaluate_greater_than_or_equal row left right = do
  (lhs, rhs) ← values row left right
  compared (λ a b. leb_ℤ b a) (λ a b. str_le b a) lhs rhs

unfoldable pub evaluate_less_than : Row → Expr → Expr → Result Bool
unfolding values compared
evaluate_less_than row left right = do
  (lhs, rhs) ← values row left right
  compared ltb_ℤ str_lt lhs rhs

unfoldable pub evaluate_less_than_or_equal : Row → Expr → Expr → Result Bool
unfolding values compared
evaluate_less_than_or_equal row left right = do
  (lhs, rhs) ← values row left right
  compared leb_ℤ str_le lhs rhs

-- The two sides are passed as their evaluations; the right one is used only if the left one does
-- not decide.
unfoldable pub evaluate_and : Result Bool → Result Bool → Result Bool
evaluate_and left right = do left_result ← left; if not left_result then ok false else right

unfoldable pub evaluate_or : Result Bool → Result Bool → Result Bool
evaluate_or left right = do left_result ← left; if left_result then ok true else right

unfoldable pub evaluate_binary :
    Row → Expr → BinaryOperator → Expr → Result Bool → Result Bool → Result Bool
unfolding evaluate_equal evaluate_not_equal evaluate_greater_than evaluate_greater_than_or_equal
    evaluate_less_than evaluate_less_than_or_equal evaluate_and evaluate_or
evaluate_binary row left equal right l r = evaluate_equal row left right
evaluate_binary row left not_equal right l r = evaluate_not_equal row left right
evaluate_binary row left greater_than right l r = evaluate_greater_than row left right
evaluate_binary row left greater_than_or_equal right l r =
    evaluate_greater_than_or_equal row left right
evaluate_binary row left less_than right l r = evaluate_less_than row left right
evaluate_binary row left less_than_or_equal right l r = evaluate_less_than_or_equal row left right
evaluate_binary row left and right l r = evaluate_and l r
evaluate_binary row left or right l r = evaluate_or l r

unfoldable pub evaluate : Row → Expr → Result Bool
unfolding evaluate_binary
evaluate row (binary left op right) =
    evaluate_binary row left op right (evaluate row left) (evaluate row right)
evaluate row expr = err (other (codes "unsupported WHERE expression"))
