-- ===== src/Sql/Parser/Exprs.antt =====
-- Expressions: primaries, comparisons, AND and OR. Each function takes the parser of a whole
-- expression, which it calls inside parentheses; `parse_expression` ties the knot on fuel.
use arch_db.Prelude.{ℕ, zero, suc, Option, none, some, if◌then◌else◌, Result}
use arch_db.Prelude.Str.{Str, codes}
use arch_db.Sql.Ast.{Expr, AggregateFunction, BinaryOperator}
use arch_db.Sql.Token.{Token}
use arch_db.Sql.Lexer.{to_ascii_uppercase}
use arch_db.Prelude.Str.{str_eq}
use arch_db.Sql.Parser.Cursor.{
  Parser, ◌>>=◌, ◌>>◌, pure, fail, starve, current_token, current_is, advance, expect, accept,
  parse_identifier,
}

-- The `match` on the function's name. Identifiers are ASCII, where `to_uppercase` is the ASCII one.
unfoldable pub aggregate_function : Str → Option AggregateFunction
unfolding to_ascii_uppercase
aggregate_function name =
    let upper = to_ascii_uppercase name in
    if str_eq upper (codes "COUNT")
    then some AggregateFunction.count
    else if str_eq upper (codes "MIN")
    then some AggregateFunction.min
    else if str_eq upper (codes "MAX")
    then some AggregateFunction.max
    else if str_eq upper (codes "SUM")
    then some AggregateFunction.sum
    else if str_eq upper (codes "AVG")
    then some AggregateFunction.avg
    else none

unfoldable pub binary_operator_of : Token → Option BinaryOperator
binary_operator_of Token.equal = some BinaryOperator.equal
binary_operator_of Token.not_equal = some BinaryOperator.not_equal
binary_operator_of Token.greater_than = some BinaryOperator.greater_than
binary_operator_of Token.greater_than_or_equal = some BinaryOperator.greater_than_or_equal
binary_operator_of Token.less_than = some BinaryOperator.less_than
binary_operator_of Token.less_than_or_equal = some BinaryOperator.less_than_or_equal
binary_operator_of _ = none

-- `Some` goes on, `None` is the arm that panics.
abbrev pub or_fail : {S A B : Type 0} → Option A → (A → Parser S B) → Parser S B
or_fail none f = fail
or_fail (some a) f = f a

module _ {S : Type 0} (next_token : S → Result (Token × S)) where
  -- The argument of an aggregate: `*` for COUNT, a column for the others.
  unfoldable pub parse_argument : AggregateFunction → Parser S Expr
  unfolding expect parse_identifier
  parse_argument AggregateFunction.count = do expect next_token Token.star; pure Expr.wildcard
  parse_argument _ = do name ← parse_identifier next_token; pure (Expr.identifier name)

  unfoldable pub parse_aggregate_expr : Str → Parser S Expr
  unfolding expect aggregate_function parse_argument
  parse_aggregate_expr function_name = do
    expect next_token Token.left_paren
    or_fail (aggregate_function function_name) λ function. do
      argument ← parse_argument function
      expect next_token Token.right_paren
      pure (Expr.aggregate function argument)

  unfoldable pub parse_binary_operator : Parser S BinaryOperator
  unfolding advance binary_operator_of
  parse_binary_operator = do
    token ← current_token
    or_fail (binary_operator_of token) λ op. do advance next_token; pure op

  module _ (inner : Parser S Expr) where
    -- `( expression )`, after the opening parenthesis was seen.
    unfoldable pub parse_parenthesized : Parser S Expr
    unfolding advance expect
    parse_parenthesized = do
      advance next_token
      expr ← inner
      expect next_token Token.right_paren
      pure expr

    unfoldable pub primary_of : Token → Parser S Expr
    unfolding advance parse_parenthesized parse_aggregate_expr
    primary_of Token.left_paren = parse_parenthesized
    primary_of (Token.number n) = do advance next_token; pure (Expr.number n)
    primary_of (Token.string s) = do advance next_token; pure (Expr.string s)
    primary_of (Token.identifier name) = do
      advance next_token
      call ← current_is Token.left_paren
      if call then parse_aggregate_expr name else pure (Expr.identifier name)
    primary_of _ = fail

    unfoldable pub parse_primary : Parser S Expr
    unfolding primary_of
    parse_primary = do token ← current_token; primary_of token

    unfoldable pub parse_comparison : Parser S Expr
    unfolding parse_parenthesized parse_primary parse_binary_operator
    parse_comparison = do
      grouped ← current_is Token.left_paren
      if grouped then parse_parenthesized else do
        left ← parse_primary
        op ← parse_binary_operator
        right ← parse_primary
        pure (Expr.binary left op right)

    -- The `while` loop of `parse_and`.
    unfoldable pub and_loop : ℕ → Expr → Parser S Expr
    unfolding accept parse_comparison
    and_loop zero left = starve
    and_loop (suc fuel) left = do
      more ← accept next_token Token.and
      if more
          then (do
            right ← parse_comparison
            and_loop fuel (Expr.binary left BinaryOperator.and right))
          else pure left

    unfoldable pub parse_and : ℕ → Parser S Expr
    unfolding parse_comparison and_loop
    parse_and fuel = do left ← parse_comparison; and_loop fuel left

    -- The `while` loop of `parse_or`.
    unfoldable pub or_loop : ℕ → ℕ → Expr → Parser S Expr
    unfolding accept parse_and
    or_loop zero and_fuel left = starve
    or_loop (suc fuel) and_fuel left = do
      more ← accept next_token Token.or
      if more
          then (do
            right ← parse_and and_fuel
            or_loop fuel and_fuel (Expr.binary left BinaryOperator.or right))
          else pure left

    unfoldable pub parse_or : ℕ → Parser S Expr
    unfolding parse_and or_loop
    parse_or fuel = do left ← parse_and fuel; or_loop fuel fuel left

  -- The fuel bounds the depth of the parentheses and the length of each chain of AND or OR.
  unfoldable pub parse_expression : ℕ → Parser S Expr
  unfolding parse_or
  parse_expression zero = starve
  parse_expression (suc fuel) = parse_or (parse_expression fuel) fuel
