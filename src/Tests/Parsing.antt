-- ===== src/Tests/Parsing.antt =====
-- Expressions as lists of tokens.
use arch_db.Prelude.{◌≡◌, refl, List, [], ◌∷◌, arith}
use arch_db.Prelude.Str.{codes}
use arch_db.Prelude.Int.{pos}
use arch_db.Sql.Ast.{Expr, BinaryOperator}
use arch_db.Sql.Token.{Token, token_eq}
use arch_db.Sql.Parser.Cursor.{done}
use arch_db.Sql.Parser.Exprs.{parse_expression, binary_operator_of}
use arch_db.Sql.Parser.Grammar.{
  next, at, Derives, disjunction, column, number, plain, compare, one_and, one_or, more_or,
}
use arch_db.Sql.Parser.Judgement.{Judged}
use arch_db.Sql.Parser.Sound.{parse_expression-Judged}
use arch_db.Sql.Parser.Complete.{parse_expression-Derives}

-- `b > 2`
abbrev b_tokens : List Token
b_tokens = Token.identifier (codes "b") ∷ Token.greater_than ∷ Token.number (pos 2) ∷ []

-- `a = 1 OR b > 2`
abbrev a_or_b_tokens : List Token
a_or_b_tokens =
    Token.identifier (codes "a") ∷ Token.equal ∷ Token.number (pos 1) ∷ Token.or ∷ b_tokens

abbrev a_is_1 : Expr
a_is_1 = Expr.binary (Expr.identifier (codes "a")) BinaryOperator.equal (Expr.number (pos 1))

abbrev b_over_2 : Expr
b_over_2 =
    Expr.binary (Expr.identifier (codes "b")) BinaryOperator.greater_than (Expr.number (pos 2))

a_or_b-Derives :
    Derives disjunction a_or_b_tokens [] (Expr.binary a_is_1 BinaryOperator.or b_over_2)
unfolding token_eq binary_operator_of
a_or_b-Derives =
    more_or _ b_tokens _ _ _
      (one_or _ _ _ (
        one_and _ _ _ (
          compare _ _ _ Token.equal _ _ _ (column (codes "a") _ refl) refl
            (plain _ _ _ (number (pos 1) _)))))
      (one_and _ _ _ (
        compare _ _ _ Token.greater_than _ _ _ (column (codes "b") _ refl) refl
          (plain _ _ _ (number (pos 2) _))))

parse_expression-Derives_example :
    parse_expression next 7 (at a_or_b_tokens)
    ≡ done (Expr.binary a_is_1 BinaryOperator.or b_over_2, at [])
unfolding token_eq
parse_expression-Derives_example =
    parse_expression-Derives 7 a_or_b_tokens [] (Expr.binary a_is_1 BinaryOperator.or b_over_2)
      a_or_b-Derives (omega arith) refl refl

parse_expression-Judged_example :
    Judged disjunction a_or_b_tokens (parse_expression next 8 (at a_or_b_tokens))
parse_expression-Judged_example = parse_expression-Judged 8 a_or_b_tokens (omega arith)
