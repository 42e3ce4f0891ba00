-- ===== src/Sql/Parser/Sound.antt =====
-- The parser returns nothing but phrases of the grammar, and never uses up its fuel.
use arch_db.Prelude.{
  ℕ, zero, suc, ◌≤◌, ◌<◌, ◌≡◌, refl, false, List, [], ◌∷◌, arith, length, inl, inr, Option-cases,
  Bool-cases, true,
}
use arch_db.Sql.Ast.{Expr, AggregateFunction, BinaryOperator}
use arch_db.Sql.Token.{Token}
use arch_db.Sql.Parser.Cursor.{Parser, ◌>>=◌, expect, pure}
use arch_db.Sql.Parser.Exprs.{
  or_fail, aggregate_function, binary_operator_of, parse_parenthesized, parse_primary,
  parse_binary_operator, parse_comparison, parse_and, and_loop, parse_or, or_loop, parse_expression,
}
use arch_db.Sql.Parser.Grammar.{
  Level, next, at, next-at, starts, Derives, operand, primary, comparison, conjunction, disjunction,
  number, string, column, group, compare, parenthesized, one_and, more_and, one_or, more_or,
  length-Derives,
}
use arch_db.Sql.Parser.Judgement.{
  Judged, bind_lem, as_primary, unknown-Judged, count-Judged, column-Judged,
}

module _ (inner : Parser (List Token) Expr) (n : ℕ)
    (judged : (ts : List Token) → length ts < n → Judged disjunction ts (inner (at ts))) where
  closed :
      (v : Level) (ts us : List Token) (e : Expr)
      → ((us' : List Token)
          → Derives disjunction ts (Token.right_paren ∷ us') e
          → Derives v (Token.left_paren ∷ ts) us' e)
      → Derives disjunction ts us e
      → Judged v (Token.left_paren ∷ ts) ((expect next Token.right_paren >>= λ _. pure e) (at us))
  unfolding expect
  closed v ts (Token.right_paren ∷ us) e h d = rw (next-at us) (us, refl, h us d)
  closed v ts us e h d = tt

  parenthesized-Judged :
      (v : Level) (ts : List Token)
      → ((us' : List Token) (e : Expr)
          → Derives disjunction ts (Token.right_paren ∷ us') e
          → Derives v (Token.left_paren ∷ ts) us' e)
      → length ts < n
      → Judged v
          (Token.left_paren ∷ ts)
          (parse_parenthesized next inner (at (Token.left_paren ∷ ts)))
  unfolding parse_parenthesized
  parenthesized-Judged v ts h lt = rw (next-at ts) (
      bind_lem disjunction v ts (Token.left_paren ∷ ts) inner _ (at ts) (judged ts lt)
        (λ us e d. closed v ts us e (λ us'. h us' e) d))

  operand-Judged :
      (ts : List Token)
      → starts ts Token.left_paren ≡ false
      → Judged operand ts (parse_primary next inner (at ts))
  unfolding parse_primary
  operand-Judged [] h = tt
  operand-Judged (Token.left_paren ∷ ts) h = cc
  operand-Judged (Token.number k ∷ ts) h = rw (next-at ts) (ts, refl, number k ts)
  operand-Judged (Token.string s ∷ ts) h = rw (next-at ts) (ts, refl, string s ts)
  operand-Judged (Token.identifier name ∷ Token.left_paren ∷ ts) h =
      elim (Option-cases (aggregate_function name)) [
        | inl e ↦ unknown-Judged name ts e
        | inr (AggregateFunction.count, e) ↦ count-Judged name ts e
        | inr (f, e) ↦ column-Judged name f ts e cc
      ]
  operand-Judged (Token.identifier name ∷ []) h = ([], refl, column name [] refl)
  operand-Judged (Token.identifier name ∷ t ∷ ts) h = (t ∷ ts, refl, column name (t ∷ ts) refl)
  operand-Judged (t ∷ ts) h = tt

  group-Judged :
      (ts : List Token)
      → starts ts Token.left_paren ≡ true
      → length ts ≤ n
      → Judged primary ts (parse_primary next inner (at ts))
  unfolding parse_primary
  group-Judged (Token.left_paren ∷ ts) e le =
      parenthesized-Judged primary ts (λ us e' d. group ts us e' d) (omega arith)
  group-Judged [] e le = cc
  group-Judged (t ∷ ts) e le = cc

  primary-Judged :
      (ts : List Token) → length ts ≤ n → Judged primary ts (parse_primary next inner (at ts))
  primary-Judged ts le = elim (Bool-cases (starts ts Token.left_paren)) [
    | inl e ↦ group-Judged ts e le
    | inr e ↦ as_primary ts (parse_primary next inner (at ts)) (operand-Judged ts e)
  ]

  operator-Judged :
      (ts us : List Token) (l : Expr)
      → Derives operand ts us l
      → length us ≤ n
      → Judged comparison ts (
          (parse_binary_operator next >>= λ op.
          parse_primary next inner >>= λ right. pure (Expr.binary l op right))
            (at us))
  unfolding parse_binary_operator
  operator-Judged ts [] l d le = tt
  operator-Judged ts (t ∷ us) l d le = elim (Option-cases (binary_operator_of t)) [
    | inl e ↦ rw (◌>>=◌, e, or_fail) tt
    | inr (op, e) ↦
        rw (◌>>=◌, e, or_fail, next-at us)
          (bind_lem primary comparison us ts (parse_primary next inner) _ (at us)
            (primary-Judged us (omega arith))
            (λ vs r k. (vs, refl, compare ts us vs t op l r d e k)))
  ]

  comparison_group-Judged :
      (ts : List Token)
      → starts ts Token.left_paren ≡ true
      → length ts ≤ n
      → Judged comparison ts (parse_comparison next inner (at ts))
  unfolding parse_comparison
  comparison_group-Judged (Token.left_paren ∷ ts) e le =
      parenthesized-Judged comparison ts (λ us e' d. parenthesized ts us e' d) (omega arith)
  comparison_group-Judged [] e le = cc
  comparison_group-Judged (t ∷ ts) e le = cc

  comparison-Judged :
      (ts : List Token) → length ts ≤ n → Judged comparison ts (parse_comparison next inner (at ts))
  unfolding parse_comparison
  comparison-Judged ts le = elim (Bool-cases (starts ts Token.left_paren)) [
    | inl e ↦ comparison_group-Judged ts e le
    | inr e ↦ rw e (
        bind_lem operand comparison ts ts (parse_primary next inner) _ (at ts) (operand-Judged ts e)
          (λ us l d. operator-Judged ts us l d (omega (arith, length-Derives operand ts us l d))))
  ]

  and_loop-Judged :
      (f : ℕ) (ts us : List Token) (l : Expr)
      → Derives conjunction ts us l
      → length us < f
      → length us ≤ n
      → Judged conjunction ts (and_loop next inner f l (at us))
  unfolding and_loop
  and_loop-Judged zero ts us l d lt le = absurd (omega arith)
  and_loop-Judged (suc f) ts (Token.and ∷ us) l d lt le = rw (next-at us) (
      bind_lem comparison conjunction us ts (parse_comparison next inner) _ (at us)
        (comparison-Judged us (omega arith))
        (λ vs r k.
          and_loop-Judged f ts vs (Expr.binary l BinaryOperator.and r) (more_and ts us vs l r d k)
            (omega (arith, length-Derives comparison us vs r k))
            (omega (arith, length-Derives comparison us vs r k))))
  and_loop-Judged (suc f) ts us l d lt le = (us, refl, d)

  conjunction-Judged :
      (ts : List Token) → length ts ≤ n → Judged conjunction ts (parse_and next inner n (at ts))
  unfolding parse_and
  conjunction-Judged ts le =
      bind_lem comparison conjunction ts ts (parse_comparison next inner) _ (at ts)
        (comparison-Judged ts le)
        (λ us l d.
          and_loop-Judged n ts us l (one_and ts us l d)
            (omega (arith, length-Derives comparison ts us l d))
            (omega (arith, length-Derives comparison ts us l d)))

  or_loop-Judged :
      (f : ℕ) (ts us : List Token) (l : Expr)
      → Derives disjunction ts us l
      → length us < f
      → length us ≤ n
      → Judged disjunction ts (or_loop next inner f n l (at us))
  unfolding or_loop
  or_loop-Judged zero ts us l d lt le = absurd (omega arith)
  or_loop-Judged (suc f) ts (Token.or ∷ us) l d lt le = rw (next-at us) (
      bind_lem conjunction disjunction us ts (parse_and next inner n) _ (at us)
        (conjunction-Judged us (omega arith))
        (λ vs r k.
          or_loop-Judged f ts vs (Expr.binary l BinaryOperator.or r) (more_or ts us vs l r d k)
            (omega (arith, length-Derives conjunction us vs r k))
            (omega (arith, length-Derives conjunction us vs r k))))
  or_loop-Judged (suc f) ts us l d lt le = (us, refl, d)

  disjunction-Judged :
      (ts : List Token) → length ts ≤ n → Judged disjunction ts (parse_or next inner n (at ts))
  unfolding parse_or
  disjunction-Judged ts le =
      bind_lem conjunction disjunction ts ts (parse_and next inner n) _ (at ts)
        (conjunction-Judged ts le)
        (λ us l d.
          or_loop-Judged n ts us l (one_or ts us l d)
            (omega (arith, length-Derives conjunction ts us l d))
            (omega (arith, length-Derives conjunction ts us l d)))

-- With fuel for more than the number of the tokens, `parse_expression` panics or returns an
-- expression that the grammar derives from the tokens up to where the parser then stands; it never
-- uses up the fuel.
pub parse_expression-Judged :
    (fuel : ℕ) (ts : List Token)
    → length ts < fuel
    → Judged disjunction ts (parse_expression next fuel (at ts))
unfolding parse_expression
parse_expression-Judged zero ts lt = absurd (omega arith)
parse_expression-Judged (suc fuel) ts lt =
    disjunction-Judged (parse_expression next fuel) fuel
      (λ ts' lt'. parse_expression-Judged fuel ts' lt') ts (omega arith)
