-- ===== src/Sql/Parser/Complete.antt =====
-- The parser accepts every phrase of the grammar and reads it as the grammar does.
use arch_db.Prelude.{ℕ, suc, ◌+◌, ◌≤◌, ◌<◌, ◌≡◌, refl, false, some, List, ◌∷◌, arith, length, ◌∙◌}
use arch_db.Sql.Ast.{Expr, AggregateFunction, BinaryOperator}
use arch_db.Sql.Token.{Token, token_eq}
use arch_db.Sql.Parser.Cursor.{Parser, ◌>>=◌, done}
use arch_db.Sql.Parser.Exprs.{
  or_fail, binary_operator_of, parse_parenthesized, parse_primary, parse_comparison, parse_and,
  and_loop, parse_or, or_loop, parse_expression, parse_binary_operator,
}
use arch_db.Sql.Parser.Grammar.{
  next, at, next-at, starts, Derives, operand, primary, comparison, conjunction, disjunction,
  number, string, column, count, aggregate, plain, group, compare, parenthesized, one_and, more_and,
  one_or, more_or, length-Derives,
}
use Prim.Native.Nat.{zero}

-- An expression parser reads every expression of at most `n` tokens that a `)` ends.
abbrev IsInner : Parser (List Token) Expr → ℕ → Type 0
IsInner inner n =
    (ts us : List Token) (e : Expr)
    → Derives disjunction ts (Token.right_paren ∷ us) e
    → length ts ≤ n
    → inner (at ts) ≡ done (e, at (Token.right_paren ∷ us))

module _ (inner : Parser (List Token) Expr) (n : ℕ) (reads : IsInner inner n) where
  parenthesized_lem :
      (ts us : List Token) (e : Expr)
      → Derives disjunction ts (Token.right_paren ∷ us) e
      → length ts ≤ n
      → parse_parenthesized next inner (at (Token.left_paren ∷ ts)) ≡ done (e, at us)
  unfolding parse_parenthesized
  parenthesized_lem ts us e d le = rw (next-at ts, ◌>>=◌, reads ts us e d le, next-at us) refl

  operand_lem :
      (ts us : List Token) (e : Expr)
      → Derives operand ts us e
      → parse_primary next inner (at ts) ≡ done (e, at us)
  unfolding parse_primary
  operand_lem ts us e (number k _) = rw (next-at us) refl
  operand_lem ts us e (string s _) = rw (next-at us) refl
  operand_lem ts us e (column name _ h) = rw (next-at us, h) refl
  operand_lem ts us e (count name _ h) = rw (h, or_fail, ◌>>=◌, next-at us) refl
  operand_lem ts us e (aggregate name c AggregateFunction.count _ h k) = absurd (k refl)
  operand_lem ts us e (aggregate name c AggregateFunction.min _ h k) =
      rw (h, or_fail, ◌>>=◌, next-at us) refl
  operand_lem ts us e (aggregate name c AggregateFunction.max _ h k) =
      rw (h, or_fail, ◌>>=◌, next-at us) refl
  operand_lem ts us e (aggregate name c AggregateFunction.sum _ h k) =
      rw (h, or_fail, ◌>>=◌, next-at us) refl
  operand_lem ts us e (aggregate name c AggregateFunction.avg _ h k) =
      rw (h, or_fail, ◌>>=◌, next-at us) refl

  primary_lem :
      (ts us : List Token) (e : Expr)
      → Derives primary ts us e
      → length ts ≤ suc n
      → parse_primary next inner (at ts) ≡ done (e, at us)
  primary_lem ts us e (plain _ _ _ d) le = operand_lem ts us e d
  primary_lem ts us e (group ts' _ _ d) le =
      unfold parse_primary in parenthesized_lem ts' us e d (omega arith)

  starts-operand :
      (ts us : List Token) (e : Expr) → Derives operand ts us e → starts ts Token.left_paren ≡ false
  unfolding token_eq
  starts-operand ts us e (number k _) = refl
  starts-operand ts us e (string s _) = refl
  starts-operand ts us e (column name _ h) = refl
  starts-operand ts us e (count name _ h) = refl
  starts-operand ts us e (aggregate name c f _ h k) = refl

  operator_lem :
      (t : Token) (op : BinaryOperator) (ts : List Token)
      → binary_operator_of t ≡ some op
      → parse_binary_operator next (at (t ∷ ts)) ≡ done (op, at ts)
  unfolding parse_binary_operator
  operator_lem t op ts h = rw (h, or_fail, next-at ts) refl

  comparison_lem :
      (ts us : List Token) (e : Expr)
      → Derives comparison ts us e
      → length ts ≤ suc n
      → parse_comparison next inner (at ts) ≡ done (e, at us)
  unfolding parse_comparison
  comparison_lem ts us e (parenthesized ts' _ _ d) le = parenthesized_lem ts' us e d (omega arith)
  comparison_lem ts us e (compare _ us' _ t op l r d h k) le =
      let shorter = length-Derives operand ts (t ∷ us') l d in
      rw
        (
          starts-operand ts (t ∷ us') l d,
          ◌>>=◌,
          operand_lem ts (t ∷ us') l d,
          operator_lem t op us' h,
          primary_lem us' us r k (omega (arith, shorter)),
        )
        refl

  and_loop_stop :
      (f : ℕ) (us : List Token) (e : Expr)
      → 0 < f
      → starts us Token.and ≡ false
      → and_loop next inner f e (at us) ≡ done (e, at us)
  unfolding and_loop
  and_loop_stop zero us e lt stop = absurd (omega arith)
  and_loop_stop (suc f) us e lt stop = rw (stop, ◌>>=◌) refl

  and_loop_more :
      (f : ℕ) (ts us : List Token) (l r : Expr)
      → Derives comparison ts us r
      → length ts ≤ n
      → length ts + 1 < f
      → (g : ℕ) × (length us < g)
        × (and_loop next inner f l (at (Token.and ∷ ts))
            ≡ and_loop next inner g (Expr.binary l BinaryOperator.and r) (at us))
  unfolding and_loop
  and_loop_more zero ts us l r d le lt = absurd (omega arith)
  and_loop_more (suc f) ts us l r d le lt = (
    f,
    omega (arith, length-Derives comparison ts us r d),
    rw (next-at ts, ◌>>=◌, comparison_lem ts us r d (omega arith)) refl,
  )

  -- After a conjunction the loop stands before what follows it, with fuel left for all of it.
  conjunction_lem :
      (ts us : List Token) (e : Expr)
      → Derives conjunction ts us e
      → length ts ≤ suc n
      → (f : ℕ) × (length us < f)
        × (parse_and next inner n (at ts) ≡ and_loop next inner f e (at us))
  unfolding parse_and
  conjunction_lem ts us e (one_and _ _ _ d) le = (
    n,
    omega (arith, length-Derives comparison ts us e d),
    rw (◌>>=◌, comparison_lem ts us e d le) refl,
  )
  conjunction_lem ts us e (more_and _ us' _ l r d k) le =
      let (f, enough, same) = conjunction_lem ts (Token.and ∷ us') l d le in
      let (g, left, step) =
        and_loop_more f us' us l r k
          (omega (arith, length-Derives conjunction ts (Token.and ∷ us') l d)) (omega arith) in
      (g, left, same ∙ step)

  parse_and_lem :
      (ts us : List Token) (e : Expr)
      → Derives conjunction ts us e
      → length ts ≤ suc n
      → starts us Token.and ≡ false
      → parse_and next inner n (at ts) ≡ done (e, at us)
  parse_and_lem ts us e d le stop =
      let (f, enough, same) = conjunction_lem ts us e d le in
      same ∙ and_loop_stop f us e (omega arith) stop

  or_loop_stop :
      (f : ℕ) (us : List Token) (e : Expr)
      → 0 < f
      → starts us Token.or ≡ false
      → or_loop next inner f n e (at us) ≡ done (e, at us)
  unfolding or_loop
  or_loop_stop zero us e lt stop = absurd (omega arith)
  or_loop_stop (suc f) us e lt stop = rw (stop, ◌>>=◌) refl

  or_loop_more :
      (f : ℕ) (ts us : List Token) (l r : Expr)
      → Derives conjunction ts us r
      → length ts ≤ n
      → length ts + 1 < f
      → starts us Token.and ≡ false
      → (g : ℕ) × (length us < g)
        × (or_loop next inner f n l (at (Token.or ∷ ts))
            ≡ or_loop next inner g n (Expr.binary l BinaryOperator.or r) (at us))
  unfolding or_loop
  or_loop_more zero ts us l r d le lt stop = absurd (omega arith)
  or_loop_more (suc f) ts us l r d le lt stop = (
    f,
    omega (arith, length-Derives conjunction ts us r d),
    rw (next-at ts, ◌>>=◌, parse_and_lem ts us r d (omega arith) stop) refl,
  )

  disjunction_lem :
      (ts us : List Token) (e : Expr)
      → Derives disjunction ts us e
      → length ts ≤ suc n
      → starts us Token.and ≡ false
      → (f : ℕ) × (length us < f)
        × (parse_or next inner n (at ts) ≡ or_loop next inner f n e (at us))
  unfolding parse_or
  disjunction_lem ts us e (one_or _ _ _ d) le stop = (
    n,
    omega (arith, length-Derives conjunction ts us e d),
    rw (◌>>=◌, parse_and_lem ts us e d le stop) refl,
  )
  disjunction_lem ts us e (more_or _ us' _ l r d k) le stop =
      let (f, enough, same) =
        disjunction_lem ts (Token.or ∷ us') l d le (unfold token_eq in refl) in
      let (g, left, step) =
        or_loop_more f us' us l r k
          (omega (arith, length-Derives disjunction ts (Token.or ∷ us') l d)) (omega arith) stop in
      (g, left, same ∙ step)

  parse_or_lem :
      (ts us : List Token) (e : Expr)
      → Derives disjunction ts us e
      → length ts ≤ suc n
      → starts us Token.and ≡ false
      → starts us Token.or ≡ false
      → parse_or next inner n (at ts) ≡ done (e, at us)
  parse_or_lem ts us e d le no_and no_or =
      let (f, enough, same) = disjunction_lem ts us e d le no_and in
      same ∙ or_loop_stop f us e (omega arith) no_or

-- Every expression of the grammar, of at most `fuel` tokens with what follows it, and followed by
-- neither AND nor OR, is read with this fuel as the grammar reads it, up to where it ends.
pub parse_expression-Derives :
    (fuel : ℕ) (ts us : List Token) (e : Expr)
    → Derives disjunction ts us e
    → length ts ≤ fuel
    → starts us Token.and ≡ false
    → starts us Token.or ≡ false
    → parse_expression next fuel (at ts) ≡ done (e, at us)
unfolding parse_expression
parse_expression-Derives zero ts us e d le no_and no_or =
    absurd (omega (arith, length-Derives disjunction ts us e d))
parse_expression-Derives (suc fuel) ts us e d le no_and no_or =
    parse_or_lem (parse_expression next fuel) fuel
      (λ ts' us' e' d' le'.
        parse_expression-Derives fuel ts' (Token.right_paren ∷ us') e' d' le'
          (unfold token_eq in refl) (unfold token_eq in refl))
      ts us e d le no_and no_or
