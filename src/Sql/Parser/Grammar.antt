-- ===== src/Sql/Parser/Grammar.antt =====
-- The grammar of expressions, independently of the parser, and a list of tokens as the source.
use arch_db.Prelude.{
  ℕ, ◌+◌, ◌≤◌, ◌≡◌, ◌≢◌, refl, Bool, false, some, List, [], ◌∷◌, arith, length, Result, ok,
}
use arch_db.Prelude.Str.{Str}
use arch_db.Prelude.Int.{ℤ}
use arch_db.Sql.Ast.{Expr, AggregateFunction, BinaryOperator}
use arch_db.Sql.Token.{Token, token_eq}
use arch_db.Sql.Parser.Cursor.{Cursor}
use arch_db.Sql.Parser.Exprs.{aggregate_function, binary_operator_of}

-- The tokens of a list, then EOF for ever.
abbrev pub next : List Token → Result (Token × List Token)
next [] = ok (Token.eof, [])
next (t ∷ ts) = ok (t, ts)

-- The parser before the first token of the list.
abbrev pub at : List Token → Cursor (List Token)
at [] = record { source = []; current = Token.eof }
at (t ∷ ts) = record { source = ts; current = t }

pub next-at : (ts : List Token) → next ts ≡ ok ((at ts).current, (at ts).source)
next-at [] = refl
next-at (t ∷ ts) = refl

abbrev pub starts : List Token → Token → Bool
starts ts token = token_eq (at ts).current token

pub data Level : Type 0 where
  operand primary comparison conjunction disjunction : Level

-- `Derives level ts us e`: the tokens `ts` are a phrase of the level that means `e`, and then `us`.
-- AND binds more tightly than OR, and both group to the left.
pub data Derives : Level → List Token → List Token → Expr → Type 0 where
  number : (n : ℤ) (ts : List Token) → Derives operand (Token.number n ∷ ts) ts (Expr.number n)
  string : (s : Str) (ts : List Token) → Derives operand (Token.string s ∷ ts) ts (Expr.string s)
  column :
      (name : Str) (ts : List Token)
      → starts ts Token.left_paren ≡ false
      → Derives operand (Token.identifier name ∷ ts) ts (Expr.identifier name)
  count :
      (name : Str) (ts : List Token)
      → aggregate_function name ≡ some AggregateFunction.count
      → Derives operand
          (Token.identifier name ∷ Token.left_paren ∷ Token.star ∷ Token.right_paren ∷ ts)
          ts
          (Expr.aggregate AggregateFunction.count Expr.wildcard)
  aggregate :
      (name c : Str) (f : AggregateFunction) (ts : List Token)
      → aggregate_function name ≡ some f
      → f ≢ AggregateFunction.count
      → Derives operand
          (Token.identifier name ∷ Token.left_paren ∷ Token.identifier c ∷ Token.right_paren ∷ ts)
          ts
          (Expr.aggregate f (Expr.identifier c))
  plain : (ts us : List Token) (e : Expr) → Derives operand ts us e → Derives primary ts us e
  group :
      (ts us : List Token) (e : Expr)
      → Derives disjunction ts (Token.right_paren ∷ us) e
      → Derives primary (Token.left_paren ∷ ts) us e
  compare :
      (ts us vs : List Token) (t : Token) (op : BinaryOperator) (l r : Expr)
      → Derives operand ts (t ∷ us) l
      → binary_operator_of t ≡ some op
      → Derives primary us vs r
      → Derives comparison ts vs (Expr.binary l op r)
  parenthesized :
      (ts us : List Token) (e : Expr)
      → Derives disjunction ts (Token.right_paren ∷ us) e
      → Derives comparison (Token.left_paren ∷ ts) us e
  one_and :
      (ts us : List Token) (e : Expr) → Derives comparison ts us e → Derives conjunction ts us e
  more_and :
      (ts us vs : List Token) (l r : Expr)
      → Derives conjunction ts (Token.and ∷ us) l
      → Derives comparison us vs r
      → Derives conjunction ts vs (Expr.binary l BinaryOperator.and r)
  one_or :
      (ts us : List Token) (e : Expr) → Derives conjunction ts us e → Derives disjunction ts us e
  more_or :
      (ts us vs : List Token) (l r : Expr)
      → Derives disjunction ts (Token.or ∷ us) l
      → Derives conjunction us vs r
      → Derives disjunction ts vs (Expr.binary l BinaryOperator.or r)

-- The least number of tokens of a phrase.
abbrev pub least : Level → ℕ
least operand = 1
least primary = 1
least _ = 3

pub length-Derives :
    (v : Level) (ts us : List Token) (e : Expr)
    → Derives v ts us e
    → least v + length us ≤ length ts
length-Derives v ts us e (number n _) = omega arith
length-Derives v ts us e (string s _) = omega arith
length-Derives v ts us e (column name _ h) = omega arith
length-Derives v ts us e (count name _ h) = omega arith
length-Derives v ts us e (aggregate name c f _ h k) = omega arith
length-Derives v ts us e (plain _ _ _ d) = length-Derives operand ts us e d
length-Derives v ts us e (group ts' _ _ d) =
    omega (arith, length-Derives disjunction ts' (Token.right_paren ∷ us) e d)
length-Derives v ts us e (compare _ us' _ t op l r d h k) =
    omega (arith, length-Derives operand ts (t ∷ us') l d, length-Derives primary us' us r k)
length-Derives v ts us e (parenthesized ts' _ _ d) =
    omega (arith, length-Derives disjunction ts' (Token.right_paren ∷ us) e d)
length-Derives v ts us e (one_and _ _ _ d) = length-Derives comparison ts us e d
length-Derives v ts us e (more_and _ us' _ l r d k) = omega (
  arith,
  length-Derives conjunction ts (Token.and ∷ us') l d,
  length-Derives comparison us' us r k,
)
length-Derives v ts us e (one_or _ _ _ d) = length-Derives conjunction ts us e d
length-Derives v ts us e (more_or _ us' _ l r d k) = omega (
  arith,
  length-Derives disjunction ts (Token.or ∷ us') l d,
  length-Derives conjunction us' us r k,
)
