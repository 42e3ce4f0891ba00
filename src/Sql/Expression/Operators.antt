-- ===== src/Sql/Expression/Operators.antt =====
-- The comparison operators come in pairs, each the negation of the other, errors included.
use arch_db.Prelude.{ap, panic, ◌≡◌, refl, Bool, not, arith, Result, ok, err, ◌>>=◌}
use arch_db.Prelude.Str.{Str, str_cmp_flip, str_lt, str_le}
use arch_db.Prelude.Int.{ℤ, ltb_ℤ, leb_ℤ}
use arch_db.Sql.Ast.{
  Expr, number, string, binary, equal, not_equal, greater_than, greater_than_or_equal, less_than,
  less_than_or_equal,
}
use arch_db.Sql.Row.{Row, RowValue, integer, text}
use arch_db.Sql.Expression.{evaluate, values, compared}

abbrev pub negated : Result Bool → Result Bool
negated r = do b ← r; ok (not b)

leb_ℤ-ltb_ℤ : (a b : ℤ) → leb_ℤ b a ≡ not (ltb_ℤ a b)
leb_ℤ-ltb_ℤ a b = ground arith

str_le-str_lt : (s t : Str) → str_le t s ≡ not (str_lt s t)
str_le-str_lt s t = ground (arith, str_cmp_flip s t)

compared-negated :
    (f g : ℤ → ℤ → Bool) (p q : Str → Str → Bool)
    → ((a b : ℤ) → g a b ≡ not (f a b))
    → ((s t : Str) → q s t ≡ not (p s t))
    → (v : RowValue) (right : Expr) → compared g q v right ≡ negated (compared f p v right)
unfolding compared
compared-negated f g p q h k (integer a) (number b) = ap ok (h a b)
compared-negated f g p q h k (text s) (string t) = ap ok (k s t)
compared-negated f g p q h k v right = refl

values-negated :
    (r : Result (RowValue × Expr)) (f g : RowValue → Expr → Result Bool)
    → ((v : RowValue) (e : Expr) → g v e ≡ negated (f v e))
    → (r >>= λ x. g x.0 x.1) ≡ negated (r >>= λ x. f x.0 x.1)
values-negated (ok (v, e)) f g h = h v e
values-negated (err e) f g h = refl
values-negated panic f g h = refl

-- On every row and every two sides `!=` evaluates to the negation of `=`, `>=` to that of `<` and
-- `<=` to that of `>`: with the same value negated, or with the same error.
pub evaluate_dual :
    (row : Row) (left right : Expr)
    → (evaluate row (binary left not_equal right)
        ≡ negated (evaluate row (binary left equal right)))
      × (evaluate row (binary left greater_than_or_equal right)
          ≡ negated (evaluate row (binary left less_than right)))
      × (evaluate row (binary left less_than_or_equal right)
          ≡ negated (evaluate row (binary left greater_than right)))
unfolding evaluate
evaluate_dual row left right = (
  refl,
  values-negated (values row left right) _ _
      (compared-negated _ _ _ _ (λ a b. leb_ℤ-ltb_ℤ a b) (λ s t. str_le-str_lt s t)),
  values-negated (values row left right) _ _
      (compared-negated _ _ _ _ (λ a b. leb_ℤ-ltb_ℤ b a) (λ s t. str_le-str_lt t s)),
)
