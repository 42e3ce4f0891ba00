-- ===== src/Sql/Expression/Meaning.antt =====
-- What a WHERE clause means, independently of how it is evaluated.
use arch_db.Prelude.{
  refl, ◌+◌, ◌≤◌, ◌<◌, ◌≡◌, ◌≢◌, ◌↔◌, ◌⊎◌, Bool, true, not, arith, ok, some, inl, inr, false,
}
use arch_db.Prelude.Str.{Str, str_lt, str_le, str_eq, str_eq_iff, str_cmp-eq, str_cmp_self}
use arch_db.Prelude.Int.{ℤ, pos_part, neg_part, eqb_ℤ, eqb_ℤ_iff, ltb_ℤ, leb_ℤ}
use mathlib.Core.Bool.{false≢true}
use arch_db.Sql.Ast.{
  Expr, identifier, number, string, binary, BinaryOperator, equal, not_equal, greater_than,
  greater_than_or_equal, less_than, less_than_or_equal, and, or,
}
use arch_db.Sql.Row
use arch_db.Sql.Row.{Row, RowValue, integer, text}
use arch_db.Sql.Expression.{evaluate}

infix 50 ◌<ℤ◌ ◌≤ℤ◌
abbrev pub ◌<ℤ◌ : ℤ → ℤ → Type 0
a <ℤ b = pos_part a + neg_part b < pos_part b + neg_part a

abbrev pub ◌≤ℤ◌ : ℤ → ℤ → Type 0
a ≤ℤ b = pos_part a + neg_part b ≤ pos_part b + neg_part a

abbrev pub OnInts : BinaryOperator → ℤ → ℤ → Type 0
OnInts equal a b = a ≡ b
OnInts not_equal a b = a ≢ b
OnInts greater_than a b = b <ℤ a
OnInts greater_than_or_equal a b = b ≤ℤ a
OnInts less_than a b = a <ℤ b
OnInts less_than_or_equal a b = a ≤ℤ b
OnInts _ a b = ⊥

-- Texts are compared in the order of their bytes.
abbrev pub OnTexts : BinaryOperator → Str → Str → Type 0
OnTexts equal s t = s ≡ t
OnTexts not_equal s t = s ≢ t
OnTexts greater_than s t = str_lt t s ≡ true
OnTexts greater_than_or_equal s t = (str_lt t s ≡ true) ⊎ (t ≡ s)
OnTexts less_than s t = str_lt s t ≡ true
OnTexts less_than_or_equal s t = (str_lt s t ≡ true) ⊎ (s ≡ t)
OnTexts _ s t = ⊥

abbrev pub Comparison : Row → Expr → BinaryOperator → Expr → Type 0
Comparison row (identifier c) op (number b) =
    (a : ℤ) × (Row.get c row ≡ some (integer a)) × OnInts op a b
Comparison row (identifier c) op (string t) =
    (s : Str) × (Row.get c row ≡ some (text s)) × OnTexts op s t
Comparison _ _ _ _ = ⊥

-- The row satisfies the clause.
abbrev pub Satisfies : Row → Expr → Type 0
Satisfies row (binary left and right) = Satisfies row left × Satisfies row right
Satisfies row (binary left or right) = Satisfies row left ⊎ Satisfies row right
Satisfies row (binary left op right) = Comparison row left op right
Satisfies row _ = ⊥

pub data IsComparison : BinaryOperator → Type 0 where
  is_equal : IsComparison equal
  is_not_equal : IsComparison not_equal
  is_greater_than : IsComparison greater_than
  is_greater_than_or_equal : IsComparison greater_than_or_equal
  is_less_than : IsComparison less_than
  is_less_than_or_equal : IsComparison less_than_or_equal

-- Every comparison of the clause compares a column of the row with a literal of its type.
pub data WellTyped (row : Row) : Expr → Type 0 where
  ints :
      (c : Str) (op : BinaryOperator) (a b : ℤ)
      → IsComparison op
      → Row.get c row ≡ some (integer a)
      → WellTyped row (binary (identifier c) op (number b))
  texts :
      (c : Str) (op : BinaryOperator) (s t : Str)
      → IsComparison op
      → Row.get c row ≡ some (text s)
      → WellTyped row (binary (identifier c) op (string t))
  both :
      (left right : Expr)
      → WellTyped row left
      → WellTyped row right
      → WellTyped row (binary left and right)
  either :
      (left right : Expr)
      → WellTyped row left
      → WellTyped row right
      → WellTyped row (binary left or right)

abbrev pub Decides : Row → Expr → Type 0
Decides row e = (b : Bool) × (evaluate row e ≡ ok b) × ((b ≡ true) ↔ Satisfies row e)

-- The row has one value for the column, so the comparison is about that value.
ints_lem :
    (row : Row) (c : Str) (op : BinaryOperator) (a b : ℤ) (t : Bool)
    → Row.get c row ≡ some (integer a)
    → ((t ≡ true) ↔ OnInts op a b)
    → (t ≡ true) ↔ Comparison row (identifier c) op (number b)
ints_lem row c op a b t h iff =
    (λ p. (a, h, iff.0 p), λ (a', h', q). let same : a' ≡ a = cc (h, h') in iff.1 (rw same at q))

texts_lem :
    (row : Row) (c : Str) (op : BinaryOperator) (a b : Str) (t : Bool)
    → Row.get c row ≡ some (text a)
    → ((t ≡ true) ↔ OnTexts op a b)
    → (t ≡ true) ↔ Comparison row (identifier c) op (string b)
texts_lem row c op a b t h iff =
    (λ p. (a, h, iff.0 p), λ (a', h', q). let same : a' ≡ a = cc (h, h') in iff.1 (rw same at q))

str_le_iff : (s t : Str) → (str_le s t ≡ true) ↔ ((str_lt s t ≡ true) ⊎ (s ≡ t))
str_le_iff s t = ground (arith, str_cmp-eq s t, str_cmp_self s)

ints_decided :
    (row : Row) (c : Str) (op : BinaryOperator) (a b : ℤ)
    → IsComparison op
    → Row.get c row ≡ some (integer a)
    → Decides row (binary (identifier c) op (number b))
unfolding evaluate
ints_decided row c op a b is_equal h =
    (eqb_ℤ a b, ground arith, ints_lem row c equal a b _ h (eqb_ℤ_iff a b))
ints_decided row c op a b is_not_equal h =
    (not (eqb_ℤ a b), ground arith, ints_lem row c not_equal a b _ h (ground arith))
ints_decided row c op a b is_greater_than h =
    (ltb_ℤ b a, ground arith, ints_lem row c greater_than a b _ h (ground arith))
ints_decided row c op a b is_greater_than_or_equal h =
    (leb_ℤ b a, ground arith, ints_lem row c greater_than_or_equal a b _ h (ground arith))
ints_decided row c op a b is_less_than h =
    (ltb_ℤ a b, ground arith, ints_lem row c less_than a b _ h (ground arith))
ints_decided row c op a b is_less_than_or_equal h =
    (leb_ℤ a b, ground arith, ints_lem row c less_than_or_equal a b _ h (ground arith))

texts_decided :
    (row : Row) (c : Str) (op : BinaryOperator) (s t : Str)
    → IsComparison op
    → Row.get c row ≡ some (text s)
    → Decides row (binary (identifier c) op (string t))
unfolding evaluate
texts_decided row c op s t is_equal h =
    (str_eq s t, ground arith, texts_lem row c equal s t _ h (str_eq_iff s t))
texts_decided row c op s t is_not_equal h = (
  not (str_eq s t),
  ground arith,
  texts_lem row c not_equal s t _ h (ground (arith, str_eq_iff s t)),
)
texts_decided row c op s t is_greater_than h =
    (str_lt t s, ground arith, texts_lem row c greater_than s t _ h ((λ p. p, λ p. p)))
texts_decided row c op s t is_greater_than_or_equal h =
    (str_le t s, ground arith, texts_lem row c greater_than_or_equal s t _ h (str_le_iff t s))
texts_decided row c op s t is_less_than h =
    (str_lt s t, ground arith, texts_lem row c less_than s t _ h ((λ p. p, λ p. p)))
texts_decided row c op s t is_less_than_or_equal h =
    (str_le s t, ground arith, texts_lem row c less_than_or_equal s t _ h (str_le_iff s t))

both_decided :
    (row : Row) (left right : Expr)
    → Decides row left
    → Decides row right
    → Decides row (binary left and right)
unfolding evaluate
both_decided row left right (true, ea, ia) (b, eb, ib) =
    (b, rw (ea, eb), (λ p. (ia.0 refl, ib.0 p), λ q. ib.1 q.1))
both_decided row left right (false, ea, ia) (b, eb, ib) = (false, rw ea, (λ p. cc, λ q. ia.1 q.0))

either_decided :
    (row : Row) (left right : Expr)
    → Decides row left
    → Decides row right
    → Decides row (binary left or right)
unfolding evaluate
either_decided row left right (true, ea, ia) (b, eb, ib) =
    (true, rw ea, (λ p. inl (ia.0 refl), λ q. refl))
either_decided row left right (false, ea, ia) (b, eb, ib) = (
  b,
  rw (ea, eb),
  (λ p. inr (ib.0 p), elim [ inl x ↦ absurd (false≢true (ia.1 x)) | inr y ↦ ib.1 y ]),
)

-- On a row in which every compared column has a value of the literal's type, a WHERE clause
-- evaluates without an error, to true exactly when the row satisfies it.
pub evaluate-Satisfies : (row : Row) (e : Expr) → WellTyped row e → Decides row e
evaluate-Satisfies row e (ints c op a b k h) = ints_decided row c op a b k h
evaluate-Satisfies row e (texts c op s t k h) = texts_decided row c op s t k h
evaluate-Satisfies row e (both left right l r) =
    both_decided row left right (evaluate-Satisfies row left l) (evaluate-Satisfies row right r)
evaluate-Satisfies row e (either left right l r) =
    either_decided row left right (evaluate-Satisfies row left l) (evaluate-Satisfies row right r)
