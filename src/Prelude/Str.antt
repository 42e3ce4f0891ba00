-- ===== src/Prelude/Str.antt =====
-- `String` and `&str`: a text is the list of its UTF-8 bytes, compared byte by byte.
use Prim.Native.Char.{code}
use Prim.Native.String.{String}
use Prim.Native.Nat.{ℕ, compare, Ordering}
use mathlib.Core.Path.{◌≡◌, refl}
use mathlib.Core.Logic.{◌↔◌}
use mathlib.Core.Bool.{Bool, true, false}
use mathlib.Core.List.{List, [], ◌∷◌}
use native.Mathlib.Omega.{arith}
use arch_db.Prelude.Tests.{◌==◌, if◌then◌else◌}

abbrev pub Str : Type 0
Str = List ℕ

-- The bytes of an ASCII literal.
abbrev pub codes : String → Str
codes String.[] = []
codes (String.◌∷◌ c s) = code c ∷ codes s

unfoldable pub str_eq : Str → Str → Bool
str_eq [] [] = true
str_eq [] (b ∷ t) = false
str_eq (a ∷ s) [] = false
str_eq (a ∷ s) (b ∷ t) = if a == b then str_eq s t else false

-- `str::cmp`
unfoldable pub str_cmp : Str → Str → Ordering
str_cmp [] [] = Ordering.eq
str_cmp [] (b ∷ t) = Ordering.lt
str_cmp (a ∷ s) [] = Ordering.gt
str_cmp (a ∷ s) (b ∷ t) = elim (compare a b) [
  | Ordering.lt ↦ Ordering.lt
  | Ordering.eq ↦ str_cmp s t
  | Ordering.gt ↦ Ordering.gt
]

abbrev pub str_lt : Str → Str → Bool
str_lt s t = elim (str_cmp s t) [ Ordering.lt ↦ true | _ ↦ false ]

abbrev pub str_le : Str → Str → Bool
str_le s t = elim (str_cmp s t) [ Ordering.gt ↦ false | _ ↦ true ]

pub str_eq-eq : (s t : Str) → str_eq s t ≡ true → s ≡ t
unfolding str_eq
str_eq-eq [] [] h = refl
str_eq-eq [] (b ∷ t) h = cc
str_eq-eq (a ∷ s) [] h = cc
str_eq-eq (a ∷ s) (b ∷ t) h = ground (arith, str_eq-eq s t)

pub str_eq_self : (s : Str) → str_eq s s ≡ true
unfolding str_eq
str_eq_self [] = refl
str_eq_self (a ∷ s) = ground (arith, str_eq_self s)

pub str_eq_iff : (s t : Str) → (str_eq s t ≡ true) ↔ (s ≡ t)
str_eq_iff s t = (str_eq-eq s t, λ p. rw p (str_eq_self t))

pub str_cmp_self : (s : Str) → str_cmp s s ≡ Ordering.eq
unfolding str_cmp
str_cmp_self [] = refl
str_cmp_self (a ∷ s) = ground (arith, str_cmp_self s)

pub str_cmp-eq : (s t : Str) → str_cmp s t ≡ Ordering.eq → s ≡ t
unfolding str_cmp
str_cmp-eq [] [] h = refl
str_cmp-eq [] (b ∷ t) h = cc
str_cmp-eq (a ∷ s) [] h = cc
str_cmp-eq (a ∷ s) (b ∷ t) h = ground (arith, str_cmp-eq s t)

abbrev pub reversed : Ordering → Ordering
reversed Ordering.lt = Ordering.gt
reversed Ordering.eq = Ordering.eq
reversed Ordering.gt = Ordering.lt

pub str_cmp_flip : (s t : Str) → str_cmp t s ≡ reversed (str_cmp s t)
unfolding str_cmp
str_cmp_flip [] [] = refl
str_cmp_flip [] (b ∷ t) = refl
str_cmp_flip (a ∷ s) [] = refl
str_cmp_flip (a ∷ s) (b ∷ t) = ground (arith, str_cmp_flip s t)

pub str_lt_trans : (s t u : Str) → str_lt s t ≡ true → str_lt t u ≡ true → str_lt s u ≡ true
unfolding str_cmp
str_lt_trans [] [] u h k = cc
str_lt_trans [] (b ∷ t) [] h k = cc
str_lt_trans [] (b ∷ t) (c ∷ u) h k = refl
str_lt_trans (a ∷ s) [] u h k = cc
str_lt_trans (a ∷ s) (b ∷ t) [] h k = cc
str_lt_trans (a ∷ s) (b ∷ t) (c ∷ u) h k = ground (arith, str_lt_trans s t u)
