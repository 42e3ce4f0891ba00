-- ===== src/Sql/Table/Order.antt =====
-- The index form of integers that are not negative is in their order.
use arch_db.Prelude.{
  ℕ, zero, suc, ◌+◌, ◌*◌, ◌/◌, ◌%◌, ◌^◌, ◌<◌, ◌≡◌, refl, Bool, true, false, [], ◌∷◌, ◌++◌, arith,
  length, length-append, ap, sym, ◌∙◌,
}
use Prim.Native.Nat.{compare, Ordering}
use arch_db.Prelude.Str.{Str, str_cmp, str_lt}
use arch_db.Prelude.Int.{pos, negsuc, ltb_ℤ}
use arch_db.Sql.Row.{integer}
use arch_db.Sql.Table.{fixed, encode_index_value}

abbrev then : Ordering → Ordering → Ordering
then first second = elim first [
  | Ordering.lt ↦ Ordering.lt
  | Ordering.eq ↦ second
  | Ordering.gt ↦ Ordering.gt
]

-- Of texts of one length, the last characters decide when the others are equal.
str_cmp-last :
    (s t : Str) (a b : ℕ)
    → length s ≡ length t
    → str_cmp (s ++ a ∷ []) (t ++ b ∷ []) ≡ then (str_cmp s t) (compare a b)
unfolding str_cmp
str_cmp-last [] [] a b h = ground arith
str_cmp-last [] (y ∷ t) a b h = absurd (omega (arith, h))
str_cmp-last (x ∷ s) [] a b h = absurd (omega (arith, h))
str_cmp-last (x ∷ s) (y ∷ t) a b h = ground (arith, str_cmp-last s t a b (omega (arith, h)))

length-fixed : (width n : ℕ) → length (fixed width n) ≡ width
unfolding fixed
length-fixed zero n = refl
length-fixed (suc width) n =
    omega (
      arith,
      length-append (fixed width (n / 10)) ((48 + n % 10) ∷ []),
      length-fixed width (n / 10),
    )

abbrev power : ℕ → ℕ
power zero = 1
power (suc k) = 10 * power k

compare_digits :
    (n m : ℕ) → then (compare (n / 10) (m / 10)) (compare (48 + n % 10) (48 + m % 10)) ≡ compare n m
compare_digits n m = ground arith

str_cmp-fixed :
    (width n m : ℕ)
    → n < power width
    → m < power width
    → str_cmp (fixed width n) (fixed width m) ≡ compare n m
unfolding fixed
str_cmp-fixed zero n m h k = unfold str_cmp in ground (arith, h, k)
str_cmp-fixed (suc width) n m h k =
    str_cmp-last (fixed width (n / 10)) (fixed width (m / 10)) (48 + n % 10) (48 + m % 10)
      (length-fixed width (n / 10) ∙ sym (length-fixed width (m / 10)))
    ∙ ap (λ c. then c (compare (48 + n % 10) (48 + m % 10)))
        (str_cmp-fixed width (n / 10) (m / 10) (omega (arith, h)) (omega (arith, k)))
    ∙ compare_digits n m

abbrev is_lt : Ordering → Bool
is_lt c = elim c [ Ordering.lt ↦ true | _ ↦ false ]

encode_pos : (n : ℕ) → encode_index_value (integer (pos n)) ≡ fixed 20 n
unfolding encode_index_value
encode_pos n = refl

encode_negsuc : (n : ℕ) → encode_index_value (integer (negsuc n)) ≡ b'-' ∷ fixed 19 (suc n)
unfolding encode_index_value
encode_negsuc n = refl

str_cmp_cons : (c : ℕ) (s t : Str) → str_cmp (c ∷ s) (c ∷ t) ≡ str_cmp s t
unfolding str_cmp
str_cmp_cons c s t = ground arith

-- The index forms of two `i64` that are not negative are in their order, and those of two negative ones
-- are in the reversed order.
pub str_lt-encode_index_value :
    (n m : ℕ)
    → n < 2 ^ 63
    → m < 2 ^ 63
    → (str_lt (encode_index_value (integer (pos n))) (encode_index_value (integer (pos m)))
        ≡ ltb_ℤ (pos n) (pos m))
      × (str_lt (encode_index_value (integer (negsuc n))) (encode_index_value (integer (negsuc m)))
          ≡ ltb_ℤ (negsuc m) (negsuc n))
str_lt-encode_index_value n m h k = (
  rw (encode_pos n, encode_pos m)
      (ap is_lt (str_cmp-fixed 20 n m (omega (arith, h)) (omega (arith, k))) ∙ ground arith),
  rw (encode_negsuc n, encode_negsuc m)
      (ap is_lt (
          str_cmp_cons b'-' (fixed 19 (suc n)) (fixed 19 (suc m))
          ∙ str_cmp-fixed 19 (suc n) (suc m) (omega (arith, h)) (omega (arith, k)))
        ∙ ground arith),
)
