-- ===== src/Prelude/Decimal.antt =====
-- Numbers in decimal: `to_string` and `parse` of `u64` and `i64`.
use arch_db.Prelude.{
  append_assoc, ◌++◌, if_false, ap, sym, ℕ, zero, suc, ◌+◌, ◌-◌, ◌*◌, ◌/◌, ◌%◌, ◌^◌, ◌<◌, ◌≡◌, refl,
  true, false, ◌&&◌, Option, none, some, [], ◌∷◌, arith, ltb, leb, ◌==◌, if◌then◌else◌, Bool-cases,
  inl, inr, ◌∙◌, ltb→lt, ltb→le,
}
use arch_db.Prelude.Str.{Str}
use arch_db.Prelude.Int.{ℤ, pos, negsuc}
use arch_db.Prelude.Text.{Lacks}

-- The digits of `n` in front of `out`; a round takes a digit. A `u64` has at most twenty.
unfoldable pub digits_loop : ℕ → ℕ → Str → Str
digits_loop zero n out = out
digits_loop (suc fuel) n out =
    let rest = digits_loop fuel (n / 10) ((48 + n % 10) ∷ out) in
    if ltb n 10 then (48 + n % 10) ∷ out else rest

unfoldable pub decimal : ℕ → Str
unfolding digits_loop
decimal n = digits_loop 20 n []

unfoldable pub decimal_ℤ : ℤ → Str
unfolding decimal
decimal_ℤ (pos n) = decimal n
decimal_ℤ (negsuc n) = b'-' ∷ decimal (suc n)

-- The digits of `s` behind the number `n`.
unfoldable pub read_digits : Str → ℕ → Option ℕ
read_digits [] n = some n
read_digits (c ∷ s) n =
    let rest = read_digits s (n * 10 + (c - 48)) in if leb 48 c && leb c 57 then rest else none

unfoldable pub read_number : Str → Option ℕ
unfolding read_digits
read_number [] = none
read_number (c ∷ s) = read_digits (c ∷ s) 0

abbrev bounded : ℕ → Option ℕ → Option ℕ
bounded bound found = elim found [ none ↦ none | some n ↦ if ltb n bound then some n else none ]

abbrev signed : Option ℕ → Option ℤ
signed found = elim found [ none ↦ none | some n ↦ some (pos n) ]

abbrev negated : ℕ → ℤ
negated zero = pos 0
negated (suc n) = negsuc n

-- `parse::<u64>().ok()`
unfoldable pub parse_u64 : Str → Option ℕ
unfolding read_number
parse_u64 [] = none
parse_u64 (c ∷ s) = bounded (2 ^ 64) (if c == b'+' then read_number s else read_number (c ∷ s))

-- `parse::<i64>().ok()`
unfoldable pub parse_i64 : Str → Option ℤ
unfolding read_number
parse_i64 [] = none
parse_i64 (c ∷ s) =
    if c == b'-'
    then (elim (bounded (2 ^ 63 + 1) (read_number s)) [ none ↦ none | some n ↦ some (negated n) ])
    else signed (bounded (2 ^ 63) (if c == b'+' then read_number s else read_number (c ∷ s)))

abbrev power : ℕ → ℕ
power zero = 1
power (suc k) = 10 * power k

read_last : (n : ℕ) (out : Str) → read_digits ((48 + n % 10) ∷ out) (n / 10) ≡ read_digits out n
unfolding read_digits
read_last n out = ground arith

-- Of a number below ten, the digit is read from nothing.
read_only : (n : ℕ) (out : Str) → n < 10 → read_digits ((48 + n % 10) ∷ out) 0 ≡ read_digits out n
unfolding read_digits
read_only n out h = ground arith

digits_last :
    (fuel n : ℕ) (out : Str) → ltb n 10 ≡ true → digits_loop (suc fuel) n out ≡ (48 + n % 10) ∷ out
unfolding digits_loop
digits_last fuel n out h = rw h refl

digits_more :
    (fuel n : ℕ) (out : Str)
    → ltb n 10 ≡ false
    → digits_loop (suc fuel) n out ≡ digits_loop fuel (n / 10) ((48 + n % 10) ∷ out)
unfolding digits_loop
digits_more fuel n out h = rw h refl

read_digits-digits_loop :
    (fuel n : ℕ) (out : Str)
    → n < power (suc fuel)
    → read_digits (digits_loop (suc fuel) n out) 0 ≡ read_digits out n
read_digits-digits_loop zero n out h =
    rw (digits_last zero n out (ground arith)) (read_only n out (omega (arith, h)))
read_digits-digits_loop (suc fuel) n out h = elim (Bool-cases (ltb n 10)) [
  | inl last ↦ rw (digits_last (suc fuel) n out last) (read_only n out (ltb→lt n 10 last))
  | inr more ↦
      rw (digits_more (suc fuel) n out more) (
        read_digits-digits_loop fuel (n / 10) ((48 + n % 10) ∷ out)
          (omega (arith, h, ltb→le n 10 more)))
      ∙ read_last n out
]

-- The first digit of a number, and what comes after it.
record Leads (s : Str) : Type 0 where
  digit : ℕ
  rest : Str
  small : digit < 10
  spelled : s ≡ (48 + digit) ∷ rest

digits_loop-Leads :
    (fuel n d : ℕ) (out : Str) → d < 10 → Leads (digits_loop fuel n ((48 + d) ∷ out))
digits_loop-Leads zero n d out h = record {
  digit = d;
  rest = out;
  small = h;
  spelled = unfold digits_loop in refl;
}
digits_loop-Leads (suc fuel) n d out h = elim (Bool-cases (ltb n 10)) [
  | inl last ↦ record {
    digit = n % 10;
    rest = (48 + d) ∷ out;
    small = omega arith;
    spelled = digits_last fuel n ((48 + d) ∷ out) last;
  }
  | inr more ↦
      let l = digits_loop-Leads fuel (n / 10) (n % 10) ((48 + d) ∷ out) (omega arith) in
      record {
        digit = l.digit;
        rest = l.rest;
        small = l.small;
        spelled = digits_more fuel n ((48 + d) ∷ out) more ∙ l.spelled;
      }
]

decimal-Leads : (n : ℕ) → Leads (decimal n)
unfolding decimal
decimal-Leads n = elim (Bool-cases (ltb n 10)) [
  | inl last ↦ record {
    digit = n % 10;
    rest = [];
    small = omega arith;
    spelled = digits_last 19 n [] last;
  }
  | inr more ↦
      let l = digits_loop-Leads 19 (n / 10) (n % 10) [] (omega arith) in
      record {
        digit = l.digit;
        rest = l.rest;
        small = l.small;
        spelled = digits_more 19 n [] more ∙ l.spelled;
      }
]

read_number_lem : (s : Str) (l : Leads s) → read_number s ≡ read_digits s 0
unfolding read_number
read_number_lem s l = rw l.spelled refl

read_number-decimal : (n : ℕ) → n < 10 ^ 20 → read_number (decimal n) ≡ some n
read_number-decimal n h =
    read_number_lem (decimal n) (decimal-Leads n)
    ∙ unfold decimal in
      read_digits-digits_loop 19 n [] (omega (arith, h)) ∙ unfold read_digits in refl

bounded_lem : (bound n : ℕ) → n < bound → bounded bound (some n) ≡ some n
bounded_lem bound n h = ground (arith, h)

parse_u64_digit :
    (d : ℕ) (rest : Str) (n : ℕ)
    → d < 10
    → read_number ((48 + d) ∷ rest) ≡ some n
    → n < 2 ^ 64
    → parse_u64 ((48 + d) ∷ rest) ≡ some n
unfolding parse_u64
parse_u64_digit d rest n small e h =
    ap (bounded (2 ^ 64)) (if_false ((48 + d) == b'+') _ _ (ground (arith, small)) ∙ e)
    ∙ bounded_lem (2 ^ 64) n h

parse_u64_lem :
    (s : Str) (n : ℕ) → Leads s → read_number s ≡ some n → n < 2 ^ 64 → parse_u64 s ≡ some n
parse_u64_lem s n l e h =
    ap parse_u64 l.spelled
    ∙ parse_u64_digit l.digit l.rest n l.small (ap read_number (sym l.spelled) ∙ e) h

parse_i64_digit :
    (d : ℕ) (rest : Str) (n : ℕ)
    → d < 10
    → read_number ((48 + d) ∷ rest) ≡ some n
    → n < 2 ^ 63
    → parse_i64 ((48 + d) ∷ rest) ≡ some (pos n)
unfolding parse_i64
parse_i64_digit d rest n small e h =
    if_false ((48 + d) == b'-') _ _ (ground (arith, small))
    ∙ ap (λ x. signed (bounded (2 ^ 63) x))
        (if_false ((48 + d) == b'+') _ _ (ground (arith, small)) ∙ e)
    ∙ ap signed (bounded_lem (2 ^ 63) n h)

parse_i64_lem :
    (s : Str) (n : ℕ) → Leads s → read_number s ≡ some n → n < 2 ^ 63 → parse_i64 s ≡ some (pos n)
parse_i64_lem s n l e h =
    ap parse_i64 l.spelled
    ∙ parse_i64_digit l.digit l.rest n l.small (ap read_number (sym l.spelled) ∙ e) h

abbrev negative : Option ℕ → Option ℤ
negative found = elim found [ none ↦ none | some n ↦ some (negated n) ]

parse_i64_minus :
    (s : Str) (n : ℕ)
    → read_number s ≡ some (suc n)
    → n < 2 ^ 63
    → parse_i64 (b'-' ∷ s) ≡ some (negsuc n)
unfolding parse_i64
parse_i64_minus s n e h =
    ap (λ x. negative (bounded (2 ^ 63 + 1) x)) e
    ∙ ap negative (bounded_lem (2 ^ 63 + 1) (suc n) (omega (arith, h)))

-- Every `u64` is read back from its decimal form.
pub parse_u64-decimal : (n : ℕ) → n < 2 ^ 64 → parse_u64 (decimal n) ≡ some n
parse_u64-decimal n h =
    parse_u64_lem (decimal n) n (decimal-Leads n) (read_number-decimal n (omega (arith, h))) h

abbrev pub IsI64 : ℤ → Type 0
IsI64 (pos n) = n < 2 ^ 63
IsI64 (negsuc n) = n < 2 ^ 63

-- Every `i64` is read back from its decimal form.
pub parse_i64-decimal_ℤ : (z : ℤ) → IsI64 z → parse_i64 (decimal_ℤ z) ≡ some z
parse_i64-decimal_ℤ (pos n) h =
    unfold decimal_ℤ in
    parse_i64_lem (decimal n) n (decimal-Leads n) (read_number-decimal n (omega (arith, h))) h
parse_i64-decimal_ℤ (negsuc n) h =
    unfold decimal_ℤ in
    parse_i64_minus (decimal (suc n)) n (read_number-decimal (suc n) (omega (arith, h))) h

-- A character that is no digit does not stand in a number.
digits_loop-Lacks :
    (c fuel n : ℕ) (out : Str)
    → leb 48 c && leb c 57 ≡ false
    → Lacks c out
    → Lacks c (digits_loop fuel n out)
digits_loop-Lacks c zero n out h l = unfold digits_loop in l
digits_loop-Lacks c (suc fuel) n out h l =
    let l' : Lacks c ((48 + n % 10) ∷ out) = (ground (arith, h), l) in
    elim (Bool-cases (ltb n 10)) [
      | inl last ↦ rw (digits_last fuel n out last) l'
      | inr more ↦
          rw (digits_more fuel n out more)
            (digits_loop-Lacks c fuel (n / 10) ((48 + n % 10) ∷ out) h l')
    ]

pub decimal-Lacks : (c n : ℕ) → leb 48 c && leb c 57 ≡ false → Lacks c (decimal n)
unfolding decimal
decimal-Lacks c n h = digits_loop-Lacks c 20 n [] h tt

pub decimal_ℤ-Lacks :
    (c : ℕ) (z : ℤ) → leb 48 c && leb c 57 ≡ false → b'-' == c ≡ false → Lacks c (decimal_ℤ z)
decimal_ℤ-Lacks c (pos n) h k = unfold decimal_ℤ in decimal-Lacks c n h
decimal_ℤ-Lacks c (negsuc n) h k = unfold decimal_ℤ in (k, decimal-Lacks c (suc n) h)

digits_loop-last :
    (fuel n : ℕ) (out : Str)
    → (front : Str) × (digits_loop (suc fuel) n out ≡ front ++ (48 + n % 10) ∷ out)
digits_loop-last zero n out = elim (Bool-cases (ltb n 10)) [
  | inl last ↦ ([], digits_last zero n out last)
  | inr more ↦ ([], digits_more zero n out more ∙ unfold digits_loop in refl)
]
digits_loop-last (suc fuel) n out = elim (Bool-cases (ltb n 10)) [
  | inl last ↦ ([], digits_last (suc fuel) n out last)
  | inr more ↦
      let l = digits_loop-last fuel (n / 10) ((48 + n % 10) ∷ out) in
      (
        l.0 ++ (48 + n / 10 % 10) ∷ [],
        digits_more (suc fuel) n out more
            ∙ l.1
            ∙ sym (append_assoc (l.0) ((48 + n / 10 % 10) ∷ []) ((48 + n % 10) ∷ out)),
      )
]

-- The last character of a number is a digit.
pub decimal_ends :
    (n : ℕ) → (front : Str) × (d : ℕ) × (d < 10) × (decimal n ≡ front ++ (48 + d) ∷ [])
unfolding decimal
decimal_ends n = let l = digits_loop-last 19 n [] in (l.0, n % 10, omega arith, l.1)
