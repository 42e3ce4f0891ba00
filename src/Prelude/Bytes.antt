-- ===== src/Prelude/Bytes.antt =====
-- Fixed-width integers as bytes (`to_be_bytes`, `from_be_bytes`, `to_le_bytes`, `from_le_bytes`), and
-- reads of a byte slice, which panic out of range.
use arch_db.Prelude.{
  ℕ, ◌+◌, ◌-◌, ◌*◌, ◌/◌, ◌%◌, ◌^◌, ◌<◌, ◌≡◌, List, [], ◌∷◌, ◌++◌, arith, leb, length, take, drop,
  get_elem?, take-append, drop-append, length-append, if◌then◌else◌, Result, ok, panic, ◌>>=◌,
  unwrap, ◌&&◌,
}

abbrev pub u32_mod : ℕ
u32_mod = 2 ^ 32

abbrev pub u64_mod : ℕ
u64_mod = 2 ^ 64

-- `(n as u32).to_be_bytes()`
abbrev pub be32 : ℕ → List ℕ
be32 n = (n / 2 ^ 24 % 256) ∷ (n / 2 ^ 16 % 256) ∷ (n / 2 ^ 8 % 256) ∷ (n % 256) ∷ []

abbrev pub from_be32 : ℕ → ℕ → ℕ → ℕ → ℕ
from_be32 a b c d = a * 2 ^ 24 + b * 2 ^ 16 + c * 2 ^ 8 + d

pub from_be32-be32 :
    (n : ℕ)
    → n < u32_mod
    → from_be32 (n / 2 ^ 24 % 256) (n / 2 ^ 16 % 256) (n / 2 ^ 8 % 256) (n % 256) ≡ n
from_be32-be32 n h = omega arith

pub from_be32-lt :
    (a b c d : ℕ) → a < 256 → b < 256 → c < 256 → d < 256 → from_be32 a b c d < u32_mod
from_be32-lt a b c d ha hb hc hd = omega arith

module _ (a b c d : ℕ) (ha : a < 256) (hb : b < 256) (hc : c < 256) (hd : d < 256) where
  byte_3 : from_be32 a b c d / 2 ^ 24 % 256 ≡ a
  byte_3 = omega arith

  byte_2 : from_be32 a b c d / 2 ^ 16 % 256 ≡ b
  byte_2 = omega arith

  byte_1 : from_be32 a b c d / 2 ^ 8 % 256 ≡ c
  byte_1 = omega arith

  byte_0 : from_be32 a b c d % 256 ≡ d
  byte_0 = omega arith

-- The four bytes of a number that was read from four bytes.
pub record IsWord (a b c d : ℕ) : Type 0 where
  pub byte_a : a < 256
  pub byte_b : b < 256
  pub byte_c : c < 256
  pub byte_d : d < 256

pub word_bytes :
    (a b c d : ℕ) {n : ℕ}
    → IsWord a b c d
    → n ≡ from_be32 a b c d
    → (n / 2 ^ 24 % 256 ≡ a) × (n / 2 ^ 16 % 256 ≡ b) × (n / 2 ^ 8 % 256 ≡ c) × (n % 256 ≡ d)
word_bytes a b c d w e = rw e (
  byte_3 a b c d w.byte_a w.byte_b w.byte_c w.byte_d,
  byte_2 a b c d w.byte_a w.byte_b w.byte_c w.byte_d,
  byte_1 a b c d w.byte_a w.byte_b w.byte_c w.byte_d,
  byte_0 a b c d w.byte_a w.byte_b w.byte_c w.byte_d,
)

pub word-lt : (a b c d : ℕ) → IsWord a b c d → from_be32 a b c d < u32_mod
word-lt a b c d w = from_be32-lt a b c d w.byte_a w.byte_b w.byte_c w.byte_d

-- every element is a byte
abbrev pub IsBytes : List ℕ → Type 0
IsBytes [] = Unit {0}
IsBytes (b ∷ s) = (b < 256) × IsBytes s

-- `bytes[i]`
abbrev pub byte_at : List ℕ → ℕ → Result ℕ
byte_at bytes i = unwrap (get_elem? bytes i)

-- `u32::from_be_bytes([bytes[i], bytes[i + 1], bytes[i + 2], bytes[i + 3]])`
abbrev pub read_be32 : List ℕ → ℕ → Result ℕ
read_be32 bytes i = do
  a ← byte_at bytes i
  b ← byte_at bytes (i + 1)
  c ← byte_at bytes (i + 2)
  d ← byte_at bytes (i + 3)
  ok (from_be32 a b c d)

-- `&bytes[start..end]`
unfoldable pub slice : List ℕ → ℕ → ℕ → Result (List ℕ)
slice bytes start end =
    if leb start end && leb end (length bytes)
    then ok (take (end - start) (drop start bytes))
    else panic

pub slice-append :
    (xs ys zs : List ℕ) → slice (xs ++ (ys ++ zs)) (length xs) (length xs + length ys) ≡ ok ys
unfolding slice
slice-append xs ys zs = ground (
  arith,
  length-append xs (ys ++ zs),
  length-append ys zs,
  drop-append xs (ys ++ zs),
  take-append ys zs,
)

pub read_be32-be32 : (n : ℕ) (rest : List ℕ) → n < u32_mod → read_be32 (be32 n ++ rest) 0 ≡ ok n
read_be32-be32 n rest h = rw (from_be32-be32 n h)

-- `n.to_be_bytes()` of a `u64`
abbrev pub be64 : ℕ → List ℕ
be64 n = be32 (n / 2 ^ 32) ++ be32 n

-- `u64::from_be_bytes` of the eight bytes at `i`
abbrev pub read_be64 : List ℕ → ℕ → Result ℕ
read_be64 bytes i = do
  high ← read_be32 bytes i
  low ← read_be32 bytes (i + 4)
  ok (high * 2 ^ 32 + low)

be64_halves :
    (n : ℕ)
    → n < u64_mod
    → from_be32
            (n / 2 ^ 32 / 2 ^ 24 % 256)
            (n / 2 ^ 32 / 2 ^ 16 % 256)
            (n / 2 ^ 32 / 2 ^ 8 % 256)
            (n / 2 ^ 32 % 256)
          * 2 ^ 32
        + from_be32 (n / 2 ^ 24 % 256) (n / 2 ^ 16 % 256) (n / 2 ^ 8 % 256) (n % 256)
      ≡ n
be64_halves n h = omega arith

pub read_be64-be64 : (n : ℕ) (rest : List ℕ) → n < u64_mod → read_be64 (be64 n ++ rest) 0 ≡ ok n
read_be64-be64 n rest h = rw (be64_halves n h)

-- `n.to_le_bytes()` of a `u64`
abbrev pub le64 : ℕ → List ℕ
le64 n =
    (n % 256)
    ∷ (n / 2 ^ 8 % 256)
    ∷ (n / 2 ^ 16 % 256)
    ∷ (n / 2 ^ 24 % 256)
    ∷ (n / 2 ^ 32 % 256)
    ∷ (n / 2 ^ 40 % 256)
    ∷ (n / 2 ^ 48 % 256)
    ∷ (n / 2 ^ 56 % 256)
    ∷ []

-- `u64::from_le_bytes(bytes[i..i + 8])`
abbrev pub read_le64 : List ℕ → ℕ → Result ℕ
read_le64 bytes i = do
  a ← byte_at bytes i
  b ← byte_at bytes (i + 1)
  c ← byte_at bytes (i + 2)
  d ← byte_at bytes (i + 3)
  e ← byte_at bytes (i + 4)
  f ← byte_at bytes (i + 5)
  g ← byte_at bytes (i + 6)
  h ← byte_at bytes (i + 7)
  ok (a + b * 2 ^ 8 + c * 2 ^ 16 + d * 2 ^ 24 + e * 2 ^ 32 + f * 2 ^ 40 + g * 2 ^ 48 + h * 2 ^ 56)

pub le64_sum :
    (n : ℕ)
    → n < u64_mod
    → n % 256
        + n / 2 ^ 8 % 256 * 2 ^ 8
        + n / 2 ^ 16 % 256 * 2 ^ 16
        + n / 2 ^ 24 % 256 * 2 ^ 24
        + n / 2 ^ 32 % 256 * 2 ^ 32
        + n / 2 ^ 40 % 256 * 2 ^ 40
        + n / 2 ^ 48 % 256 * 2 ^ 48
        + n / 2 ^ 56 % 256 * 2 ^ 56
      ≡ n
le64_sum n h = omega arith

pub read_le64-le64 : (n : ℕ) (rest : List ℕ) → n < u64_mod → read_le64 (le64 n ++ rest) 0 ≡ ok n
read_le64-le64 n rest h = rw (le64_sum n h)

pub slice_of :
    (s xs ys zs : List ℕ) (a b : ℕ)
    → s ≡ xs ++ (ys ++ zs)
    → a ≡ length xs
    → b ≡ length xs + length ys
    → slice s a b ≡ ok ys
slice_of s xs ys zs a b p q r = rw (p, q, r) (slice-append xs ys zs)

pub drop_of : (s xs ys : List ℕ) (n : ℕ) → s ≡ xs ++ ys → n ≡ length xs → drop n s ≡ ys
drop_of s xs ys n p q = rw (p, q) (drop-append xs ys)
