-- ===== src/Prelude/Outcome.antt =====
-- `error.rs`, and the three ways in which a call of the program ends: with a value, with an `Err`,
-- or with a panic (an index out of range, a failed `unwrap`, `panic!`, `unreachable!`).

use mathlib.Core.List.{List}
use mathlib.Core.Option.{Option, none, some}
use Prim.Native.Nat.{ℕ}

-- The kinds of `std::io::Error` that the program makes or tells apart.
pub data IoKind : Type 0 where
  not_found already_exists invalid_data unexpected_eof : IoKind

pub data DatabaseError : Type 0 where
  io : IoKind → DatabaseError
  other : List ℕ → DatabaseError

pub data Result {ℓ} (T : Type ℓ) : Type ℓ where
  panic : Result T
  err : DatabaseError → Result T
  ok : T → Result T

infixl 5 ◌>>=◌
-- The steps of a `do` block, where `?` passes an `Err` on.
abbrev pub ◌>>=◌ {ℓ κ} : {T : Type ℓ} {U : Type κ} → Result T → (T → Result U) → Result U
panic >>= next = panic
err why >>= next = err why
ok t >>= next = next t

infixl 5 ◌>>◌
abbrev pub ◌>>◌ {ℓ κ} : {T : Type ℓ} {U : Type κ} → Result T → Result U → Result U
first >> second = first >>= λ done. second

-- `.unwrap()` and `.expect(…)` of an option
abbrev pub unwrap {ℓ} : {T : Type ℓ} → Option T → Result T
unwrap none = panic
unwrap (some t) = ok t
