-- ===== src/Bloom/Bits.antt =====
-- What the loops of the Bloom filter read and write, bit by bit.
use arch_db.Prelude.{
  ℕ, zero, suc, ◌%◌, ◌<◌, ◌≡◌, refl, Bool, true, false, not, ◌&&◌, ◌||◌, some, List, [], ◌∷◌,
  length, get_elem?, set, arith, if◌then◌else◌, ◌==◌, ok,
}
use arch_db.Bloom.{insert_loop, contains_loop}

abbrev pub bit : List Bool → ℕ → Bool
bit [] i = false
bit (b ∷ bs) zero = b
bit (b ∷ bs) (suc i) = bit bs i

get-bit : (bits : List Bool) (i : ℕ) → i < length bits → get_elem? bits i ≡ some (bit bits i)
get-bit [] i h = absurd (omega arith)
get-bit (b ∷ bs) zero h = refl
get-bit (b ∷ bs) (suc i) h = get-bit bs i (omega arith)

pub length-set : (bits : List Bool) (i : ℕ) → length (set bits i true) ≡ length bits
length-set [] i = refl
length-set (b ∷ bs) zero = refl
length-set (b ∷ bs) (suc i) = omega (arith, length-set bs i)

pub bit-set :
    (bits : List Bool) (i j : ℕ)
    → i < length bits
    → bit (set bits i true) j ≡ ((i == j) || bit bits j)
bit-set [] i j h = absurd (omega arith)
bit-set (b ∷ bs) zero zero h = refl
bit-set (b ∷ bs) zero (suc j) h = ground arith
bit-set (b ∷ bs) (suc i) zero h = ground arith
bit-set (b ∷ bs) (suc i) (suc j) h = ground (arith, bit-set bs i j)

-- The bits that an item's hashes select are all set.
unfoldable pub all_set : List ℕ → List Bool → Bool
all_set [] bits = true
all_set (h ∷ hs) bits = bit bits (h % length bits) && all_set hs bits

-- The filter after the bits of the hashes are set.
unfoldable pub marked : List ℕ → List Bool → List Bool
marked [] bits = bits
marked (h ∷ hs) bits = marked hs (set bits (h % length bits) true)

pub length-marked : (hs : List ℕ) (bits : List Bool) → length (marked hs bits) ≡ length bits
unfolding marked
length-marked [] bits = refl
length-marked (h ∷ hs) bits =
    omega
      (arith, length-marked hs (set bits (h % length bits) true), length-set bits (h % length bits))

pub contains_loop_lem :
    (hs : List ℕ) (bits : List Bool)
    → 0 < length bits
    → contains_loop hs bits ≡ ok (all_set hs bits)
unfolding contains_loop all_set
contains_loop_lem [] bits h = refl
contains_loop_lem (k ∷ hs) bits h =
    ground (arith, get-bit bits (k % length bits), contains_loop_lem hs bits)

-- Setting a bit that is set changes no bit.
all_set_same :
    (hs : List ℕ) (bits : List Bool) (i : ℕ)
    → i < length bits
    → bit bits i ≡ true
    → all_set hs (set bits i true) ≡ all_set hs bits
unfolding all_set
all_set_same [] bits i h e = refl
all_set_same (k ∷ hs) bits i h e =
    rw (length-set bits i, all_set_same hs bits i h e)
      (ground (arith, bit-set bits i (k % length bits)))

pub insert_loop_lem :
    (hs : List ℕ) (bits : List Bool) (contained : Bool)
    → 0 < length bits
    → insert_loop hs bits contained ≡ ok (marked hs bits, contained && all_set hs bits)
unfolding insert_loop marked all_set
insert_loop_lem [] bits contained h = ground arith
insert_loop_lem (k ∷ hs) bits contained h = ground (
  arith,
  get-bit bits (k % length bits),
  length-set bits (k % length bits),
  insert_loop_lem hs (set bits (k % length bits) true)
      (if not (bit bits (k % length bits)) then false else contained),
  all_set_same hs bits (k % length bits),
)
