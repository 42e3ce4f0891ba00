-- ===== src/Bloom.antt =====
-- bloom_filter.rs: the Bloom filter of a table. The two runs of `DefaultHasher` are parameters; the
-- sizing by floating point (`with_rate`) is not modelled.
pub mod Bits
pub mod Membership
pub mod Serde
use arch_db.Prelude.{
  ℕ, zero, suc, ◌+◌, ◌*◌, ◌%◌, ◌^◌, ◌<◌, Bool, true, false, not, Option, none, some, List, [], ◌∷◌,
  length, get_elem?, set, replicate, if◌then◌else◌, ◌==◌, Result, ok, panic, ◌>>=◌, unwrap,
}
use arch_db.Prelude.Bytes.{u64_mod}

pub record BloomFilter : Type 0 where
  pub bits : List Bool
  pub num_hashes : ℕ
  pub exact_num_bits : ℕ

unfoldable pub with_size : ℕ → ℕ → BloomFilter
with_size num_bits num_hashes = record {
  bits = replicate num_bits false;
  num_hashes = num_hashes;
  exact_num_bits = num_bits;
}

-- `bits.clear()` makes every bit false and keeps their number.
unfoldable pub clear : BloomFilter → BloomFilter
clear f = record f { bits = replicate (length f.bits) false; exact_num_bits = 0 }

-- `h % self.bits.len() as u64`, which panics on an empty filter
unfoldable pub index_of : ℕ → List Bool → Result ℕ
index_of h bits = if length bits == 0 then panic else ok (h % length bits)

-- The loop of `insert`; `contained` is its local variable.
unfoldable pub insert_loop : List ℕ → List Bool → Bool → Result (List Bool × Bool)
unfolding index_of
insert_loop [] bits contained = ok (bits, contained)
insert_loop (h ∷ hs) bits contained = do
  idx ← index_of h bits
  b ← unwrap (get_elem? bits idx)
  insert_loop hs (set bits idx true) (if not b then false else contained)

-- The loop of `contains`, which returns at the first bit that is not set.
unfoldable pub contains_loop : List ℕ → List Bool → Result Bool
unfolding index_of
contains_loop [] bits = ok true
contains_loop (h ∷ hs) bits = do
  idx ← index_of h bits
  b ← unwrap (get_elem? bits idx)
  elim b [ true ↦ contains_loop hs bits | false ↦ ok false ]

-- `DefaultHasher` on an item, and on the first hash followed by the item: two `u64`.
pub record Hasher (Item : Type 0) : Type 0 where
  pub hash1 : Item → ℕ
  pub hash2 : Item → ℕ
  pub hash1_lt : (x : Item) → hash1 x < u64_mod
  pub hash2_lt : (x : Item) → hash2 x < u64_mod

module _ {Item : Type 0} (hasher : Hasher Item) where
  -- `(from..from + count).map(|i| hash1.wrapping_add(i as u64).wrapping_mul(hash2))`
  unfoldable pub hashes_from : ℕ → ℕ → Item → List ℕ
  hashes_from from zero item = []
  hashes_from from (suc count) item =
      ((hasher.hash1 item + from) % u64_mod * hasher.hash2 item % u64_mod)
      ∷ hashes_from (from + 1) count item

  unfoldable pub compute_hashes : BloomFilter → Item → List ℕ
  unfolding hashes_from
  compute_hashes f item = hashes_from 0 f.num_hashes item

  unfoldable pub insert : Item → BloomFilter → Result (BloomFilter × Bool)
  unfolding insert_loop compute_hashes
  insert item f = do
    (bits, contained) ← insert_loop (compute_hashes f item) f.bits true
    ok (record f { bits = bits }, not contained)

  unfoldable pub contains : BloomFilter → Item → Result Bool
  unfolding contains_loop compute_hashes
  contains f item = contains_loop (compute_hashes f item) f.bits
