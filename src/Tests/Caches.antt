-- ===== src/Tests/Caches.antt =====
-- The block cache and the Bloom filter.
use arch_db.Prelude.{ℕ, ◌%◌, ◌≡◌, refl, Bool, not, none, [], ◌∷◌, arith, ok}
use arch_db.Prelude.Str.{codes, str_eq}
use arch_db.Prelude.Bytes.{u64_mod}
use arch_db.Prelude.Dict.{lookup, has}
use arch_db.Cache.{CacheKey, CacheKey_eq, BlockCache, key_eq, get, put}
use arch_db.Cache.Usage.{contains}
use arch_db.Cache.Reads.{IsValid, get-IsValid, put-IsValid, lookup-put}
use arch_db.Bloom.{BloomFilter, Hasher, with_size, insert}
use arch_db.Bloom
use arch_db.Bloom.Membership.{insert-result, insert_all, Reports, contains-insert_all}

abbrev first_block : CacheKey
first_block = record { path = codes "a.db"; offset = 0 }

abbrev next_block : CacheKey
next_block = record { path = codes "a.db"; offset = 4096 }

-- A full cache of one block.
abbrev full_cache : BlockCache ℕ
full_cache = record { capacity = 1; entries = (first_block, 5) ∷ []; usage = first_block ∷ [] }

full_cache-IsValid : IsValid full_cache
unfolding has contains
full_cache-IsValid = record {
  bounded = omega arith;
  keys = (refl, tt);
  distinct = (refl, tt);
  same = λ k. refl;
}

put-IsValid_example : IsValid (put next_block 6 full_cache)
put-IsValid_example = put-IsValid next_block 6 full_cache full_cache-IsValid

lookup-put_example : lookup first_block (put next_block 6 full_cache).entries ≡ none
unfolding arch_db.Cache.Reads.victim has lookup str_eq
lookup-put_example = lookup-put next_block first_block 6 full_cache full_cache-IsValid (omega arith)

abbrev hasher : Hasher ℕ
hasher = record {
  hash1 = λ x. x % u64_mod;
  hash2 = λ x. x % 1000;
  hash1_lt = λ x. omega arith;
  hash2_lt = λ x. omega arith;
}

abbrev small_filter : BloomFilter
small_filter = record {
  bits = Bool.false ∷ Bool.true ∷ Bool.false ∷ [];
  num_hashes = 2;
  exact_num_bits = 3;
}

insert-result_example :
    (b : Bool) × (f' : BloomFilter) × (Bloom.contains hasher small_filter 11 ≡ ok b)
    × (insert hasher 11 small_filter ≡ ok (f', not b))
    × (Bloom.contains hasher f' 11 ≡ ok Bool.true)
insert-result_example = insert-result hasher small_filter 11 (omega arith)

contains-insert_all_example :
    (f : BloomFilter) × (insert_all hasher (3 ∷ 11 ∷ []) (with_size 16 3) ≡ ok f)
    × Reports hasher f (3 ∷ 11 ∷ [])
contains-insert_all_example = contains-insert_all hasher 16 3 (3 ∷ 11 ∷ []) (omega arith)
