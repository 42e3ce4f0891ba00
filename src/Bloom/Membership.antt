-- ===== src/Bloom/Membership.antt =====
-- No false negatives, and what `insert` returns.
use arch_db.Prelude.{
  ◌∙◌, length-replicate, ℕ, ◌%◌, ◌<◌, ◌≡◌, refl, ap, Bool, true, false, not, List, [], ◌∷◌, length,
  set, arith, Result, ok, ◌>>=◌,
}
use arch_db.Bloom.{with_size, BloomFilter, Hasher, compute_hashes, insert, contains}
use arch_db.Bloom.Bits.{
  bit, bit-set, length-set, all_set, marked, length-marked, contains_loop_lem, insert_loop_lem,
}

bit-marked :
    (hs : List ℕ) (bits : List Bool) (j : ℕ)
    → 0 < length bits
    → bit bits j ≡ true
    → bit (marked hs bits) j ≡ true
unfolding marked
bit-marked [] bits j pos h = h
bit-marked (k ∷ hs) bits j pos h =
    bit-marked hs (set bits (k % length bits) true) j
      (omega (arith, length-set bits (k % length bits)))
      (ground (arith, bit-set bits (k % length bits) j))

all_set-marked :
    (hs : List ℕ) (bits : List Bool) → 0 < length bits → all_set hs (marked hs bits) ≡ true
unfolding marked all_set
all_set-marked [] bits pos = refl
all_set-marked (k ∷ hs) bits pos =
    let i = k % length bits in
    let bits' = set bits i true in
    let same = length-set bits i in
    rw (
      length-marked hs bits',
      same,
      bit-marked hs bits' i (omega (arith, same)) (ground (arith, bit-set bits i i)),
      all_set-marked hs bits' (omega (arith, same)),
    )

-- A filter that keeps every bit keeps every member.
all_set_mono :
    (ks hs : List ℕ) (bits : List Bool)
    → 0 < length bits
    → all_set ks bits ≡ true
    → all_set ks (marked hs bits) ≡ true
unfolding all_set
all_set_mono [] hs bits pos h = refl
all_set_mono (k ∷ ks) hs bits pos h =
    rw (length-marked hs bits)
      (ground (arith, bit-marked hs bits (k % length bits) pos, all_set_mono ks hs bits pos))

module _ {Item : Type 0} (hasher : Hasher Item) where
  pub contains_lem :
      (f : BloomFilter) (x : Item)
      → 0 < length f.bits
      → contains hasher f x ≡ ok (all_set (compute_hashes hasher f x) f.bits)
  unfolding contains
  contains_lem f x pos = contains_loop_lem (compute_hashes hasher f x) f.bits pos

  abbrev pub with_item : BloomFilter → Item → BloomFilter
  with_item f x = record f { bits = marked (compute_hashes hasher f x) f.bits }

  pub insert_lem :
      (f : BloomFilter) (x : Item)
      → 0 < length f.bits
      → insert hasher x f ≡ ok (with_item f x, not (all_set (compute_hashes hasher f x) f.bits))
  unfolding insert
  insert_lem f x pos = rw (insert_loop_lem (compute_hashes hasher f x) f.bits true pos)

  hashes-with_item :
      (f : BloomFilter) (x y : Item)
      → compute_hashes hasher (with_item f x) y ≡ compute_hashes hasher f y
  unfolding compute_hashes
  hashes-with_item f x y = refl

  positive-with_item :
      (f : BloomFilter) (x : Item) → 0 < length f.bits → 0 < length (with_item f x).bits
  positive-with_item f x pos = rw (length-marked (compute_hashes hasher f x) f.bits) pos

  contains-with_item_self :
      (f : BloomFilter) (x : Item) → 0 < length f.bits → contains hasher (with_item f x) x ≡ ok true
  contains-with_item_self f x pos =
      contains_lem (with_item f x) x (positive-with_item f x pos)
      ∙ rw hashes-with_item (ap ok (all_set-marked (compute_hashes hasher f x) f.bits pos))

  contains-with_item :
      (f : BloomFilter) (x y : Item)
      → 0 < length f.bits
      → contains hasher f y ≡ ok true
      → contains hasher (with_item f x) y ≡ ok true
  contains-with_item f x y pos h =
      contains_lem (with_item f x) y (positive-with_item f x pos)
      ∙ rw (hashes-with_item f x y) (
          ap ok (
            all_set_mono (compute_hashes hasher f y) (compute_hashes hasher f x) f.bits pos
              (cc (contains_lem f y pos))))

  -- On a filter that has bits neither `insert` nor `contains` panics, and `insert` returns true
  -- exactly when the filter did not report the item before.
  pub insert-result :
      (f : BloomFilter) (x : Item)
      → 0 < length f.bits
      → (b : Bool) × (f' : BloomFilter) × (contains hasher f x ≡ ok b)
        × (insert hasher x f ≡ ok (f', not b))
        × (contains hasher f' x ≡ ok true)
  insert-result f x pos =
      let hs = compute_hashes hasher f x in
      (
        all_set hs f.bits,
        with_item f x,
        contains_lem f x pos,
        insert_lem f x pos,
        contains-with_item_self f x pos,
      )

  unfoldable pub insert_all : List Item → BloomFilter → Result BloomFilter
  insert_all [] f = ok f
  insert_all (x ∷ xs) f = do (f', _) ← insert hasher x f; insert_all xs f'

  abbrev pub Reports : BloomFilter → List Item → Type 0
  Reports f [] = Unit {0}
  Reports f (x ∷ xs) = (contains hasher f x ≡ ok true) × Reports f xs

  Reports-with_item :
      (f : BloomFilter) (x : Item) (ys : List Item)
      → 0 < length f.bits
      → Reports f ys
      → Reports (with_item f x) ys
  Reports-with_item f x [] pos h = tt
  Reports-with_item f x (y ∷ ys) pos h =
      (contains-with_item f x y pos h.0, Reports-with_item f x ys pos h.1)

  abbrev pub with_items : BloomFilter → List Item → BloomFilter
  with_items f [] = f
  with_items f (x ∷ xs) = with_items (with_item f x) xs

  pub insert_all_lem :
      (xs : List Item) (f : BloomFilter)
      → 0 < length f.bits
      → insert_all xs f ≡ ok (with_items f xs)
  unfolding insert_all
  insert_all_lem [] f pos = refl
  insert_all_lem (x ∷ xs) f pos =
      rw (insert_lem f x pos) (insert_all_lem xs (with_item f x) (positive-with_item f x pos))

  keeps :
      (xs : List Item) (f : BloomFilter) (y : Item)
      → 0 < length f.bits
      → contains hasher f y ≡ ok true
      → contains hasher (with_items f xs) y ≡ ok true
  keeps [] f y pos h = h
  keeps (x ∷ xs) f y pos h =
      keeps xs (with_item f x) y (positive-with_item f x pos) (contains-with_item f x y pos h)

  pub Reports-with_items :
      (xs : List Item) (f : BloomFilter) → 0 < length f.bits → Reports (with_items f xs) xs
  Reports-with_items [] f pos = tt
  Reports-with_items (x ∷ xs) f pos = (
    keeps xs (with_item f x) x (positive-with_item f x pos) (contains-with_item_self f x pos),
    Reports-with_items xs (with_item f x) (positive-with_item f x pos),
  )

  pub positive-with_items :
      (xs : List Item) (f : BloomFilter) → 0 < length f.bits → 0 < length (with_items f xs).bits
  positive-with_items [] f pos = pos
  positive-with_items (x ∷ xs) f pos =
      positive-with_items xs (with_item f x) (positive-with_item f x pos)

  -- A filter of positive size into which any items are inserted, one after another, answers without
  -- a panic and reports every one of them: there are no false negatives.
  pub contains-insert_all :
      (num_bits num_hashes : ℕ) (xs : List Item)
      → 0 < num_bits
      → (f : BloomFilter) × (insert_all xs (with_size num_bits num_hashes) ≡ ok f) × Reports f xs
  contains-insert_all num_bits num_hashes xs pos =
      let f = with_size num_bits num_hashes in
      let some_bits : 0 < length f.bits =
        unfold with_size in omega (arith, length-replicate num_bits false) in
      (with_items f xs, insert_all_lem xs f some_bits, Reports-with_items xs f some_bits)
