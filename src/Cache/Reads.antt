-- ===== src/Cache/Reads.antt =====
-- The invariant of the cache, and what can be read after a call.
use arch_db.Prelude.{
  ◌∙◌, ap, ◌≢◌, ltb, ltb→le, ltb→lt, List-cases, snoc-ne-nil, ◌+◌, ◌≤◌, ◌<◌, ◌≡◌, true, false, ◌||◌,
  Option, none, some, List, [], ◌∷◌, ◌++◌, arith, length, if◌then◌else◌, Bool-cases, Option-cases,
  inl, inr, ◌==◌, ◌≢◌,
}
use arch_db.Prelude.Dict.{
  lookup, has, insert, remove, IsDict, insert-IsDict, remove-IsDict, has-insert, has-remove,
  length-insert, length-remove, lookup-insert, lookup-remove, lookup_absent,
}
use mathlib.Core.List.{head?}
use arch_db.Cache.{
  CacheKey, CacheKey_eq, BlockCache, key_eq, key_eq_iff, retain_ne, get, put, evict,
}
use arch_db.Cache.Usage.{
  contains, IsDistinct, contains-retain_ne, contains-snoc, snoc-IsDistinct, retain_ne-IsDistinct,
  retain_ne_absent,
}

touched :
    (key : CacheKey) (ks : List CacheKey) (k : CacheKey)
    → contains k (retain_ne key ks ++ key ∷ []) ≡ (key_eq key k || contains k ks)
touched key ks k =
    ground (arith, contains-snoc k key (retain_ne key ks), contains-retain_ne key k ks)

touched-IsDistinct :
    (key : CacheKey) (ks : List CacheKey)
    → IsDistinct ks
    → IsDistinct (retain_ne key ks ++ key ∷ [])
touched-IsDistinct key ks d =
    snoc-IsDistinct (retain_ne key ks) key
      (ground (arith, contains-retain_ne key key ks, key_eq_iff key key))
      (retain_ne-IsDistinct key ks d)

module _ {V : Type 0} where
  -- The recency list holds exactly the keys of the map, none twice, and the map fits the capacity.
  pub record IsValid (c : BlockCache V) : Type 0 where
    pub bounded : length c.entries ≤ c.capacity
    pub keys : IsDict c.entries
    pub distinct : IsDistinct c.usage
    pub same : (k : CacheKey) → contains k c.usage ≡ has k c.entries

  lookup-has :
      (k : CacheKey) (c : BlockCache V) {v : V}
      → lookup k c.entries ≡ some v
      → has k c.entries ≡ true
  lookup-has k c h = ground (arith, lookup_absent k c.entries)

  -- `get` keeps the invariant.
  pub get-IsValid : (key : CacheKey) (c : BlockCache V) → IsValid c → IsValid (get key c).1
  unfolding get
  get-IsValid key c h = elim (Option-cases (lookup key c.entries)) [
    | inl miss ↦ rw (miss, get) h
    | inr (v, hit) ↦
        rw (hit, get)
          (record {
            bounded = h.bounded;
            keys = h.keys;
            distinct = touched-IsDistinct key c.usage h.distinct;
            same = λ k.
                ground
                  (arith, touched key c.usage k, h.same k, lookup-has key c hit, key_eq_iff key k);
          })
  ]

  -- What `insert` has before it makes room.
  record IsFilled (c : BlockCache V) : Type 0 where
    over : length c.entries ≤ c.capacity + 1
    keys : IsDict c.entries
    distinct : IsDistinct c.usage
    same : (k : CacheKey) → contains k c.usage ≡ has k c.entries
    some_use : c.usage ≢ []

  evict_oldest :
      (oldest : CacheKey) (later : List CacheKey) (c : BlockCache V)
      → c.usage ≡ oldest ∷ later
      → IsFilled c
      → c.capacity < length c.entries
      → IsValid (record c { entries = remove oldest c.entries; usage = later })
  unfolding contains
  evict_oldest oldest later c e h over = record {
    bounded =
        ground
          (arith, h.over, length-remove oldest c.entries, h.same oldest, key_eq_iff oldest oldest);
    keys = remove-IsDict oldest c.entries h.keys;
    distinct = ground (arith, h.distinct);
    same = λ k.
        ground
          (arith, h.same k, h.distinct, has-remove oldest k c.entries h.keys, key_eq_iff oldest k);
  }

  evict-IsValid : (c : BlockCache V) → IsFilled c → IsValid (evict c)
  unfolding evict
  evict-IsValid c h = elim (Bool-cases (ltb c.capacity (length c.entries))) [
    | inr fits ↦ rw fits (record {
      bounded = ltb→le c.capacity (length c.entries) fits;
      keys = h.keys;
      distinct = h.distinct;
      same = h.same;
    })
    | inl over ↦ elim (List-cases c.usage) [
      | inl e ↦ absurd (h.some_use e)
      | inr (oldest, later, e) ↦
          rw (over, e) (evict_oldest oldest later c e h (ltb→lt c.capacity (length c.entries) over))
    ]
  ]

  kept_lem :
      (key : CacheKey) (c : BlockCache V)
      → IsValid c
      → (if has key c.entries then retain_ne key c.usage else c.usage) ≡ retain_ne key c.usage
  kept_lem key c h = ground (arith, h.same key, retain_ne_absent key c.usage)

  -- The cache before `evict` in `insert`.
  abbrev filled : CacheKey → V → BlockCache V → BlockCache V
  filled key value c = record c {
    entries = insert key value c.entries;
    usage = retain_ne key c.usage ++ key ∷ [];
  }

  filled-IsFilled :
      (key : CacheKey) (value : V) (c : BlockCache V) → IsValid c → IsFilled (filled key value c)
  filled-IsFilled key value c h = record {
    over = ground (arith, length-insert key value c.entries, h.bounded);
    keys = insert-IsDict key value c.entries h.keys;
    distinct = touched-IsDistinct key c.usage h.distinct;
    same = λ k. ground (arith, touched key c.usage k, h.same k, has-insert key k value c.entries);
    some_use = snoc-ne-nil (retain_ne key c.usage) key;
  }

  put_lem :
      (key : CacheKey) (value : V) (c : BlockCache V)
      → IsValid c
      → put key value c ≡ evict (filled key value c)
  unfolding put
  put_lem key value c h =
      ap
        (λ (u : List CacheKey).
          evict (record c { entries = insert key value c.entries; usage = u ++ key ∷ [] }))
        (kept_lem key c h)

  -- `insert` keeps the invariant, also at capacity 0: the cache never exceeds its capacity.
  pub put-IsValid :
      (key : CacheKey) (value : V) (c : BlockCache V) → IsValid c → IsValid (put key value c)
  put-IsValid key value c h =
      rw (put_lem key value c h)
        (evict-IsValid (filled key value c) (filled-IsFilled key value c h))

  -- The entry that inserting `key` evicts: the least recently used one, if the key is new and the
  -- cache is full.
  unfoldable pub victim : CacheKey → BlockCache V → Option CacheKey
  victim key c =
      if has key c.entries
      then none
      else if length c.entries == c.capacity
      then head? c.usage
      else none

  abbrev pub without : Option CacheKey → CacheKey → Option V → Option V
  without none k found = found
  without (some o) k found = if key_eq o k then none else found

  used_nonempty : (c : BlockCache V) → IsValid c → 0 < length c.entries → c.usage ≢ []
  unfolding has contains
  used_nonempty c h long e = elim (List-cases c.entries) [
    | inl none_left ↦ absurd (ground arith)
    | inr ((k, v), rest, first) ↦ absurd (ground (arith, h.same k, key_eq_iff k k))
  ]

  victim_room :
      (key : CacheKey) (value : V) (c : BlockCache V)
      → IsValid c
      → ltb c.capacity (length (insert key value c.entries)) ≡ false
      → victim key c ≡ none
  unfolding victim
  victim_room key value c h room = ground (arith, length-insert key value c.entries)

  victim_full :
      (key oldest : CacheKey) (later : List CacheKey) (value : V) (c : BlockCache V)
      → IsValid c
      → ltb c.capacity (length (insert key value c.entries)) ≡ true
      → c.usage ≡ oldest ∷ later
      → (victim key c ≡ some oldest)
        × (key_eq key oldest ≡ false)
        × (retain_ne key c.usage ≡ oldest ∷ later)
  unfolding victim contains
  victim_full key oldest later value c h full e =
      let fresh : has key c.entries ≡ false = ground (arith, length-insert key value c.entries) in
      (
        rw (fresh, e) (ground (arith, length-insert key value c.entries)),
        ground (arith, h.same oldest, key_eq_iff key oldest, key_eq_iff oldest oldest),
        retain_ne_absent key c.usage (h.same key ∙ fresh) ∙ e,
      )

  -- After `insert` into a cache of positive capacity the key has the new value, the victim is gone,
  -- and every other key has the value that it had.
  pub lookup-put :
      (key k : CacheKey) (value : V) (c : BlockCache V)
      → IsValid c
      → 0 < c.capacity
      → lookup k (put key value c).entries
        ≡ (if key_eq key k then some value else without (victim key c) k (lookup k c.entries))
  unfolding evict
  lookup-put key k value c h positive =
      rw (put_lem key value c h)
        (elim (Bool-cases (ltb c.capacity (length (insert key value c.entries)))) [
          | inr room ↦
              rw (room, victim_room key value c h room) (lookup-insert key k value c.entries)
          | inl full ↦ elim (List-cases c.usage) [
            | inl e ↦
                absurd (used_nonempty c h (ground (arith, length-insert key value c.entries)) e)
            | inr (oldest, later, e) ↦
                let (gone, other, kept) = victim_full key oldest later value c h full e in
                rw (full, gone, kept)
                  (ground (
                    arith,
                    lookup-remove oldest k (insert key value c.entries)
                        (insert-IsDict key value c.entries h.keys),
                    lookup-insert key k value c.entries,
                    key_eq_iff key k,
                    key_eq_iff oldest k,
                    key_eq_iff key oldest,
                  ))
          ]
        ])
