-- ===== src/Engine/Ops/Cached.antt =====
-- The block cache in a search: it holds blocks of the disk, so that what it gives is what is read.
use arch_db.Prelude.{
  ◌>>=◌, subst, ℕ, ◌≡◌, refl, Option, none, some, List, [], ◌∷◌, ◌++◌, Result, ok, err, panic, ap,
  sym, ◌∙◌, length, inl, inr, Bool-cases, ltb, if_true, if_false,
}
use arch_db.Prelude.Str.{Str}
use arch_db.Prelude.Dict
use arch_db.Prelude.Dict.{Dict}
use arch_db.Value.{Value, BlockRecord, find}
use arch_db.Cache
use arch_db.Cache.{retain_ne, BlockCache, CacheKey, CacheKey_eq, key_eq, key_eq_iff, evict}
use arch_db.Sstable.Formats.{Formats, Disk}
use arch_db.Sstable.Index.{SstableIndex, BlockMeta, find_block}
use arch_db.Sstable.Reader.{read_block, search_sstable}
use arch_db.Sstable.Lookup.{entry}
use arch_db.Sstable.Index.Search.{Ordered}
use arch_db.Sstable.BinarySearch.{binary_search_block, binary_search_block-Ordered}
use arch_db.Engine.Ops.{search_block, search_one}

ok_injective : (a b : List BlockRecord) → Path (Result (List BlockRecord)) (ok a) (ok b) → a ≡ b
ok_injective a b e = cc

entry_injective :
    (key : Str) (a b : Option Value)
    → Path (Result (Option (Str × Value))) (ok (entry key a)) (ok (entry key b))
    → a ≡ b
entry_injective key none none e = refl
entry_injective key none (some v) e = cc
entry_injective key (some v) none e = cc
entry_injective key (some v) (some w) e = cc

module _ (env : Formats) where
  -- Every block that is kept is the block on the disk.
  abbrev pub IsFaithful : Disk → Dict CacheKey (List BlockRecord) → Type 0
  IsFaithful disk [] = Unit {0}
  IsFaithful disk ((k, rs) ∷ m) = (read_block env disk k.path k.offset ≡ ok rs) × IsFaithful disk m

  lookup-IsFaithful :
      (disk : Disk) (k : CacheKey) (m : Dict CacheKey (List BlockRecord)) (rs : List BlockRecord)
      → IsFaithful disk m
      → Dict.lookup k m ≡ some rs
      → read_block env disk k.path k.offset ≡ ok rs
  unfolding Dict.lookup
  lookup-IsFaithful disk k [] rs h e = cc
  lookup-IsFaithful disk k ((j, v) ∷ m) rs h e = elim (Bool-cases (key_eq j k)) [
    | inl same ↦
        let here : some v ≡ some rs =
          sym (if_true (key_eq j k) (some v) (Dict.lookup k m) same) ∙ e in
        subst (λ i. read_block env disk i.path i.offset ≡ ok rs) ((key_eq_iff j k).0 same)
          (h.0 ∙ cc)
    | inr other ↦
        lookup-IsFaithful disk k m rs h.1
          (sym (if_false (key_eq j k) (some v) (Dict.lookup k m) other) ∙ e)
  ]

  insert-IsFaithful :
      (disk : Disk) (k : CacheKey) (rs : List BlockRecord) (m : Dict CacheKey (List BlockRecord))
      → IsFaithful disk m
      → read_block env disk k.path k.offset ≡ ok rs
      → IsFaithful disk (Dict.insert k rs m)
  unfolding Dict.insert
  insert-IsFaithful disk k rs [] h e = (e, tt)
  insert-IsFaithful disk k rs ((j, v) ∷ m) h e = elim (Bool-cases (key_eq j k)) [
    | inl same ↦ rw same (e, h.1)
    | inr other ↦ rw other (h.0, insert-IsFaithful disk k rs m h.1 e)
  ]

  remove-IsFaithful :
      (disk : Disk) (k : CacheKey) (m : Dict CacheKey (List BlockRecord))
      → IsFaithful disk m
      → IsFaithful disk (Dict.remove k m)
  unfolding Dict.remove
  remove-IsFaithful disk k [] h = tt
  remove-IsFaithful disk k ((j, v) ∷ m) h = elim (Bool-cases (key_eq j k)) [
    | inl same ↦ rw same h.1
    | inr other ↦ rw other (h.0, remove-IsFaithful disk k m h.1)
  ]

  abbrev oldest_removed :
      List CacheKey → BlockCache (List BlockRecord) → BlockCache (List BlockRecord)
  oldest_removed usage c = elim usage [
    | [] ↦ c
    | oldest ∷ later ↦ record c { entries = Dict.remove oldest c.entries; usage = later }
  ]

  oldest_removed-IsFaithful :
      (disk : Disk) (usage : List CacheKey) (c : BlockCache (List BlockRecord))
      → IsFaithful disk c.entries
      → IsFaithful disk (oldest_removed usage c).entries
  oldest_removed-IsFaithful disk [] c h = h
  oldest_removed-IsFaithful disk (oldest ∷ later) c h = remove-IsFaithful disk oldest c.entries h

  evict-IsFaithful :
      (disk : Disk) (c : BlockCache (List BlockRecord))
      → IsFaithful disk c.entries
      → IsFaithful disk (evict c).entries
  unfolding evict
  evict-IsFaithful disk c h = elim (Bool-cases (ltb c.capacity (length c.entries))) [
    | inl over ↦ rw over (oldest_removed-IsFaithful disk c.usage c h)
    | inr fits ↦ rw fits h
  ]

  -- A block that was read is kept.
  put-IsFaithful :
      (disk : Disk) (k : CacheKey) (rs : List BlockRecord) (c : BlockCache (List BlockRecord))
      → IsFaithful disk c.entries
      → read_block env disk k.path k.offset ≡ ok rs
      → IsFaithful disk (Cache.put k rs c).entries
  unfolding Cache.put
  put-IsFaithful disk k rs c h e =
      evict-IsFaithful disk _ (insert-IsFaithful disk k rs c.entries h e)

  -- A search leaves the answer, and a cache of blocks on the disk.
  abbrev pub Leaves :
      Disk → Option Value → Result (Option Value × BlockCache (List BlockRecord)) → Type 0
  Leaves disk found result =
      (cache : BlockCache (List BlockRecord)) × (result ≡ ok (found, cache))
      × IsFaithful disk cache.entries

  abbrev got :
      CacheKey
      → BlockCache (List BlockRecord)
      → Option (List BlockRecord)
      → Option (List BlockRecord) × BlockCache (List BlockRecord)
  got k c found = elim found [
    | some value ↦ (some value, record c { usage = retain_ne k c.usage ++ k ∷ [] })
    | none ↦ (none, c)
  ]

  abbrev read_back :
      CacheKey
      → Str
      → BlockCache (List BlockRecord)
      → Result (List BlockRecord)
      → Result (Option Value × BlockCache (List BlockRecord))
  read_back k key c read = elim read [
    | panic ↦ panic
    | err why ↦ ok (none, c)
    | ok records ↦ ok (binary_search_block records key, Cache.put k records c)
  ]

  abbrev block_found :
      Disk
      → CacheKey
      → Str
      → Option (List BlockRecord) × BlockCache (List BlockRecord)
      → Result (Option Value × BlockCache (List BlockRecord))
  block_found disk k key cached = elim cached.0 [
    | some records ↦ ok (binary_search_block records key, cached.1)
    | none ↦ read_back k key cached.1 (read_block env disk k.path k.offset)
  ]

  search_block_step :
      (disk : Disk) (path : Str) (offset : ℕ) (key : Str) (c : BlockCache (List BlockRecord))
      (found : Option (List BlockRecord))
      → Dict.lookup (record { path = path; offset = offset }) c.entries ≡ found
      → search_block env path offset disk key c
        ≡ block_found disk
            (record { path = path; offset = offset })
            key
            (got (record { path = path; offset = offset }) c found)
  unfolding search_block Cache.get
  search_block_step disk path offset key c found e =
      let k : CacheKey = record { path = path; offset = offset } in
      ap (λ f. block_found disk k key (got k c f)) e

  search_block_at :
      (disk : Disk) (path : Str) (offset : ℕ) (key : Str) (c : BlockCache (List BlockRecord))
      (rs : List BlockRecord) (found : Option (List BlockRecord))
      → IsFaithful disk c.entries
      → Ordered rs
      → read_block env disk path offset ≡ ok rs
      → Dict.lookup (record { path = path; offset = offset }) c.entries ≡ found
      → Leaves disk (find key rs) (search_block env path offset disk key c)
  search_block_at disk path offset key c rs (some kept) h o e l =
      let k : CacheKey = record { path = path; offset = offset } in
      let same : kept ≡ rs =
        ok_injective kept rs (sym (lookup-IsFaithful disk k c.entries kept h l) ∙ e) in
      let c' : BlockCache (List BlockRecord) = record c { usage = retain_ne k c.usage ++ k ∷ [] } in
      (
        c',
        search_block_step disk path offset key c (some kept) l
            ∙ ap (λ r. ok (binary_search_block r key, c')) same
            ∙ ap (λ v. ok (v, c')) (binary_search_block-Ordered rs key o),
        h,
      )
  search_block_at disk path offset key c rs none h o e l =
      let k : CacheKey = record { path = path; offset = offset } in
      (
        Cache.put k rs c,
        search_block_step disk path offset key c none l
            ∙ ap (read_back k key c) e
            ∙ ap (λ v. ok (v, Cache.put k rs c)) (binary_search_block-Ordered rs key o),
        put-IsFaithful disk k rs c h e,
      )

  abbrev one_found :
      Disk
      → Str
      → Str
      → BlockCache (List BlockRecord)
      → Option BlockMeta
      → Result (Option Value × BlockCache (List BlockRecord))
  one_found disk path key c found = elim found [
    | none ↦ ok (none, c)
    | some block ↦ search_block env path block.offset disk key c
  ]

  abbrev table_found : Disk → Str → Str → Option BlockMeta → Result (Option (Str × Value))
  table_found disk path key found = elim found [
    | none ↦ ok none
    | some m ↦ (read_block env disk path m.offset >>= λ g. ok (entry key (find key g)))
  ]

  search_one_in :
      (disk : Disk) (path key : Str) (c : BlockCache (List BlockRecord)) (m : BlockMeta)
      (f : Option Value) (read : Result (List BlockRecord))
      → IsFaithful disk c.entries
      → ((rs : List BlockRecord) → read_block env disk path m.offset ≡ ok rs → Ordered rs)
      → read_block env disk path m.offset ≡ read
      → (read >>= λ g. ok (entry key (find key g))) ≡ ok (entry key f)
      → Leaves disk f (search_block env path m.offset disk key c)
  search_one_in disk path key c m f panic h o e s = cc
  search_one_in disk path key c m f (err why) h o e s = cc
  search_one_in disk path key c m f (ok rs) h o e s =
      subst (λ v. Leaves disk v (search_block env path m.offset disk key c))
        (entry_injective key (find key rs) f s)
        (search_block_at disk path m.offset key c rs _ h (o rs e) e refl)

  pub search_one_at :
      (disk : Disk) (path : Str) (index : SstableIndex) (key : Str)
      (c : BlockCache (List BlockRecord)) (f : Option Value) (found : Option BlockMeta)
      → IsFaithful disk c.entries
      → ((m : BlockMeta) (rs : List BlockRecord)
          → find_block index key ≡ some m
          → read_block env disk path m.offset ≡ ok rs
          → Ordered rs)
      → find_block index key ≡ found
      → search_sstable env disk path index key ≡ ok (entry key f)
      → Leaves disk f (search_one env disk path index key c)
  unfolding search_one search_sstable
  search_one_at disk path index key c f none h o b s =
      let nothing = entry_injective key none f (sym (ap (table_found disk path key) b) ∙ s) in
      (c, ap (one_found disk path key c) b ∙ ap (λ v. ok (v, c)) nothing, h)
  search_one_at disk path index key c f (some m) h o b s =
      let found =
        search_one_in disk path key c m f (read_block env disk path m.offset) h (λ rs. o m rs b)
          refl (sym (ap (table_found disk path key) b) ∙ s) in
      (found.0, ap (one_found disk path key c) b ∙ found.1, found.2)
