-- ===== src/Engine/Ops/Search.antt =====
-- `get_key` of the engine: the memtable, then the newest table that holds the key; the key ranges, the Bloom
-- filters and the block cache change nothing of the answer.
use arch_db.Prelude.{
  ◌>>=◌, ◌≡◌, refl, Option, none, some, List, [], ◌∷◌, ◌++◌, Result, ok, ap, sym, ◌∙◌, append_assoc,
}
use mathlib.Core.List.{reverse}
use arch_db.Prelude.Str.{Str}
use arch_db.Prelude.TreeMap.{lookup}
use arch_db.Value.{Value, BlockRecord, find}
use arch_db.Cache.{BlockCache, CacheKey_eq}
use arch_db.Sstable.Formats.{Formats, Disk}
use arch_db.Sstable.Index.Search.{all_records}
use arch_db.Sstable.Lookup.{search-IsWritten, read_block-IsWritten}
use arch_db.Manager.{SsTable}
use arch_db.Manager.Reads.{AllServing, or_else, find-append}
use arch_db.Engine.Ops.{Engine, candidates, search_candidates, read_tables, get_key}
use arch_db.Engine.Ops.Cached.{IsFaithful, Leaves, search_one_at}
use arch_db.Engine.Ops.Candidates.{AllRanged, Chosen, candidates-AllServing}

all_records-append :
    (gs hs : List (List BlockRecord)) → all_records (gs ++ hs) ≡ all_records gs ++ all_records hs
all_records-append [] hs = refl
all_records-append (g ∷ gs) hs =
    ap (λ rs. g ++ rs) (all_records-append gs hs)
    ∙ sym (append_assoc g (all_records gs) (all_records hs))

module _ (env : Formats) where
  abbrev next_found :
      Disk
      → Str
      → List SsTable
      → Option Value × BlockCache (List BlockRecord)
      → Result (Option Value × BlockCache (List BlockRecord))
  next_found disk key ts found = elim found.0 [
    | some v ↦ ok (some v, found.1)
    | none ↦ search_candidates env disk key ts found.1
  ]

  next_found_lem :
      (disk : Disk) (key : Str) (ts : List SsTable) (found later : Option Value)
      (c : BlockCache (List BlockRecord))
      → IsFaithful env disk c.entries
      → Leaves env disk later (search_candidates env disk key ts c)
      → Leaves env disk (or_else found later) (next_found disk key ts (found, c))
  next_found_lem disk key ts (some v) later c h k = (c, refl, h)
  next_found_lem disk key ts none later c h k = k

  search_candidates-AllServing :
      (disk : Disk) (key : Str) (ts : List SsTable) (gs : List (List BlockRecord))
      (c : BlockCache (List BlockRecord))
      → AllServing env disk ts gs
      → IsFaithful env disk c.entries
      → Leaves env disk (find key (all_records gs)) (search_candidates env disk key ts c)
  unfolding search_candidates
  search_candidates-AllServing disk key [] [] c a h = (c, unfold find in refl, h)
  search_candidates-AllServing disk key [] (g ∷ gs) c a h = absurd a
  search_candidates-AllServing disk key (t ∷ ts) [] c a h = absurd a
  search_candidates-AllServing disk key (t ∷ ts) (g ∷ gs) c a h =
      let here =
        search_one_at env disk t.path t.index key c (find key g) _ h
          (λ m rs.
            read_block-IsWritten env disk t.path a.0.file t.index g key m rs a.0.written a.0.ordered
              a.0.on_disk)
          refl
          (search-IsWritten env disk t.path a.0.file t.index g key a.0.written a.0.ordered
            a.0.on_disk) in
      let later =
        next_found_lem disk key ts (find key g) (find key (all_records gs)) (here.0) (here.2)
          (search_candidates-AllServing disk key ts gs (here.0) a.1 (here.2)) in
      (
        later.0,
        ap (λ r. r >>= next_found disk key ts) (here.1)
            ∙ later.1
            ∙ ap (λ v. ok (v, later.0)) (sym (find-append key g (all_records gs))),
        later.2,
      )

  AllServing-append :
      (disk : Disk) (ts us : List SsTable) (gs hs : List (List BlockRecord))
      → AllServing env disk ts gs
      → AllServing env disk us hs
      → AllServing env disk (ts ++ us) (gs ++ hs)
  AllServing-append disk [] us [] hs a b = b
  AllServing-append disk [] us (g ∷ gs) hs a b = absurd a
  AllServing-append disk (t ∷ ts) us [] hs a b = absurd a
  AllServing-append disk (t ∷ ts) us (g ∷ gs) hs a b =
      (a.0, AllServing-append disk ts us gs hs a.1 b)

  -- The records of two runs of tables answer for the key as the groups do.
  find-groups :
      (key : Str) (gs hs : List (List BlockRecord)) (rs ss : List BlockRecord)
      → find key (all_records gs) ≡ find key rs
      → find key (all_records hs) ≡ find key ss
      → find key (all_records (gs ++ hs)) ≡ find key (rs ++ ss)
  find-groups key gs hs rs ss h k =
      ap (find key) (all_records-append gs hs)
      ∙ find-append key (all_records gs) (all_records hs)
      ∙ ap (λ f. or_else f (find key (all_records hs))) h
      ∙ ap (or_else (find key rs)) k
      ∙ sym (find-append key rs ss)

  -- The answer of `get_key`: the cache after it, and that this is a cache of blocks on the disk.
  pub record Answers (key : Str) (e : Engine) (found : Option Value) : Type 0 where
    pub cache : BlockCache (List BlockRecord)
    pub answer : get_key env key e ≡ ok (found, record e { block_cache = cache })
    pub faithful : IsFaithful env e.store.disk cache.entries

  abbrev chained :
      Str
      → Engine
      → Result (List SsTable)
      → Result (List SsTable)
      → Result (List SsTable)
      → Result (Option Value × Engine)
  chained key e a b c = a >>= λ in_l0. b >>= λ in_l1. c >>= λ in_l2.
      search_candidates env e.store.disk key (in_l0 ++ (in_l1 ++ in_l2)) e.block_cache >>= λ found.
      ok (found.0, record e { block_cache = found.1 })

  read_tables_lem :
      (key : Str) (e : Engine) (a b c : List SsTable)
      → candidates env key (reverse e.store.levels.l0) ≡ ok a
      → candidates env key (reverse e.store.levels.l1) ≡ ok b
      → candidates env key (reverse e.store.levels.l2) ≡ ok c
      → read_tables env key e ≡ chained key e (ok a) (ok b) (ok c)
  unfolding read_tables
  read_tables_lem key e a b c h k l =
      ap
        (λ x.
          chained key e x (candidates env key (reverse e.store.levels.l1))
            (candidates env key (reverse e.store.levels.l2)))
        h
      ∙ ap (λ x. chained key e (ok a) x (candidates env key (reverse e.store.levels.l2))) k
      ∙ ap (chained key e (ok a) (ok b)) l

  abbrev memtable_first : Str → Engine → Option Value → Result (Option Value × Engine)
  memtable_first key e found = elim found [ some v ↦ ok (some v, e) | none ↦ read_tables env key e ]

  get_key_lem :
      (key : Str) (e : Engine) (found : Option Value)
      → lookup key e.memtable ≡ found
      → get_key env key e ≡ memtable_first key e found
  unfolding get_key
  get_key_lem key e found h = ap (memtable_first key e) h

  read_tables-AllServing :
      (key : Str) (e : Engine) (g0 g1 g2 : List (List BlockRecord))
      → Chosen env e.store.disk key (reverse e.store.levels.l0) g0
      → Chosen env e.store.disk key (reverse e.store.levels.l1) g1
      → Chosen env e.store.disk key (reverse e.store.levels.l2) g2
      → IsFaithful env e.store.disk e.block_cache.entries
      → lookup key e.memtable ≡ none
      → Answers key e (find key (all_records g0 ++ (all_records g1 ++ all_records g2)))
  read_tables-AllServing key e g0 g1 g2 a b c h m =
      let disk = e.store.disk in
      let later = AllServing-append disk b.tables c.tables b.groups c.groups b.serving c.serving in
      let all =
        AllServing-append disk a.tables (b.tables ++ c.tables) a.groups (b.groups ++ c.groups)
          a.serving later in
      let found =
        search_candidates-AllServing disk key (a.tables ++ (b.tables ++ c.tables))
          (a.groups ++ (b.groups ++ c.groups)) e.block_cache all h in
      let same =
        find-groups key a.groups (b.groups ++ c.groups) (all_records g0)
          (all_records g1 ++ all_records g2) a.same
          (find-groups key b.groups c.groups (all_records g1) (all_records g2) b.same c.same) in
      record {
        cache = found.0;
        answer =
            get_key_lem key e none m
            ∙ read_tables_lem key e a.tables b.tables c.tables a.chosen b.chosen c.chosen
            ∙ ap (λ r. r >>= λ f. ok (f.0, record e { block_cache = f.1 })) (found.1)
            ∙ ap (λ f. ok (f, record e { block_cache = found.0 })) same;
        faithful = found.2;
      }

  answer_at :
      (key : Str) (e : Engine) (g0 g1 g2 : List (List BlockRecord)) (found : Option Value)
      → AllServing env e.store.disk (reverse e.store.levels.l0) g0
      → AllServing env e.store.disk (reverse e.store.levels.l1) g1
      → AllServing env e.store.disk (reverse e.store.levels.l2) g2
      → AllRanged (reverse e.store.levels.l0) g0
      → AllRanged (reverse e.store.levels.l1) g1
      → AllRanged (reverse e.store.levels.l2) g2
      → IsFaithful env e.store.disk e.block_cache.entries
      → lookup key e.memtable ≡ found
      → Answers key e
          (or_else found (find key (all_records g0 ++ (all_records g1 ++ all_records g2))))
  answer_at key e g0 g1 g2 (some v) a b c p q r h m = record {
    cache = e.block_cache;
    answer = get_key_lem key e (some v) m;
    faithful = h;
  }
  answer_at key e g0 g1 g2 none a b c p q r h m =
      let disk = e.store.disk in
      read_tables-AllServing key e g0 g1 g2
        (candidates-AllServing env disk key (reverse e.store.levels.l0) g0 a p)
        (candidates-AllServing env disk key (reverse e.store.levels.l1) g1 b q)
        (candidates-AllServing env disk key (reverse e.store.levels.l2) g2 c r) h m

  -- When the tables of the levels, each level from its newest table on, hold the records of `g0`, `g1` and
  -- `g2`, with their keys in the ranges of the tables, and every block in the cache is the block on the disk,
  -- `get_key` succeeds and gives what the memtable has for the key, and the first value among the records
  -- when the memtable has nothing. It changes the cache only, whose blocks are still the blocks on the disk.
  pub get_key-AllServing :
      (key : Str) (e : Engine) (g0 g1 g2 : List (List BlockRecord))
      → AllServing env e.store.disk (reverse e.store.levels.l0) g0
      → AllServing env e.store.disk (reverse e.store.levels.l1) g1
      → AllServing env e.store.disk (reverse e.store.levels.l2) g2
      → AllRanged (reverse e.store.levels.l0) g0
      → AllRanged (reverse e.store.levels.l1) g1
      → AllRanged (reverse e.store.levels.l2) g2
      → IsFaithful env e.store.disk e.block_cache.entries
      → Answers key e (
          or_else
            (lookup key e.memtable)
            (find key (all_records g0 ++ (all_records g1 ++ all_records g2))))
  get_key-AllServing key e g0 g1 g2 a b c p q r h = answer_at key e g0 g1 g2 _ a b c p q r h refl
