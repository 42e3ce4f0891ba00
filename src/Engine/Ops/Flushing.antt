-- ===== src/Engine/Ops/Flushing.antt =====
-- `flush_to_sstable` that starts no compaction, as `get_key` sees it.
use arch_db.Prelude.{
  ◌<◌, ◌≡◌, refl, ℕ, Option, none, some, List, [], ◌∷◌, ◌++◌, Result, ok, err, panic, ap, sym, ◌∙◌,
  subst, length, append_assoc,
}
use mathlib.Core.List.{reverse, reverse-append}
use arch_db.Prelude.Str.{Str}
use arch_db.Prelude.Bytes.{u32_mod}
use arch_db.Prelude.TreeMap.{TreeMap, lookup, IsSorted}
use arch_db.Value.{Value, BlockRecord, find}
use arch_db.Sstable.Formats.{Formats, Disk}
use arch_db.Sstable.Index.Search.{all_records}
use arch_db.Sstable.Writer.Append.{AllFitting}
use arch_db.Sstable.Writer.Written.{write_sstable-AllFitting}
use arch_db.Manager.{SsTable, Levels, pick_l0, CompactionCandidate}
use arch_db.Manager.Reads.{AllServing, Serves, or_else, find-append}
use arch_db.Manager.Compaction.{Store}
use arch_db.Manager.Compaction.Steps.{compact_picked_l0, size_tiered_compact_l0}
use arch_db.Engine.{snapshot, with_file, add_memtable}
use arch_db.Engine.Flush.{
  find-snapshot, is_sorted-snapshot, AllServing-with_file, build_bloom-Built, last_key-snapshot,
  table_of, add_step, new_table,
}
use arch_db.Engine.Ops.{Engine, announce, cleared, settle, flush_to_sstable}
use arch_db.Engine.Ops.Cached.{IsFaithful}
use arch_db.Engine.Ops.Candidates.{AllWithin, AllRanged}
use arch_db.Engine.Ops.Search.{Answers, get_key-AllServing}
use arch_db.Engine.Ops.Ranges.{
  le_self, AllFrom-IsAbove, last_key-AllUpTo, snapshot-AllWithin, IsFaithful-with_file,
}

module _ (env : Formats) where
  -- The tables hold the records, in their ranges, and the cache is one of blocks on the disk.
  pub record IsServing (e : Engine) (g0 g1 g2 : List (List BlockRecord)) : Type 0 where
    pub serving_l0 : AllServing env e.store.disk (reverse e.store.levels.l0) g0
    pub serving_l1 : AllServing env e.store.disk (reverse e.store.levels.l1) g1
    pub serving_l2 : AllServing env e.store.disk (reverse e.store.levels.l2) g2
    pub ranged_l0 : AllRanged (reverse e.store.levels.l0) g0
    pub ranged_l1 : AllRanged (reverse e.store.levels.l1) g1
    pub ranged_l2 : AllRanged (reverse e.store.levels.l2) g2
    pub faithful : IsFaithful env e.store.disk e.block_cache.entries

  -- The memtable can be written as a table at the path, and no table added to L0 starts a compaction.
  pub record IsFlushable (path : Str) (e : Engine) : Type 0 where
    pub sorted : IsSorted e.memtable
    pub short : length (snapshot e.memtable) < u32_mod
    pub fitting : AllFitting env (snapshot e.memtable)
    pub unused : e.store.disk path ≡ none
    pub quiet :
        (t : SsTable) → pick_l0 (record e.store.levels { l0 = e.store.levels.l0 ++ t ∷ [] }) ≡ none

  abbrev compacted : ℕ → Store → Option CompactionCandidate → Store × Result (Unit {0})
  compacted fuel s picked = elim picked [
    | none ↦ (s, ok tt)
    | some c ↦ size_tiered_compact_l0 env fuel c s
  ]

  compact_picked_l0-none :
      (fuel : ℕ) (s : Store) → pick_l0 s.levels ≡ none → compact_picked_l0 env fuel s ≡ (s, ok tt)
  unfolding compact_picked_l0
  compact_picked_l0-none fuel s h = ap (compacted fuel s) h

  abbrev added : Engine → Disk × Levels → Store
  added e made = record e.store {
    disk = made.0;
    levels = made.1;
    manifest = announce made.1.l0 e.store.manifest;
  }

  abbrev after : Engine → Store × Result (Unit {0}) → Engine × Result (Unit {0})
  after e r = (record e { store = r.0; memtable = cleared r.1 e.memtable }, r.1)

  settle_lem :
      (fuel : ℕ) (e : Engine) (made : Disk × Levels)
      → pick_l0 made.1 ≡ none
      → settle env fuel e made ≡ (record e { store = added e made; memtable = [] }, ok tt)
  unfolding settle
  settle_lem fuel e made h = ap (after e) (compact_picked_l0-none fuel (added e made) h)

  -- The engine after a flush, which serves the records of the memtable as the newest table.
  record Settled (fuel : ℕ) (path : Str) (e : Engine) (g0 g1 g2 : List (List BlockRecord))
      : Type 0 where
    engine : Engine
    groups : List (List BlockRecord)
    flushed : flush_to_sstable env fuel path e ≡ (engine, ok tt)
    cleaned : engine.memtable ≡ []
    same : all_records groups ≡ snapshot e.memtable ++ all_records g0
    serves : IsServing engine groups g1 g2

  abbrev flush_made : ℕ → Engine → Result (Disk × Levels) → Engine × Result (Unit {0})
  flush_made fuel e made = elim made [
    | panic ↦ (e, panic)
    | err why ↦ (e, err why)
    | ok made' ↦ settle env fuel e made'
  ]

  abbrev flush_from : ℕ → Str → Engine → TreeMap Value → Engine × Result (Unit {0})
  flush_from fuel path e memtable = elim memtable [
    | [] ↦ (e, ok tt)
    | entry ∷ entries ↦
        flush_made fuel e (add_memtable env e.store.disk path e.memtable e.store.levels)
  ]

  flush_lem :
      (fuel : ℕ) (path : Str) (e : Engine) (memtable : TreeMap Value)
      → e.memtable ≡ memtable
      → flush_to_sstable env fuel path e ≡ flush_from fuel path e memtable
  unfolding flush_to_sstable
  flush_lem fuel path e memtable h = ap (flush_from fuel path e) h

  IsServing-table_of :
      (path : Str) (e : Engine) (entry : Str × Value) (entries : TreeMap Value) (t : SsTable)
      (file : List ℕ) (g0 g1 g2 : List (List BlockRecord))
      → e.store.disk path ≡ none
      → Serves env (with_file e.store.disk path file) t (snapshot (entry ∷ entries))
      → AllWithin t (snapshot (entry ∷ entries))
      → IsServing e g0 g1 g2
      → IsServing
          (record e {
            store = added e (
              with_file e.store.disk path file,
              record e.store.levels { l0 = e.store.levels.l0 ++ t ∷ [] },
            );
            memtable = [];
          })
          (snapshot (entry ∷ entries) ∷ g0)
          g1
          g2
  IsServing-table_of path e entry entries t file g0 g1 g2 n new within s =
      let disk = e.store.disk in
      let m = e.store.levels in
      let turned = sym (reverse-append m.l0 (t ∷ [])) in
      record {
        serving_l0 =
            subst
              (λ l. AllServing env (with_file disk path file) l (snapshot (entry ∷ entries) ∷ g0))
              turned
              (new, AllServing-with_file env disk path file (reverse m.l0) g0 n s.serving_l0);
        serving_l1 = AllServing-with_file env disk path file (reverse m.l1) g1 n s.serving_l1;
        serving_l2 = AllServing-with_file env disk path file (reverse m.l2) g2 n s.serving_l2;
        ranged_l0 =
            subst (λ l. AllRanged l (snapshot (entry ∷ entries) ∷ g0)) turned (within, s.ranged_l0);
        ranged_l1 = s.ranged_l1;
        ranged_l2 = s.ranged_l2;
        faithful = IsFaithful-with_file env disk path file e.block_cache.entries n s.faithful;
      }

  flush_to_sstable-Settled :
      (fuel : ℕ) (path : Str) (e : Engine) (g0 g1 g2 : List (List BlockRecord))
      (memtable : TreeMap Value)
      → e.memtable ≡ memtable
      → IsFlushable path e
      → IsServing e g0 g1 g2
      → Settled fuel path e g0 g1 g2
  flush_to_sstable-Settled fuel path e g0 g1 g2 [] h f s = record {
    engine = e;
    groups = g0;
    flushed = flush_lem fuel path e [] h;
    cleaned = h;
    same = unfold snapshot in ap (λ m. snapshot m ++ all_records g0) (sym h);
    serves = s;
  }
  flush_to_sstable-Settled fuel path e g0 g1 g2 (entry ∷ entries) h f s =
      let disk = e.store.disk in
      let m = e.store.levels in
      let records = snapshot (entry ∷ entries) in
      let sorted = subst IsSorted h f.sorted in
      let ordered = is_sorted-snapshot (entry ∷ entries) sorted in
      let short = subst (λ x. length (snapshot x) < u32_mod) h f.short in
      let built = build_bloom-Built env records short in
      let out =
        write_sstable-AllFitting env records ordered short
          (subst (λ x. AllFitting env (snapshot x)) h f.fitting) in
      let max_key = last_key-snapshot env entry entries in
      let t = table_of env path out.index built.bloom (entry.0) (max_key.0) out.file in
      let made =
        add_step env disk path entry entries m built.bloom out.file out.index (max_key.0) built.made
          out.made (max_key.1) in
      let new =
        new_table env disk path records out.index built.bloom (entry.0) (max_key.0) out.file
          out.written ordered built.bits_some built.reports in
      let within =
        snapshot-AllWithin t (entry ∷ entries)
          (le_self (entry.0), AllFrom-IsAbove (entry.0) entries sorted.0)
          (last_key-AllUpTo entry entries (max_key.0) sorted (max_key.1)) in
      record {
        engine = record e {
          store = added e (with_file disk path out.file, record m { l0 = m.l0 ++ t ∷ [] });
          memtable = [];
        };
        groups = records ∷ g0;
        flushed =
            flush_lem fuel path e (entry ∷ entries) h
            ∙ ap (λ x. flush_made fuel e (add_memtable env disk path x m)) h
            ∙ ap (flush_made fuel e) made
            ∙ settle_lem fuel e (with_file disk path out.file, record m { l0 = m.l0 ++ t ∷ [] })
                (f.quiet t);
        cleaned = refl;
        same = ap (λ x. snapshot x ++ all_records g0) (sym h);
        serves = IsServing-table_of path e entry entries t out.file g0 g1 g2 f.unused new within s;
      }

  answers :
      (e : Engine) (g0 g1 g2 : List (List BlockRecord)) (key : Str)
      → IsServing e g0 g1 g2
      → Answers env key e (
          or_else
            (lookup key e.memtable)
            (find key (all_records g0 ++ (all_records g1 ++ all_records g2))))
  answers e g0 g1 g2 key s =
      get_key-AllServing env key e g0 g1 g2 s.serving_l0 s.serving_l1 s.serving_l2 s.ranged_l0
        s.ranged_l1 s.ranged_l2 s.faithful

  -- What the memtable had is found in the records of its table.
  moved :
      (key : Str) (m m' : TreeMap Value) (groups older : List BlockRecord) (rest : List BlockRecord)
      → m' ≡ []
      → groups ≡ snapshot m ++ older
      → or_else (lookup key m') (find key (groups ++ rest))
        ≡ or_else (lookup key m) (find key (older ++ rest))
  unfolding lookup
  moved key m m' groups older rest h e =
      ap (λ x. or_else (lookup key x) (find key (groups ++ rest))) h
      ∙ ap (λ x. find key (x ++ rest)) e
      ∙ ap (find key) (append_assoc (snapshot m) older rest)
      ∙ find-append key (snapshot m) (older ++ rest)
      ∙ ap (λ x. or_else x (find key (older ++ rest))) (find-snapshot key m)

  -- The tables of the engine hold `g0`, `g1` and `g2`, each level from its newest table on, with their keys in
  -- the ranges of the tables, and every block in the cache is the block on the disk. The memtable is sorted and
  -- fits into a table, the path is unused, and no table that is added to L0 would start a compaction. Then a
  -- flush to the path succeeds and empties the memtable, `get_key` gives after it for every key what it gave
  -- before it, L0 holds the records of the memtable before those of `g0`, and the tables and the cache are
  -- again as described. (A cache that keeps a block of a file that a compaction removed is not as described,
  -- and neither is a level with a table that the manifest did not name.)
  pub get_key-flush_to_sstable :
      (fuel : ℕ) (path : Str) (e : Engine) (g0 g1 g2 : List (List BlockRecord)) (key : Str)
      → IsFlushable path e
      → IsServing e g0 g1 g2
      → (found : Option Value) × (e' : Engine) × Answers env key e found
        × (flush_to_sstable env fuel path e ≡ (e', ok tt))
        × (e'.memtable ≡ [])
        × Answers env key e' found
        × (groups : List (List BlockRecord)) × (all_records groups
            ≡ snapshot e.memtable ++ all_records g0)
        × IsServing e' groups g1 g2
  get_key-flush_to_sstable fuel path e g0 g1 g2 key f s =
      let settled = flush_to_sstable-Settled fuel path e g0 g1 g2 e.memtable refl f s in
      let older = all_records g1 ++ all_records g2 in
      (
        or_else (lookup key e.memtable) (find key (all_records g0 ++ older)),
        settled.engine,
        answers e g0 g1 g2 key s,
        settled.flushed,
        settled.cleaned,
        subst (Answers env key settled.engine)
            (moved key e.memtable settled.engine.memtable (all_records settled.groups)
              (all_records g0) older settled.cleaned settled.same)
            (answers settled.engine settled.groups g1 g2 key settled.serves),
        settled.groups,
        settled.same,
        settled.serves,
      )
