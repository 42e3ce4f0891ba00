-- ===== src/Engine/Flush.antt =====
-- A memtable that was made a table of L0 answers for its keys, before the older tables.
use arch_db.Prelude.{
  ◌++◌, unwrap, ◌>>=◌, Result, append_assoc, ℕ, ◌%◌, ◌<◌, ◌≡◌, refl, true, Option, none, some, List,
  [], ◌∷◌, arith, length, ltb, ap, subst, ◌∙◌, ok, ◌&&◌, inl, inr, Bool-cases, if◌then◌else◌, sym,
}
use arch_db.Prelude.Str.{Str, str_eq, str_eq-eq, str_lt, str_eq_self}
use arch_db.Prelude.Bytes.{u32_mod}
use arch_db.Prelude.TreeMap.{TreeMap, lookup, IsSorted}
use arch_db.Value.{Value, keys, BlockRecord, find}
use arch_db.Bloom.{BloomFilter}
use arch_db.Bloom.Membership.{
  insert_all_lem, with_items, Reports, Reports-with_items, positive-with_items,
}
use arch_db.Bloom.Serde.{with_rate}
use arch_db.Sstable.Formats.{Formats, Disk}
use arch_db.Sstable.Writer.{is_sorted}
use arch_db.Sstable.Writer.Written.{bits_lem, IsWritten, write_sstable-AllFitting}
use arch_db.Manager.{Level, Levels, SsTable, register_table, get}
use arch_db.Sstable.Writer.{is_sorted, write_sstable}
use arch_db.Manager.Reads.{AllServing, Serves, or_else, get-AllServing, find-append}
use arch_db.Sstable.Index.{SstableIndex}
use mathlib.Core.List.{reverse, reverse-append}
use arch_db.Sstable.Writer.Append.{AllFitting}
use arch_db.Sstable.Writer.Sorted.{is_sorted-Ordered}
use arch_db.Sstable.Index.Search.{all_records}
use arch_db.Engine.{snapshot, with_file, build_bloom, last_key, first_key, add_memtable}

pub find-snapshot : (key : Str) (m : TreeMap Value) → find key (snapshot m) ≡ lookup key m
unfolding find snapshot lookup
find-snapshot key [] = refl
find-snapshot key ((j, v) ∷ m) = ap (λ l. if str_eq j key then some v else l) (find-snapshot key m)

is_sorted_cons :
    (r s : BlockRecord) (rs : List BlockRecord)
    → str_lt r.key s.key ≡ true
    → is_sorted (s ∷ rs) ≡ true
    → is_sorted (r ∷ s ∷ rs) ≡ true
unfolding is_sorted
is_sorted_cons r s rs h k = ap (λ b. b && is_sorted (s ∷ rs)) h ∙ k

pub is_sorted-snapshot : (m : TreeMap Value) → IsSorted m → is_sorted (snapshot m) ≡ true
unfolding snapshot
is_sorted-snapshot [] s = unfold is_sorted in refl
is_sorted-snapshot ((k, v) ∷ []) s = unfold is_sorted in refl
is_sorted-snapshot ((k, v) ∷ (j, w) ∷ m) s =
    is_sorted_cons (record { key = k; value = v }) (record { key = j; value = w }) (snapshot m)
      s.0.0 (is_sorted-snapshot ((j, w) ∷ m) s.1)

pub with_file_other :
    (disk : Disk) (path p : Str) (file bytes : List ℕ)
    → disk path ≡ none
    → disk p ≡ some bytes
    → with_file disk path file p ≡ some bytes
with_file_other disk path p file bytes n e = elim (Bool-cases (str_eq p path)) [
  | inl same ↦
      absurd (conflict (disk path) (subst (λ q. disk q ≡ some bytes) (str_eq-eq p path same) e) n)
  | inr other ↦ rw other e
]
  where
    conflict : (x : Option (List ℕ)) → x ≡ some bytes → x ≡ none → ⊥
    conflict x h k = cc

module _ (env : Formats) where
  pub AllServing-with_file :
      (disk : Disk) (path : Str) (file : List ℕ) (ts : List SsTable) (gs : List (List BlockRecord))
      → disk path ≡ none
      → AllServing env disk ts gs
      → AllServing env (with_file disk path file) ts gs
  AllServing-with_file disk path file [] [] n a = tt
  AllServing-with_file disk path file [] (g ∷ gs) n a = absurd a
  AllServing-with_file disk path file (t ∷ ts) [] n a = absurd a
  AllServing-with_file disk path file (t ∷ ts) (g ∷ gs) n a =
      let s = a.0 in
      (
        record {
          file = s.file;
          on_disk = with_file_other disk path t.path file s.file n s.on_disk;
          written = s.written;
          ordered = s.ordered;
          bits_some = s.bits_some;
          reports = s.reports;
        },
        AllServing-with_file disk path file ts gs n a.1,
      )

  -- The filter of a memtable reports its keys.
  pub record Built (records : List BlockRecord) : Type 0 where
    pub bloom : BloomFilter
    pub made : build_bloom env records ≡ ok bloom
    pub bits_some : 0 < length bloom.bits
    pub reports : Reports env.hasher bloom (keys records)

  pub build_bloom-Built : (records : List BlockRecord) → length records < u32_mod → Built records
  unfolding build_bloom
  build_bloom-Built records short =
      let size = (if ltb (length records) 8 then 8 else length records) % u32_mod in
      let empty = with_rate env.sizing size in
      let pos = bits_lem env size (ground arith) in
      record {
        bloom = with_items env.hasher empty (keys records);
        made = insert_all_lem env.hasher (keys records) empty pos;
        bits_some = positive-with_items env.hasher (keys records) empty pos;
        reports = Reports-with_items env.hasher (keys records) empty pos;
      }

  pub last_key-snapshot :
      (e : Str × Value) (es : TreeMap Value) → (k : Str) × (last_key (snapshot (e ∷ es)) ≡ some k)
  unfolding last_key snapshot
  last_key-snapshot e [] = (e.0, refl)
  last_key-snapshot e (e' ∷ es) = last_key-snapshot e' es

  abbrev pub table_of : Str → SstableIndex → BloomFilter → Str → Str → List ℕ → SsTable
  table_of path index bloom min_key max_key file = record {
    path = path;
    index = index;
    bloom = bloom;
    level = Level.l0;
    min_key = min_key;
    max_key = max_key;
    file_size = length file;
  }

  -- The steps of `add_memtable` after the filter was built, and after the file was written.
  abbrev with_table :
      Disk
      → Str
      → BlockRecord
      → List BlockRecord
      → Levels
      → BloomFilter
      → List ℕ × SstableIndex
      → Option Str
      → Result (Disk × Levels)
  with_table disk path r rs m bloom out max_key = unwrap max_key >>= λ k.
      ok (
        with_file disk path (out.0),
        register_table (table_of path (out.1) bloom r.key k (out.0)) m,
      )

  abbrev with_bloom :
      Disk
      → Str
      → BlockRecord
      → List BlockRecord
      → Levels
      → Result (List ℕ × SstableIndex)
      → BloomFilter
      → Result (Disk × Levels)
  with_bloom disk path r rs m res bloom =
      res >>= λ out. with_table disk path r rs m bloom out (last_key (r ∷ rs))

  pub add_step :
      (disk : Disk) (path : Str) (e : Str × Value) (es : TreeMap Value) (m : Levels)
      (bloom : BloomFilter)
      → (file : List ℕ) (index : SstableIndex) (max_key : Str)
      → build_bloom env (snapshot (e ∷ es)) ≡ ok bloom
      → write_sstable env (snapshot (e ∷ es)) ≡ ok (file, index)
      → last_key (snapshot (e ∷ es)) ≡ some max_key
      → add_memtable env disk path (e ∷ es) m
        ≡ ok (
          with_file disk path file,
          record m { l0 = m.l0 ++ table_of path index bloom e.0 max_key file ∷ [] },
        )
  unfolding add_memtable register_table first_key snapshot
  add_step disk path e es m bloom file index max_key a b c =
      let r : BlockRecord = record { key = e.0; value = e.1 } in
      let rs = snapshot es in
      ap (λ x. x >>= with_bloom disk path r rs m (write_sstable env (r ∷ rs))) a
      ∙ ap (λ x. with_bloom disk path r rs m x bloom) b
      ∙ ap (with_table disk path r rs m bloom (file, index)) c

  pub new_table :
      (disk : Disk) (path : Str) (records : List BlockRecord) (index : SstableIndex)
      (bloom : BloomFilter) (min_key max_key : Str) (file : List ℕ)
      → IsWritten env file index records
      → is_sorted records ≡ true
      → 0 < length bloom.bits
      → Reports env.hasher bloom (keys records)
      → Serves env
          (with_file disk path file)
          (table_of path index bloom min_key max_key file)
          records
  new_table disk path records index bloom min_key max_key file w s b r = record {
    file = file;
    on_disk = rw (str_eq_self path) refl;
    written = w;
    ordered = is_sorted-Ordered records s;
    bits_some = b;
    reports = r;
  }

  get-newest :
      (disk : Disk) (key : Str) (m : Levels) (t : SsTable) (rs : List BlockRecord)
      (g0 g1 g2 : List (List BlockRecord))
      → Serves env disk t rs
      → AllServing env disk (reverse m.l0) g0
      → AllServing env disk (reverse m.l1) g1
      → AllServing env disk (reverse m.l2) g2
      → get env disk key (record m { l0 = m.l0 ++ t ∷ [] })
        ≡ ok (
            or_else (find key rs) (find key (all_records g0 ++ (all_records g1 ++ all_records g2))))
  get-newest disk key m t rs g0 g1 g2 s a b c =
      let older = all_records g1 ++ all_records g2 in
      get-AllServing env disk key (record m { l0 = m.l0 ++ t ∷ [] }) (rs ∷ g0) g1 g2
        (subst (λ l. AllServing env disk l (rs ∷ g0)) (sym (reverse-append m.l0 (t ∷ []))) (s, a)) b
        c
      ∙ ap (λ l. ok (find key l)) (append_assoc rs (all_records g0) older)
      ∙ ap ok (find-append key rs (all_records g0 ++ older))

  -- What a flush leaves: after it a read asks the memtable that was flushed, then the older tables.
  pub record Flushed (disk : Disk) (path : Str) (memtable : TreeMap Value) (m : Levels)
      (older : List BlockRecord) (key : Str) : Type 0 where
    pub disk_after : Disk
    pub levels_after : Levels
    pub made : add_memtable env disk path memtable m ≡ ok (disk_after, levels_after)
    pub reads :
        get env disk_after key levels_after ≡ ok (or_else (lookup key memtable) (find key older))

  -- A sorted memtable of fewer than 2 ^ 32 storable records, none of them too large, is flushed to a path
  -- without a file: this succeeds, and a read then gives what the memtable has for the key, and what the
  -- older tables have when the memtable has nothing.
  pub add_memtable-Flushed :
      (disk : Disk) (path : Str) (memtable : TreeMap Value) (m : Levels)
      (g0 g1 g2 : List (List BlockRecord)) (key : Str)
      → IsSorted memtable
      → length (snapshot memtable) < u32_mod
      → AllFitting env (snapshot memtable)
      → disk path ≡ none
      → AllServing env disk (reverse m.l0) g0
      → AllServing env disk (reverse m.l1) g1
      → AllServing env disk (reverse m.l2) g2
      → Flushed disk path memtable m (all_records g0 ++ (all_records g1 ++ all_records g2)) key
  add_memtable-Flushed disk path [] m g0 g1 g2 key s short f n a b c = record {
    disk_after = disk;
    levels_after = m;
    made = unfold add_memtable in refl;
    reads = unfold lookup in get-AllServing env disk key m g0 g1 g2 a b c;
  }
  add_memtable-Flushed disk path (e ∷ es) m g0 g1 g2 key s short f n a b c =
      let records = snapshot (e ∷ es) in
      let sorted = is_sorted-snapshot (e ∷ es) s in
      let built = build_bloom-Built records short in
      let out = write_sstable-AllFitting env records sorted short f in
      let max_key = last_key-snapshot e es in
      let t = table_of path out.index built.bloom e.0 max_key.0 out.file in
      let new =
        new_table disk path records out.index built.bloom e.0 max_key.0 out.file out.written sorted
          built.bits_some built.reports in
      let disk' = with_file disk path out.file in
      record {
        disk_after = disk';
        levels_after = record m { l0 = m.l0 ++ t ∷ [] };
        made =
            add_step disk path e es m built.bloom out.file out.index max_key.0 built.made out.made
              max_key.1;
        reads =
            get-newest disk' key m t records g0 g1 g2 new
              (AllServing-with_file disk path out.file (reverse m.l0) g0 n a)
              (AllServing-with_file disk path out.file (reverse m.l1) g1 n b)
              (AllServing-with_file disk path out.file (reverse m.l2) g2 n c)
            ∙ ap
                (λ found.
                  ok (
                    or_else found
                      (find key (all_records g0 ++ (all_records g1 ++ all_records g2)))))
                (find-snapshot key (e ∷ es));
      }
