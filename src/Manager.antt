-- ===== src/Manager.antt =====
-- sstable_manager.rs and compaction_picker.rs: the tables in their levels, the reads through them, the
-- choice of what to compact, and the merge of `compact`.
pub mod Reads
pub mod Merge
pub mod Manifest
pub mod Compaction
pub mod Recovery
use arch_db.Prelude.{
  ℕ, zero, suc, ◌+◌, ◌*◌, Bool, true, false, not, ◌||◌, ◌&&◌, Option, none, some, List, [], ◌∷◌,
  ◌++◌, map, ltb, leb, length, if◌then◌else◌, Result, ok, ◌>>=◌, ◌==◌,
}
use mathlib.Core.List.{reverse}
use arch_db.Prelude.Str.{Str, str_lt, str_le}
use arch_db.Prelude.Dict
use arch_db.Prelude.Dict.{Dict, str_eq_instance}
use arch_db.Value.{Value, data_of, tombstone, BlockRecord}
use arch_db.Bloom.{BloomFilter, contains}
use arch_db.Sstable.Formats.{Formats, Disk}
use arch_db.Sstable.Index.{SstableIndex}
use arch_db.Sstable.Reader.{search_sstable, read_sstable}

pub data Level : Type 0 where
  l0 : Level
  l1 : Level
  l2 : Level

-- `SSTable`
pub record SsTable : Type 0 where
  pub path : Str
  pub index : SstableIndex
  pub bloom : BloomFilter
  pub level : Level
  pub min_key : Str
  pub max_key : Str
  pub file_size : ℕ

-- The levels of `SSTableManager`, oldest table first.
pub record Levels : Type 0 where
  pub l0 : List SsTable
  pub l1 : List SsTable
  pub l2 : List SsTable

pub record CompactionCandidate : Type 0 where
  pub input_level : Level
  pub output_level : Level
  pub input_tables : List ℕ
  pub output_tables : List ℕ

unfoldable pub overlaps : SsTable → Str → Str → Bool
overlaps t min_key max_key = not (str_lt t.max_key min_key || str_lt max_key t.min_key)

unfoldable pub contains_key_range : SsTable → Str → Bool
contains_key_range t key = str_le t.min_key key && str_le key t.max_key

unfoldable pub register_table : SsTable → Levels → Levels
register_table t m = elim t.level [
  | Level.l0 ↦ record m { l0 = m.l0 ++ t ∷ [] }
  | Level.l1 ↦ record m { l1 = m.l1 ++ t ∷ [] }
  | Level.l2 ↦ record m { l2 = m.l2 ++ t ∷ [] }
]

-- `iter().enumerate().map(|(i, t)| (i, t.file_size))`, from the position `i` on
unfoldable pub enumerated : ℕ → List SsTable → List (ℕ × ℕ)
enumerated i [] = []
enumerated i (t ∷ ts) = (i, t.file_size) ∷ enumerated (i + 1) ts

-- `sort_by_key` on the size, which is stable.
unfoldable pub insert_sized : ℕ × ℕ → List (ℕ × ℕ) → List (ℕ × ℕ)
insert_sized p [] = p ∷ []
insert_sized p (q ∷ qs) = if leb p.1 q.1 then p ∷ q ∷ qs else q ∷ insert_sized p qs

unfoldable pub sort_sized : List (ℕ × ℕ) → List (ℕ × ℕ)
unfolding insert_sized
sort_sized [] = []
sort_sized (p ∷ ps) = insert_sized p (sort_sized ps)

-- The windows of three tables. The quotient of the sizes is at most 1.5 when twice the largest is at
-- most three times the smallest, for sizes that an `f64` holds, unless both are zero and the quotient is
-- not a number.
unfoldable pub first_window : List (ℕ × ℕ) → List ℕ
first_window (a ∷ b ∷ c ∷ rest) =
    if leb (2 * c.1) (3 * a.1) && not (c.1 == 0)
    then a.0 ∷ b.0 ∷ c.0 ∷ []
    else first_window (b ∷ c ∷ rest)
first_window _ = []

unfoldable pub find_size_tiered_candidates : Levels → List ℕ
unfolding enumerated sort_sized first_window
find_size_tiered_candidates m =
    if ltb (length m.l0) 3 then [] else first_window (sort_sized (enumerated 0 m.l0))

unfoldable pub pick_l0 : Levels → Option CompactionCandidate
unfolding find_size_tiered_candidates
pick_l0 m =
    let inputs = find_size_tiered_candidates m in
    if length inputs == 0
    then none
    else some (record {
      input_level = Level.l0;
      output_level = Level.l1;
      input_tables = inputs;
      output_tables = [];
    })

-- `filter` and `map` over `l2.iter().enumerate()`, from the position `i` on
unfoldable pub overlapping : SsTable → ℕ → List SsTable → List ℕ
unfolding overlaps
overlapping table i [] = []
overlapping table i (t ∷ ts) =
    let later = overlapping table (i + 1) ts in
    if overlaps t table.min_key table.max_key then i ∷ later else later

unfoldable pub pick_first : List SsTable → List SsTable → Option CompactionCandidate
unfolding overlapping
pick_first [] others = none
pick_first (table ∷ later) others = some (record {
  input_level = Level.l1;
  output_level = Level.l2;
  input_tables = 0 ∷ [];
  output_tables = overlapping table 0 others;
})

unfoldable pub pick_l1 : Levels → Option CompactionCandidate
unfolding pick_first
pick_l1 m = if ltb (length m.l1) 4 then none else pick_first m.l1 m.l2

-- What `compact` does with one record, and with the records of a table; `merged` is a `HashMap`.
unfoldable pub merge_record : BlockRecord → Dict Str Value → Dict Str Value
merge_record r merged = elim r.value [
  | data_of v ↦ Dict.insert r.key (data_of v) merged
  | tombstone ↦ Dict.remove r.key merged
]

unfoldable pub merge_records : List BlockRecord → Dict Str Value → Dict Str Value
unfolding merge_record
merge_records [] merged = merged
merge_records (r ∷ rs) merged = merge_records rs (merge_record r merged)

-- `sort_by(|a,b| a.0.cmp(&b.0))`, which is stable.
unfoldable pub insert_entry : Str × Value → List (Str × Value) → List (Str × Value)
insert_entry e [] = e ∷ []
insert_entry e (f ∷ fs) = if str_le (e.0) (f.0) then e ∷ f ∷ fs else f ∷ insert_entry e fs

unfoldable pub sort_entries : List (Str × Value) → List (Str × Value)
unfolding insert_entry
sort_entries [] = []
sort_entries (e ∷ es) = insert_entry e (sort_entries es)

module _ (env : Formats) where
  -- The loop of `get` over the tables of a level.
  unfoldable pub search_tables : Disk → Str → List SsTable → Result (Option Value)
  unfolding contains search_sstable
  search_tables disk key [] = ok none
  search_tables disk key (t ∷ ts) = do
    reported ← contains env.hasher t.bloom key
    elim reported [
      | false ↦ search_tables disk key ts
      | true ↦ do
        found ← search_sstable env disk t.path t.index key
        elim found [ some entry ↦ ok (some (entry.1)) | none ↦ search_tables disk key ts ]
    ]

  unfoldable pub get : Disk → Str → Levels → Result (Option Value)
  unfolding search_tables
  get disk key m = do
    in_l0 ← search_tables disk key (reverse m.l0)
    elim in_l0 [
      | some v ↦ ok (some v)
      | none ↦ do
        in_l1 ← search_tables disk key (reverse m.l1)
        elim in_l1 [ some v ↦ ok (some v) | none ↦ search_tables disk key (reverse m.l2) ]
    ]

  -- The loop of `compact`, which reads the tables.
  unfoldable pub merge_tables : Disk → List SsTable → Dict Str Value → Result (Dict Str Value)
  unfolding read_sstable merge_records
  merge_tables disk [] merged = ok merged
  merge_tables disk (t ∷ ts) merged = do
    records ← read_sstable env disk t.path
    merge_tables disk ts (merge_records records merged)

  -- The entries that `compact` collects from `all_tables`, sorted.
  unfoldable pub merge_all : Disk → Levels → Result (List (Str × Value))
  unfolding merge_tables sort_entries
  merge_all disk m = do
    merged ← merge_tables disk (m.l0 ++ (m.l1 ++ m.l2)) []
    ok (sort_entries merged)
