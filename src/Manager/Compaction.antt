-- ===== src/Manager/Compaction.antt =====
-- `write_merged_tables` of sstable_manager.rs: the merge of a compaction, written as tables of a level.
pub mod Steps
use arch_db.Prelude.{
  ℕ, zero, suc, ◌+◌, Bool, true, false, Option, none, some, List, [], ◌∷◌, ◌++◌, length, ltb, leb,
  ◌==◌, get_elem?, if◌then◌else◌, Result, ok, err, panic, ◌>>=◌, unwrap, io, not_found,
}
use mathlib.Core.List.{reverse}
use arch_db.Prelude.Str.{Str, codes, str_eq}
use arch_db.Prelude.Decimal.{decimal}
use arch_db.Value.{data_of, tombstone, BlockRecord}
use arch_db.Bloom.{BloomFilter}
use arch_db.Sstable.Formats.{Formats, Disk}
use arch_db.Sstable.Index.{SstableIndex}
use arch_db.Sstable.Footer.{load_bloom_from_footer}
use arch_db.Sstable.Reader
use arch_db.Sstable.Reader.{SstableIterator}
use arch_db.Sstable.Writer
use arch_db.Sstable.Writer.{SstableWriter, append, finish}
use arch_db.Iterators.{StorageIterator}
use arch_db.Iterators.Merging
use arch_db.Iterators.Merging.{MergeIterator, newer_first, merge_next}
use arch_db.Manager.{Level, SsTable, Levels, CompactionCandidate, register_table, pick_l0, pick_l1}
use arch_db.Manager.Manifest
use arch_db.Manager.Manifest.{
  ManifestRecord, add_table, remove_table, Manifest, should_checkpoint, checkpoint_manifest,
}

-- What the manager and its files hold; `counter` is `SSTABLE_COUNTER`.
pub record Store : Type 0 where
  pub disk : Disk
  pub levels : Levels
  pub manifest : Manifest
  pub counter : ℕ

pub record CreatedTable : Type 0 where
  pub path : Str
  pub index : SstableIndex
  pub bloom : BloomFilter
  pub min_key : Str
  pub max_key : Str
  pub file_size : ℕ

abbrev pub target_table_size : ℕ
target_table_size = 200

abbrev pub put_file : Disk → Str → Option (List ℕ) → Disk
put_file disk path file p = if str_eq p path then file else disk p

abbrev level_name : Level → Str
level_name Level.l0 = codes "l0"
level_name Level.l1 = codes "l1"
level_name Level.l2 = codes "l2"

-- `format!("sst_{:?}_{}.bin", level, id).to_lowercase()`
unfoldable pub table_path : Level → ℕ → Str
table_path level id =
    codes "sst_" ++ (level_name level ++ (codes "_" ++ (decimal id ++ codes ".bin")))

-- The tables at the positions; the index of a vector panics out of range.
unfoldable pub tables_at : List ℕ → List SsTable → Result (List SsTable)
tables_at [] tables = ok []
tables_at (i ∷ is) tables = do
  table ← unwrap (get_elem? tables i)
  later ← tables_at is tables
  ok (table ∷ later)

unfoldable pub candidate_tables : CompactionCandidate → Levels → Result (List SsTable)
unfolding tables_at
candidate_tables c m = elim c.input_level [
  | Level.l0 ↦ tables_at c.input_tables m.l0
  | Level.l1 ↦ do
    older ← tables_at c.output_tables m.l2
    newer ← tables_at c.input_tables m.l1
    ok (older ++ newer)
  | Level.l2 ↦ panic
]

unfoldable pub record_size : BlockRecord → ℕ
record_size r = elim r.value [
  | data_of v ↦ length r.key + length v + 32
  | tombstone ↦ length r.key + 16
]

-- The variables of the loop of `write_merged_tables`, with the files and the counter
pub record MergeOutput : Type 0 where
  pub disk : Disk
  pub counter : ℕ
  pub created : List CreatedTable
  pub current_path : Str
  pub writer : SstableWriter
  pub current_min_key : Option Str
  pub current_max_key : Option Str
  pub estimated_size : ℕ

module _ (env : Formats) where
  unfoldable pub finalize_writer :
      Disk → SstableWriter → Str → Str → Str → Result (CreatedTable × Disk)
  unfolding finish load_bloom_from_footer
  finalize_writer disk writer path min_key max_key = do
    (index, closed) ← finish env writer
    bloom ← load_bloom_from_footer env closed.file
    ok (
      record {
        path = path;
        index = index;
        bloom = bloom;
        min_key = min_key;
        max_key = max_key;
        file_size = length closed.file;
      },
      put_file disk path (some closed.file),
    )

  -- The table that is being written is finished and kept.
  unfoldable pub keep_table : MergeOutput → Result MergeOutput
  unfolding finalize_writer
  keep_table s = do
    min_key ← unwrap s.current_min_key
    max_key ← unwrap s.current_max_key
    (table, disk) ← finalize_writer s.disk s.writer s.current_path min_key max_key
    ok (record s {
      disk = disk;
      created = s.created ++ table ∷ [];
      current_min_key = none;
      current_max_key = none;
    })

  unfoldable pub open_writer : Level → MergeOutput → MergeOutput
  unfolding table_path Writer.new
  open_writer level s = record s {
    counter = s.counter + 1;
    current_path = table_path level s.counter;
    writer = Writer.new env target_table_size;
    estimated_size = 0;
  }

  -- The body of the loop
  unfoldable pub take_record : Level → BlockRecord → MergeOutput → Result MergeOutput
  unfolding append record_size keep_table open_writer
  take_record level r s = do
    writer ← append env r.key r.value s.writer
    let taken : MergeOutput = record s {
      writer = writer;
      current_min_key = some (elim s.current_min_key [ none ↦ r.key | some k ↦ k ]);
      current_max_key = some r.key;
      estimated_size = s.estimated_size + record_size r;
    }
    if ltb taken.estimated_size target_table_size
        then ok taken
        else do kept ← keep_table taken; ok (open_writer level kept)

  -- An iterator over a table; it passes over no more blocks than the index has.
  abbrev pub table_iterator : StorageIterator SstableIterator
  table_iterator = record {
    next = λ it. Reader.next env (suc (suc (length it.index.blocks))) it;
    peek = λ it. Reader.peek env (suc (suc (length it.index.blocks))) it;
  }

  unfoldable pub open_tables : Disk → List SsTable → Result (List SstableIterator)
  unfolding Reader.new
  open_tables disk [] = ok []
  open_tables disk (t ∷ ts) = do
    it ← Reader.new env disk t.path t.index
    later ← open_tables disk ts
    ok (it ∷ later)

  -- The fuel exceeds the number of the records of the tables; less of it ends in a panic, never in a table that
  -- lacks records.
  unfoldable pub write_loop :
      ℕ → Level → MergeIterator SstableIterator → MergeOutput → Result MergeOutput
  unfolding merge_next take_record
  write_loop zero level merge s = panic
  write_loop (suc fuel) level merge s = do
    (found, merge') ← merge_next table_iterator newer_first (suc fuel) merge
    elim found [
      | none ↦ ok s
      | some r ↦ do s' ← take_record level r s; write_loop fuel level merge' s'
    ]

  unfoldable pub write_merged_tables :
      ℕ → Disk → ℕ → List SsTable → Level → Bool → Result MergeOutput
  unfolding open_tables Merging.new table_path Writer.new write_loop keep_table
  write_merged_tables fuel disk counter tables level drop_tombstones = do
    iters ← open_tables disk tables
    merge ← Merging.new table_iterator newer_first iters drop_tombstones
    let start : MergeOutput = record {
      disk = disk;
      counter = counter + 1;
      created = [];
      current_path = table_path level counter;
      writer = Writer.new env target_table_size;
      current_min_key = none;
      current_max_key = none;
      estimated_size = 0;
    }
    s ← write_loop fuel level merge start
    if s.estimated_size == 0 then ok s else keep_table s
