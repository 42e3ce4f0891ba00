-- ===== src/Engine.antt =====
-- engine.rs: the part of `flush_to_sstable` that makes a table of the memtable and adds it to L0.
pub mod Flush
pub mod Ops
use arch_db.Prelude.{
  ℕ, ◌%◌, Option, none, some, List, [], ◌∷◌, ltb, length, if◌then◌else◌, Result, ok, ◌>>=◌, unwrap,
}
use arch_db.Prelude.Str.{Str, str_eq}
use arch_db.Prelude.Bytes.{u32_mod}
use arch_db.Prelude.TreeMap.{TreeMap}
use arch_db.Value.{Value, keys, BlockRecord}
use arch_db.Bloom.{BloomFilter}
use arch_db.Bloom.Membership.{insert_all}
use arch_db.Bloom.Serde.{with_rate}
use arch_db.Sstable.Formats.{Formats, Disk}
use arch_db.Sstable.Writer.{write_sstable}
use arch_db.Manager.{Level, SsTable, Levels, register_table}

-- `self.memtable.iter()`, in the order of the keys
unfoldable pub snapshot : TreeMap Value → List BlockRecord
snapshot [] = []
snapshot ((key, value) ∷ m) = record { key = key; value = value } ∷ snapshot m

unfoldable pub first_key : List BlockRecord → Option Str
first_key [] = none
first_key (r ∷ rs) = some r.key

unfoldable pub last_key : List BlockRecord → Option Str
last_key [] = none
last_key (r ∷ []) = some r.key
last_key (r ∷ s ∷ rs) = last_key (s ∷ rs)

-- The files after `path` was written.
abbrev pub with_file : Disk → Str → List ℕ → Disk
with_file disk path file p = if str_eq p path then some file else disk p

module _ (env : Formats) where
  -- The filter of `flush_to_sstable`.
  unfoldable pub build_bloom : List BlockRecord → Result BloomFilter
  unfolding with_rate insert_all
  build_bloom records =
      insert_all env.hasher (keys records)
        (with_rate env.sizing ((if ltb (length records) 8 then 8 else length records) % u32_mod))

  -- The files and the levels after the table was added; an empty memtable makes none.
  unfoldable pub add_memtable : Disk → Str → TreeMap Value → Levels → Result (Disk × Levels)
  unfolding snapshot build_bloom write_sstable first_key last_key register_table
  add_memtable disk path memtable m = elim memtable [
    | [] ↦ ok (disk, m)
    | ◌∷◌ e es ↦ do
      let records = snapshot (e ∷ es)
      bloom ← build_bloom records
      (file, index) ← write_sstable env records
      min_key ← unwrap (first_key records)
      max_key ← unwrap (last_key records)
      let table : SsTable = record {
        path = path;
        index = index;
        bloom = bloom;
        level = Level.l0;
        min_key = min_key;
        max_key = max_key;
        file_size = length file;
      }
      ok (with_file disk path file, register_table table m)
  ]
