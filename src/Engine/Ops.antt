-- ===== src/Engine/Ops.antt =====
-- engine.rs: the state of the engine and its operations but `scan` and the iterators. The lock of the
-- manager is held from the first to the last of a call's steps, and the message to the compaction thread
-- and the lines printed are left out.
pub mod Restart
pub mod Search
pub mod Ranges
pub mod Flushing
pub mod Limits
pub mod Orphans
pub mod Candidates
pub mod Cached
use arch_db.Prelude.{
  ℕ, ◌+◌, Bool, true, false, not, ◌&&◌, Option, none, some, List, [], ◌∷◌, ◌++◌, length, leb, ◌==◌,
  if◌then◌else◌, Result, ok, err, panic, ◌>>=◌,
}
use mathlib.Core.List.{reverse}
use arch_db.Prelude.Str.{Str, codes}
use arch_db.Prelude.TreeMap
use arch_db.Prelude.TreeMap.{TreeMap, lookup}
use arch_db.Value.{Value, data_of, tombstone, BlockRecord, find}
use arch_db.Command.{Command}
use arch_db.Storage
use arch_db.Storage.{Storage, SyncPolicy, Files}
use arch_db.Bloom.{contains}
use arch_db.Cache
use arch_db.Cache.{BlockCache, CacheKey}
use arch_db.Sstable.Formats.{Formats, Disk}
use arch_db.Sstable.Index.{BlockMeta, SstableIndex, find_block}
use arch_db.Sstable.Reader.{read_block}
use arch_db.Sstable.BinarySearch.{binary_search_block}
use arch_db.Manager.{Level, SsTable, Levels, contains_key_range}
use arch_db.Manager.Manifest
use arch_db.Manager.Manifest.{Manifest, add_table}
use arch_db.Manager.Compaction.{Store, table_path}
use arch_db.Manager.Compaction.Steps.{compact_picked_l0}
use arch_db.Engine.{add_memtable}

pub record Engine : Type 0 where
  pub memtable : TreeMap Value
  pub store : Store
  pub memtable_limit : ℕ
  pub block_cache : BlockCache (List BlockRecord)
  pub storage : Storage

-- The manifest names the table that `add_table` put last.
unfoldable pub announce : List SsTable → Manifest → Manifest
unfolding Manifest.append
announce [] m = m
announce (t ∷ []) m = Manifest.append (add_table t.level t.path t.min_key t.max_key t.file_size) m
announce (t ∷ u ∷ ts) m = announce (u ∷ ts) m

-- `self.memtable.clear()`, after the compaction has succeeded
abbrev pub cleared : Result (Unit {0}) → TreeMap Value → TreeMap Value
cleared (ok done) memtable = []
cleared _ memtable = memtable

-- One command of the loop of `replay_wal`
unfoldable pub replay_command : Command → TreeMap Value → TreeMap Value
unfolding TreeMap.insert
replay_command (Command.set key value) m = TreeMap.insert key (data_of value) m
replay_command (Command.del key) m = TreeMap.insert key tombstone m
replay_command _ m = m

unfoldable pub replay : List Command → TreeMap Value → TreeMap Value
unfolding replay_command
replay [] m = m
replay (c ∷ cs) m = replay cs (replay_command c m)

module _ (env : Formats) where
  -- What a flush does to the manager and to the memtable after the table was made.
  unfoldable pub settle : ℕ → Engine → Disk × Levels → Engine × Result (Unit {0})
  unfolding announce compact_picked_l0
  settle fuel e made =
      let added : Store = record e.store {
        disk = made.0;
        levels = made.1;
        manifest = announce made.1.l0 e.store.manifest;
      } in
      let compacted = compact_picked_l0 env fuel added in
      (record e { store = compacted.0; memtable = cleared compacted.1 e.memtable }, compacted.1)

  unfoldable pub flush_to_sstable : ℕ → Str → Engine → Engine × Result (Unit {0})
  unfolding add_memtable settle
  flush_to_sstable fuel path e = elim e.memtable [
    | [] ↦ (e, ok tt)
    | entry ∷ entries ↦ elim (add_memtable env e.store.disk path e.memtable e.store.levels) [
      | panic ↦ (e, panic)
      | err why ↦ (e, err why)
      | ok made ↦ settle fuel e made
    ]
  ]

  -- `format!("sst_l0_{}.bin", next_sstable_id())`, and the flush to it
  unfoldable pub flush_next : ℕ → Engine → Engine × Result (Unit {0})
  unfolding table_path flush_to_sstable
  flush_next fuel e =
      flush_to_sstable fuel (table_path Level.l0 e.store.counter)
        (record e { store = record e.store { counter = e.store.counter + 1 } })

  unfoldable pub maybe_flush : ℕ → Engine → Engine × Result (Unit {0})
  unfolding flush_next
  maybe_flush fuel e =
      if leb e.memtable_limit (length e.memtable) then flush_next fuel e else (e, ok tt)

  -- The write-ahead log and the memtable, in `put` and `delete`
  unfoldable pub record_write : ℕ → Command → Engine → Engine
  unfolding replay_command Storage.append
  record_write now c e = record e {
    storage = Storage.append env.crc now c e.storage;
    memtable = replay_command c e.memtable;
  }

  unfoldable pub put : ℕ → ℕ → Str → Str → Engine → Engine × Result (Unit {0})
  unfolding record_write maybe_flush
  put fuel now key value e = maybe_flush fuel (record_write now (Command.set key value) e)

  unfoldable pub delete : ℕ → ℕ → Str → Engine → Engine × Result (Unit {0})
  unfolding record_write maybe_flush
  delete fuel now key e = maybe_flush fuel (record_write now (Command.del key) e)

  unfoldable pub shutdown : ℕ → Engine → Engine × Result (Unit {0})
  unfolding flush_next Storage.reset Storage.checkpoint
  shutdown fuel e = elim e.memtable [
    | [] ↦ (e, ok tt)
    | entry ∷ entries ↦
        let flushed = flush_next fuel e in
        elim flushed.1 [
          | ok done ↦ (
            record flushed.0 { storage = Storage.checkpoint (Storage.reset flushed.0.storage) },
            ok tt,
          )
          | err why ↦ flushed
          | panic ↦ flushed
        ]
  ]

  -- `with_storage_path`; the manager begins without tables.
  unfoldable pub with_storage : Files → ℕ → ℕ → Store → Result Engine
  unfolding Storage.new Storage.load Cache.new replay
  with_storage files fuel now store = do
    let storage = Storage.new fuel now SyncPolicy.always files
    commands ← Storage.load env.crc storage
    ok (record {
      memtable = replay commands [];
      store = store;
      memtable_limit = 1000;
      block_cache = Cache.new 64;
      storage = storage;
    })

  -- The loop over the tables of a level, from its newest
  unfoldable pub candidates : Str → List SsTable → Result (List SsTable)
  unfolding contains_key_range contains
  candidates key [] = ok []
  candidates key (t ∷ ts) = if not (contains_key_range t key) then candidates key ts else do
    reported ← contains env.hasher t.bloom key
    later ← candidates key ts
    ok (if reported then t ∷ later else later)

  -- A block that is read from the disk is kept in the cache.
  unfoldable pub search_block :
      Str
      → ℕ
      → Disk
      → Str
      → BlockCache (List BlockRecord)
      → Result (Option Value × BlockCache (List BlockRecord))
  unfolding Cache.get Cache.put read_block binary_search_block
  search_block path offset disk key cache =
      let cache_key : CacheKey = record { path = path; offset = offset } in
      let cached = Cache.get cache_key cache in
      elim cached.0 [
        | some records ↦ ok (binary_search_block records key, cached.1)
        | none ↦ elim (read_block env disk path offset) [
          | panic ↦ panic
          | err why ↦ ok (none, cached.1)
          | ok records ↦ ok (binary_search_block records key, Cache.put cache_key records cached.1)
        ]
      ]

  unfoldable pub search_one :
      Disk
      → Str
      → SstableIndex
      → Str
      → BlockCache (List BlockRecord)
      → Result (Option Value × BlockCache (List BlockRecord))
  unfolding find_block search_block
  search_one disk path index key cache = elim (find_block index key) [
    | none ↦ ok (none, cache)
    | some block ↦ search_block path block.offset disk key cache
  ]

  unfoldable pub search_candidates :
      Disk
      → Str
      → List SsTable
      → BlockCache (List BlockRecord)
      → Result (Option Value × BlockCache (List BlockRecord))
  unfolding search_one
  search_candidates disk key [] cache = ok (none, cache)
  search_candidates disk key (t ∷ ts) cache = do
    (found, cache') ← search_one disk t.path t.index key cache
    elim found [ some v ↦ ok (some v, cache') | none ↦ search_candidates disk key ts cache' ]

  -- `get_key` of a key that the memtable has not
  unfoldable pub read_tables : Str → Engine → Result (Option Value × Engine)
  unfolding candidates search_candidates
  read_tables key e = do
    in_l0 ← candidates key (reverse e.store.levels.l0)
    in_l1 ← candidates key (reverse e.store.levels.l1)
    in_l2 ← candidates key (reverse e.store.levels.l2)
    (found, cache) ← search_candidates e.store.disk key (in_l0 ++ (in_l1 ++ in_l2)) e.block_cache
    ok (found, record e { block_cache = cache })

  unfoldable pub get_key : Str → Engine → Result (Option Value × Engine)
  unfolding lookup read_tables
  get_key key e = elim (lookup key e.memtable) [
    | some v ↦ ok (some v, e)
    | none ↦ read_tables key e
  ]
