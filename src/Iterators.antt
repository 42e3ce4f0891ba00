-- ===== src/Iterators.antt =====
-- storage_iterator.rs, memtable_iterator.rs and range_iterator.rs: the iterators over records.
pub mod Range
pub mod Merging
use arch_db.Prelude.{
  ℕ, zero, suc, ◌+◌, Bool, Option, none, some, List, [], ◌∷◌, get_elem?, if◌then◌else◌, Result, ok,
  ◌>>=◌,
}
use arch_db.Prelude.Str.{Str, str_lt, str_le}
use arch_db.Prelude.TreeMap.{TreeMap}
use arch_db.Value.{Value, BlockRecord}

-- The trait: `next` and `peek` with the iterator after them.
pub record StorageIterator (It : Type 0) : Type 0 where
  pub next : It → Result (Option BlockRecord × It)
  pub peek : It → Result (Option BlockRecord × It)

pub record MemtableIterator : Type 0 where
  pub records : List BlockRecord
  pub position : ℕ

-- `MemtableIterator::new` and `from_range`, of the entries in their order
unfoldable pub from_entries : TreeMap Value → List BlockRecord
from_entries [] = []
from_entries ((key, value) ∷ entries) = record { key = key; value = value } ∷ from_entries entries

unfoldable pub from_range : TreeMap Value → MemtableIterator
unfolding from_entries
from_range entries = record { records = from_entries entries; position = 0 }

unfoldable pub memtable_peek : MemtableIterator → Result (Option BlockRecord × MemtableIterator)
memtable_peek it = ok (get_elem? it.records it.position, it)

unfoldable pub memtable_next : MemtableIterator → Result (Option BlockRecord × MemtableIterator)
unfolding memtable_peek
memtable_next it = do
  (found, it') ← memtable_peek it
  ok (found, elim found [ none ↦ it' | some r ↦ record it' { position = it'.position + 1 } ])

abbrev pub memtable_iterator : StorageIterator MemtableIterator
memtable_iterator = record { next = memtable_next; peek = memtable_peek }

pub record RangeStorageIterator (It : Type 0) : Type 0 where
  pub inner : It
  pub start : Str
  pub end : Str

module _ {It : Type 0} (inner : StorageIterator It) where
  -- The loop passes over records before `start`: their number is fuel enough.
  unfoldable pub range_next :
      ℕ → RangeStorageIterator It → Result (Option BlockRecord × RangeStorageIterator It)
  range_next zero it = ok (none, it)
  range_next (suc fuel) it = do
    (found, rest) ← inner.next it.inner
    elim found [
      | none ↦ ok (none, record it { inner = rest })
      | some r ↦
          let later = range_next fuel (record it { inner = rest }) in
          if str_lt r.key it.start
          then later
          else if str_le it.end r.key
          then ok (none, record it { inner = rest })
          else ok (some r, record it { inner = rest })
    ]

  unfoldable pub range_peek :
      RangeStorageIterator It → Result (Option BlockRecord × RangeStorageIterator It)
  range_peek it = do
    (found, rest) ← inner.peek it.inner
    elim found [
      | none ↦ ok (none, record it { inner = rest })
      | some r ↦
          if str_lt r.key it.start
          then ok (none, record it { inner = rest })
          else if str_le it.end r.key
          then ok (none, record it { inner = rest })
          else ok (some r, record it { inner = rest })
    ]
