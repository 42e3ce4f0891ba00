-- ===== src/Tests/Stores.antt =====
-- The levels of tables and the flush, with the tables of Tables.
use arch_db.Prelude.{
  ℕ, ◌≡◌, refl, true, none, some, List, [], ◌∷◌, ◌++◌, arith, length, if◌then◌else◌, Result, ok,
}
use arch_db.Prelude.Str.{codes, str_cmp, str_eq}
use arch_db.Prelude.Utf8.{is_utf8, from_utf8}
use arch_db.Prelude.Bytes.{slice}
use arch_db.Prelude.TreeMap.{insert, TreeMap, lookup, IsSorted}
use arch_db.Value.{Value, data_of, tombstone, keys, BlockRecord, find}
use arch_db.Bloom.{BloomFilter, contains}
use arch_db.Bloom.Membership.{Reports}
use arch_db.Sstable.Formats.{Disk}
use arch_db.Sstable.Record.{serialize_record}
use arch_db.Sstable.Writer.{is_sorted, write_sstable}
use arch_db.Sstable.Writer.Sorted.{is_sorted-Ordered}
use arch_db.Sstable.Writer.Append.{AllFitting}
use arch_db.Sstable.Writer.Written.{Output, write_sstable-AllFitting}
use arch_db.Sstable.Index.{SstableIndex}
use arch_db.Sstable.Reader.{read_sstable}
use arch_db.Manager.{Level, SsTable, Levels, get, merge_all}
use arch_db.Manager.Reads.{Serves, get-AllServing}
use arch_db.Manager.Merge.{AllRead, lookup-merge_all}
use arch_db.Iterators.{MemtableIterator}
use arch_db.Iterators.Range.{At, collect, range, in_range, collect-in_range}
use arch_db.Engine.{snapshot}
use arch_db.Engine.Flush.{Flushed, add_memtable-Flushed}
use arch_db.Tests.Tables.{env, records, records_sorted, table}

abbrev pub older_records : List BlockRecord
older_records = record { key = codes "melon"; value = data_of (codes "yellow") } ∷ []

pub older-AllFitting : AllFitting env older_records
unfolding is_utf8 serialize_record
older-AllFitting = (
  record {
    key_text = record { utf8 = refl; short = omega arith };
    value_text = record { utf8 = refl; short = omega arith };
  },
  omega arith,
  tt,
)

pub older_sorted : is_sorted older_records ≡ true
unfolding is_sorted
older_sorted = refl

abbrev older : Output env (write_sstable env older_records) older_records
older = write_sstable-AllFitting env older_records older_sorted (omega arith) older-AllFitting

abbrev pub disk : Disk
disk path =
    if str_eq path (codes "1")
    then some older.file
    else if str_eq path (codes "2")
    then some table.file
    else none

-- A filter of one bit, which reports every key.
abbrev one_bit : BloomFilter
one_bit = record { bits = true ∷ []; num_hashes = 2; exact_num_bits = 1 }

abbrev older_table : SsTable
older_table = record {
  path = codes "1";
  index = older.index;
  bloom = one_bit;
  level = Level.l1;
  min_key = codes "melon";
  max_key = codes "melon";
  file_size = length older.file;
}

abbrev newer_table : SsTable
newer_table = record {
  path = codes "2";
  index = table.index;
  bloom = one_bit;
  level = Level.l0;
  min_key = codes "apple";
  max_key = codes "pear";
  file_size = length table.file;
}

abbrev pub levels : Levels
levels = record { l0 = newer_table ∷ []; l1 = older_table ∷ []; l2 = [] }

one_bit-Reports : Reports env.hasher one_bit (keys records)
unfolding contains
one_bit-Reports = (refl, (refl, (refl, tt)))

older-Reports : Reports env.hasher one_bit (keys older_records)
unfolding contains
older-Reports = (refl, tt)

pub newer-Serves : Serves env disk newer_table records
unfolding str_eq
newer-Serves = record {
  file = table.file;
  on_disk = refl;
  written = table.written;
  ordered = is_sorted-Ordered records records_sorted;
  bits_some = omega arith;
  reports = one_bit-Reports;
}

pub older-Serves : Serves env disk older_table older_records
unfolding str_eq
older-Serves = record {
  file = older.file;
  on_disk = refl;
  written = older.written;
  ordered = is_sorted-Ordered older_records older_sorted;
  bits_some = omega arith;
  reports = older-Reports;
}

get-AllServing_example : get env disk (codes "melon") levels ≡ ok (some tombstone)
unfolding find str_eq
get-AllServing_example =
    get-AllServing env disk (codes "melon") levels (records ∷ []) (older_records ∷ []) []
      (newer-Serves, tt) (older-Serves, tt) tt

abbrev pub memtable : TreeMap Value
memtable = (codes "apple", tombstone) ∷ (codes "kiwi", data_of (codes "green")) ∷ []

pub memtable-AllFitting : AllFitting env (snapshot memtable)
unfolding is_utf8 serialize_record snapshot
memtable-AllFitting = (
  record {
    key_text = record { utf8 = refl; short = omega arith };
    value_text = record { utf8 = refl; short = omega arith };
  },
  omega arith,
  (
    record {
      key_text = record { utf8 = refl; short = omega arith };
      value_text = record { utf8 = refl; short = omega arith };
    },
    omega arith,
    tt,
  ),
)

pub memtable-IsSorted : IsSorted memtable
unfolding str_cmp
memtable-IsSorted = ((refl, tt), (tt, tt))

add_memtable-Flushed_example :
    Flushed env disk (codes "3") memtable levels (records ++ older_records) (codes "melon")
unfolding str_eq snapshot
add_memtable-Flushed_example =
    add_memtable-Flushed env disk (codes "3") memtable levels (records ∷ []) (older_records ∷ []) []
      (codes "melon") memtable-IsSorted (omega arith) memtable-AllFitting refl (newer-Serves, tt)
      (older-Serves, tt) tt

-- The bytes that are written, to be read as a whole.
abbrev pub bytes_of : Result (List ℕ × SstableIndex) → List ℕ
bytes_of res = elim res [ ok out ↦ out.0 | _ ↦ [] ]

abbrev deletion : List BlockRecord
deletion = record { key = codes "melon"; value = tombstone } ∷ []

abbrev whole_disk : Disk
whole_disk path =
    some
      (bytes_of (write_sstable env (if str_eq path (codes "1") then older_records else deletion)))

deletion-AllRead :
    AllRead env whole_disk (newer_table ∷ older_table ∷ []) (deletion ∷ older_records ∷ [])
unfolding read_sstable write_sstable insert slice from_utf8 is_utf8 str_eq
deletion-AllRead = (refl, (refl, tt))

-- The newer table deleted the key, and what the older one has for it is kept.
lookup-merge_all_example :
    (merged : TreeMap Value) × (merge_all env whole_disk levels ≡ ok merged)
    × IsSorted merged
    × (lookup (codes "melon") merged ≡ some (data_of (codes "yellow")))
unfolding find str_eq
lookup-merge_all_example =
    lookup-merge_all env whole_disk levels (deletion ∷ older_records ∷ []) (codes "melon")
      deletion-AllRead

abbrev iterator : MemtableIterator
iterator = record { records = records; position = 0 }

iterator-At : At iterator records
iterator-At = record { before = []; all = refl; here = refl }

collect-in_range_example :
    collect 4 4 (range iterator (codes "b") (codes "p"))
    ≡ ok (record { key = codes "melon"; value = tombstone } ∷ [])
unfolding in_range str_cmp
collect-in_range_example =
    collect-in_range records iterator (codes "b") (codes "p") 4 4 iterator-At
      (is_sorted-Ordered records records_sorted) (omega arith) (omega arith)
