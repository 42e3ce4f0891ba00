-- ===== src/Tests/Engines.antt =====
-- The engine, opened again and asked, and a table that the manifest does not name.
use arch_db.Prelude.{
  ℕ, ◌<◌, ◌≡◌, refl, none, some, List, [], ◌∷◌, ◌++◌, arith, sym, subst, Result, ok, length,
}
use arch_db.Prelude.Str.{Str, codes, str_eq, str_cmp}
use arch_db.Prelude.Utf8.{is_utf8, from_utf8}
use arch_db.Prelude.TreeMap
use arch_db.Value.{tombstone, find, Value, BlockRecord}
use arch_db.Sstable.Index.Search.{all_records}
use arch_db.Command.{serialize}
use arch_db.Storage
use arch_db.Storage.{SyncPolicy, Files}
use arch_db.Storage.Frames.{AllLogged}
use arch_db.Storage.Recovery.{append_all, commands_of}
use arch_db.Cache
use arch_db.Sstable.Formats.{Disk}
use arch_db.Sstable.Writer.{write_sstable}
use arch_db.Manager.{Levels, contains_key_range}
use arch_db.Manager.Compaction.{Store}
use arch_db.Manager.Recovery.{load_orphans}
use arch_db.Engine.Ops.Orphans.{answer_of, with_levels, get_key-load_orphans}
use arch_db.Engine.Ops.{get_key}
use arch_db.Engine.Ops.{Engine}
use arch_db.Engine.Ops.Restart.{
  Write, putting, deleting, logged_calls, last_write, perform_all, storage-perform_all, Reopened,
  with_storage-perform_all,
}
use arch_db.Engine.Ops.{put, record_write, replay_command, maybe_flush}
use arch_db.Engine.Ops.Limits.{IsReady, call, call-IsReady}
use arch_db.Prelude.{Option}
use arch_db.Manager.{pick_l0}
use arch_db.Engine.{snapshot}
use arch_db.Engine.Ops.{flush_to_sstable}
use arch_db.Engine.Ops.Flushing.{IsFlushable, IsServing, get_key-flush_to_sstable}
use arch_db.Tests.Stores.{memtable, memtable-AllFitting, memtable-IsSorted}
use arch_db.Engine.Ops.Search.{Answers, get_key-AllServing}
use arch_db.Tests.Tables.{env, records}
use arch_db.Tests.Stores.{disk, levels, newer-Serves, older-Serves, older_records, bytes_of}

abbrev no_files : Files
no_files s = none

abbrev store : Store
store = record {
  disk = disk;
  levels = levels;
  manifest = record { log = none; checkpoint = none; operations = 0 };
  counter = 3;
}

-- An engine that flushes a memtable of two keys.
abbrev start : Engine
start = record {
  memtable = [];
  store = store;
  memtable_limit = 2;
  block_cache = Cache.new 64;
  storage = Storage.new 2 0 SyncPolicy.always no_files;
}

abbrev writes : List (ℕ × Write)
writes =
    (1, putting (codes "fig") (codes "red"))
    ∷ (2, putting (codes "kiwi") (codes "green"))
    ∷ (3, deleting (codes "fig"))
    ∷ []

writes-AllLogged : AllLogged env.crc (commands_of (logged_calls writes))
unfolding serialize is_utf8
writes-AllLogged = (
  record {
    is_record =
        (record { utf8 = refl; short = omega arith }, record { utf8 = refl; short = omega arith });
    short = omega arith;
  },
  (
    record {
      is_record = (
        record { utf8 = refl; short = omega arith },
        record { utf8 = refl; short = omega arith },
      );
      short = omega arith;
    },
    (record { is_record = record { utf8 = refl; short = omega arith }; short = omega arith }, tt),
  ),
)

log_segment : (append_all env.crc (logged_calls writes) start.storage).current_segment < 3
unfolding append_all Storage.new Storage.append serialize
log_segment = omega arith

last_segment : (perform_all env 50 writes start).storage.current_segment < 3
last_segment =
    subst (λ st. st.current_segment < 3) (sym (storage-perform_all env 50 writes start)) log_segment

-- The flush came between the two calls for the key.
with_storage-perform_all_example :
    Reopened env (perform_all env 50 writes start).storage.files 3 20 store (codes "fig") tombstone
unfolding last_write str_eq
with_storage-perform_all_example =
    with_storage-perform_all env 1 50 0 SyncPolicy.always no_files start writes 3 20 store
      (codes "fig") tombstone (λ s. refl) refl writes-AllLogged last_segment refl

call-IsReady_example : IsReady 2 (call env 50 (1, putting (codes "fig") (codes "red")) start).0
unfolding call put record_write replay_command maybe_flush TreeMap.insert
call-IsReady_example =
    call-IsReady env 50 (1, putting (codes "fig") (codes "red")) start tt (omega arith) refl

get_key-AllServing_example : Answers env (codes "melon") start (some tombstone)
unfolding find str_eq contains_key_range str_cmp TreeMap.lookup Cache.new
get_key-AllServing_example =
    get_key-AllServing env (codes "melon") start (records ∷ []) (older_records ∷ []) []
      (newer-Serves, tt) (older-Serves, tt) tt ((refl, (refl, (refl, tt))), tt) ((refl, tt), tt) tt
      tt

abbrev filled : Engine
filled = record start { memtable = memtable }

filled-IsFlushable : IsFlushable env (codes "3") filled
unfolding pick_l0 str_eq snapshot
filled-IsFlushable = record {
  sorted = memtable-IsSorted;
  short = omega arith;
  fitting = memtable-AllFitting;
  unused = refl;
  quiet = λ t. refl;
}

filled-IsServing : IsServing env filled (records ∷ []) (older_records ∷ []) []
unfolding contains_key_range str_cmp Cache.new
filled-IsServing = record {
  serving_l0 = (newer-Serves, tt);
  serving_l1 = (older-Serves, tt);
  serving_l2 = tt;
  ranged_l0 = ((refl, (refl, (refl, tt))), tt);
  ranged_l1 = ((refl, tt), tt);
  ranged_l2 = tt;
  faithful = tt;
}

get_key-flush_to_sstable_example :
    (found : Option Value) × (e : Engine) × Answers env (codes "kiwi") filled found
    × (flush_to_sstable env 50 (codes "3") filled ≡ (e, ok tt))
    × (e.memtable ≡ [])
    × Answers env (codes "kiwi") e found
    × (groups : List (List BlockRecord)) × (all_records groups
        ≡ snapshot filled.memtable ++ all_records (records ∷ []))
    × IsServing env e groups (older_records ∷ []) []
get_key-flush_to_sstable_example =
    get_key-flush_to_sstable env 50 (codes "3") filled (records ∷ []) (older_records ∷ []) []
      (codes "kiwi") filled-IsFlushable filled-IsServing

-- A disk with one table.
abbrev orphan_disk : Disk
orphan_disk path = some (bytes_of (write_sstable env older_records))

abbrev names : List Str
names = codes "notes.txt" ∷ codes "sst_l0_1.bin" ∷ []

abbrev levels_of : Result Levels → Levels
levels_of res = elim res [ ok m ↦ m | _ ↦ levels ]

orphan_loaded :
    load_orphans env orphan_disk [] names levels
    ≡ ok (levels_of (load_orphans env orphan_disk [] names levels))
unfolding load_orphans write_sstable str_eq TreeMap.insert arch_db.Prelude.Bytes.slice from_utf8
    is_utf8
orphan_loaded = refl

-- The table of `melon` is loaded, and `get_key` does not choose it.
get_key-load_orphans_example :
    answer_of (
      get_key env
        (codes "melon")
        (with_levels (levels_of (load_orphans env orphan_disk [] names levels)) start))
    ≡ answer_of (get_key env (codes "melon") start)
get_key-load_orphans_example =
    get_key-load_orphans env orphan_disk [] names start
      (levels_of (load_orphans env orphan_disk [] names levels)) b'm' (codes "elon") orphan_loaded
