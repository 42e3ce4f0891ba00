-- ===== src/Manager/Recovery.antt =====
-- The tables as they are found when the program starts: `load_table_metadata` of sstable_manager.rs, and the
-- part of main.rs that loads the checkpoint, the log, and the tables that neither of them names. The names
-- of the files in the directory are an argument.
pub mod Orphans
use arch_db.Prelude.{
  ℕ, Bool, true, false, not, ◌||◌, ◌&&◌, Option, none, some, List, [], ◌∷◌, ◌++◌, length,
  if◌then◌else◌, Result, ok, err, panic, ◌>>=◌,
}
use mathlib.Core.List.{reverse}
use arch_db.Prelude.Str.{Str, codes, str_eq}
use arch_db.Prelude.Text.{strip_prefix}
use arch_db.Prelude.TreeMap.{TreeMap}
use arch_db.Sstable.Formats.{Formats, Disk}
use arch_db.Sstable.Footer.{load_index_from_footer, load_bloom_from_footer}
use arch_db.Manager.{Level, SsTable, Levels, register_table}
use arch_db.Manager.Manifest.{ManifestRecord, add_table, remove_table, Manifest, load_log}

unfoldable pub first_offset : TreeMap ℕ → Str
first_offset [] = []
first_offset ((key, offset) ∷ m) = key

unfoldable pub last_offset : TreeMap ℕ → Str
last_offset [] = []
last_offset ((key, offset) ∷ []) = key
last_offset ((key, offset) ∷ e ∷ m) = last_offset (e ∷ m)

abbrev pub starts_with : Str → Str → Bool
starts_with prefix s = elim (strip_prefix prefix s) [ none ↦ false | some later ↦ true ]

-- `name.starts_with("sst_") && name.ends_with(".bin")`
unfoldable pub is_table_name : Str → Bool
unfolding strip_prefix
is_table_name name =
    starts_with (codes "sst_") name && starts_with (reverse (codes ".bin")) (reverse name)

unfoldable pub is_known : Str → List SsTable → Bool
unfolding str_eq
is_known name [] = false
is_known name (t ∷ ts) = str_eq t.path name || is_known name ts

module _ (env : Formats) where
  -- `none` where the file is passed over, for it is missing or its footer cannot be read.
  unfoldable pub load_metadata : Disk → Str → Level → Str → Str → ℕ → Result (Option SsTable)
  unfolding load_index_from_footer load_bloom_from_footer
  load_metadata disk path level min_key max_key file_size = elim (disk path) [
    | none ↦ ok none
    | some file ↦ elim (load_index_from_footer file) [
      | panic ↦ panic
      | err why ↦ ok none
      | ok index ↦ elim (load_bloom_from_footer env file) [
        | panic ↦ panic
        | err why ↦ ok none
        | ok bloom ↦ ok (
            some (record {
              path = path;
              index = index;
              bloom = bloom;
              level = level;
              min_key = min_key;
              max_key = max_key;
              file_size = file_size;
            }))
      ]
    ]
  ]

  abbrev registered : Levels → Option SsTable → Levels
  registered m found = elim found [ none ↦ m | some t ↦ register_table t m ]

  unfoldable pub load_table_metadata : Disk → Str → Level → Str → Str → ℕ → Levels → Result Levels
  unfolding load_metadata register_table
  load_table_metadata disk path level min_key max_key file_size m = do
    found ← load_metadata disk path level min_key max_key file_size
    ok (registered m found)

  -- The loop over the records of a file of the manifest
  unfoldable pub load_records : Disk → List ManifestRecord → Levels → Result Levels
  unfolding load_table_metadata
  load_records disk [] m = ok m
  load_records disk (add_table level path min_key max_key file_size ∷ rs) m = do
    m' ← load_table_metadata disk path level min_key max_key file_size m
    load_records disk rs m'
  load_records disk (remove_table path ∷ rs) m = load_records disk rs m

  -- A file of the manifest that cannot be read is passed over.
  unfoldable pub load_file : Disk → Option (List ℕ) → Levels → Result Levels
  unfolding load_log load_records
  load_file disk file m = elim (load_log file) [
    | panic ↦ panic
    | err why ↦ ok m
    | ok records ↦ load_records disk records m
  ]

  -- A table that the manifest does not name.
  unfoldable pub load_orphan : Disk → Str → Levels → Result Levels
  unfolding load_index_from_footer load_bloom_from_footer first_offset last_offset
  load_orphan disk name m = elim (disk name) [
    | none ↦ ok m
    | some file ↦ elim (load_index_from_footer file) [
      | panic ↦ panic
      | err why ↦ ok m
      | ok index ↦ elim (load_bloom_from_footer env file) [
        | panic ↦ panic
        | err why ↦ ok m
        | ok bloom ↦
            let t : SsTable = record {
              path = name;
              index = index;
              bloom = bloom;
              level = Level.l0;
              min_key = first_offset index.offsets;
              max_key = last_offset index.offsets;
              file_size = length file;
            } in
            ok (record m { l0 = m.l0 ++ t ∷ [] })
      ]
    ]
  ]

  -- The loop over the directory; `known` are the tables when it begins.
  unfoldable pub load_orphans : Disk → List SsTable → List Str → Levels → Result Levels
  unfolding is_table_name is_known load_orphan
  load_orphans disk known [] m = ok m
  load_orphans disk known (name ∷ names) m =
      if not (is_table_name name) || is_known name known
      then load_orphans disk known names m
      else (load_orphan disk name m >>= load_orphans disk known names)

  unfoldable pub recover : Disk → Manifest → List Str → Levels → Result Levels
  unfolding load_file load_orphans
  recover disk manifest names m = do
    m' ← load_file disk manifest.checkpoint m
    m'' ← load_file disk manifest.log m'
    load_orphans disk (m''.l0 ++ (m''.l1 ++ m''.l2)) names m''
