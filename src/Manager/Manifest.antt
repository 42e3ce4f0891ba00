-- ===== src/Manager/Manifest.antt =====
-- The manifest of sstable_manager.rs: the log of the tables that were added and removed, a line for each.
pub mod Lines
pub mod RoundTrip
use arch_db.Prelude.{
  ℕ, zero, suc, ◌+◌, Bool, true, false, ◌&&◌, ◌||◌, Option, none, some, List, [], ◌∷◌, ◌++◌, length,
  leb, ◌==◌, if◌then◌else◌, Result, ok, err, ◌>>=◌, io, invalid_data,
}
use mathlib.Core.List.{reverse}
use arch_db.Prelude.Str.{Str, codes, str_eq}
use arch_db.Prelude.Utf8.{from_utf8}
use arch_db.Prelude.Text.{split, strip_prefix}
use arch_db.Prelude.Decimal.{decimal, parse_u64}
use arch_db.Manager.{Level, SsTable, Levels}

pub data ManifestRecord : Type 0 where
  add_table : Level → Str → Str → Str → ℕ → ManifestRecord
  remove_table : Str → ManifestRecord

-- `{:?}` of a level
unfoldable pub level_text : Level → Str
level_text Level.l0 = codes "L0"
level_text Level.l1 = codes "L1"
level_text Level.l2 = codes "L2"

-- What `serialize` writes, without the end of the line.
unfoldable pub line_of : ManifestRecord → Str
unfolding level_text
line_of (add_table level path min_key max_key file_size) =
    codes "ADD|"
    ++ (level_text level
        ++ b'|' ∷ (path ++ b'|' ∷ (min_key ++ b'|' ∷ (max_key ++ b'|' ∷ decimal file_size))))
line_of (remove_table path) = codes "REMOVE|" ++ path

unfoldable pub serialize : ManifestRecord → Str
unfolding line_of
serialize r = line_of r ++ 10 ∷ []

-- The encodings of the characters with the property White_Space.
abbrev pub whites : List Str
whites =
    (9 ∷ [])
    ∷ (10 ∷ [])
    ∷ (11 ∷ [])
    ∷ (12 ∷ [])
    ∷ (13 ∷ [])
    ∷ (32 ∷ [])
    ∷ (194 ∷ 133 ∷ [])
    ∷ (194 ∷ 160 ∷ [])
    ∷ (225 ∷ 154 ∷ 128 ∷ [])
    ∷ (226 ∷ 128 ∷ 128 ∷ [])
    ∷ (226 ∷ 128 ∷ 129 ∷ [])
    ∷ (226 ∷ 128 ∷ 130 ∷ [])
    ∷ (226 ∷ 128 ∷ 131 ∷ [])
    ∷ (226 ∷ 128 ∷ 132 ∷ [])
    ∷ (226 ∷ 128 ∷ 133 ∷ [])
    ∷ (226 ∷ 128 ∷ 134 ∷ [])
    ∷ (226 ∷ 128 ∷ 135 ∷ [])
    ∷ (226 ∷ 128 ∷ 136 ∷ [])
    ∷ (226 ∷ 128 ∷ 137 ∷ [])
    ∷ (226 ∷ 128 ∷ 138 ∷ [])
    ∷ (226 ∷ 128 ∷ 168 ∷ [])
    ∷ (226 ∷ 128 ∷ 169 ∷ [])
    ∷ (226 ∷ 128 ∷ 175 ∷ [])
    ∷ (226 ∷ 129 ∷ 159 ∷ [])
    ∷ (227 ∷ 128 ∷ 128 ∷ [])
    ∷ []

abbrev pub reversed_whites : List Str → List Str
reversed_whites [] = []
reversed_whites (w ∷ ws) = reverse w ∷ reversed_whites ws

-- The text behind the first of the prefixes that it has.
unfoldable pub strip_any : List Str → Str → Option Str
unfolding strip_prefix
strip_any [] s = none
strip_any (w ∷ ws) s = elim (strip_prefix w s) [ some rest ↦ some rest | none ↦ strip_any ws s ]

-- A round takes a character, so that the length is fuel enough.
unfoldable pub strip_all : ℕ → List Str → Str → Str
unfolding strip_any
strip_all zero ws s = s
strip_all (suc fuel) ws s = elim (strip_any ws s) [ some rest ↦ strip_all fuel ws rest | none ↦ s ]

-- `line.trim()`
unfoldable pub trim : Str → Str
unfolding strip_all
trim s =
    let front = strip_all (length s) whites s in
    reverse (strip_all (length front) (reversed_whites whites) (reverse front))

unfoldable pub read_level : Str → Option Level
read_level s =
    if str_eq s (codes "L0")
    then some Level.l0
    else if str_eq s (codes "L1")
    then some Level.l1
    else if str_eq s (codes "L2")
    then some Level.l2
    else none

unfoldable pub read_add : Str → Str → Str → Str → Str → Option ManifestRecord
unfolding read_level parse_u64
read_add level path min_key max_key file_size = elim (read_level level) [
  | none ↦ none
  | some l ↦ elim (parse_u64 file_size) [
    | none ↦ none
    | some n ↦ some (add_table l path min_key max_key n)
  ]
]

-- The parts of a line, by their number and the first of them.
unfoldable pub read_parts : List Str → Option ManifestRecord
unfolding read_add
read_parts (kind ∷ path ∷ []) =
    if str_eq kind (codes "REMOVE") then some (remove_table path) else none
read_parts (kind ∷ level ∷ path ∷ min_key ∷ max_key ∷ file_size ∷ []) =
    if str_eq kind (codes "ADD") then read_add level path min_key max_key file_size else none
read_parts _ = none

unfoldable pub deserialize : Str → Option ManifestRecord
unfolding trim split read_parts
deserialize line = read_parts (split b'|' (trim line))

-- Without the `\r` at its end
unfoldable pub strip_cr : Str → Str
strip_cr [] = []
strip_cr (c ∷ []) = if c == 13 then [] else c ∷ []
strip_cr (c ∷ d ∷ s) = c ∷ strip_cr (d ∷ s)

-- The lines of `reader.lines()`, from the parts between the ends of lines.
unfoldable pub lines_of : List Str → List Str
unfolding strip_cr
lines_of [] = []
lines_of ([] ∷ []) = []
lines_of ((c ∷ s) ∷ []) = (c ∷ s) ∷ []
lines_of (p ∷ q ∷ ps) = strip_cr p ∷ lines_of (q ∷ ps)

unfoldable pub read_lines : List Str → Result (List ManifestRecord)
unfolding deserialize
read_lines [] = ok []
read_lines (line ∷ lines) = elim (from_utf8 line) [
  | none ↦ err (io invalid_data)
  | some s ↦ do
    records ← read_lines lines
    ok (elim (deserialize s) [ some r ↦ r ∷ records | none ↦ records ])
]

-- `load_log`, and likewise `load_checkpoint`; `none` is a file that does not exist.
unfoldable pub load_log : Option (List ℕ) → Result (List ManifestRecord)
unfolding split lines_of read_lines
load_log none = ok []
load_log (some file) = read_lines (lines_of (split 10 file))

-- The log file, created when it does not exist, and the count of operations
pub record Manifest : Type 0 where
  pub log : Option (List ℕ)
  pub checkpoint : Option (List ℕ)
  pub operations : ℕ

abbrev bytes_of : Option (List ℕ) → List ℕ
bytes_of file = elim file [ none ↦ [] | some bytes ↦ bytes ]

unfoldable pub append : ManifestRecord → Manifest → Manifest
unfolding serialize
append r m = record m { log = some (bytes_of m.log ++ serialize r); operations = m.operations + 1 }

unfoldable pub clear_log : Manifest → Manifest
clear_log m = record m { log = some []; operations = 0 }

unfoldable pub table_records : List SsTable → List ℕ
unfolding serialize
table_records [] = []
table_records (t ∷ ts) =
    serialize (add_table t.level t.path t.min_key t.max_key t.file_size) ++ table_records ts

unfoldable pub write_checkpoint : List SsTable → Manifest → Manifest
unfolding table_records
write_checkpoint tables m = record m { checkpoint = some (table_records tables) }

-- `MANIFEST_CHECKPOINT_INTERVAL`
unfoldable pub should_checkpoint : Manifest → Bool
should_checkpoint m = leb 10 m.operations

-- `checkpoint_manifest` of the manager
unfoldable pub checkpoint_manifest : Levels → Manifest → Manifest
unfolding write_checkpoint clear_log
checkpoint_manifest levels m =
    clear_log (write_checkpoint (levels.l0 ++ (levels.l1 ++ levels.l2)) m)
