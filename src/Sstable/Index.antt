-- ===== src/Sstable/Index.antt =====
-- The index of a table: its blocks, their binary form, and the search for the block of a key.
pub mod Codec
pub mod Search
use arch_db.Prelude.{
  ℕ, zero, suc, ◌+◌, Option, none, some, List, [], ◌∷◌, ◌++◌, length, drop, get_elem?, Bool, not,
  if◌then◌else◌, Result, ok, ◌>>=◌, unwrap,
}
use arch_db.Prelude.Str.{Str, str_le}
use arch_db.Prelude.Bytes.{be32, be64, read_be32, read_be64, slice}
use arch_db.Prelude.Utf8.{from_utf8}
use arch_db.Prelude.TreeMap
use arch_db.Prelude.TreeMap.{TreeMap}

pub record BlockMeta : Type 0 where
  pub start_key : Str
  pub offset : ℕ
  pub record_offset : TreeMap ℕ

pub record SstableIndex : Type 0 where
  pub offsets : TreeMap ℕ
  pub blocks : List BlockMeta

-- A key or a start key, with its length, and an offset.
unfoldable pub entry_bytes : Str → ℕ → List ℕ
entry_bytes key offset = be32 (length key) ++ key ++ be64 offset

unfoldable pub record_bytes : TreeMap ℕ → List ℕ
unfolding entry_bytes
record_bytes [] = []
record_bytes ((key, offset) ∷ entries) = entry_bytes key offset ++ record_bytes entries

unfoldable pub meta_bytes : BlockMeta → List ℕ
unfolding entry_bytes record_bytes
meta_bytes m =
    entry_bytes m.start_key m.offset
    ++ be32 (length m.record_offset)
    ++ record_bytes m.record_offset

unfoldable pub metas_bytes : List BlockMeta → List ℕ
unfolding meta_bytes
metas_bytes [] = []
metas_bytes (m ∷ ms) = meta_bytes m ++ metas_bytes ms

unfoldable pub serialize_index : SstableIndex → List ℕ
unfolding metas_bytes
serialize_index index = be32 (length index.blocks) ++ metas_bytes index.blocks

-- The key and the offset at `bytes`, which stands for `bytes[i..]`, and the bytes after them.
unfoldable pub read_entry : List ℕ → Result (Str × ℕ × List ℕ)
read_entry bytes = do
  key_len ← read_be32 bytes 0
  raw ← slice bytes 4 (4 + key_len)
  key ← unwrap (from_utf8 raw)
  let later = drop (4 + key_len) bytes
  offset ← read_be64 later 0
  ok (key, offset, drop 8 later)

-- `for _ in 0..record_count`
unfoldable pub read_offsets : ℕ → List ℕ → TreeMap ℕ → Result (TreeMap ℕ × List ℕ)
unfolding read_entry
read_offsets zero bytes record_offset = ok (record_offset, bytes)
read_offsets (suc count) bytes record_offset = do
  (key, offset, later) ← read_entry bytes
  read_offsets count later (TreeMap.insert key offset record_offset)

-- `for _ in 0..block_count`
unfoldable pub read_metas : ℕ → List ℕ → Result (List BlockMeta)
unfolding read_entry read_offsets
read_metas zero bytes = ok []
read_metas (suc count) bytes = do
  (start_key, offset, later) ← read_entry bytes
  record_count ← read_be32 later 0
  (record_offset, rest) ← read_offsets record_count (drop 4 later) []
  blocks ← read_metas count rest
  ok (record { start_key = start_key; offset = offset; record_offset = record_offset } ∷ blocks)

unfoldable pub deserialize_index : List ℕ → Result SstableIndex
unfolding read_metas
deserialize_index bytes = do
  block_count ← read_be32 bytes 0
  blocks ← read_metas block_count (drop 4 bytes)
  ok (record { offsets = []; blocks = blocks })

-- The loop of `find_block_index`, at the block `i`.
unfoldable pub candidate_loop : Str → ℕ → List BlockMeta → Option ℕ → Option ℕ
candidate_loop key i [] candidate = candidate
candidate_loop key i (m ∷ ms) candidate =
    if str_le m.start_key key then candidate_loop key (i + 1) ms (some i) else candidate

unfoldable pub find_block_index : SstableIndex → Str → Option ℕ
unfolding candidate_loop
find_block_index index key = candidate_loop key 0 index.blocks none

unfoldable pub find_block : SstableIndex → Str → Option BlockMeta
unfolding find_block_index
find_block index key = elim (find_block_index index key) [
  | none ↦ none
  | some block_index ↦ get_elem? index.blocks block_index
]
