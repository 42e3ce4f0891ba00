-- ===== src/Sstable/Index/Codec.antt =====
-- `deserialize_index` reads back the blocks that `serialize_index` wrote.
use arch_db.Prelude.{
  ℕ, suc, ◌+◌, ◌<◌, ◌≡◌, refl, List, [], ◌∷◌, ◌++◌, arith, length, append-nil, append_assoc, drop,
  ap, ◌∙◌, ok, some,
}
use arch_db.Prelude.Str.{Str}
use arch_db.Prelude.Bytes.{
  u32_mod, u64_mod, be32, be64, read_be32, read_be64, read_be32-be32, read_be64-be64, slice,
  slice_of, drop_of,
}
use arch_db.Prelude.Utf8.{from_utf8, from_utf8-some}
use arch_db.Prelude.TreeMap.{TreeMap, IsSorted, insert_last}
use arch_db.Command.Codec.{IsText}
use arch_db.Sstable.Index.{
  BlockMeta, SstableIndex, entry_bytes, record_bytes, meta_bytes, metas_bytes, serialize_index,
  read_entry, read_offsets, read_metas, deserialize_index,
}

four_assoc : (a b c d : List ℕ) → ((a ++ b) ++ c) ++ d ≡ a ++ (b ++ (c ++ d))
four_assoc a b c d = simp append_assoc

entry_step :
    (bytes later : List ℕ) (key : Str) (offset : ℕ)
    → read_be32 bytes 0 ≡ ok (length key)
    → slice bytes 4 (4 + length key) ≡ ok key
    → from_utf8 key ≡ some key
    → drop (4 + length key) bytes ≡ later
    → read_be64 later 0 ≡ ok offset
    → read_entry bytes ≡ ok (key, offset, drop 8 later)
unfolding read_entry
entry_step bytes later key offset a b c d e = rw (a, b, c, d, e) refl

entry_split :
    (key : Str) (offset : ℕ) (rest : List ℕ)
    → entry_bytes key offset ++ rest ≡ be32 (length key) ++ (key ++ (be64 offset ++ rest))
unfolding entry_bytes
entry_split key offset rest = ap (λ s. be32 (length key) ++ s) (append_assoc key (be64 offset) rest)

read_entry-entry_bytes :
    (key : Str) (offset : ℕ) (rest : List ℕ)
    → IsText key
    → offset < u64_mod
    → read_entry (entry_bytes key offset ++ rest) ≡ ok (key, offset, rest)
read_entry-entry_bytes key offset rest t lt =
    let later = be64 offset ++ rest in
    let bytes = be32 (length key) ++ (key ++ later) in
    rw (entry_split key offset rest) (
      entry_step bytes later key offset (read_be32-be32 (length key) (key ++ later) t.short)
        (slice_of bytes (be32 (length key)) key later 4 (4 + length key) refl refl refl)
        (from_utf8-some key t.utf8)
        (drop_of bytes (be32 (length key) ++ key) later (4 + length key) refl (omega arith))
        (read_be64-be64 offset rest lt))

-- The keys are texts, and the offsets fit a `u64`.
abbrev pub AreEntries : TreeMap ℕ → Type 0
AreEntries [] = Unit {0}
AreEntries ((key, offset) ∷ entries) = IsText key × (offset < u64_mod) × AreEntries entries

-- The entries of a sorted map, inserted in order after smaller ones.
read_offsets-record_bytes :
    (entries before : TreeMap ℕ) (rest : List ℕ)
    → AreEntries entries
    → IsSorted (before ++ entries)
    → read_offsets (length entries) (record_bytes entries ++ rest) before
      ≡ ok (before ++ entries, rest)
unfolding read_offsets record_bytes
read_offsets-record_bytes [] before rest a s = rw append-nil
read_offsets-record_bytes ((key, offset) ∷ entries) before rest a s =
    rw
      (
        append_assoc (entry_bytes key offset) (record_bytes entries) rest,
        read_entry-entry_bytes key offset (record_bytes entries ++ rest) a.0 a.1,
        insert_last key offset before entries s,
      )
      (read_offsets-record_bytes entries (before ++ (key, offset) ∷ []) rest a.2 (rw append_assoc s)
        ∙ rw append_assoc)

-- A block whose texts and numbers fit their fields, with its entries in order.
pub record IsMeta (m : BlockMeta) : Type 0 where
  pub start_text : IsText m.start_key
  pub offset_short : m.offset < u64_mod
  pub entries : AreEntries m.record_offset
  pub count : length m.record_offset < u32_mod
  pub sorted : IsSorted m.record_offset

abbrev pub AllMetas : List BlockMeta → Type 0
AllMetas [] = Unit {0}
AllMetas (m ∷ ms) = IsMeta m × AllMetas ms

meta_step :
    (count : ℕ) (bytes later rest : List ℕ) (m : BlockMeta) (ms : List BlockMeta)
    → read_entry bytes ≡ ok (m.start_key, m.offset, later)
    → read_be32 later 0 ≡ ok (length m.record_offset)
    → read_offsets (length m.record_offset) (drop 4 later) [] ≡ ok (m.record_offset, rest)
    → read_metas count rest ≡ ok ms
    → read_metas (suc count) bytes ≡ ok (m ∷ ms)
unfolding read_metas
meta_step count bytes later rest m ms a b c d = rw (a, b, c, d) refl

meta_split :
    (m : BlockMeta) (tail : List ℕ)
    → meta_bytes m ++ tail
      ≡ entry_bytes m.start_key m.offset
        ++ (be32 (length m.record_offset) ++ (record_bytes m.record_offset ++ tail))
unfolding meta_bytes
meta_split m tail =
    four_assoc (entry_bytes m.start_key m.offset) (be32 (length m.record_offset))
      (record_bytes m.record_offset) tail

read_metas-metas_bytes :
    (ms : List BlockMeta) → AllMetas ms → read_metas (length ms) (metas_bytes ms) ≡ ok ms
unfolding metas_bytes
read_metas-metas_bytes [] a = unfold read_metas in refl
read_metas-metas_bytes (m ∷ ms) a =
    let later = record_bytes m.record_offset ++ metas_bytes ms in
    let h = a.0 in
    rw (meta_split m (metas_bytes ms)) (
      meta_step (length ms) _ (be32 (length m.record_offset) ++ later) (metas_bytes ms) m ms
        (read_entry-entry_bytes m.start_key m.offset (be32 (length m.record_offset) ++ later)
          h.start_text h.offset_short)
        (read_be32-be32 (length m.record_offset) later h.count)
        (read_offsets-record_bytes m.record_offset [] (metas_bytes ms) h.entries h.sorted)
        (read_metas-metas_bytes ms a.1))

deserialize_step :
    (bytes : List ℕ) (count : ℕ) (ms : List BlockMeta)
    → read_be32 bytes 0 ≡ ok count
    → read_metas count (drop 4 bytes) ≡ ok ms
    → deserialize_index bytes ≡ ok (record { offsets = []; blocks = ms })
unfolding deserialize_index
deserialize_step bytes count ms a b = rw (a, b) refl

-- Of an index whose texts and numbers fit their fields, the blocks are read back from its bytes.
pub deserialize_index-serialize_index :
    (index : SstableIndex)
    → AllMetas index.blocks
    → length index.blocks < u32_mod
    → deserialize_index (serialize_index index)
      ≡ ok (record { offsets = []; blocks = index.blocks })
unfolding serialize_index
deserialize_index-serialize_index index a short =
    deserialize_step _ (length index.blocks) index.blocks
      (read_be32-be32 (length index.blocks) (metas_bytes index.blocks) short)
      (read_metas-metas_bytes index.blocks a)
