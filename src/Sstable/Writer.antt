-- ===== src/Sstable/Writer.antt =====
-- `SSTableWriter`: the file grows by compressed blocks, then the index, the Bloom filter and the footer.
pub mod Invariant
pub mod Steps
pub mod Append
pub mod Sorted
pub mod Written
use arch_db.Prelude.{
  ℕ, ◌+◌, ◌%◌, Bool, true, false, List, [], ◌∷◌, ◌++◌, ltb, length, not, if◌then◌else◌, Result, ok,
  panic, ◌>>=◌, ◌==◌, ◌&&◌,
}
use arch_db.Prelude.Str.{Str, str_lt, str_le}
use arch_db.Prelude.Bytes.{u32_mod, be32, le64}
use arch_db.Prelude.TreeMap
use arch_db.Prelude.TreeMap.{TreeMap}
use arch_db.Value.{Value, BlockRecord}
use arch_db.Bloom.{BloomFilter, insert}
use arch_db.Bloom.Serde.{with_rate, serialize_bloom}
use arch_db.Sstable.Formats.{Formats}
use arch_db.Sstable.Record.{serialize_record}
use arch_db.Sstable.Block.{magic, format_version, header_size, write_block}
use arch_db.Sstable.Index.{BlockMeta, SstableIndex, serialize_index}
use arch_db.Sstable.Footer

pub record SstableWriter : Type 0 where
  pub file : List ℕ
  pub offsets : TreeMap ℕ
  pub file_offset : ℕ
  pub current_block_offsets : TreeMap ℕ
  pub block_size : ℕ
  pub single_block : List ℕ
  pub blocks : List BlockMeta
  pub is_new_block : Bool
  pub bloom : BloomFilter

-- `BLOCK_SIZE`
abbrev pub block_limit : ℕ
block_limit = 40

-- `if let Some(last_block) = self.blocks.last_mut() { last_block.record_offset = … }`
unfoldable pub set_last : TreeMap ℕ → List BlockMeta → List BlockMeta
set_last entries [] = []
set_last entries (m ∷ []) = record m { record_offset = entries } ∷ []
set_last entries (m ∷ n ∷ ms) = m ∷ set_last entries (n ∷ ms)

-- `sort_by` on the start key, which is stable.
unfoldable pub insert_block : BlockMeta → List BlockMeta → List BlockMeta
insert_block m [] = m ∷ []
insert_block m (n ∷ ns) =
    if str_le m.start_key n.start_key then m ∷ n ∷ ns else n ∷ insert_block m ns

unfoldable pub sort_blocks : List BlockMeta → List BlockMeta
unfolding insert_block
sort_blocks [] = []
sort_blocks (m ∷ ms) = insert_block m (sort_blocks ms)

-- `is_sorted` of helper.rs
unfoldable pub is_sorted : List BlockRecord → Bool
is_sorted (a ∷ b ∷ rs) = str_lt a.key b.key && is_sorted (b ∷ rs)
is_sorted _ = true

module _ (env : Formats) where
  unfoldable pub new : ℕ → SstableWriter
  unfolding with_rate
  new expected_records = record {
    file = magic ++ be32 format_version;
    offsets = [];
    file_offset = header_size;
    current_block_offsets = [];
    block_size = 0;
    single_block = [];
    blocks = [];
    is_new_block = true;
    bloom =
        with_rate env.sizing ((if expected_records == 0 then 1 else expected_records) % u32_mod);
  }

  -- The part of `append` that closes the block which is full.
  unfoldable pub close_block : SstableWriter → Result SstableWriter
  unfolding write_block set_last
  close_block w = do
    (file, written) ← write_block env w.file w.single_block
    ok (record w {
      file = file;
      file_offset = w.file_offset + written;
      blocks = set_last w.current_block_offsets w.blocks;
      current_block_offsets = if length w.blocks == 0 then w.current_block_offsets else [];
      single_block = [];
      block_size = 0;
      is_new_block = true;
    })

  -- The part of `append` that starts a block.
  unfoldable pub open_block : Str → SstableWriter → SstableWriter
  open_block key w =
      if w.is_new_block
      then record w {
        blocks =
            w.blocks ++ record { start_key = key; offset = w.file_offset; record_offset = [] } ∷ [];
        is_new_block = false;
      }
      else w

  -- The part of `append` that adds the record to the open block.
  unfoldable pub add_record : Str → Value → SstableWriter → Result SstableWriter
  unfolding serialize_record insert
  add_record key value w = do
    let bytes = serialize_record env.crc key value
    let record_offset = w.file_offset + 12 + length w.single_block
    (bloom, _) ← insert env.hasher key w.bloom
    ok (record w {
      current_block_offsets = TreeMap.insert key record_offset w.current_block_offsets;
      offsets = TreeMap.insert key record_offset w.offsets;
      bloom = bloom;
      single_block = w.single_block ++ bytes;
      block_size = w.block_size + length bytes;
    })

  unfoldable pub append : Str → Value → SstableWriter → Result SstableWriter
  unfolding close_block open_block add_record
  append key value w = do
    roomy ←
        (if ltb block_limit (w.block_size + length (serialize_record env.crc key value))
          then close_block w
          else ok w)
    add_record key value (open_block key roomy)

  -- The part of `finish` that writes the last block.
  unfoldable pub close_last : SstableWriter → Result SstableWriter
  unfolding write_block set_last
  close_last w = if length w.single_block == 0 then ok w else do
    (file, _) ← write_block env w.file w.single_block
    ok (record w {
      file = file;
      blocks = set_last w.current_block_offsets w.blocks;
      current_block_offsets = if length w.blocks == 0 then w.current_block_offsets else [];
    })

  -- What `finish` writes after the blocks: the index, the Bloom filter, the footer and its length.
  unfoldable pub tail_bytes : List ℕ → SstableIndex → BloomFilter → List ℕ
  unfolding serialize_index serialize_bloom Footer.serialize
  tail_bytes file index bloom =
      let serialized_index = serialize_index index in
      let serialized_bloom = serialize_bloom env.bloom bloom in
      let footer_bytes = Footer.serialize (record {
        index_offset = length file;
        index_size = length serialized_index;
        bloom_offset = length file + length serialized_index;
        bloom_size = length serialized_bloom;
      }) in
      serialized_index ++ (serialized_bloom ++ (footer_bytes ++ le64 (length footer_bytes)))

  unfoldable pub finish : SstableWriter → Result (SstableIndex × SstableWriter)
  unfolding close_last sort_blocks tail_bytes
  finish w = do
    closed ← close_last w
    let blocks = sort_blocks closed.blocks
    let index : SstableIndex = record { offsets = closed.offsets; blocks = blocks }
    ok (
      index,
      record closed {
        blocks = blocks;
        file = closed.file ++ tail_bytes closed.file index closed.bloom;
      },
    )

  unfoldable pub append_all : List BlockRecord → SstableWriter → Result SstableWriter
  unfolding append
  append_all [] w = ok w
  append_all (r ∷ rs) w = do w' ← append r.key r.value w; append_all rs w'

  -- `write_sstable`: the file that it leaves, and the index that it returns.
  unfoldable pub write_sstable : List BlockRecord → Result (List ℕ × SstableIndex)
  unfolding is_sorted new append_all finish
  write_sstable records = if not (is_sorted records) then panic else do
    w ← append_all records (new (length records))
    (index, done) ← finish w
    ok (done.file, index)
