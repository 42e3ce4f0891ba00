-- ===== src/Sstable/Reader.antt =====
-- Reading a table: one block, one key, all records, and the iterator.
use arch_db.Prelude.{
  ℕ, Option, none, some, List, Result, ok, ◌>>=◌, ◌>>◌, [], Bool, suc, ◌+◌, ◌∷◌, false,
  if◌then◌else◌, get_elem?, leb, true, drop, length, not, ◌==◌, unwrap, panic, ◌++◌, ltb,
}
use arch_db.Prelude.Str.{Str, str_le}
use arch_db.Prelude.Bytes.{read_be32, byte_at, slice}
use arch_db.Prelude.Utf8.{from_utf8}
use arch_db.Value.{Value, BlockRecord, find}
use arch_db.Sstable.Formats.{Formats, Disk, open_file, read_u32, read_exact}
use arch_db.Sstable.Block.{verify_header, read_block_from_file}
use arch_db.Sstable.Index.{SstableIndex, find_block, find_block_index}
use arch_db.Sstable.Record.{read_value, push}
use arch_db.Sstable.Footer.{read_footer}
use Prim.Native.Nat.{zero}

pub record SstableIterator : Type 0 where
  pub file : List ℕ
  pub index : SstableIndex
  pub current_block : Option ℕ
  pub block_records : List BlockRecord
  pub current_record : ℕ

module _ (env : Formats) where
  unfoldable pub read_block : Disk → Str → ℕ → Result (List BlockRecord)
  unfolding verify_header read_block_from_file
  read_block disk path offset = do
    file ← open_file disk path
    verify_header file
    read_block_from_file env file offset

  unfoldable pub search_sstable : Disk → Str → SstableIndex → Str → Result (Option (Str × Value))
  unfolding find_block read_block find
  search_sstable disk path index key = elim (find_block index key) [
    | none ↦ ok none
    | some block ↦ do
      records ← read_block disk path block.offset
      ok (elim (find key records) [ none ↦ none | some value ↦ some (key, value) ])
  ]

  -- The blocks from `pos` to `data_end`, decompressed, one after another. `none` is the return of no
  -- record at a wrong checksum. A round takes 12 bytes or more.
  unfoldable pub read_blocks : ℕ → List ℕ → ℕ → ℕ → List ℕ → Result (Option (List ℕ))
  unfolding read_u32 read_exact
  read_blocks zero file pos data_end bytes = ok (some bytes)
  read_blocks (suc fuel) file pos data_end bytes = if leb data_end pos then ok (some bytes) else do
    (compressed_len, b) ← read_u32 (drop pos file)
    (original_len, c) ← read_u32 b
    (stored_checksum, d) ← read_u32 c
    (compressed, e) ← read_exact compressed_len d
    if not (env.crc.hash compressed == stored_checksum) then ok none else do
      block ← unwrap (env.snappy.decompress compressed)
      if not (length block == original_len)
          then panic
          else read_blocks fuel file (pos + 12 + compressed_len) data_end (bytes ++ block)

  -- The second loop of `read_sstable`; `bytes` is `bytes[i..]`.
  unfoldable pub read_all : ℕ → List ℕ → Result (List BlockRecord)
  unfolding read_value push
  read_all zero bytes = ok []
  read_all (suc fuel) bytes =
      if ltb (length bytes) 4
      then ok []
      else if leb (length bytes) 4
      then ok []
      else if ltb (length bytes) (5 + 4)
      then ok []
      else if ltb (length bytes) (9 + 4)
      then ok []
      else do
        stored_crc ← read_be32 bytes 0
        record_type ← byte_at bytes 4
        key_len ← read_be32 bytes 5
        val_len ← read_be32 bytes 9
        if ltb (length bytes) (13 + key_len) then ok [] else do
          raw ← slice bytes 13 (13 + key_len)
          key ← unwrap (from_utf8 raw)
          read ← read_value record_type bytes (13 + key_len) (13 + key_len + val_len)
          let rest = read_all fuel (drop (13 + key_len + val_len) bytes)
          elim read [
            | none ↦ ok []
            | some value ↦ do
              covered ← slice bytes 4 (13 + key_len + val_len)
              records ← rest
              ok (
                  push (env.crc.hash covered == stored_crc) (record { key = key; value = value })
                    records)
          ]

  unfoldable pub read_sstable : Disk → Str → Result (List BlockRecord)
  unfolding verify_header read_footer read_blocks read_all
  read_sstable disk path = do
    file ← open_file disk path
    verify_header file
    footer ← read_footer file
    read ← read_blocks (length file) file 8 footer.index_offset []
    elim read [ none ↦ ok [] | some bytes ↦ read_all (length bytes) bytes ]

  -- The methods of the iterator.
  unfoldable pub new : Disk → Str → SstableIndex → Result SstableIterator
  new disk path index = do
    file ← open_file disk path
    ok (record {
      file = file;
      index = index;
      current_block = none;
      block_records = [];
      current_record = 0;
    })

  unfoldable pub load_current_block : SstableIterator → Result (Bool × SstableIterator)
  unfolding read_block_from_file
  load_current_block it = elim it.current_block [
    | none ↦ ok (false, it)
    | some block_index ↦ elim (get_elem? it.index.blocks block_index) [
      | none ↦ ok (false, it)
      | some block ↦ do
        records ← read_block_from_file env it.file block.offset
        ok (true, record it { block_records = records; current_record = 0 })
    ]
  ]

  unfoldable pub load_next_block : SstableIterator → Result (Bool × SstableIterator)
  unfolding load_current_block
  load_next_block it =
      let next : ℕ = elim it.current_block [ none ↦ 0 | some i ↦ i + 1 ] in
      if leb (length it.index.blocks) next
      then ok (false, it)
      else load_current_block (record it { current_block = some next })

  -- The loop passes over blocks that hold no record; the number of the blocks left is fuel enough.
  unfoldable pub peek : ℕ → SstableIterator → Result (Option BlockRecord × SstableIterator)
  unfolding load_next_block
  peek zero it = ok (none, it)
  peek (suc fuel) it = elim (get_elem? it.block_records it.current_record) [
    | some r ↦ ok (some r, it)
    | none ↦ do
      (loaded, it') ← load_next_block it
      elim loaded [ true ↦ peek fuel it' | false ↦ ok (none, it') ]
  ]

  unfoldable pub next : ℕ → SstableIterator → Result (Option BlockRecord × SstableIterator)
  unfolding peek
  next fuel it = do
    (found, it') ← peek fuel it
    ok (
      found,
      elim found [ none ↦ it' | some r ↦ record it' { current_record = it'.current_record + 1 } ],
    )

  -- `iter().position(|record| record.key.as_str() >= key).unwrap_or(len)`
  unfoldable pub position_of : Str → List BlockRecord → ℕ
  position_of key [] = 0
  position_of key (r ∷ rs) =
      let rest = position_of key rs in if str_le key r.key then 0 else suc rest

  unfoldable pub seek : Str → SstableIterator → Result SstableIterator
  unfolding load_current_block position_of find_block_index
  seek key it = elim (find_block_index it.index key) [
    | some block_index ↦ do
      (_, it') ← load_current_block (record it { current_block = some block_index })
      ok (record it' { current_record = position_of key it'.block_records })
    | none ↦ ok (record it { current_block = none; block_records = []; current_record = 0 })
  ]
