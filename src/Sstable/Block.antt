-- ===== src/Sstable/Block.antt =====
-- The blocks of a table, compressed and with a checksum, and the header of the file.
pub mod Laws
use arch_db.Prelude.{
  ℕ, ◌+◌, List, [], ◌∷◌, ◌++◌, length, drop, not, if◌then◌else◌, Result, ok, err, ◌>>=◌, unwrap,
  ◌==◌, io, invalid_data,
}
use arch_db.Prelude.Bytes.{be32}
use arch_db.Prelude.Str.{str_eq, codes}
use arch_db.Value.{BlockRecord}
use arch_db.Sstable.Record.{read_records}
use arch_db.Sstable.Formats.{Formats, read_exact, read_u32}

-- `MAGIC`
abbrev pub magic : List ℕ
magic = codes "ARCH"

abbrev pub format_version : ℕ
format_version = 1

abbrev pub header_size : ℕ
header_size = 8

unfoldable pub verify_header : List ℕ → Result (Unit {0})
unfolding read_exact read_u32 str_eq
verify_header file = do
  (found, later) ← read_exact 4 file
  if not (str_eq found magic) then err (io invalid_data) else do
    (version, rest) ← read_u32 later
    if not (version == format_version) then err (io invalid_data) else ok tt

module _ (env : Formats) where
  -- What `write_block` writes of a block and its compressed bytes.
  unfoldable pub block_image : List ℕ → List ℕ → List ℕ
  block_image block compressed =
      be32 (length compressed)
      ++ be32 (length block)
      ++ be32 (env.crc.hash compressed)
      ++ compressed

  -- The file after the write, and the number of bytes that were written.
  unfoldable pub write_block : List ℕ → List ℕ → Result (List ℕ × ℕ)
  unfolding block_image
  write_block file block = do
    compressed ← unwrap (env.snappy.compress block)
    ok (file ++ block_image block compressed, 12 + length compressed)

  unfoldable pub read_block_from_file : List ℕ → ℕ → Result (List BlockRecord)
  unfolding read_u32 read_exact read_records
  read_block_from_file file offset = do
    (compressed_len, b) ← read_u32 (drop offset file)
    (original_len, c) ← read_u32 b
    (stored_checksum, d) ← read_u32 c
    (compressed, e) ← read_exact compressed_len d
    if not (env.crc.hash compressed == stored_checksum) then ok [] else do
      block ← unwrap (env.snappy.decompress compressed)
      if not (length block == original_len)
          then ok []
          else read_records env.crc (length block) block
