-- ===== src/Sstable/Footer.antt =====
-- The footer of a table: where the index and the Bloom filter stand in the file.
pub mod Laws
use arch_db.Prelude.{
  ℕ, ◌+◌, ◌-◌, List, ◌++◌, ltb, length, drop, if◌then◌else◌, Result, ok, err, ◌>>=◌, ◌>>◌, other,
}
use arch_db.Prelude.Str.{codes}
use arch_db.Prelude.Bytes.{le64, read_le64}
use arch_db.Bloom.{BloomFilter}
use arch_db.Bloom.Serde.{deserialize_bloom}
use arch_db.Sstable.Formats.{Formats, read_exact}
use arch_db.Sstable.Block.{verify_header}
use arch_db.Sstable.Index.{SstableIndex, deserialize_index}

pub record FooterMetadata : Type 0 where
  pub index_offset : ℕ
  pub index_size : ℕ
  pub bloom_offset : ℕ
  pub bloom_size : ℕ

unfoldable pub serialize : FooterMetadata → List ℕ
serialize f =
    le64 f.index_offset ++ (le64 f.index_size ++ (le64 f.bloom_offset ++ le64 f.bloom_size))

unfoldable pub deserialize : List ℕ → Result FooterMetadata
deserialize bytes = do
  index_offset ← read_le64 bytes 0
  index_size ← read_le64 bytes 8
  bloom_offset ← read_le64 bytes 16
  bloom_size ← read_le64 bytes 24
  ok (record {
    index_offset = index_offset;
    index_size = index_size;
    bloom_offset = bloom_offset;
    bloom_size = bloom_size;
  })

-- The error messages are left without the sizes that the source prints in them.
unfoldable pub read_footer : List ℕ → Result FooterMetadata
unfolding verify_header read_exact deserialize
read_footer file = do
  verify_header file
  let file_size = length file
  if ltb file_size 8 then err (other (codes "File too small to contain footer")) else do
    (size_buf, _) ← read_exact 8 (drop (file_size - 8) file)
    footer_size ← read_le64 size_buf 0
    if ltb file_size (8 + footer_size)
        then err (other (codes "Corrupted SSTable: footer_size exceeds file_size"))
        else do
          (footer_bytes, _) ← read_exact footer_size (drop (file_size - 8 - footer_size) file)
          deserialize footer_bytes

unfoldable pub load_index_from_footer : List ℕ → Result SstableIndex
unfolding read_footer read_exact deserialize_index
load_index_from_footer file = do
  footer ← read_footer file
  (bytes, _) ← read_exact footer.index_size (drop footer.index_offset file)
  deserialize_index bytes

unfoldable pub load_bloom_from_footer : Formats → List ℕ → Result BloomFilter
unfolding read_footer read_exact deserialize_bloom
load_bloom_from_footer env file = do
  footer ← read_footer file
  (bytes, _) ← read_exact footer.bloom_size (drop footer.bloom_offset file)
  deserialize_bloom env.bloom bytes
