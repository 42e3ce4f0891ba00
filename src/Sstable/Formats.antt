-- ===== src/Sstable/Formats.antt =====
-- What the tables use of other libraries: `crc32fast`, `snap`, `bincode` with `BitVec`, and the hash of
-- a key. Files are byte strings, read from a position on.
use arch_db.Prelude.{
  ℕ, ◌+◌, ◌/◌, ◌<◌, ◌≡◌, Option, none, some, List, ltb, length, take, drop, if◌then◌else◌, Result,
  ok, err, ◌>>=◌, io, not_found, unexpected_eof,
}
use arch_db.Prelude.Str.{Str}
use arch_db.Prelude.Bytes.{u32_mod, read_be32}
use arch_db.Command.{Crc32}
use arch_db.Bloom.{Hasher}
use arch_db.Bloom.Serde.{BloomFormat, Sizing}

-- `snap::raw::Encoder::compress_vec` and `snap::raw::Decoder::decompress_vec`. The encoder refuses an
-- input whose `max_compress_len`, which is 32 + n + n / 6, is beyond a `u32`.
pub record Snappy : Type 0 where
  pub compress : List ℕ → Option (List ℕ)
  pub decompress : List ℕ → Option (List ℕ)
  pub compress_some :
      (b : List ℕ) → 32 + length b + length b / 6 < u32_mod → (c : List ℕ) × (compress b ≡ some c)
  pub decompress-compress : (b c : List ℕ) → compress b ≡ some c → decompress c ≡ some b
  pub length-compress : (b c : List ℕ) → compress b ≡ some c → length c < u32_mod

pub record Formats : Type 0 where
  pub crc : Crc32
  pub snappy : Snappy
  pub bloom : BloomFormat
  pub sizing : Sizing
  pub hasher : Hasher Str

-- The files, by their paths.
abbrev pub Disk : Type 0
Disk = Str → Option (List ℕ)

-- `File::open`
abbrev pub open_file : Disk → Str → Result (List ℕ)
open_file disk path = elim (disk path) [ none ↦ err (io not_found) | some bytes ↦ ok bytes ]

-- `read_exact` of `n` bytes: the bytes, and what comes after them.
unfoldable pub read_exact : ℕ → List ℕ → Result (List ℕ × List ℕ)
read_exact n later =
    if ltb (length later) n then err (io unexpected_eof) else ok (take n later, drop n later)

-- `read_exact` into four bytes, and `u32::from_be_bytes` of them.
unfoldable pub read_u32 : List ℕ → Result (ℕ × List ℕ)
unfolding read_exact
read_u32 later = do (buf, rest) ← read_exact 4 later; n ← read_be32 buf 0; ok (n, rest)
