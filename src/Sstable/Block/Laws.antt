-- ===== src/Sstable/Block/Laws.antt =====
-- A block that was written is read back, wherever it stands in the file.
use arch_db.Prelude.{
  ℕ, ◌<◌, ◌≡◌, refl, some, List, ◌++◌, arith, length, length-append, drop-append, take-append, ok,
  ap, ◌∙◌, append_assoc, le→ltb, ==_self,
}
use arch_db.Prelude.Bytes.{u32_mod, be32, from_be32-be32, drop_of}
use arch_db.Value.{BlockRecord}
use arch_db.Sstable.Record.Codec.{AllStorable, block_bytes, read_records-block_bytes}
use arch_db.Sstable.Formats.{Formats, read_exact, read_u32}
use arch_db.Sstable.Block.{block_image, read_block_from_file}

pub read_u32-be32 : (n : ℕ) (rest : List ℕ) → n < u32_mod → read_u32 (be32 n ++ rest) ≡ ok (n, rest)
unfolding read_u32
read_u32-be32 n rest h =
    rw (le→ltb (length (be32 n ++ rest)) 4 (omega arith), from_be32-be32 n h) refl

pub read_exact-append : (xs ys : List ℕ) → read_exact (length xs) (xs ++ ys) ≡ ok (xs, ys)
unfolding read_exact
read_exact-append xs ys =
    rw
      (
        le→ltb (length (xs ++ ys)) (length xs) (omega (arith, length-append xs ys)),
        take-append xs ys,
        drop-append xs ys,
      )
      refl

assoc_lem : (a b c d : List ℕ) → (a ++ (b ++ c)) ++ d ≡ a ++ (b ++ (c ++ d))
assoc_lem a b c d = simp append_assoc

module _ (env : Formats) where
  -- The records `rs` stand as a block at `offset` in the file.
  pub record Stands (file : List ℕ) (offset : ℕ) (rs : List BlockRecord) : Type 0 where
    pub before : List ℕ
    pub after : List ℕ
    pub compressed : List ℕ
    pub made : env.snappy.compress (block_bytes env.crc rs) ≡ some compressed
    pub whole : file ≡ before ++ (block_image env (block_bytes env.crc rs) compressed ++ after)
    pub at : offset ≡ length before

  -- A block of storable records, shorter than 4 GiB, is read back from where it stands.
  pub read_block_from_file-Stands :
      (file : List ℕ) (offset : ℕ) (rs : List BlockRecord)
      → AllStorable rs
      → length (block_bytes env.crc rs) < u32_mod
      → Stands file offset rs
      → read_block_from_file env file offset ≡ ok rs
  unfolding read_block_from_file block_image
  read_block_from_file-Stands file offset rs a short s =
      let block = block_bytes env.crc rs in
      let c = s.compressed in
      rw
        (
          drop_of file s.before (block_image env block c ++ s.after) offset s.whole s.at,
          read_u32-be32 (length c)
              (be32 (length block) ++ (be32 (env.crc.hash c) ++ (c ++ s.after)))
              (env.snappy.length-compress block c s.made),
          read_u32-be32 (length block) (be32 (env.crc.hash c) ++ (c ++ s.after)) short,
          read_u32-be32 (env.crc.hash c) (c ++ s.after) (env.crc.hash_lt c),
          read_exact-append c s.after,
          ==_self (env.crc.hash c),
          env.snappy.decompress-compress block c s.made,
          ==_self (length block),
        )
        (read_records-block_bytes env.crc (length block) rs a (omega arith))

  -- What is appended to the file leaves its blocks where they stand.
  pub Stands-append :
      (file more : List ℕ) (offset : ℕ) (rs : List BlockRecord)
      → Stands file offset rs
      → Stands (file ++ more) offset rs
  Stands-append file more offset rs s = record {
    before = s.before;
    after = s.after ++ more;
    compressed = s.compressed;
    made = s.made;
    whole =
        ap (λ f. f ++ more) s.whole
        ∙ assoc_lem s.before (block_image env (block_bytes env.crc rs) s.compressed) s.after more;
    at = s.at;
  }
