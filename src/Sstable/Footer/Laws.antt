-- ===== src/Sstable/Footer/Laws.antt =====
-- A table is opened again from its footer: the index and the Bloom filter are read back.
use arch_db.Bloom.Serde.{serialize_bloom, deserialize_bloom-serialize_bloom}
use arch_db.Sstable.Index.{serialize_index}
use arch_db.Sstable.Footer.{
  FooterMetadata, serialize, deserialize, read_footer, load_index_from_footer,
  load_bloom_from_footer, SstableIndex, Formats, deserialize_index, BloomFilter, deserialize_bloom,
}
use arch_db.Sstable.Block.{magic, format_version, verify_header}
use arch_db.Sstable.Lookup.{verify_header_lem}
use arch_db.Sstable.Index.Codec.{AllMetas, deserialize_index-serialize_index}
use arch_db.Prelude.{
  ℕ, ◌+◌, ◌-◌, ◌<◌, ◌≤◌, ◌≡◌, refl, List, ◌++◌, arith, length, drop, ok, le→ltb, ap, ◌∙◌,
  length-append, [], sym, append_assoc,
}
use arch_db.Sstable.Writer.{tail_bytes}
use arch_db.Prelude.Bytes.{
  read_le64-le64, u64_mod, le64_sum, read_le64, drop_of, le64, read_le64-le64, be32, u32_mod,
}
use arch_db.Sstable.Formats.{read_exact}
use arch_db.Sstable.Block.Laws.{read_exact-append}

-- The fields fit a `u64`.
pub record IsFooter (f : FooterMetadata) : Type 0 where
  pub index_offset : f.index_offset < u64_mod
  pub index_size : f.index_size < u64_mod
  pub bloom_offset : f.bloom_offset < u64_mod
  pub bloom_size : f.bloom_size < u64_mod

deserialize-serialize : (f : FooterMetadata) → IsFooter f → deserialize (serialize f) ≡ ok f
unfolding serialize deserialize
deserialize-serialize f h =
    rw
      (
        le64_sum f.index_offset h.index_offset,
        le64_sum f.index_size h.index_size,
        le64_sum f.bloom_offset h.bloom_offset,
        le64_sum f.bloom_size h.bloom_size,
      )
      refl

length-serialize : (f : FooterMetadata) → length (serialize f) ≡ 32
unfolding serialize
length-serialize f = refl

read_at :
    (file before xs after : List ℕ) (n at : ℕ)
    → file ≡ before ++ (xs ++ after)
    → at ≡ length before
    → n ≡ length xs
    → read_exact n (drop at file) ≡ ok (xs, after)
read_at file before xs after n at e a l =
    rw (drop_of file before (xs ++ after) at e a, l) (read_exact-append xs after)

read_footer_step :
    (file footer_bytes size_bytes rest rest' : List ℕ) (f : FooterMetadata)
    → verify_header file ≡ ok tt
    → 40 ≤ length file
    → read_exact 8 (drop (length file - 8) file) ≡ ok (size_bytes, rest)
    → read_le64 size_bytes 0 ≡ ok 32
    → read_exact 32 (drop (length file - 8 - 32) file) ≡ ok (footer_bytes, rest')
    → deserialize footer_bytes ≡ ok f
    → read_footer file ≡ ok f
unfolding read_footer
read_footer_step file footer_bytes size_bytes rest rest' f v l a b c d =
    rw
      (
        v,
        le→ltb (length file) 8 (omega (arith, l)),
        a,
        b,
        le→ltb (length file) (8 + 32) (omega (arith, l)),
        c,
      )
      d

-- The footer at the end of a file, before its length.
read_footer-serialize :
    (file before : List ℕ) (f : FooterMetadata)
    → verify_header file ≡ ok tt
    → file ≡ before ++ (serialize f ++ le64 32)
    → IsFooter f
    → read_footer file ≡ ok f
read_footer-serialize file before f v e h =
    let size = ap length e ∙ length-append before (serialize f ++ le64 32) in
    let end = length-append (serialize f) (le64 32) in
    let behind = length-append before (serialize f) in
    read_footer_step file (serialize f) (le64 32) [] (le64 32) f v
      (omega (arith, size, end, length-serialize f))
      (read_at file (before ++ serialize f) (le64 32) [] 8 (length file - 8)
        (e ∙ sym (append_assoc before (serialize f) (le64 32))) (omega (arith, size, end, behind))
        refl)
      (read_le64-le64 32 [] (omega arith))
      (read_at file before (serialize f) (le64 32) 32 (length file - 8 - 32) e
        (omega (arith, size, end, length-serialize f)) (sym (length-serialize f)))
      (deserialize-serialize f h)

three_assoc : (a b c d : List ℕ) → a ++ (b ++ (c ++ d)) ≡ (a ++ (b ++ c)) ++ d
three_assoc a b c d = simp append_assoc

two_assoc : (a b c d : List ℕ) → a ++ (b ++ (c ++ d)) ≡ (a ++ b) ++ (c ++ d)
two_assoc a b c d = simp append_assoc

load_index_step :
    (file bytes rest : List ℕ) (f : FooterMetadata) (index : SstableIndex)
    → read_footer file ≡ ok f
    → read_exact f.index_size (drop f.index_offset file) ≡ ok (bytes, rest)
    → deserialize_index bytes ≡ ok index
    → load_index_from_footer file ≡ ok index
unfolding load_index_from_footer
load_index_step file bytes rest f index a b c = rw (a, b) c

load_bloom_step :
    (env : Formats) (file bytes rest : List ℕ) (f : FooterMetadata) (bloom : BloomFilter)
    → read_footer file ≡ ok f
    → read_exact f.bloom_size (drop f.bloom_offset file) ≡ ok (bytes, rest)
    → deserialize_bloom env.bloom bytes ≡ ok bloom
    → load_bloom_from_footer env file ≡ ok bloom
unfolding load_bloom_from_footer
load_bloom_step env file bytes rest f bloom a b c = rw (a, b) c

module _ (env : Formats) where
  module _ (start : List ℕ) (index : SstableIndex) (bloom : BloomFilter) where
    -- The footer that `tail_bytes` writes.
    abbrev footer_of : FooterMetadata
    footer_of = record {
      index_offset = length start;
      index_size = length (serialize_index index);
      bloom_offset = length start + length (serialize_index index);
      bloom_size = length (serialize_bloom env.bloom bloom);
    }

    abbrev whole : List ℕ
    whole = start ++ tail_bytes env start index bloom

    whole_lem :
        whole
        ≡ start
          ++ (serialize_index index
              ++ (serialize_bloom env.bloom bloom ++ (serialize footer_of ++ le64 32)))
    unfolding tail_bytes
    whole_lem = refl

    length-whole :
        length whole
        ≡ length start
          + (length (serialize_index index) + (length (serialize_bloom env.bloom bloom) + 40))
    length-whole =
        let i = serialize_index index in
        let b = serialize_bloom env.bloom bloom in
        let rest = serialize footer_of ++ le64 32 in
        omega (
          arith,
          ap length whole_lem,
          length-append start (i ++ (b ++ rest)),
          length-append i (b ++ rest),
          length-append b rest,
          length-append (serialize footer_of) (le64 32),
          length-serialize footer_of,
        )

    footer_of-IsFooter : length whole < u64_mod → IsFooter footer_of
    footer_of-IsFooter h = record {
      index_offset = omega (arith, h, length-whole);
      index_size = omega (arith, h, length-whole);
      bloom_offset = omega (arith, h, length-whole);
      bloom_size = omega (arith, h, length-whole);
    }

    read_footer-whole :
        (later : List ℕ)
        → start ≡ (magic ++ be32 format_version) ++ later
        → length whole < u64_mod
        → read_footer whole ≡ ok footer_of
    read_footer-whole later h short =
        let i = serialize_index index in
        let b = serialize_bloom env.bloom bloom in
        let tail = tail_bytes env start index bloom in
        read_footer-serialize whole (start ++ (i ++ b)) footer_of
          (verify_header_lem whole (later ++ tail)
            (ap (λ s. s ++ tail) h ∙ append_assoc (magic ++ be32 format_version) later tail))
          (whole_lem ∙ three_assoc start i b (serialize footer_of ++ le64 32))
          (footer_of-IsFooter short)

  -- What `finish` writes after the blocks: from a file shorter than 2 ^ 64 bytes, with the header, the blocks
  -- of the index and the filter are read back by its footer. The texts and numbers of the index fit their
  -- fields, and the `exact_num_bits` of the filter is the number of its bits.
  pub load_from_footer-tail_bytes :
      (start later : List ℕ) (index : SstableIndex) (bloom : BloomFilter)
      → start ≡ (magic ++ be32 format_version) ++ later
      → length (start ++ tail_bytes env start index bloom) < u64_mod
      → AllMetas index.blocks
      → length index.blocks < u32_mod
      → bloom.exact_num_bits ≡ length bloom.bits
      → (load_index_from_footer (start ++ tail_bytes env start index bloom)
          ≡ ok (record { offsets = []; blocks = index.blocks }))
        × (load_bloom_from_footer env (start ++ tail_bytes env start index bloom) ≡ ok bloom)
  load_from_footer-tail_bytes start later index bloom h short metas count exact =
      let i = serialize_index index in
      let b = serialize_bloom env.bloom bloom in
      let f = footer_of start index bloom in
      let rest = serialize f ++ le64 32 in
      let read = read_footer-whole start index bloom later h short in
      let file = whole start index bloom in
      (
        load_index_step file i (b ++ rest) f (record { offsets = []; blocks = index.blocks }) read
            (read_at file start i (b ++ rest) (length i) (length start)
              (whole_lem start index bloom) refl refl)
            (deserialize_index-serialize_index index metas count),
        load_bloom_step env file b rest f bloom read
            (read_at file (start ++ i) b rest (length b) (length start + length i)
              (whole_lem start index bloom ∙ two_assoc start i b rest) (sym (length-append start i))
              refl)
            (deserialize_bloom-serialize_bloom env.bloom bloom exact),
      )
