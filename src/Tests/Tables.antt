-- ===== src/Tests/Tables.antt =====
-- Tables, with a compression that keeps its input and a sum of the bytes as the checksum.
use arch_db.Prelude.{
  ℕ, zero, ◌+◌, ◌*◌, ◌/◌, ◌%◌, ◌<◌, ◌≡◌, refl, Bool, true, false, Option, none, some, List, [], ◌∷◌,
  ◌++◌, arith, length, take_all, if◌then◌else◌, ltb, ok, ap,
}
use arch_db.Prelude.Str.{Str, codes, str_cmp, str_eq}
use arch_db.Prelude.Bytes.{u32_mod, u64_mod, be32}
use arch_db.Prelude.Utf8.{is_utf8}
use arch_db.Command.{Crc32}
use arch_db.Bloom.{Hasher, with_size}
use arch_db.Bloom.Serde.{Fields, BloomFormat, Sizing}
use arch_db.Value.{data_of, tombstone, BlockRecord, find}
use arch_db.Sstable.Formats.{Snappy, Formats, Disk}
use arch_db.Sstable.Record.{serialize_record}
use arch_db.Sstable.Block.{magic, format_version}
use arch_db.Sstable.Index.{SstableIndex}
use arch_db.Sstable.Index.Codec.{AllMetas}
use arch_db.Sstable.Footer.{load_index_from_footer, load_bloom_from_footer}
use arch_db.Sstable.Footer.Laws.{load_from_footer-tail_bytes}
use arch_db.Sstable.Writer.{tail_bytes, is_sorted, write_sstable}
use arch_db.Sstable.Writer.Append.{AllFitting}
use arch_db.Sstable.Writer.Written.{Output, write_sstable-AllFitting}
use arch_db.Sstable.Reader.{search_sstable}
use arch_db.Sstable.Lookup.{search_sstable-write_sstable}

abbrev sum : List ℕ → ℕ
sum [] = zero
sum (b ∷ bytes) = b + sum bytes

abbrev crc : Crc32
crc = record { hash = λ bytes. sum bytes % u32_mod; hash_lt = λ bytes. omega arith }

abbrev stored : List ℕ → Option (List ℕ)
stored b = if ltb (length b) u32_mod then some b else none

pub stored-some :
    (b : List ℕ) → 32 + length b + length b / 6 < u32_mod → (c : List ℕ) × (stored b ≡ some c)
stored-some b h = (b, ground arith)

pub stored_same : (b c : List ℕ) → stored b ≡ some c → some c ≡ some b
stored_same b c e = ground arith

pub length-stored : (b c : List ℕ) → stored b ≡ some c → length c < u32_mod
length-stored b c e = ground arith

abbrev snappy : Snappy
snappy = record {
  compress = stored;
  decompress = λ c. some c;
  compress_some = stored-some;
  decompress-compress = stored_same;
  length-compress = length-stored;
}

abbrev bit_bytes : List Bool → List ℕ
bit_bytes [] = []
bit_bytes (true ∷ bits) = 1 ∷ bit_bytes bits
bit_bytes (false ∷ bits) = 0 ∷ bit_bytes bits

abbrev byte_bits : List ℕ → List Bool
byte_bits [] = []
byte_bits (zero ∷ bytes) = false ∷ byte_bits bytes
byte_bits (_ ∷ bytes) = true ∷ byte_bits bytes

pub byte_bits-bit_bytes : (bits : List Bool) → byte_bits (bit_bytes bits) ≡ bits
byte_bits-bit_bytes [] = refl
byte_bits-bit_bytes (true ∷ bits) = ap (λ l. true ∷ l) (byte_bits-bit_bytes bits)
byte_bits-bit_bytes (false ∷ bits) = ap (λ l. false ∷ l) (byte_bits-bit_bytes bits)

abbrev fields_of : List ℕ → Option Fields
fields_of (n ∷ m ∷ bytes) = some (bytes, n, m)
fields_of _ = none

abbrev bloom_format : BloomFormat
bloom_format = record {
  encode = λ fields. fields.1 ∷ fields.2 ∷ fields.0;
  decode = fields_of;
  decode-encode = λ fields. refl;
  to_bytes = bit_bytes;
  from_bytes = byte_bits;
  length_bits = λ bits. rw (byte_bits-bit_bytes bits) (omega arith);
  take_bits = λ bits. rw (byte_bits-bit_bytes bits) (take_all (length bits) bits (omega arith));
}

abbrev sizing : Sizing
sizing = record {
  needed_bits = λ n. 10 * n;
  optimal_num_hashes = λ bits n. 3;
  needed_bits_pos = λ n h. omega arith;
}

abbrev pub hasher : Hasher Str
hasher = record {
  hash1 = λ s. sum s % u64_mod;
  hash2 = λ s. (sum s + length s) % u64_mod;
  hash1_lt = λ s. omega arith;
  hash2_lt = λ s. omega arith;
}

abbrev pub env : Formats
env = record { crc = crc; snappy = snappy; bloom = bloom_format; sizing = sizing; hasher = hasher }

-- Two blocks: the second record does not fit the first one.
abbrev pub records : List BlockRecord
records =
    record { key = codes "apple"; value = data_of (codes "red, and very sweet") }
    ∷ record { key = codes "melon"; value = tombstone }
    ∷ record { key = codes "pear"; value = data_of (codes "green") }
    ∷ []

pub records-AllFitting : AllFitting env records
unfolding is_utf8 serialize_record
records-AllFitting = (
  record {
    key_text = record { utf8 = refl; short = omega arith };
    value_text = record { utf8 = refl; short = omega arith };
  },
  omega arith,
  (
    record {
      key_text = record { utf8 = refl; short = omega arith };
      value_text = record { utf8 = refl; short = omega arith };
    },
    omega arith,
    (
      record {
        key_text = record { utf8 = refl; short = omega arith };
        value_text = record { utf8 = refl; short = omega arith };
      },
      omega arith,
      tt,
    ),
  ),
)

pub records_sorted : is_sorted records ≡ true
unfolding is_sorted str_cmp
records_sorted = refl

write_sstable-AllFitting_example : Output env (write_sstable env records) records
write_sstable-AllFitting_example =
    write_sstable-AllFitting env records records_sorted (omega arith) records-AllFitting

abbrev pub table : Output env (write_sstable env records) records
table = write_sstable-AllFitting env records records_sorted (omega arith) records-AllFitting

abbrev disk : Disk
disk path = some table.file

search_sstable-write_sstable_example :
    search_sstable env disk (codes "1.sst") table.index (codes "melon")
    ≡ ok (some (codes "melon", tombstone))
unfolding find str_eq
search_sstable-write_sstable_example =
    search_sstable-write_sstable env records disk (codes "1.sst") table.file table.index
      (codes "melon") records_sorted (omega arith) records-AllFitting table.made refl

abbrev index : SstableIndex
index = record {
  offsets = [];
  blocks =
      record {
        start_key = codes "apple";
        offset = 8;
        record_offset = (codes "apple", 20) ∷ (codes "melon", 57) ∷ [];
      }
      ∷ record { start_key = codes "pear"; offset = 80; record_offset = (codes "pear", 92) ∷ [] }
      ∷ [];
}

index-AllMetas : AllMetas index.blocks
unfolding is_utf8 str_cmp
index-AllMetas = (
  record {
    start_text = record { utf8 = refl; short = omega arith };
    offset_short = omega arith;
    entries = (
      record { utf8 = refl; short = omega arith },
      omega arith,
      (record { utf8 = refl; short = omega arith }, omega arith, tt),
    );
    count = omega arith;
    sorted = ((refl, tt), (tt, tt));
  },
  (
    record {
      start_text = record { utf8 = refl; short = omega arith };
      offset_short = omega arith;
      entries = (record { utf8 = refl; short = omega arith }, omega arith, tt);
      count = omega arith;
      sorted = (tt, tt);
    },
    tt,
  ),
)

abbrev start : List ℕ
start = (magic ++ be32 format_version) ++ 7 ∷ []

whole_short : length (start ++ tail_bytes env start index (with_size 10 3)) < u64_mod
unfolding tail_bytes with_size
whole_short = omega arith

load_from_footer-tail_bytes_example :
    (load_index_from_footer (start ++ tail_bytes env start index (with_size 10 3)) ≡ ok index)
    × (load_bloom_from_footer env (start ++ tail_bytes env start index (with_size 10 3))
        ≡ ok (with_size 10 3))
load_from_footer-tail_bytes_example =
    load_from_footer-tail_bytes env start (7 ∷ []) index (with_size 10 3) refl whole_short
      index-AllMetas (omega arith) (unfold with_size in refl)
