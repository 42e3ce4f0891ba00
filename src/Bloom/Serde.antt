-- ===== src/Bloom/Serde.antt =====
-- bloom_filter.rs: the `Serialize` and `Deserialize` of the filter, and its construction from a rate.
-- `bincode`, the bytes of a `BitVec` and the sizing by floating point are parameters.
use arch_db.Prelude.{
  ℕ, ◌≤◌, ◌<◌, ◌≡◌, Bool, Option, some, List, ltb, length, take, if◌then◌else◌, Result, ok, ◌>>=◌,
  unwrap, take_all, arith,
}
use arch_db.Bloom.{BloomFilter, with_size}

-- The fields that are written: the bytes of the bits, `num_hashes`, `exact_num_bits`.
abbrev pub Fields : Type 0
Fields = List ℕ × ℕ × ℕ

-- `bincode::serialize` of the fields gives bytes from which `bincode::deserialize` reads them.
-- `BitVec::to_bytes` fills the last byte up, and `BitVec::from_bytes` keeps what was filled in.
pub record BloomFormat : Type 0 where
  pub encode : Fields → List ℕ
  pub decode : List ℕ → Option Fields
  pub decode-encode : (fields : Fields) → decode (encode fields) ≡ some fields
  pub to_bytes : List Bool → List ℕ
  pub from_bytes : List ℕ → List Bool
  pub length_bits : (bits : List Bool) → length bits ≤ length (from_bytes (to_bytes bits))
  pub take_bits : (bits : List Bool) → take (length bits) (from_bytes (to_bytes bits)) ≡ bits

-- `needed_bits` and `optimal_num_hashes`, with the false-positive rate 0.01.
pub record Sizing : Type 0 where
  pub needed_bits : ℕ → ℕ
  pub optimal_num_hashes : ℕ → ℕ → ℕ
  pub needed_bits_pos : (n : ℕ) → 0 < n → 0 < needed_bits n

-- `with_rate(0.01, expected_num_items)`
unfoldable pub with_rate : Sizing → ℕ → BloomFilter
unfolding with_size
with_rate sizing n =
    let bits = sizing.needed_bits n in with_size bits (sizing.optimal_num_hashes bits n)

module _ (format : BloomFormat) where
  unfoldable pub serialize_bloom : BloomFilter → List ℕ
  serialize_bloom f = format.encode (format.to_bytes f.bits, f.num_hashes, f.exact_num_bits)

  -- `visit_seq`
  unfoldable pub from_fields : Fields → BloomFilter
  from_fields (bytes, num_hashes, exact_num_bits) =
      let bv = format.from_bytes bytes in
      record {
        bits = if ltb exact_num_bits (length bv) then take exact_num_bits bv else bv;
        num_hashes = num_hashes;
        exact_num_bits = exact_num_bits;
      }

  unfoldable pub deserialize_bloom : List ℕ → Result BloomFilter
  unfolding from_fields
  deserialize_bloom bytes = do fields ← unwrap (format.decode bytes); ok (from_fields fields)

  -- A filter whose `exact_num_bits` is the number of its bits is read back from its bytes.
  pub deserialize_bloom-serialize_bloom :
      (f : BloomFilter)
      → f.exact_num_bits ≡ length f.bits
      → deserialize_bloom (serialize_bloom f) ≡ ok f
  unfolding deserialize_bloom serialize_bloom
  deserialize_bloom-serialize_bloom f h = rw format.decode-encode (
      ground (
        arith,
        format.length_bits f.bits,
        format.take_bits f.bits,
        take_all (length f.bits) (format.from_bytes (format.to_bytes f.bits)),
      ))
