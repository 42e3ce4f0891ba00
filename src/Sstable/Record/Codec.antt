-- ===== src/Sstable/Record/Codec.antt =====
-- Reading back what `serialize_record` wrote.
use arch_db.Prelude.{
  ℕ, zero, suc, ◌+◌, ◌≤◌, ◌<◌, ◌≡◌, refl, some, List, [], ◌∷◌, ◌++◌, arith, length, length-append,
  drop, drop-append, append_assoc, ok, ◌>>=◌, le→ltb, lt→leb, ==_self, ap, sym,
}
use arch_db.Prelude.Bytes.{
  u32_mod, be32, from_be32-be32, slice, slice-append, slice_of, byte_at, read_be32,
}
use arch_db.Prelude.Utf8.{from_utf8, from_utf8-some}
use arch_db.Command.{Crc32}
use arch_db.Command.Codec.{IsText}
use arch_db.Value.{Value, data_of, tombstone, BlockRecord}
use arch_db.Sstable.Record.{
  type_byte, value_bytes, payload, serialize_record, read_records, read_value,
}

-- The texts are UTF-8, and their lengths fit the length fields.
pub record IsStorable (r : BlockRecord) : Type 0 where
  pub key_text : IsText r.key
  pub value_text : IsText (value_bytes r.value)

abbrev pub AllStorable : List BlockRecord → Type 0
AllStorable [] = Unit {0}
AllStorable (r ∷ rs) = IsStorable r × AllStorable rs

read_value_lem :
    (v : Value) (bytes pre rest : List ℕ) (start : ℕ)
    → IsText (value_bytes v)
    → bytes ≡ pre ++ (value_bytes v ++ rest)
    → length pre ≡ start
    → read_value (type_byte v) bytes start (start + length (value_bytes v)) ≡ ok (some v)
unfolding read_value type_byte value_bytes
read_value_lem (data_of s) bytes pre rest start t e l =
    rw
      (
        e,
        ← l,
        le→ltb (length (pre ++ (s ++ rest))) (length pre + length s)
            (omega (arith, length-append pre (s ++ rest), length-append s rest)),
        slice-append pre s rest,
        from_utf8-some s t.utf8,
      )
      refl
read_value_lem tombstone bytes pre rest start t e l =
    rw
      (
        e,
        ← l,
        le→ltb (length (pre ++ rest)) (length pre + 0) (omega (arith, length-append pre rest)),
      )
      refl

module _ (crc : Crc32) where
  -- The part of a record before its texts.
  abbrev head : BlockRecord → List ℕ
  head r =
      be32 (crc.hash (payload r.key r.value))
      ++ type_byte r.value ∷ be32 (length r.key)
      ++ be32 (length (value_bytes r.value))

  split_lem :
      (r : BlockRecord) (rest : List ℕ)
      → serialize_record crc r.key r.value ++ rest
        ≡ head r ++ (r.key ++ (value_bytes r.value ++ rest))
  unfolding serialize_record
  split_lem r rest = ap (λ s. head r ++ s) (append_assoc r.key (value_bytes r.value) rest)

  pub length-serialize_record :
      (r : BlockRecord)
      → length (serialize_record crc r.key r.value)
        ≡ 13 + length r.key + length (value_bytes r.value)
  unfolding serialize_record
  length-serialize_record r = omega (arith, length-append r.key (value_bytes r.value))

  covered_lem :
      (r : BlockRecord) (rest : List ℕ)
      → slice
          (head r ++ (r.key ++ (value_bytes r.value ++ rest)))
          4
          (13 + length r.key + length (value_bytes r.value))
        ≡ ok (payload r.key r.value)
  unfolding payload
  covered_lem r rest =
      slice_of _ (be32 (crc.hash (payload r.key r.value))) (payload r.key r.value) rest 4 _
        (sym (ap (λ s. head r ++ s) (append_assoc r.key (value_bytes r.value) rest))) refl
        (omega (arith, length-append r.key (value_bytes r.value)))

  length_whole :
      (r : BlockRecord) (rest : List ℕ)
      → length (head r ++ (r.key ++ (value_bytes r.value ++ rest)))
        ≡ 13 + length r.key + length (value_bytes r.value) + length rest
  length_whole r rest = omega (
    arith,
    length-append r.key (value_bytes r.value ++ rest),
    length-append (value_bytes r.value) rest,
  )

  module _ (r : BlockRecord) (rest : List ℕ) where
    stored_crc :
        read_be32 (head r ++ (r.key ++ (value_bytes r.value ++ rest))) 0
        ≡ ok (crc.hash (payload r.key r.value))
    stored_crc =
        let sum = crc.hash (payload r.key r.value) in
        rw (from_be32-be32 sum (crc.hash_lt (payload r.key r.value)))

    key_len :
        length r.key < u32_mod
        → read_be32 (head r ++ (r.key ++ (value_bytes r.value ++ rest))) 5 ≡ ok (length r.key)
    key_len h = rw (from_be32-be32 (length r.key) h)

    val_len :
        length (value_bytes r.value) < u32_mod
        → read_be32 (head r ++ (r.key ++ (value_bytes r.value ++ rest))) 9
          ≡ ok (length (value_bytes r.value))
    val_len h = rw (from_be32-be32 (length (value_bytes r.value)) h)

    type_lem :
        byte_at (head r ++ (r.key ++ (value_bytes r.value ++ rest))) 4 ≡ ok (type_byte r.value)
    type_lem = refl

    drop_lem :
        drop
          (13 + length r.key + length (value_bytes r.value))
          (head r ++ (r.key ++ (value_bytes r.value ++ rest)))
        ≡ rest
    drop_lem =
        rw (← split_lem r rest, ← length-serialize_record r)
          (drop-append (serialize_record crc r.key r.value) rest)

  -- What one round needs to know of its bytes.
  record IsWhole (r : BlockRecord) (bytes rest : List ℕ) : Type 0 where
    size : length bytes ≡ 13 + length r.key + length (value_bytes r.value) + length rest
    crc_at : read_be32 bytes 0 ≡ ok (crc.hash (payload r.key r.value))
    type_at : byte_at bytes 4 ≡ ok (type_byte r.value)
    key_len_at : read_be32 bytes 5 ≡ ok (length r.key)
    val_len_at : read_be32 bytes 9 ≡ ok (length (value_bytes r.value))
    key_at : slice bytes 13 (13 + length r.key) ≡ ok r.key
    key_text : from_utf8 r.key ≡ some r.key
    value_at :
        read_value
          (type_byte r.value)
          bytes
          (13 + length r.key)
          (13 + length r.key + length (value_bytes r.value))
        ≡ ok (some r.value)
    covered :
        slice bytes 4 (13 + length r.key + length (value_bytes r.value))
        ≡ ok (payload r.key r.value)
    rest_at : drop (13 + length r.key + length (value_bytes r.value)) bytes ≡ rest

  step_lem :
      (fuel : ℕ) (r : BlockRecord) (bytes rest : List ℕ)
      → IsWhole r bytes rest
      → read_records crc (suc fuel) bytes
        ≡ (read_records crc fuel rest >>= λ records. ok (r ∷ records))
  unfolding read_records
  step_lem fuel r bytes rest w =
      rw
        (
          le→ltb (length bytes) 4 (omega (arith, w.size)),
          lt→leb (length bytes) 4 (omega (arith, w.size)),
          le→ltb (length bytes) 13 (omega (arith, w.size)),
          w.crc_at,
          w.type_at,
          w.key_len_at,
          w.val_len_at,
          le→ltb (length bytes) (13 + length r.key) (omega (arith, w.size)),
          w.key_at,
          w.key_text,
          w.value_at,
          w.covered,
          ==_self (crc.hash (payload r.key r.value)),
          w.rest_at,
        )
        refl

  whole_lem :
      (r : BlockRecord) (rest : List ℕ)
      → IsStorable r
      → IsWhole r (head r ++ (r.key ++ (value_bytes r.value ++ rest))) rest
  whole_lem r rest h =
      let v = value_bytes r.value in
      let bytes = head r ++ (r.key ++ (v ++ rest)) in
      record {
        size = length_whole r rest;
        crc_at = stored_crc r rest;
        type_at = type_lem r rest;
        key_len_at = key_len r rest h.key_text.short;
        val_len_at = val_len r rest h.value_text.short;
        key_at = slice_of bytes (head r) r.key (v ++ rest) 13 (13 + length r.key) refl refl refl;
        key_text = from_utf8-some r.key h.key_text.utf8;
        value_at =
            read_value_lem r.value bytes (head r ++ r.key) rest (13 + length r.key) h.value_text
              (sym (append_assoc (head r) r.key (v ++ rest))) (length-append (head r) r.key);
        covered = covered_lem r rest;
        rest_at = drop_lem r rest;
      }

  -- One round of the loop at a whole record.
  pub read_records-serialize_record :
      (fuel : ℕ) (r : BlockRecord) (rest : List ℕ)
      → IsStorable r
      → read_records crc (suc fuel) (serialize_record crc r.key r.value ++ rest)
        ≡ (read_records crc fuel rest >>= λ records. ok (r ∷ records))
  read_records-serialize_record fuel r rest h =
      rw (split_lem r rest) (step_lem fuel r _ rest (whole_lem r rest h))

  unfoldable pub block_bytes : List BlockRecord → List ℕ
  block_bytes [] = []
  block_bytes (r ∷ rs) = serialize_record crc r.key r.value ++ block_bytes rs

  -- The bytes of records are read as these records, in order.
  pub read_records-block_bytes :
      (fuel : ℕ) (rs : List BlockRecord)
      → AllStorable rs
      → length (block_bytes rs) ≤ fuel
      → read_records crc fuel (block_bytes rs) ≡ ok rs
  unfolding block_bytes
  read_records-block_bytes zero [] a le = unfold read_records in refl
  read_records-block_bytes (suc fuel) [] a le = unfold read_records in refl
  read_records-block_bytes zero (r ∷ rs) a le = absurd (
      omega (
        arith,
        length-append (serialize_record crc r.key r.value) (block_bytes rs),
        length-serialize_record r,
      ))
  read_records-block_bytes (suc fuel) (r ∷ rs) a le = rw (
    read_records-serialize_record fuel r (block_bytes rs) a.0,
    read_records-block_bytes fuel rs a.1 (
        omega (
          arith,
          length-append (serialize_record crc r.key r.value) (block_bytes rs),
          length-serialize_record r,
        )),
  )

  pub block_bytes-append :
      (rs ss : List BlockRecord) → block_bytes (rs ++ ss) ≡ block_bytes rs ++ block_bytes ss
  unfolding block_bytes
  block_bytes-append [] ss = refl
  block_bytes-append (r ∷ rs) ss = rw (block_bytes-append rs ss, append_assoc)
