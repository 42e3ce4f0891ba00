-- ===== src/Sstable/Record.antt =====
-- The records of a block: `serialize_record`, and the loop of `read_block_from_file` that reads them.
pub mod Codec
use arch_db.Prelude.{
  ℕ, zero, suc, ◌+◌, Option, none, some, List, [], ◌∷◌, ◌++◌, ltb, leb, length, drop, if◌then◌else◌,
  Result, ok, ◌>>=◌, ◌==◌, Bool, true, false, unwrap,
}
use arch_db.Prelude.Str.{Str}
use arch_db.Prelude.Bytes.{be32, byte_at, read_be32, slice}
use arch_db.Prelude.Utf8.{from_utf8}
use arch_db.Command.{Crc32}
use arch_db.Value.{Value, data_of, tombstone, BlockRecord}

unfoldable pub type_byte : Value → ℕ
type_byte (data_of v) = 1
type_byte tombstone = 0

unfoldable pub value_bytes : Value → List ℕ
value_bytes (data_of v) = v
value_bytes tombstone = []

unfoldable pub payload : Str → Value → List ℕ
unfolding type_byte value_bytes
payload key value =
    type_byte value ∷ be32 (length key)
    ++ be32 (length (value_bytes value))
    ++ key
    ++ value_bytes value

-- The `match record_type`; `none` is `break`.
unfoldable pub read_value : ℕ → List ℕ → ℕ → ℕ → Result (Option Value)
read_value record_type bytes start end =
    if record_type == 1
    then (if ltb (length bytes) end then ok none else do
      raw ← slice bytes start end
      value ← unwrap (from_utf8 raw)
      ok (some (data_of value)))
    else if record_type == 0
    then (if ltb (length bytes) end then ok none else ok (some tombstone))
    else ok none

unfoldable pub push : Bool → BlockRecord → List BlockRecord → List BlockRecord
push true r records = r ∷ records
push false r records = records

module _ (crc : Crc32) where
  unfoldable pub serialize_record : Str → Value → List ℕ
  unfolding payload
  serialize_record key value = be32 (crc.hash (payload key value)) ++ payload key value

  -- The `while` loop over a block; `bytes` is `block[i..]`. A round takes 13 bytes or more, so the
  -- length of the block is fuel enough. A record with a wrong checksum is skipped.
  unfoldable pub read_records : ℕ → List ℕ → Result (List BlockRecord)
  unfolding read_value push
  read_records zero bytes = ok []
  read_records (suc fuel) bytes =
      if ltb (length bytes) 4
      then ok []
      else if leb (length bytes) 4
      then ok []
      else if ltb (length bytes) (5 + 8)
      then ok []
      else do
        stored_crc ← read_be32 bytes 0
        record_type ← byte_at bytes 4
        key_len ← read_be32 bytes 5
        val_len ← read_be32 bytes 9
        if ltb (length bytes) (13 + key_len) then ok [] else do
          raw ← slice bytes 13 (13 + key_len)
          key ← unwrap (from_utf8 raw)
          read ← read_value record_type bytes (13 + key_len) (13 + key_len + val_len)
          let rest = read_records fuel (drop (13 + key_len + val_len) bytes)
          elim read [
            | none ↦ ok []
            | some value ↦ do
              covered ← slice bytes 4 (13 + key_len + val_len)
              records ← rest
              ok (
                  push (crc.hash covered == stored_crc) (record { key = key; value = value })
                    records)
          ]
