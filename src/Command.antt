-- ===== src/Command.antt =====
-- command.rs: the commands of the engine and their binary form, the payload of a write-ahead log
-- record. `crc32fast::hash` is a parameter.
pub mod Codec
pub mod Soundness
pub mod Damage
use arch_db.Prelude.{
  ℕ, ◌+◌, ◌<◌, Option, none, some, List, [], ◌∷◌, ◌++◌, ltb, length, if◌then◌else◌, Result, ok,
  ◌>>=◌, ◌==◌,
}
use arch_db.Prelude.Str.{Str}
use arch_db.Prelude.Bytes.{u32_mod, be32, byte_at, read_be32, slice}
use arch_db.Prelude.Utf8.{from_utf8}

pub data Command : Type 0 where
  set : Str → Str → Command
  get : Str → Command
  del : Str → Command
  exit : Command
  invalid : Command
  compact : Command
  scan : Str → Str → Command

-- `crc32fast::hash`: it returns a `u32`.
pub record Crc32 : Type 0 where
  pub hash : List ℕ → ℕ
  pub hash_lt : (bytes : List ℕ) → hash bytes < u32_mod

-- The bytes that the checksum covers.
unfoldable pub payload : Command → List ℕ
payload (set key val) = 1 ∷ be32 (length key) ++ be32 (length val) ++ key ++ val
payload (del key) = 2 ∷ be32 (length key) ++ key
payload _ = []

-- the step `.ok()?` of a function that returns `Option<_>`
abbrev pub or_none {ℓ κ} :
    {A : Type ℓ} {B : Type κ} → Option A → (A → Result (Option B)) → Result (Option B)
or_none none f = ok none
or_none (some a) f = f a

module _ (crc : Crc32) where
  unfoldable pub serialize : Command → List ℕ
  unfolding payload
  serialize c = be32 (crc.hash (payload c)) ++ payload c

  -- the arm `1 =>`
  deserialize_set : List ℕ → ℕ → Result (Option (Command × ℕ))
  deserialize_set bytes stored_checksum = if ltb (length bytes) 9 then ok none else do
    key_len ← read_be32 bytes 5
    val_len ← read_be32 bytes 9
    let total = 13 + key_len + val_len
    if ltb (length bytes) total then ok none else do
      raw_key ← slice bytes 13 (13 + key_len)
      or_none (from_utf8 raw_key) λ key. do
        raw_val ← slice bytes (13 + key_len) total
        or_none (from_utf8 raw_val) λ val. do
          covered ← slice bytes 4 total
          if crc.hash covered == stored_checksum then ok (some (set key val, total)) else ok none

  -- the arm `2 =>`
  deserialize_del : List ℕ → ℕ → Result (Option (Command × ℕ))
  deserialize_del bytes stored_checksum = if ltb (length bytes) (4 + 5) then ok none else do
    key_len ← read_be32 bytes 5
    let total = 9 + key_len
    if ltb (length bytes) total then ok none else do
      raw_key ← slice bytes 9 total
      or_none (from_utf8 raw_key) λ key. do
        covered ← slice bytes 4 total
        if crc.hash covered == stored_checksum then ok (some (del key, total)) else ok none

  -- The command, and the number of bytes that it takes.
  unfoldable pub deserialize : List ℕ → Result (Option (Command × ℕ))
  unfolding deserialize_set deserialize_del
  deserialize bytes = if ltb (length bytes) (4 + 1) then ok none else do
    stored_checksum ← read_be32 bytes 0
    kind ← byte_at bytes 4
    if kind == 1
        then deserialize_set bytes stored_checksum
        else if kind == 2
        then deserialize_del bytes stored_checksum
        else ok none
