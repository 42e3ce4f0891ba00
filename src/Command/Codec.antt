-- ===== src/Command/Codec.antt =====
-- `deserialize` reads back what `serialize` writes, whatever bytes follow.
use arch_db.Prelude.{
  ℕ, ◌<◌, ◌≡◌, true, some, List, ◌∷◌, ◌++◌, arith, length, length-append, append_assoc, ok,
}
use arch_db.Prelude.Str.{Str}
use arch_db.Prelude.Bytes.{u32_mod, be32, from_be32-be32, slice-append}
use arch_db.Prelude.Utf8.{is_utf8, from_utf8-some}
use arch_db.Command.{
  Crc32, set, get, del, exit, invalid, compact, scan, payload, serialize, deserialize, Command,
}

-- A `String` whose length fits the field that holds it.
pub record IsText (s : Str) : Type 0 where
  pub utf8 : is_utf8 s ≡ true
  pub short : length s < u32_mod

-- The commands that the log holds, with texts that their length fields can hold.
abbrev pub IsRecord : Command → Type 0
IsRecord (set key val) = IsText key × IsText val
IsRecord (del key) = IsText key
IsRecord _ = ⊥

module _ (crc : Crc32) where
  deserialize-serialize-del :
      (key : Str) (rest : List ℕ)
      → IsText key
      → deserialize crc (serialize crc (del key) ++ rest)
        ≡ ok (some (del key, length (serialize crc (del key))))
  unfolding deserialize serialize
  deserialize-serialize-del key rest h =
      let sum = crc.hash (payload (del key)) in
      let head = be32 sum ++ 2 ∷ be32 (length key) in
      rw (from_be32-be32 (length key) h.short, from_be32-be32 sum (crc.hash_lt (payload (del key))))
        (ground (
          arith,
          length-append key rest,
          slice-append head key rest,
          from_utf8-some key h.utf8,
          slice-append (be32 sum) (payload (del key)) rest,
        ))

  deserialize-serialize-set :
      (key val : Str) (rest : List ℕ)
      → IsText key
      → IsText val
      → deserialize crc (serialize crc (set key val) ++ rest)
        ≡ ok (some (set key val, length (serialize crc (set key val))))
  unfolding deserialize serialize
  deserialize-serialize-set key val rest h k =
      let sum = crc.hash (payload (set key val)) in
      let head = be32 sum ++ 1 ∷ be32 (length key) ++ be32 (length val) in
      rw
        (
          from_be32-be32 (length key) h.short,
          from_be32-be32 (length val) k.short,
          from_be32-be32 sum (crc.hash_lt (payload (set key val))),
        )
        (ground (
          arith,
          append_assoc key val rest,
          length-append key val,
          length-append key (val ++ rest),
          length-append val rest,
          length-append (key ++ val) rest,
          slice-append head key (val ++ rest),
          from_utf8-some key h.utf8,
          slice-append (head ++ key) val rest,
          from_utf8-some val k.utf8,
          slice-append (be32 sum) (payload (set key val)) rest,
        ))

  -- A Set or Del command whose texts are UTF-8 and shorter than 2 ^ 32 bytes is read back from its
  -- serialization, whatever bytes follow it, together with the number of bytes that it takes.
  pub deserialize-serialize :
      (c : Command) (rest : List ℕ)
      → IsRecord c
      → deserialize crc (serialize crc c ++ rest) ≡ ok (some (c, length (serialize crc c)))
  deserialize-serialize (set key val) rest h = deserialize-serialize-set key val rest h.0 h.1
  deserialize-serialize (del key) rest h = deserialize-serialize-del key rest h
  deserialize-serialize (get key) rest h = absurd h
  deserialize-serialize exit rest h = absurd h
  deserialize-serialize invalid rest h = absurd h
  deserialize-serialize compact rest h = absurd h
  deserialize-serialize (scan start end) rest h = absurd h
