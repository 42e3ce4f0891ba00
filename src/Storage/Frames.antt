-- ===== src/Storage/Frames.antt =====
-- Reading frames back: one frame, a file of whole frames, and a file that ends inside a frame.
use arch_db.Prelude.{
  ℕ, zero, suc, ◌+◌, ◌≤◌, ◌<◌, ◌≡◌, refl, some, List, [], ◌∷◌, ◌++◌, arith, length, length-append,
  take, drop, drop-append, append-nil, append_assoc, ok, ◌>>=◌, length-take, le→ltb, ==_self,
}
use arch_db.Prelude.Bytes.{u32_mod, be32, from_be32-be32, slice, slice-append, read_be32}
use arch_db.Command.{Command, Crc32, serialize, deserialize}
use arch_db.Command.Codec.{IsRecord, deserialize-serialize}
use arch_db.Storage.{frame, load_segment}

module _ (crc : Crc32) where
  -- A command that the log can hold: a record whose payload fits the frame's length field.
  pub record IsLogged (c : Command) : Type 0 where
    pub is_record : IsRecord c
    pub short : length (serialize crc c) < u32_mod

  abbrev pub AllLogged : List Command → Type 0
  AllLogged [] = Unit {0}
  AllLogged (c ∷ cs) = IsLogged c × AllLogged cs

  unfoldable pub frames : List Command → List ℕ
  frames [] = []
  frames (c ∷ cs) = frame crc c ++ frames cs

  pub length-frame : (c : Command) → length (frame crc c) ≡ 8 + length (serialize crc c)
  unfolding frame
  length-frame c = omega arith

  deserialize_whole :
      (c : Command)
      → IsRecord c
      → deserialize crc (serialize crc c) ≡ ok (some (c, length (serialize crc c)))
  deserialize_whole c h = rw append-nil at (deserialize-serialize crc c [] h)

  stored_checksum :
      (c : Command) (rest : List ℕ)
      → read_be32 (frame crc c ++ rest) 0 ≡ ok (crc.hash (serialize crc c))
  unfolding frame
  stored_checksum c rest =
      let bytes = serialize crc c in rw (from_be32-be32 (crc.hash bytes) (crc.hash_lt bytes))

  stored_length :
      (c : Command) (rest : List ℕ)
      → length (serialize crc c) < u32_mod
      → read_be32 (frame crc c ++ rest) 4 ≡ ok (length (serialize crc c))
  unfolding frame
  stored_length c rest short = rw (from_be32-be32 (length (serialize crc c)) short)

  slice-frame :
      (c : Command) (rest : List ℕ)
      → slice (frame crc c ++ rest) 8 (8 + length (serialize crc c)) ≡ ok (serialize crc c)
  unfolding frame
  slice-frame c rest =
      let bytes = serialize crc c in
      slice-append (be32 (crc.hash bytes) ++ be32 (length bytes)) bytes rest

  drop-frame :
      (c : Command) (rest : List ℕ)
      → drop (8 + length (serialize crc c)) (frame crc c ++ rest) ≡ rest
  drop-frame c rest = rw (← length-frame c) (drop-append (frame crc c) rest)

  -- One round of the loop at a whole frame.
  pub load_segment-frame :
      (fuel : ℕ) (c : Command) (rest : List ℕ)
      → IsLogged c
      → load_segment crc (suc fuel) (frame crc c ++ rest)
        ≡ (load_segment crc fuel rest >>= λ later. ok (c ∷ later))
  unfolding load_segment
  load_segment-frame fuel c rest h =
      let bytes = serialize crc c in
      let size = length-append (frame crc c) rest in
      rw
        (
          le→ltb (length (frame crc c ++ rest)) 8 (omega (arith, size, length-frame c)),
          stored_checksum c rest,
          stored_length c rest h.short,
          le→ltb (length (frame crc c ++ rest)) (8 + length bytes)
              (omega (arith, size, length-frame c)),
          slice-frame c rest,
          ==_self (crc.hash bytes),
          deserialize_whole c h.is_record,
          drop-frame c rest,
        )
        refl

  -- A file of whole frames holds its commands, in order.
  pub load_segment-frames :
      (fuel : ℕ) (cs : List Command)
      → AllLogged cs
      → length (frames cs) ≤ fuel
      → load_segment crc fuel (frames cs) ≡ ok cs
  unfolding frames
  load_segment-frames zero [] h le = unfold load_segment in refl
  load_segment-frames (suc fuel) [] h le = unfold load_segment in refl
  load_segment-frames zero (c ∷ cs) h le =
      absurd (omega (arith, length-append (frame crc c) (frames cs), length-frame c))
  load_segment-frames (suc fuel) (c ∷ cs) h le = rw (
    load_segment-frame fuel c (frames cs) h.0,
    load_segment-frames fuel cs h.1
        (omega (arith, length-append (frame crc c) (frames cs), length-frame c)),
  )

  pub frames-append : (cs ds : List Command) → frames (cs ++ ds) ≡ frames cs ++ frames ds
  unfolding frames
  frames-append [] ds = refl
  frames-append (c ∷ cs) ds = rw (frames-append cs ds, append_assoc)

  pub frames-snoc :
      (cs : List Command) (c : Command) → frames (cs ++ c ∷ []) ≡ frames cs ++ frame crc c
  unfolding frames
  frames-snoc cs c = rw (frames-append cs (c ∷ []), append-nil)

  pub AllLogged-append : (cs ds : List Command) → AllLogged cs → AllLogged ds → AllLogged (cs ++ ds)
  AllLogged-append [] ds h k = k
  AllLogged-append (c ∷ cs) ds h k = (h.0, AllLogged-append cs ds h.1 k)

  -- A proper prefix of a frame yields nothing: the record that a crash has cut is dropped.
  pub load_segment-torn :
      (fuel n : ℕ) (c : Command)
      → IsLogged c
      → n < length (frame crc c)
      → load_segment crc fuel (take n (frame crc c)) ≡ ok []
  unfolding load_segment frame
  load_segment-torn zero n c h lt = refl
  load_segment-torn (suc fuel) (suc (suc (suc (suc (suc (suc (suc (suc n)))))))) c h lt =
      let bytes = serialize crc c in
      rw (from_be32-be32 (length bytes) h.short) (ground (arith, length-take n bytes))
  load_segment-torn (suc fuel) n c h lt = refl
