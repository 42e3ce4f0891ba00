-- ===== src/Command/Soundness.antt =====
-- `deserialize` accepts nothing but what `serialize` writes.
use arch_db.Prelude.{
  ℕ, ◌+◌, ◌≡◌, true, some, List, [], ◌∷◌, ◌++◌, arith, length, length-append, ok, append_assoc, ◌⊎◌,
  ◌≤◌, take-append-drop, drop, inl, take, inr, ◌∙◌, ap, subst, length-take, length-drop,
}
use arch_db.Prelude.Bytes.{from_be32, slice-append, IsWord, word_bytes, word-lt, IsBytes}
use arch_db.Prelude.Utf8.{is_utf8, from_utf8}
use arch_db.Command.{Command, Crc32, del, serialize, deserialize, set}
use arch_db.Command.Codec.{IsRecord}

module _ (crc : Crc32) where
  -- What an accepted prefix is.
  pub record Accepts (bytes : List ℕ) (c : Command) (n : ℕ) : Type 0 where
    pub is_record : IsRecord c
    pub rest : List ℕ
    pub bytes_eq : bytes ≡ serialize crc c ++ rest
    pub size : n ≡ length (serialize crc c)

  del_split :
      (a0 a1 a2 a3 a5 a6 a7 a8 : ℕ) (key rest : List ℕ) (c : Command) (n : ℕ)
      → length key ≡ from_be32 a5 a6 a7 a8
      → deserialize crc (a0 ∷ a1 ∷ a2 ∷ a3 ∷ 2 ∷ a5 ∷ a6 ∷ a7 ∷ a8 ∷ key ++ rest) ≡ ok (some (c, n))
      → (c ≡ del key)
        × (n ≡ 9 + length key)
        × (is_utf8 key ≡ true)
        × (crc.hash (2 ∷ a5 ∷ a6 ∷ a7 ∷ a8 ∷ key) ≡ from_be32 a0 a1 a2 a3)
  unfolding deserialize from_utf8
  del_split a0 a1 a2 a3 a5 a6 a7 a8 key rest c n len h = ground (
    arith,
    length-append key rest,
    slice-append (a0 ∷ a1 ∷ a2 ∷ a3 ∷ 2 ∷ a5 ∷ a6 ∷ a7 ∷ a8 ∷ []) key rest,
    slice-append (a0 ∷ a1 ∷ a2 ∷ a3 ∷ []) (2 ∷ a5 ∷ a6 ∷ a7 ∷ a8 ∷ key) rest,
  )

  set_split :
      (a0 a1 a2 a3 a5 a6 a7 a8 a9 a10 a11 a12 : ℕ) (key val rest : List ℕ) (c : Command) (n : ℕ)
      → length key ≡ from_be32 a5 a6 a7 a8
      → length val ≡ from_be32 a9 a10 a11 a12
      → deserialize crc
          (a0 ∷ a1 ∷ a2 ∷ a3 ∷ 1 ∷ a5 ∷ a6 ∷ a7 ∷ a8 ∷ a9 ∷ a10 ∷ a11 ∷ a12 ∷ key ++ val ++ rest)
        ≡ ok (some (c, n))
      → (c ≡ set key val)
        × (n ≡ 13 + length key + length val)
        × (is_utf8 key ≡ true)
        × (is_utf8 val ≡ true)
        × (crc.hash (1 ∷ a5 ∷ a6 ∷ a7 ∷ a8 ∷ a9 ∷ a10 ∷ a11 ∷ a12 ∷ key ++ val)
            ≡ from_be32 a0 a1 a2 a3)
  unfolding deserialize from_utf8
  set_split a0 a1 a2 a3 a5 a6 a7 a8 a9 a10 a11 a12 key val rest c n len_k len_v h =
      let head = a0 ∷ a1 ∷ a2 ∷ a3 ∷ 1 ∷ a5 ∷ a6 ∷ a7 ∷ a8 ∷ a9 ∷ a10 ∷ a11 ∷ a12 ∷ [] in
      ground (
        arith,
        length-append key val,
        append_assoc key val rest,
        length-append key (val ++ rest),
        length-append val rest,
        slice-append head key (val ++ rest),
        slice-append (head ++ key) val rest,
        slice-append (a0 ∷ a1 ∷ a2 ∷ a3 ∷ [])
            (1 ∷ a5 ∷ a6 ∷ a7 ∷ a8 ∷ a9 ∷ a10 ∷ a11 ∷ a12 ∷ key ++ val) rest,
      )

  del_bytes :
      (a0 a1 a2 a3 a5 a6 a7 a8 : ℕ) (key : List ℕ)
      → IsWord a0 a1 a2 a3
      → IsWord a5 a6 a7 a8
      → length key ≡ from_be32 a5 a6 a7 a8
      → crc.hash (2 ∷ a5 ∷ a6 ∷ a7 ∷ a8 ∷ key) ≡ from_be32 a0 a1 a2 a3
      → serialize crc (del key) ≡ a0 ∷ a1 ∷ a2 ∷ a3 ∷ 2 ∷ a5 ∷ a6 ∷ a7 ∷ a8 ∷ key
  unfolding serialize
  del_bytes a0 a1 a2 a3 a5 a6 a7 a8 key w v len sum =
      let (s0, s1, s2, s3) = word_bytes a0 a1 a2 a3 w sum in
      let (p0, p1, p2, p3) = word_bytes a5 a6 a7 a8 v len in
      rw (p0, p1, p2, p3) (cc (s0, s1, s2, s3))

  set_bytes :
      (a0 a1 a2 a3 a5 a6 a7 a8 a9 a10 a11 a12 : ℕ) (key val : List ℕ)
      → IsWord a0 a1 a2 a3
      → IsWord a5 a6 a7 a8
      → IsWord a9 a10 a11 a12
      → length key ≡ from_be32 a5 a6 a7 a8
      → length val ≡ from_be32 a9 a10 a11 a12
      → crc.hash (1 ∷ a5 ∷ a6 ∷ a7 ∷ a8 ∷ a9 ∷ a10 ∷ a11 ∷ a12 ∷ key ++ val) ≡ from_be32 a0 a1 a2 a3
      → serialize crc (set key val)
        ≡ a0 ∷ a1 ∷ a2 ∷ a3 ∷ 1 ∷ a5 ∷ a6 ∷ a7 ∷ a8 ∷ a9 ∷ a10 ∷ a11 ∷ a12 ∷ key ++ val
  unfolding serialize
  set_bytes a0 a1 a2 a3 a5 a6 a7 a8 a9 a10 a11 a12 key val w u v len_k len_v sum =
      let (s0, s1, s2, s3) = word_bytes a0 a1 a2 a3 w sum in
      let (p0, p1, p2, p3) = word_bytes a5 a6 a7 a8 u len_k in
      let (q0, q1, q2, q3) = word_bytes a9 a10 a11 a12 v len_v in
      rw (p0, p1, p2, p3, q0, q1, q2, q3) (cc (s0, s1, s2, s3))

  del-Accepts :
      (a0 a1 a2 a3 a5 a6 a7 a8 : ℕ) (key rest : List ℕ) (c : Command) (n : ℕ)
      → IsWord a0 a1 a2 a3
      → IsWord a5 a6 a7 a8
      → length key ≡ from_be32 a5 a6 a7 a8
      → deserialize crc (a0 ∷ a1 ∷ a2 ∷ a3 ∷ 2 ∷ a5 ∷ a6 ∷ a7 ∷ a8 ∷ key ++ rest) ≡ ok (some (c, n))
      → Accepts (a0 ∷ a1 ∷ a2 ∷ a3 ∷ 2 ∷ a5 ∷ a6 ∷ a7 ∷ a8 ∷ key ++ rest) c n
  del-Accepts a0 a1 a2 a3 a5 a6 a7 a8 key rest c n w v len h =
      let (found, total, utf8, sum) = del_split a0 a1 a2 a3 a5 a6 a7 a8 key rest c n len h in
      let written = del_bytes a0 a1 a2 a3 a5 a6 a7 a8 key w v len sum in
      record {
        is_record = rw found (record { utf8 = utf8; short = rw len (word-lt a5 a6 a7 a8 v) });
        rest = rest;
        bytes_eq = rw (found, written);
        size = rw (found, written) (omega arith);
      }

  set-Accepts :
      (a0 a1 a2 a3 a5 a6 a7 a8 a9 a10 a11 a12 : ℕ) (key val rest : List ℕ) (c : Command) (n : ℕ)
      → IsWord a0 a1 a2 a3
      → IsWord a5 a6 a7 a8
      → IsWord a9 a10 a11 a12
      → length key ≡ from_be32 a5 a6 a7 a8
      → length val ≡ from_be32 a9 a10 a11 a12
      → deserialize crc
          (a0 ∷ a1 ∷ a2 ∷ a3 ∷ 1 ∷ a5 ∷ a6 ∷ a7 ∷ a8 ∷ a9 ∷ a10 ∷ a11 ∷ a12 ∷ key ++ val ++ rest)
        ≡ ok (some (c, n))
      → Accepts
          (a0 ∷ a1 ∷ a2 ∷ a3 ∷ 1 ∷ a5 ∷ a6 ∷ a7 ∷ a8 ∷ a9 ∷ a10 ∷ a11 ∷ a12 ∷ key ++ val ++ rest)
          c
          n
  set-Accepts a0 a1 a2 a3 a5 a6 a7 a8 a9 a10 a11 a12 key val rest c n w u v len_k len_v h =
      let (found, total, utf8_k, utf8_v, sum) =
        set_split a0 a1 a2 a3 a5 a6 a7 a8 a9 a10 a11 a12 key val rest c n len_k len_v h in
      let written =
        set_bytes a0 a1 a2 a3 a5 a6 a7 a8 a9 a10 a11 a12 key val w u v len_k len_v sum in
      record {
        is_record = rw found (
          record { utf8 = utf8_k; short = rw len_k (word-lt a5 a6 a7 a8 u) },
          record { utf8 = utf8_v; short = rw len_v (word-lt a9 a10 a11 a12 v) },
        );
        rest = rest;
        bytes_eq = rw (found, written);
        size = rw (found, written) (omega (arith, length-append key val));
      }

  -- A record kind other than 1 and 2 is not a record.
  kinds :
      (a0 a1 a2 a3 a4 : ℕ) (s : List ℕ) (c : Command) (n : ℕ)
      → deserialize crc (a0 ∷ a1 ∷ a2 ∷ a3 ∷ a4 ∷ s) ≡ ok (some (c, n))
      → (a4 ≡ 1) ⊎ (a4 ≡ 2)
  unfolding deserialize
  kinds a0 a1 a2 a3 a4 s c n h = ground arith

  fits_del :
      (a0 a1 a2 a3 a5 a6 a7 a8 : ℕ) (s : List ℕ) (c : Command) (n : ℕ)
      → deserialize crc (a0 ∷ a1 ∷ a2 ∷ a3 ∷ 2 ∷ a5 ∷ a6 ∷ a7 ∷ a8 ∷ s) ≡ ok (some (c, n))
      → from_be32 a5 a6 a7 a8 ≤ length s
  unfolding deserialize
  fits_del a0 a1 a2 a3 a5 a6 a7 a8 s c n h = ground arith

  fits_set :
      (a0 a1 a2 a3 a5 a6 a7 a8 a9 a10 a11 a12 : ℕ) (s : List ℕ) (c : Command) (n : ℕ)
      → deserialize crc (a0 ∷ a1 ∷ a2 ∷ a3 ∷ 1 ∷ a5 ∷ a6 ∷ a7 ∷ a8 ∷ a9 ∷ a10 ∷ a11 ∷ a12 ∷ s)
        ≡ ok (some (c, n))
      → from_be32 a5 a6 a7 a8 + from_be32 a9 a10 a11 a12 ≤ length s
  unfolding deserialize
  fits_set a0 a1 a2 a3 a5 a6 a7 a8 a9 a10 a11 a12 s c n h = ground arith

  sound_del :
      (a0 a1 a2 a3 : ℕ) (s : List ℕ) (c : Command) (n : ℕ)
      → IsWord a0 a1 a2 a3
      → IsBytes s
      → deserialize crc (a0 ∷ a1 ∷ a2 ∷ a3 ∷ 2 ∷ s) ≡ ok (some (c, n))
      → Accepts (a0 ∷ a1 ∷ a2 ∷ a3 ∷ 2 ∷ s) c n
  unfolding deserialize
  sound_del a0 a1 a2 a3 (a5 ∷ a6 ∷ a7 ∷ a8 ∷ t) c n w b h =
      let len = from_be32 a5 a6 a7 a8 in
      let fits = fits_del a0 a1 a2 a3 a5 a6 a7 a8 t c n h in
      let split = take-append-drop len t in
      subst (λ u. Accepts (a0 ∷ a1 ∷ a2 ∷ a3 ∷ 2 ∷ a5 ∷ a6 ∷ a7 ∷ a8 ∷ u) c n) split
        (del-Accepts a0 a1 a2 a3 a5 a6 a7 a8 (take len t) (drop len t) c n w
          (record { byte_a = b.0; byte_b = b.1.0; byte_c = b.1.1.0; byte_d = b.1.1.1.0 })
          (omega (arith, length-take len t, fits)) (rw split h))
  sound_del a0 a1 a2 a3 s c n w b h = absurd (ground arith)

  sound_set :
      (a0 a1 a2 a3 : ℕ) (s : List ℕ) (c : Command) (n : ℕ)
      → IsWord a0 a1 a2 a3
      → IsBytes s
      → deserialize crc (a0 ∷ a1 ∷ a2 ∷ a3 ∷ 1 ∷ s) ≡ ok (some (c, n))
      → Accepts (a0 ∷ a1 ∷ a2 ∷ a3 ∷ 1 ∷ s) c n
  unfolding deserialize
  sound_set a0 a1 a2 a3 (a5 ∷ a6 ∷ a7 ∷ a8 ∷ a9 ∷ a10 ∷ a11 ∷ a12 ∷ t) c n w b h =
      let k = from_be32 a5 a6 a7 a8 in
      let v = from_be32 a9 a10 a11 a12 in
      let fits = fits_set a0 a1 a2 a3 a5 a6 a7 a8 a9 a10 a11 a12 t c n h in
      let r = drop k t in
      let split : take k t ++ take v r ++ drop v r ≡ t =
        append_assoc (take k t) (take v r) (drop v r)
        ∙ ap (λ u. take k t ++ u) (take-append-drop v r)
        ∙ take-append-drop k t in
      let b' = b.1.1.1.1 in
      subst
        (λ u. Accepts (a0 ∷ a1 ∷ a2 ∷ a3 ∷ 1 ∷ a5 ∷ a6 ∷ a7 ∷ a8 ∷ a9 ∷ a10 ∷ a11 ∷ a12 ∷ u) c n)
        split
        (set-Accepts a0 a1 a2 a3 a5 a6 a7 a8 a9 a10 a11 a12 (take k t) (take v r) (drop v r) c n w
          (record { byte_a = b.0; byte_b = b.1.0; byte_c = b.1.1.0; byte_d = b.1.1.1.0 })
          (record { byte_a = b'.0; byte_b = b'.1.0; byte_c = b'.1.1.0; byte_d = b'.1.1.1.0 })
          (omega (arith, length-take k t, fits))
          (omega (arith, length-take v r, length-drop k t, fits)) (rw split h))
  sound_set a0 a1 a2 a3 s c n w b h = absurd (ground arith)

  -- Whatever bytes `deserialize` accepts begin with the serialization of the command that it
  -- returns, the reported size is that of this prefix, and the command is a Set or a Del with UTF-8
  -- texts that fit their length fields.
  pub deserialize_sound :
      (bytes : List ℕ) (c : Command) (n : ℕ)
      → IsBytes bytes
      → deserialize crc bytes ≡ ok (some (c, n))
      → Accepts bytes c n
  unfolding deserialize
  deserialize_sound (a0 ∷ a1 ∷ a2 ∷ a3 ∷ a4 ∷ s) c n b h =
      let w : IsWord a0 a1 a2 a3 = record {
        byte_a = b.0;
        byte_b = b.1.0;
        byte_c = b.1.1.0;
        byte_d = b.1.1.1.0;
      } in
      elim (kinds a0 a1 a2 a3 a4 s c n h) [
        | inl e ↦ rw e (sound_set a0 a1 a2 a3 s c n w b.1.1.1.1.1 (rw e at h))
        | inr e ↦ rw e (sound_del a0 a1 a2 a3 s c n w b.1.1.1.1.1 (rw e at h))
      ]
  deserialize_sound bytes c n b h = absurd (ground arith)
