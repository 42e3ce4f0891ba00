-- ===== src/Storage/Torn.antt =====
-- A crash may leave any prefix of what was written to the current segment.
use arch_db.Prelude.{
  ℕ, zero, suc, ◌+◌, ◌-◌, ◌≤◌, ◌<◌, ◌≡◌, refl, ap, List, [], ◌∷◌, ◌++◌, arith, length,
  length-append, take, ok, subst, sym,
}
use native.Mathlib.Nat.{zero-add, suc-add}
use native.Mathlib.Decide.{dec_le}
use arch_db.Command.{Command, Crc32}
use arch_db.Storage.{frame, load_segment}
use arch_db.Storage.Frames.{
  AllLogged, frames, length-frame, load_segment-frame, load_segment-torn, IsLogged,
}

module _ (crc : Crc32) where
  -- `m` is the number of the frames of `cs` that lie whole in the first `n` bytes.
  pub record IsWholeCount (cs : List Command) (n m : ℕ) : Type 0 where
    pub bounded : m ≤ length cs
    pub fits : length (frames crc (take m cs)) ≤ n
    pub most : m < length cs → n < length (frames crc (take (suc m) cs))

  take_short {ℓ} :
      {A : Type ℓ} (n : ℕ) (xs ys : List A) → n ≤ length xs → take n (xs ++ ys) ≡ take n xs
  take_short zero xs ys h = refl
  take_short (suc n) [] ys h = absurd (omega arith)
  take_short (suc n) (x ∷ xs) ys h = ap (◌∷◌ x) (take_short n xs ys (omega arith))

  take_long {ℓ} :
      {A : Type ℓ} (n : ℕ) (xs ys : List A) → take (length xs + n) (xs ++ ys) ≡ xs ++ take n ys
  take_long n [] ys = rw zero-add refl
  take_long n (x ∷ xs) ys = rw suc-add (ap (◌∷◌ x) (take_long n xs ys))

  load_segment_empty : (fuel : ℕ) → load_segment crc fuel [] ≡ ok []
  unfolding load_segment
  load_segment_empty zero = refl
  load_segment_empty (suc fuel) = refl

  load_segment_whole :
      (c : Command) (cs : List Command) (fuel n : ℕ) {ds : List Command}
      → IsLogged crc c
      → length (frame crc c) ≤ n
      → load_segment crc fuel (take (n - length (frame crc c)) (frames crc cs)) ≡ ok ds
      → load_segment crc (suc fuel) (take n (frame crc c ++ frames crc cs)) ≡ ok (c ∷ ds)
  load_segment_whole c cs fuel n {ds} l le ih =
      let r = n - length (frame crc c) in
      let e : n ≡ length (frame crc c) + r = omega arith in
      subst (λ k. load_segment crc (suc fuel) (take k (frame crc c ++ frames crc cs)) ≡ ok (c ∷ ds))
        (sym e)
        (rw (
          take_long r (frame crc c) (frames crc cs),
          load_segment-frame crc fuel c (take r (frames crc cs)) l,
          ih,
        ))

  load_segment_cut :
      (c : Command) (cs : List Command) (fuel n : ℕ)
      → IsLogged crc c
      → n < length (frame crc c)
      → load_segment crc fuel (take n (frame crc c ++ frames crc cs)) ≡ ok []
  load_segment_cut c cs fuel n l lt =
      rw (take_short n (frame crc c) (frames crc cs) (omega arith))
        (load_segment-torn crc fuel n c l lt)

  -- Cut after any number of bytes, a segment of whole frames loads without an error, and yields the
  -- commands whose frames lie whole before the cut, in order, and nothing else.
  pub load_segment-take :
      (cs : List Command) (fuel n : ℕ)
      → AllLogged crc cs
      → n ≤ fuel
      → (m : ℕ) × (load_segment crc fuel (take n (frames crc cs)) ≡ ok (take m cs))
        × IsWholeCount cs n m
  unfolding frames
  load_segment-take [] fuel zero l h = (
    0,
    load_segment_empty fuel,
    record { bounded = omega arith; fits = omega arith; most = λ p. absurd (omega arith) },
  )
  load_segment-take [] fuel (suc n) l h = (
    0,
    load_segment_empty fuel,
    record { bounded = omega arith; fits = omega arith; most = λ p. absurd (omega arith) },
  )
  load_segment-take (c ∷ cs) zero n l h = (
    0,
    load_segment_cut c cs 0 n l.0 (omega (arith, length-frame crc c)),
    record {
      bounded = omega arith;
      fits = omega arith;
      most = λ p. omega (arith, length-frame crc c, length-append (frame crc c) []);
    },
  )
  load_segment-take (c ∷ cs) (suc fuel) n l h = elim (dec_le (length (frame crc c)) n) [
    | yes whole ↦
        let size = length-frame crc c in
        let (m, loaded, count) =
          load_segment-take cs fuel (n - length (frame crc c)) l.1 (omega arith) in
        (
          suc m,
          load_segment_whole c cs fuel n l.0 whole loaded,
          record {
            bounded = omega (arith, count.bounded);
            fits = omega (arith, length-append (frame crc c) (frames crc (take m cs)), count.fits);
            most = λ p. omega (
              arith,
              length-append (frame crc c) (frames crc (take (suc m) cs)),
              count.most (omega arith),
            );
          },
        )
    | no torn ↦ (
      0,
      load_segment_cut c cs (suc fuel) n l.0 (omega arith),
      record {
        bounded = omega arith;
        fits = omega arith;
        most = λ p. omega (arith, length-append (frame crc c) []);
      },
    )
  ]
