-- ===== src/Sstable/Writer/Sorted.antt =====
-- The blocks of sorted records are in the order of their start keys, and sorting leaves them so.
use arch_db.Prelude.{
  if_true, ℕ, ◌≡◌, refl, Bool, true, false, List, [], ◌∷◌, ◌++◌, arith, ap, sym, subst, ◌∙◌, ◌&&◌,
}
use arch_db.Prelude.Str.{Str, str_lt, str_le}
use arch_db.Value.{BlockRecord}
use arch_db.Sstable.Formats.{Formats}
use arch_db.Sstable.Index.{BlockMeta}
use arch_db.Sstable.Index.Search.{
  Heads, AllAbove, AllBelow, AllAbove-trans, Ordered, Ordered-below, Ordered-later, all_records,
}
use arch_db.Sstable.Writer.{insert_block, sort_blocks, is_sorted}
use arch_db.Sstable.Writer.Invariant.{IsPlaced, PlacedIn}

le_of_lt : (s t : Str) → str_lt s t ≡ true → str_le s t ≡ true
le_of_lt s t h = ground arith

is_sorted_pair :
    (r q : BlockRecord) (rs : List BlockRecord)
    → is_sorted (r ∷ q ∷ rs) ≡ true
    → (str_lt r.key q.key ≡ true) × (is_sorted (q ∷ rs) ≡ true)
unfolding is_sorted
is_sorted_pair r q rs h = both (str_lt r.key q.key) (is_sorted (q ∷ rs)) h
  where
    both : (a b : Bool) → (a && b) ≡ true → (a ≡ true) × (b ≡ true)
    both true b h = (refl, h)
    both false b h = cc

is_sorted-first :
    (r : BlockRecord) (rs : List BlockRecord) → is_sorted (r ∷ rs) ≡ true → AllAbove r.key rs
is_sorted-first r [] h = tt
is_sorted-first r (q ∷ rs) h =
    let p = is_sorted_pair r q rs h in
    (p.0, AllAbove-trans r.key q.key rs p.0 (is_sorted-first q rs p.1))

pub is_sorted-Ordered : (rs : List BlockRecord) → is_sorted rs ≡ true → Ordered rs
is_sorted-Ordered [] h = tt
is_sorted-Ordered (r ∷ []) h = (tt, tt)
is_sorted-Ordered (r ∷ q ∷ rs) h =
    (is_sorted-first r (q ∷ rs) h, is_sorted-Ordered (q ∷ rs) (is_sorted_pair r q rs h).1)

module _ (env : Formats) where
  starts_lem :
      (file : List ℕ) (m : BlockMeta) (g : List BlockRecord) (n : BlockMeta)
      (g' rest : List BlockRecord)
      → (h : Heads (IsPlaced env file) m g) → (k : Heads (IsPlaced env file) n g')
      → Ordered (g ++ (g' ++ rest))
      → str_le m.start_key n.start_key ≡ true
  starts_lem file m g n g' rest h k o =
      let below =
        Ordered-below g k.first (k.others ++ rest)
          (subst (λ x. Ordered (g ++ (x ++ rest))) k.group o) in
      let first = subst (AllBelow k.first.key) h.group below in
      subst (λ x. str_le x n.start_key ≡ true) (sym h.start)
        (subst (λ x. str_le h.first.key x ≡ true) (sym k.start)
          (le_of_lt h.first.key k.first.key first.0))

  insert_block-first :
      (file : List ℕ) (m : BlockMeta) (g : List BlockRecord) (ms : List BlockMeta)
      (gs : List (List BlockRecord))
      → Heads (IsPlaced env file) m g
      → PlacedIn env file ms gs
      → Ordered (g ++ all_records gs)
      → insert_block m ms ≡ m ∷ ms
  unfolding insert_block
  insert_block-first file m g [] gs h a o = refl
  insert_block-first file m g (n ∷ ms) [] h a o = absurd a
  insert_block-first file m g (n ∷ ms) (g' ∷ gs) h a o =
      if_true (str_le m.start_key n.start_key) (m ∷ n ∷ ms) (n ∷ insert_block m ms)
        (starts_lem file m g n g' (all_records gs) h a.0 o)

  pub sort_blocks-PlacedIn :
      (file : List ℕ) (ms : List BlockMeta) (gs : List (List BlockRecord))
      → PlacedIn env file ms gs
      → Ordered (all_records gs)
      → sort_blocks ms ≡ ms
  unfolding sort_blocks
  sort_blocks-PlacedIn file [] gs a o = refl
  sort_blocks-PlacedIn file (m ∷ ms) [] a o = absurd a
  sort_blocks-PlacedIn file (m ∷ ms) (g ∷ gs) a o =
      ap (insert_block m) (sort_blocks-PlacedIn file ms gs a.1 (Ordered-later g (all_records gs) o))
      ∙ insert_block-first file m g ms gs a.0 a.1 o
