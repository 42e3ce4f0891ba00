-- ===== src/Prelude/TreeMap.antt =====
-- `BTreeMap<String, V>`: an association list in the order of its keys.
use Prim.Native.Nat.{Ordering}
use arch_db.Prelude.{
  ◌≡◌, refl, true, Option, none, some, ap, ◌∙◌, List, [], ◌∷◌, ◌++◌, arith, if◌then◌else◌,
}
use arch_db.Prelude.Str.{
  Str, str_eq, str_eq_iff, str_cmp, str_lt, str_cmp-eq, str_cmp_self, str_cmp_flip, str_lt_trans,
}

abbrev pub TreeMap : Type 0 → Type 0
TreeMap V = List (Str × V)

module _ {V : Type 0} where
  unfoldable pub lookup : Str → TreeMap V → Option V
  lookup k [] = none
  lookup k ((j, v) ∷ m) = if str_eq j k then some v else lookup k m

  unfoldable pub insert : Str → V → TreeMap V → TreeMap V
  insert k v [] = (k, v) ∷ []
  insert k v ((j, w) ∷ m) = elim (str_cmp k j) [
    | Ordering.lt ↦ (k, v) ∷ (j, w) ∷ m
    | Ordering.eq ↦ (k, v) ∷ m
    | Ordering.gt ↦ (j, w) ∷ insert k v m
  ]

  unfoldable pub remove : Str → TreeMap V → TreeMap V
  remove k [] = []
  remove k ((j, w) ∷ m) = if str_eq j k then m else (j, w) ∷ remove k m

  -- Every key of the map comes after `k`.
  abbrev pub IsAbove : Str → TreeMap V → Type 0
  IsAbove k [] = Unit {0}
  IsAbove k ((j, v) ∷ m) = (str_lt k j ≡ true) × IsAbove k m

  abbrev pub IsSorted : TreeMap V → Type 0
  IsSorted [] = Unit {0}
  IsSorted ((j, v) ∷ m) = IsAbove j m × IsSorted m

  pub IsAbove-trans : (k j : Str) (m : TreeMap V) → str_lt k j ≡ true → IsAbove j m → IsAbove k m
  IsAbove-trans k j [] h a = tt
  IsAbove-trans k j ((i, v) ∷ m) h a = (str_lt_trans k j i h a.0, IsAbove-trans k j m h a.1)

  pub insert-IsAbove :
      (i k : Str) (v : V) (m : TreeMap V)
      → str_lt i k ≡ true
      → IsAbove i m
      → IsAbove i (insert k v m)
  unfolding insert
  insert-IsAbove i k v [] h a = (h, tt)
  insert-IsAbove i k v ((j, w) ∷ m) h a = ground (arith, insert-IsAbove i k v m h a.1)

  pub insert-IsSorted : (k : Str) (v : V) (m : TreeMap V) → IsSorted m → IsSorted (insert k v m)
  unfolding insert
  insert-IsSorted k v [] s = (tt, tt)
  insert-IsSorted k v ((j, w) ∷ m) s = ground (
    arith,
    str_cmp-eq k j,
    str_cmp_flip k j,
    IsAbove-trans k j m,
    insert-IsAbove j k v m,
    insert-IsSorted k v m s.1,
  )

  pub lookup-insert :
      (k j : Str) (v : V) (m : TreeMap V)
      → lookup j (insert k v m) ≡ (if str_eq k j then some v else lookup j m)
  unfolding lookup insert
  lookup-insert k j v [] = refl
  lookup-insert k j v ((i, w) ∷ m) = ground (
    arith,
    str_eq_iff k j,
    str_eq_iff i k,
    str_eq_iff i j,
    str_cmp-eq k i,
    str_cmp_self i,
    lookup-insert k j v m,
  )

  above_last :
      (j k : Str) (v : V) (m later : TreeMap V)
      → IsAbove j (m ++ (k, v) ∷ later)
      → str_lt j k ≡ true
  above_last j k v [] later a = a.0
  above_last j k v ((i, w) ∷ m) later a = above_last j k v m later a.1

  insert_above :
      (k : Str) (v : V) (j : Str) (w : V) (m : TreeMap V)
      → str_lt j k ≡ true
      → insert k v ((j, w) ∷ m) ≡ (j, w) ∷ insert k v m
  unfolding insert
  insert_above k v j w m h = ground (arith, str_cmp_flip j k)

  -- A key that comes after all others is put at the end.
  pub insert_last :
      (k : Str) (v : V) (m later : TreeMap V)
      → IsSorted (m ++ (k, v) ∷ later)
      → insert k v m ≡ m ++ (k, v) ∷ []
  insert_last k v [] later s = unfold insert in refl
  insert_last k v ((j, w) ∷ m) later s =
      insert_above k v j w m (above_last j k v m later s.0)
      ∙ ap (λ r. (j, w) ∷ r) (insert_last k v m later s.1)

  IsAbove-none : (k : Str) (m : TreeMap V) → IsAbove k m → lookup k m ≡ none
  unfolding lookup
  IsAbove-none k [] a = refl
  IsAbove-none k ((j, w) ∷ m) a =
      ground (arith, str_eq_iff j k, str_cmp_self k, IsAbove-none k m a.1)

  pub lookup-remove :
      (k j : Str) (m : TreeMap V)
      → IsSorted m
      → lookup j (remove k m) ≡ (if str_eq k j then none else lookup j m)
  unfolding lookup remove
  lookup-remove k j [] s = ground arith
  lookup-remove k j ((i, w) ∷ m) s = ground (
    arith,
    str_eq_iff k j,
    str_eq_iff i k,
    str_eq_iff i j,
    IsAbove-none i m s.0,
    lookup-remove k j m s.1,
  )

  remove-IsAbove : (i k : Str) (m : TreeMap V) → IsAbove i m → IsAbove i (remove k m)
  unfolding remove
  remove-IsAbove i k [] a = tt
  remove-IsAbove i k ((j, w) ∷ m) a = ground (arith, remove-IsAbove i k m a.1)

  pub remove-IsSorted : (k : Str) (m : TreeMap V) → IsSorted m → IsSorted (remove k m)
  unfolding remove
  remove-IsSorted k [] s = tt
  remove-IsSorted k ((j, w) ∷ m) s =
      ground (arith, remove-IsAbove j k m s.0, remove-IsSorted k m s.1)
