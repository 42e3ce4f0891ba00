-- ===== src/Prelude/Dict.antt =====
-- `HashMap`: an association list over keys with a Boolean equality. The order of the entries stands
-- for the unspecified order of iteration.
use arch_db.Prelude.{
  Bool-cases, inl, inr, ◌+◌, ◌≡◌, ◌↔◌, refl, Bool, true, false, ◌||◌, Option, none, some, List, [],
  ◌∷◌, arith, length, if◌then◌else◌,
}
use arch_db.Prelude.Str.{Str, str_eq, str_eq_iff}

pub record Eq (K : Type 0) : Type 0 where
  pub eqb : K → K → Bool
  pub eqb_iff : (a b : K) → (eqb a b ≡ true) ↔ (a ≡ b)

instance abbrev pub str_eq_instance : Eq Str
str_eq_instance = record { eqb = str_eq; eqb_iff = str_eq_iff }

abbrev pub Dict : Type 0 → Type 0 → Type 0
Dict K V = List (K × V)

module _ {K V : Type 0} ⦃e : Eq K⦄ where
  unfoldable pub lookup : K → Dict K V → Option V
  lookup k [] = none
  lookup k ((j, v) ∷ m) = if e.eqb j k then some v else lookup k m

  -- `contains_key`
  unfoldable pub has : K → Dict K V → Bool
  has k [] = false
  has k ((j, v) ∷ m) = e.eqb j k || has k m

  unfoldable pub insert : K → V → Dict K V → Dict K V
  insert k v [] = (k, v) ∷ []
  insert k v ((j, w) ∷ m) = if e.eqb j k then (k, v) ∷ m else (j, w) ∷ insert k v m

  unfoldable pub remove : K → Dict K V → Dict K V
  remove k [] = []
  remove k ((j, w) ∷ m) = if e.eqb j k then m else (j, w) ∷ remove k m

  -- No key stands twice.
  abbrev pub IsDict : Dict K V → Type 0
  IsDict [] = Unit {0}
  IsDict ((j, v) ∷ m) = (has j m ≡ false) × IsDict m

  pub lookup-insert :
      (k j : K) (v : V) (m : Dict K V)
      → lookup j (insert k v m) ≡ (if e.eqb k j then some v else lookup j m)
  unfolding lookup insert
  lookup-insert k j v [] = refl
  lookup-insert k j v ((i, w) ∷ m) =
      ground (arith, e.eqb_iff k j, e.eqb_iff i k, e.eqb_iff i j, lookup-insert k j v m)

  pub has-insert : (k j : K) (v : V) (m : Dict K V) → has j (insert k v m) ≡ (e.eqb k j || has j m)
  unfolding has insert
  has-insert k j v [] = refl
  has-insert k j v ((i, w) ∷ m) =
      ground (arith, e.eqb_iff k j, e.eqb_iff i k, e.eqb_iff i j, has-insert k j v m)

  pub insert-IsDict : (k : K) (v : V) (m : Dict K V) → IsDict m → IsDict (insert k v m)
  unfolding has insert
  insert-IsDict k v [] h = (refl, tt)
  insert-IsDict k v ((i, w) ∷ m) h =
      ground (arith, e.eqb_iff i k, e.eqb_iff k i, has-insert k i v m, insert-IsDict k v m h.1)

  pub length-insert :
      (k : K) (v : V) (m : Dict K V)
      → length (insert k v m) ≡ (if has k m then length m else length m + 1)
  unfolding has insert
  length-insert k v [] = refl
  length-insert k v ((i, w) ∷ m) = ground (arith, length-insert k v m)

  pub has-remove :
      (k j : K) (m : Dict K V)
      → IsDict m
      → has j (remove k m) ≡ (if e.eqb k j then false else has j m)
  unfolding has remove
  has-remove k j [] h = ground arith
  has-remove k j ((i, w) ∷ m) h =
      ground (arith, e.eqb_iff k j, e.eqb_iff i k, e.eqb_iff i j, has-remove k j m h.1)

  pub lookup_absent : (k : K) (m : Dict K V) → has k m ≡ false → lookup k m ≡ none
  unfolding has lookup
  lookup_absent k [] h = refl
  lookup_absent k ((i, w) ∷ m) h = ground (arith, lookup_absent k m)

  pub lookup_present : (k : K) (m : Dict K V) → has k m ≡ true → (v : V) × (lookup k m ≡ some v)
  unfolding has lookup
  lookup_present k [] h = cc
  lookup_present k ((i, w) ∷ m) h = elim (Bool-cases (e.eqb i k)) [
    | inl here ↦ (w, rw here)
    | inr later ↦ let (v, found) = lookup_present k m (ground arith) in (v, rw later found)
  ]

  pub lookup-remove :
      (k j : K) (m : Dict K V)
      → IsDict m
      → lookup j (remove k m) ≡ (if e.eqb k j then none else lookup j m)
  unfolding lookup remove
  lookup-remove k j [] h = ground arith
  lookup-remove k j ((i, w) ∷ m) h = ground (
    arith,
    e.eqb_iff k j,
    e.eqb_iff i k,
    e.eqb_iff i j,
    lookup_absent i m,
    lookup-remove k j m h.1,
  )

  pub remove-IsDict : (k : K) (m : Dict K V) → IsDict m → IsDict (remove k m)
  unfolding remove
  remove-IsDict k [] h = tt
  remove-IsDict k ((i, w) ∷ m) h = ground (arith, has-remove k i m h.1, remove-IsDict k m h.1)

  pub length-remove :
      (k : K) (m : Dict K V)
      → length m ≡ (if has k m then length (remove k m) + 1 else length (remove k m))
  unfolding has remove
  length-remove k [] = refl
  length-remove k ((i, w) ∷ m) = ground (arith, length-remove k m)
