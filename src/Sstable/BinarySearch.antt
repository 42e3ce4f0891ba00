-- ===== src/Sstable/BinarySearch.antt =====
-- `binary_search_block` of sstable.rs: `binary_search_by` compares with the record in the middle of those that
-- are left. Which of them it probes is not specified; of records in the order of their keys it finds the one.
use arch_db.Prelude.{
  ℕ, zero, suc, ◌+◌, ◌/◌, ◌≤◌, ◌<◌, ◌≡◌, refl, Option, none, some, List, [], ◌∷◌, ◌++◌, arith,
  length, length-append, get_elem?, take, drop, ap, sym, ◌∙◌, subst, true, if_true, if_false,
}
use Prim.Native.Nat.{Ordering}
use arch_db.Prelude.Str.{
  Str, str_cmp, str_eq, str_eq_iff, str_cmp-eq, str_cmp_self, str_cmp_flip, str_lt,
}
use arch_db.Value.{Value, BlockRecord, find}
use arch_db.Sstable.Index.Search.{
  AllAbove-trans, Ordered, Ordered-below, Ordered-front, Ordered-later, find_behind, find_before,
}

-- The records behind the middle one, or before it; each round leaves fewer, so that their number is fuel enough.
unfoldable pub binary_search : ℕ → List BlockRecord → Str → Option Value
binary_search zero records key = none
binary_search (suc fuel) records key = elim (get_elem? records (length records / 2)) [
  | none ↦ none
  | some r ↦ elim (str_cmp r.key key) [
    | Ordering.lt ↦ binary_search fuel (drop (suc (length records / 2)) records) key
    | Ordering.eq ↦ some r.value
    | Ordering.gt ↦ binary_search fuel (take (length records / 2) records) key
  ]
]

unfoldable pub binary_search_block : List BlockRecord → Str → Option Value
unfolding binary_search
binary_search_block records key = binary_search (length records) records key

-- The records around the one at the position.
around :
    (i : ℕ) (rs : List BlockRecord)
    → i < length rs
    → (r : BlockRecord) × (get_elem? rs i ≡ some r) × (rs ≡ take i rs ++ r ∷ drop (suc i) rs)
around i [] h = absurd (omega (arith, h))
around zero (r ∷ rs) h = (r, refl, refl)
around (suc i) (r ∷ rs) h =
    let later = around i rs (omega (arith, h)) in (later.0, later.1, ap (λ l. r ∷ l) later.2)

-- The key is searched for on one side of the record, or is its key.
behind_probe :
    (key : Str) (front back : List BlockRecord) (r : BlockRecord)
    → Ordered (front ++ r ∷ back)
    → str_cmp r.key key ≡ Ordering.lt
    → find key (front ++ r ∷ back) ≡ find key back
unfolding find
behind_probe key front back r o h =
    find_behind key r.key front (r ∷ back) (Ordered-below front r back o) (ground (arith, h))
    ∙ if_false (str_eq r.key key) _ _ (ground (arith, h, str_eq_iff r.key key, str_cmp_self key))

at_probe :
    (key : Str) (front back : List BlockRecord) (r : BlockRecord)
    → Ordered (front ++ r ∷ back)
    → str_cmp r.key key ≡ Ordering.eq
    → find key (front ++ r ∷ back) ≡ some r.value
unfolding find
at_probe key front back r o h =
    find_behind key r.key front (r ∷ back) (Ordered-below front r back o) (ground (arith, h))
    ∙ if_true (str_eq r.key key) _ _ ((str_eq_iff r.key key).1 (str_cmp-eq r.key key h))

before_probe :
    (key : Str) (front back : List BlockRecord) (r : BlockRecord)
    → Ordered (front ++ r ∷ back)
    → str_cmp r.key key ≡ Ordering.gt
    → find key (front ++ r ∷ back) ≡ find key front
before_probe key front back r o h =
    let above : str_lt key r.key ≡ true = ground (arith, h, str_cmp_flip r.key key) in
    find_before key front (r ∷ back)
      (above, AllAbove-trans key r.key back above (Ordered-later front (r ∷ back) o).0)

abbrev probed :
    ℕ → List BlockRecord → List BlockRecord → Str → BlockRecord → Ordering → Option Value
probed fuel front back key r o = elim o [
  | Ordering.lt ↦ binary_search fuel back key
  | Ordering.eq ↦ some r.value
  | Ordering.gt ↦ binary_search fuel front key
]

abbrev searched : ℕ → List BlockRecord → List BlockRecord → Str → Option BlockRecord → Option Value
searched fuel front back key found = elim found [
  | none ↦ none
  | some r ↦ probed fuel front back key r (str_cmp r.key key)
]

probed_lem :
    (fuel : ℕ) (front back : List BlockRecord) (key : Str) (r : BlockRecord) (o : Ordering)
    → Ordered (front ++ r ∷ back)
    → str_cmp r.key key ≡ o
    → (Ordered front → binary_search fuel front key ≡ find key front)
    → (Ordered back → binary_search fuel back key ≡ find key back)
    → probed fuel front back key r o ≡ find key (front ++ r ∷ back)
probed_lem fuel front back key r Ordering.lt o h before behind =
    behind (Ordered-later front (r ∷ back) o).1 ∙ sym (behind_probe key front back r o h)
probed_lem fuel front back key r Ordering.eq o h before behind = sym (at_probe key front back r o h)
probed_lem fuel front back key r Ordering.gt o h before behind =
    before (Ordered-front front (r ∷ back) o) ∙ sym (before_probe key front back r o h)

binary_search-find :
    (fuel : ℕ) (rs : List BlockRecord) (key : Str)
    → length rs ≤ fuel
    → Ordered rs
    → binary_search fuel rs key ≡ find key rs
unfolding binary_search
binary_search-find zero [] key h o = unfold find in refl
binary_search-find zero (r ∷ rs) key h o = absurd (omega (arith, h))
binary_search-find (suc fuel) [] key h o = unfold find in refl
binary_search-find (suc fuel) (r ∷ rs) key h o =
    let all = r ∷ rs in
    let i = length all / 2 in
    let mid = around i all (omega arith) in
    let front = take i all in
    let back = drop (suc i) all in
    let size : length all ≡ length front + suc (length back) =
      ap length (mid.2) ∙ length-append front (mid.0 ∷ back) in
    ap (searched fuel front back key) (mid.1)
    ∙ probed_lem fuel front back key (mid.0) (str_cmp (mid.0).key key) (subst Ordered (mid.2) o)
        refl (λ o'. binary_search-find fuel front key (omega (arith, size, h)) o')
        (λ o'. binary_search-find fuel back key (omega (arith, size, h)) o')
    ∙ ap (find key) (sym (mid.2))

-- Of records in the order of their keys, the binary search gives the value of the record with the key.
pub binary_search_block-Ordered :
    (rs : List BlockRecord) (key : Str) → Ordered rs → binary_search_block rs key ≡ find key rs
unfolding binary_search_block
binary_search_block-Ordered rs key o = binary_search-find (length rs) rs key (omega arith) o
