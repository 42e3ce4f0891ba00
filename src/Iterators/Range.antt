-- ===== src/Iterators/Range.antt =====
-- A range over a memtable gives the records in the range, in order.
use arch_db.Sstable.Index.Search.{AllAbove, Ordered}
use arch_db.Prelude.{
  if_true, if_false, ℕ, zero, suc, ◌+◌, ◌≡◌, refl, Option, none, some, List, [], ◌∷◌, ◌++◌, arith,
  length, length-append, append_assoc, get_elem?, if◌then◌else◌, ap, sym, ◌∙◌, Result, ok, ◌>>=◌,
  true, false, ◌≤◌, ◌<◌, Bool-cases, inl, inr,
}
use arch_db.Prelude.Str.{Str, str_lt, str_le, str_cmp-eq, str_lt_trans}
use arch_db.Value.{BlockRecord}
use arch_db.Iterators.{
  MemtableIterator, memtable_next, memtable_iterator, RangeStorageIterator, range_next,
}

-- The iterator stands before `rs`.
pub record At (it : MemtableIterator) (rs : List BlockRecord) : Type 0 where
  pub before : List BlockRecord
  pub all : it.records ≡ before ++ rs
  pub here : it.position ≡ length before

get_elem?-at :
    (before : List BlockRecord) (rs : List BlockRecord) (r : BlockRecord)
    → get_elem? (before ++ r ∷ rs) (length before) ≡ some r
get_elem?-at [] rs r = refl
get_elem?-at (q ∷ before) rs r = get_elem?-at before rs r

get_elem?-end : (before : List BlockRecord) → get_elem? (before ++ []) (length before) ≡ none
get_elem?-end [] = refl
get_elem?-end (q ∷ before) = get_elem?-end before

abbrev moved : MemtableIterator → Option BlockRecord → Option BlockRecord × MemtableIterator
moved it found =
    (found, elim found [ none ↦ it | some r ↦ record it { position = it.position + 1 } ])

found_lem :
    (all before rs : List BlockRecord) (p : ℕ) (found : Option BlockRecord)
    → all ≡ before ++ rs
    → p ≡ length before
    → get_elem? (before ++ rs) (length before) ≡ found
    → get_elem? all p ≡ found
found_lem all before rs p found e h g = rw (e, h) g

next-some :
    (it : MemtableIterator) (r : BlockRecord) (rs : List BlockRecord)
    → At it (r ∷ rs)
    → memtable_next it ≡ ok (some r, record it { position = it.position + 1 })
unfolding memtable_next
next-some it r rs a =
    ap (λ f. ok (moved it f))
      (found_lem it.records a.before (r ∷ rs) it.position (some r) a.all a.here
        (get_elem?-at a.before rs r))

next-none : (it : MemtableIterator) → At it [] → memtable_next it ≡ ok (none, it)
unfolding memtable_next
next-none it a =
    ap (λ f. ok (moved it f))
      (found_lem it.records a.before [] it.position none a.all a.here (get_elem?-end a.before))

At-next :
    (it : MemtableIterator) (r : BlockRecord) (rs : List BlockRecord)
    → At it (r ∷ rs)
    → At (record it { position = it.position + 1 }) rs
At-next it r rs a = record {
  before = a.before ++ r ∷ [];
  all = a.all ∙ sym (append_assoc a.before (r ∷ []) rs);
  here = omega (arith, a.here, length-append a.before (r ∷ []));
}

-- The records with `start <= key < end`.
unfoldable pub in_range : Str → Str → List BlockRecord → List BlockRecord
in_range start end [] = []
in_range start end (r ∷ rs) =
    let later = in_range start end rs in
    if str_lt r.key start then later else if str_le end r.key then later else r ∷ later

-- What calls of `next` give until there is nothing.
unfoldable pub collect : ℕ → ℕ → RangeStorageIterator MemtableIterator → Result (List BlockRecord)
unfolding range_next memtable_next
collect zero fuel it = ok []
collect (suc calls) fuel it = do
  (found, it') ← range_next memtable_iterator fuel it
  elim found [ none ↦ ok [] | some r ↦ do rs ← collect calls fuel it'; ok (r ∷ rs) ]

le_lt_trans : (a b c : Str) → str_le a b ≡ true → str_lt b c ≡ true → str_le a c ≡ true
le_lt_trans a b c h k = ground (arith, str_cmp-eq a b, str_lt_trans a b c)

nothing_after :
    (start end k : Str) (rs : List BlockRecord)
    → str_le end k ≡ true
    → AllAbove k rs
    → in_range start end rs ≡ []
unfolding in_range
nothing_after start end k [] h a = refl
nothing_after start end k (r ∷ rs) h a =
    ground (arith, le_lt_trans end k r.key h a.0, nothing_after start end k rs h a.1)

abbrev pub range : MemtableIterator → Str → Str → RangeStorageIterator MemtableIterator
range it start end = record { inner = it; start = start; end = end }

-- The rest of a round of `collect`.
abbrev collected :
    ℕ → ℕ → Option BlockRecord × RangeStorageIterator MemtableIterator → Result (List BlockRecord)
collected calls fuel res = elim (res.0) [
  | none ↦ ok []
  | some r ↦ (collect calls fuel (res.1) >>= λ rs. ok (r ∷ rs))
]

abbrev run : ℕ → ℕ → ℕ → RangeStorageIterator MemtableIterator → Result (List BlockRecord)
run calls fuel f it = range_next memtable_iterator f it >>= collected calls fuel

abbrev tested :
    ℕ
    → RangeStorageIterator MemtableIterator
    → Option BlockRecord × MemtableIterator
    → Result (Option BlockRecord × RangeStorageIterator MemtableIterator)
tested f it res = elim (res.0) [
  | none ↦ ok (none, record it { inner = res.1 })
  | some r ↦
      if str_lt r.key it.start
      then range_next memtable_iterator f (record it { inner = res.1 })
      else if str_le it.end r.key
      then ok (none, record it { inner = res.1 })
      else ok (some r, record it { inner = res.1 })
]

range_next_step :
    (f : ℕ) (it : RangeStorageIterator MemtableIterator)
    (res : Option BlockRecord × MemtableIterator)
    → memtable_next it.inner ≡ ok res
    → range_next memtable_iterator (suc f) it ≡ tested f it res
unfolding range_next
range_next_step f it res e = ap (λ x. x >>= tested f it) e

collect_step :
    (calls fuel : ℕ) (it : RangeStorageIterator MemtableIterator)
    → collect (suc calls) fuel it ≡ run calls fuel fuel it
unfolding collect
collect_step calls fuel it = refl

in_range_skip :
    (start end : Str) (r : BlockRecord) (rs : List BlockRecord)
    → str_lt r.key start ≡ true
    → in_range start end (r ∷ rs) ≡ in_range start end rs
unfolding in_range
in_range_skip start end r rs h = rw h refl

in_range_take :
    (start end : Str) (r : BlockRecord) (rs : List BlockRecord)
    → str_lt r.key start ≡ false
    → str_le end r.key ≡ false
    → in_range start end (r ∷ rs) ≡ r ∷ in_range start end rs
unfolding in_range
in_range_take start end r rs h k = rw (h, k) refl

in_range_stop :
    (start end : Str) (r : BlockRecord) (rs : List BlockRecord)
    → str_lt r.key start ≡ false
    → str_le end r.key ≡ true
    → in_range start end (r ∷ rs) ≡ in_range start end rs
unfolding in_range
in_range_stop start end r rs h k = rw (h, k) refl

tested_skip :
    (f : ℕ) (it : RangeStorageIterator MemtableIterator) (r : BlockRecord) (rest : MemtableIterator)
    → str_lt r.key it.start ≡ true
    → tested f it (some r, rest) ≡ range_next memtable_iterator f (record it { inner = rest })
tested_skip f it r rest h = if_true (str_lt r.key it.start) _ _ h

tested_stop :
    (f : ℕ) (it : RangeStorageIterator MemtableIterator) (r : BlockRecord) (rest : MemtableIterator)
    → str_lt r.key it.start ≡ false
    → str_le it.end r.key ≡ true
    → tested f it (some r, rest) ≡ ok (none, record it { inner = rest })
tested_stop f it r rest h k =
    if_false (str_lt r.key it.start) _ _ h ∙ if_true (str_le it.end r.key) _ _ k

tested_take :
    (f : ℕ) (it : RangeStorageIterator MemtableIterator) (r : BlockRecord) (rest : MemtableIterator)
    → str_lt r.key it.start ≡ false
    → str_le it.end r.key ≡ false
    → tested f it (some r, rest) ≡ ok (some r, record it { inner = rest })
tested_take f it r rest h k =
    if_false (str_lt r.key it.start) _ _ h ∙ if_false (str_le it.end r.key) _ _ k

run-in_range :
    (rs : List BlockRecord) (it : MemtableIterator) (start end : Str) (calls fuel f : ℕ)
    → At it rs
    → Ordered rs
    → length rs ≤ calls
    → length rs < fuel
    → length rs < f
    → run calls fuel f (range it start end) ≡ ok (in_range start end rs)
run-in_range rs it start end calls fuel zero a o c g h = absurd (omega (arith, h))
run-in_range [] it start end calls fuel (suc f) a o c g h =
    ap (λ x. x >>= collected calls fuel)
      (range_next_step f (range it start end) (none, it) (next-none it a))
    ∙ unfold in_range in refl
run-in_range (r ∷ rs) it start end zero fuel (suc f) a o c g h = absurd (omega (arith, c))
run-in_range (r ∷ rs) it start end (suc calls) fuel (suc f) a o c g h =
    let it' = record it { position = it.position + 1 } in
    let a' = At-next it r rs a in
    let step = range_next_step f (range it start end) (some r, it') (next-some it r rs a) in
    elim (Bool-cases (str_lt r.key start)) [
      | inl low ↦
          ap (λ x. x >>= collected (suc calls) fuel)
            (step ∙ tested_skip f (range it start end) r it' low)
          ∙ run-in_range rs it' start end (suc calls) fuel f a' o.1 (omega (arith, c))
              (omega (arith, g)) (omega (arith, h))
          ∙ ap ok (sym (in_range_skip start end r rs low))
      | inr high ↦ elim (Bool-cases (str_le end r.key)) [
        | inl stop ↦
            ap (λ x. x >>= collected (suc calls) fuel)
              (step ∙ tested_stop f (range it start end) r it' high stop)
            ∙ ap ok (
                sym (
                  in_range_stop start end r rs high stop
                  ∙ nothing_after start end r.key rs stop o.0))
        | inr more ↦
            ap (λ x. x >>= collected (suc calls) fuel)
              (step ∙ tested_take f (range it start end) r it' high more)
            ∙ ap (λ x. x >>= λ l. ok (r ∷ l))
                (collect_step calls fuel (range it' start end)
                  ∙ run-in_range rs it' start end calls fuel fuel a' o.1 (omega (arith, c))
                      (omega (arith, g)) (omega (arith, g)))
            ∙ ap ok (sym (in_range_take start end r rs high more))
      ]
    ]

-- A range over a memtable that stands before sorted records, called more often than there are records,
-- gives the records with a key from `start` to below `end`, in order.
pub collect-in_range :
    (rs : List BlockRecord) (it : MemtableIterator) (start end : Str) (calls fuel : ℕ)
    → At it rs
    → Ordered rs
    → length rs < calls
    → length rs < fuel
    → collect calls fuel (range it start end) ≡ ok (in_range start end rs)
collect-in_range rs it start end zero fuel a o c f = absurd (omega (arith, c))
collect-in_range rs it start end (suc calls) fuel a o c f =
    collect_step calls fuel (range it start end)
    ∙ run-in_range rs it start end calls fuel fuel a o (omega (arith, c)) f f
