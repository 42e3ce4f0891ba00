-- ===== src/Sstable/Index/Search.antt =====
-- The search for the block of a key: the block it finds holds the key when any block does.
use arch_db.Prelude.{
  ℕ, ◌+◌, ◌≡◌, refl, true, false, Option, none, some, List, [], ◌∷◌, ◌++◌, arith, length,
  length-append, get_elem?, append_assoc, append-nil, ap, sym, ◌∙◌, subst, Bool-cases, ◌⊎◌, inl,
  inr,
}
use arch_db.Prelude.Str.{
  Str, str_lt, str_le, str_eq, str_eq_iff, str_cmp_self, str_cmp_flip, str_lt_trans,
}
use arch_db.Value.{BlockRecord, find}
use arch_db.Sstable.Index.{BlockMeta, SstableIndex, candidate_loop, find_block_index, find_block}

-- All keys come after `key`, or before it.
abbrev pub AllAbove : Str → List BlockRecord → Type 0
AllAbove key [] = Unit {0}
AllAbove key (r ∷ rs) = (str_lt key r.key ≡ true) × AllAbove key rs

abbrev pub AllBelow : Str → List BlockRecord → Type 0
AllBelow key [] = Unit {0}
AllBelow key (r ∷ rs) = (str_lt r.key key ≡ true) × AllBelow key rs

abbrev pub Ordered : List BlockRecord → Type 0
Ordered [] = Unit {0}
Ordered (r ∷ rs) = AllAbove r.key rs × Ordered rs

pub AllAbove-trans :
    (k j : Str) (rs : List BlockRecord) → str_lt k j ≡ true → AllAbove j rs → AllAbove k rs
AllAbove-trans k j [] h a = tt
AllAbove-trans k j (r ∷ rs) h a = (str_lt_trans k j r.key h a.0, AllAbove-trans k j rs h a.1)

pub Ordered-below :
    (rs : List BlockRecord) (r : BlockRecord) (ss : List BlockRecord)
    → Ordered (rs ++ r ∷ ss)
    → AllBelow r.key rs
Ordered-below [] r ss o = tt
Ordered-below (q ∷ rs) r ss o = (first rs o.0, Ordered-below rs r ss o.1)
  where
    first : (rs : List BlockRecord) → AllAbove q.key (rs ++ r ∷ ss) → str_lt q.key r.key ≡ true
    first [] a = a.0
    first (p ∷ ps) a = first ps a.1

pub Ordered-later : (rs ss : List BlockRecord) → Ordered (rs ++ ss) → Ordered ss
Ordered-later [] ss o = o
Ordered-later (r ∷ rs) ss o = Ordered-later rs ss o.1

above_front : (k : Str) (rs ss : List BlockRecord) → AllAbove k (rs ++ ss) → AllAbove k rs
above_front k [] ss a = tt
above_front k (r ∷ rs) ss a = (a.0, above_front k rs ss a.1)

pub Ordered-front : (rs ss : List BlockRecord) → Ordered (rs ++ ss) → Ordered rs
Ordered-front [] ss o = tt
Ordered-front (r ∷ rs) ss o = (above_front r.key rs ss o.0, Ordered-front rs ss o.1)

below_lem : (q r key : Str) → str_lt q r ≡ true → str_le r key ≡ true → str_eq q key ≡ false
below_lem q r key h k = ground (arith, str_eq_iff q key, str_cmp_flip q r)

-- A key that is not below all of `rs` is looked for behind them.
pub find_behind :
    (key start : Str) (rs ss : List BlockRecord)
    → AllBelow start rs
    → str_le start key ≡ true
    → find key (rs ++ ss) ≡ find key ss
unfolding find
find_behind key start [] ss b h = refl
find_behind key start (r ∷ rs) ss b h =
    rw (below_lem r.key start key b.0 h) (find_behind key start rs ss b.1 h)

above_lem : (key q : Str) → str_lt key q ≡ true → str_eq q key ≡ false
above_lem key q h = ground (arith, str_eq_iff q key, str_cmp_self key)

find_above : (key : Str) (rs : List BlockRecord) → AllAbove key rs → find key rs ≡ none
unfolding find
find_above key [] a = refl
find_above key (r ∷ rs) a = rw (above_lem key r.key a.0) (find_above key rs a.1)

pub find_before :
    (key : Str) (rs ss : List BlockRecord) → AllAbove key ss → find key (rs ++ ss) ≡ find key rs
unfolding find
find_before key [] ss a = find_above key ss a
find_before key (r ∷ rs) ss a = rw (find_before key rs ss a) refl

lt_of_le : (s t : Str) → str_le s t ≡ false → str_lt t s ≡ true
lt_of_le s t h = ground (arith, str_cmp_flip s t)

-- The loop of `find_block_index` on the blocks themselves.
abbrev pub last_le : Str → List BlockMeta → Option BlockMeta → Option BlockMeta
last_le key [] found = found
last_le key (m ∷ ms) found = elim (str_le m.start_key key) [
  | true ↦ last_le key ms (some m)
  | false ↦ found
]

last_le-true :
    (key : Str) (m : BlockMeta) (ms : List BlockMeta) (found : Option BlockMeta)
    → str_le m.start_key key ≡ true
    → last_le key (m ∷ ms) found ≡ last_le key ms (some m)
last_le-true key m ms found h = rw (last_le, h) refl

last_le-false :
    (key : Str) (m : BlockMeta) (ms : List BlockMeta) (found : Option BlockMeta)
    → str_le m.start_key key ≡ false
    → last_le key (m ∷ ms) found ≡ found
last_le-false key m ms found h = rw (last_le, h) refl

abbrev block_at : List BlockMeta → Option ℕ → Option BlockMeta
block_at blocks c = elim c [ none ↦ none | some i ↦ get_elem? blocks i ]

get_elem?-append :
    (ms : List BlockMeta) (m : BlockMeta) (later : List BlockMeta)
    → get_elem? (ms ++ m ∷ later) (length ms) ≡ some m
get_elem?-append [] m later = refl
get_elem?-append (n ∷ ms) m later = get_elem?-append ms m later

at_append :
    (all before : List BlockMeta) (m : BlockMeta) (later : List BlockMeta) (i : ℕ)
    → all ≡ before ++ m ∷ later
    → i ≡ length before
    → get_elem? all i ≡ some m
at_append all before m later i e l = rw (e, l) (get_elem?-append before m later)

candidate_loop_lem :
    (key : Str) (all before ms : List BlockMeta) (i : ℕ) (candidate : Option ℕ)
    → all ≡ before ++ ms
    → i ≡ length before
    → block_at all (candidate_loop key i ms candidate) ≡ last_le key ms (block_at all candidate)
unfolding candidate_loop
candidate_loop_lem key all before [] i candidate e l = refl
candidate_loop_lem key all before (m ∷ ms) i candidate e l =
    let one = m ∷ [] in
    ground (
      arith,
      at_append all before m ms i e l,
      candidate_loop_lem key all (before ++ one) ms (i + 1) (some i)
          (e ∙ sym (append_assoc before one ms)) (omega (arith, length-append before one)),
    )

pub find_block_lem :
    (index : SstableIndex) (key : Str) → find_block index key ≡ last_le key index.blocks none
unfolding find_block find_block_index
find_block_lem index key = candidate_loop_lem key index.blocks [] index.blocks 0 none refl refl

abbrev pub all_records : List (List BlockRecord) → List BlockRecord
all_records [] = []
all_records (g ∷ gs) = g ++ all_records gs

module _ (Placed : BlockMeta → List BlockRecord → Type 0) where
  -- The blocks stand for the groups, each beginning with the first record of its group.
  pub record Heads (m : BlockMeta) (g : List BlockRecord) : Type 0 where
    pub first : BlockRecord
    pub others : List BlockRecord
    pub group : g ≡ first ∷ others
    pub start : m.start_key ≡ first.key
    pub placed : Placed m g

  abbrev pub AllPlaced : List BlockMeta → List (List BlockRecord) → Type 0
  AllPlaced [] [] = Unit {0}
  AllPlaced (m ∷ ms) (g ∷ gs) = Heads m g × AllPlaced ms gs
  AllPlaced _ _ = ⊥

  -- The block found, with its group, in which the key is found as in all groups together.
  pub record Hit (key : Str) (found : Option BlockMeta) (rs : List BlockRecord) : Type 0 where
    pub meta : BlockMeta
    pub group : List BlockRecord
    pub is_found : found ≡ some meta
    pub heads : Heads meta group
    pub ordered : Ordered group
    pub same : find key group ≡ find key rs

  behind_lem :
      (key : Str) (g rest : List BlockRecord) (m : BlockMeta) (h : List BlockRecord)
      → Heads m h
      → Ordered (g ++ (h ++ rest))
      → str_le m.start_key key ≡ true
      → find key (h ++ rest) ≡ find key (g ++ (h ++ rest))
  behind_lem key g rest m h heads o le = sym (
      find_behind key m.start_key g (h ++ rest)
        (subst (λ k. AllBelow k g) (sym heads.start)
          (Ordered-below g heads.first (heads.others ++ rest)
            (subst (λ x. Ordered (g ++ (x ++ rest))) heads.group o)))
        le)

  before_lem :
      (key : Str) (g rest : List BlockRecord) (m : BlockMeta) (h : List BlockRecord)
      → Heads m h
      → Ordered (g ++ (h ++ rest))
      → str_le m.start_key key ≡ false
      → find key g ≡ find key (g ++ (h ++ rest))
  before_lem key g rest m h heads o le =
      let f = heads.first in
      let above = lt_of_le m.start_key key le in
      let later = heads.others ++ rest in
      let o' =
        Ordered-later g (f ∷ later) (subst (λ x. Ordered (g ++ (x ++ rest))) heads.group o) in
      let above' = subst (λ k. str_lt key k ≡ true) heads.start above in
      sym (
        find_before key g (h ++ rest) (
          subst (λ x. AllAbove key (x ++ rest)) (sym heads.group)
            (above', AllAbove-trans key f.key later above' o'.0)))

  last_le_lem :
      (key : Str) (m : BlockMeta) (g : List BlockRecord) (ms : List BlockMeta)
      (gs : List (List BlockRecord))
      → Heads m g
      → AllPlaced ms gs
      → Ordered (g ++ all_records gs)
      → Hit key (last_le key ms (some m)) (g ++ all_records gs)
  last_le_lem key m g [] [] h a o = record {
    meta = m;
    group = g;
    is_found = refl;
    heads = h;
    ordered = Ordered-front g [] o;
    same = ap (find key) (sym (append-nil g));
  }
  last_le_lem key m g [] (g' ∷ gs) h a o = absurd a
  last_le_lem key m g (n ∷ ms) [] h a o = absurd a
  last_le_lem key m g (n ∷ ms) (g' ∷ gs) h a o = elim (Bool-cases (str_le n.start_key key)) [
    | inl le ↦
        let hit = last_le_lem key n g' ms gs a.0 a.1 (Ordered-later g (g' ++ all_records gs) o) in
        record {
          meta = hit.meta;
          group = hit.group;
          is_found = last_le-true key n ms (some m) le ∙ hit.is_found;
          heads = hit.heads;
          ordered = hit.ordered;
          same = hit.same ∙ behind_lem key g (all_records gs) n g' a.0 o le;
        }
    | inr gt ↦ record {
      meta = m;
      group = g;
      is_found = last_le-false key n ms (some m) gt;
      heads = h;
      ordered = Ordered-front g (g' ++ all_records gs) o;
      same = before_lem key g (all_records gs) n g' a.0 o gt;
    }
  ]

  -- Nothing is found before the first block, and in a block what is found there.
  pub find_block-AllPlaced :
      (key : Str) (ms : List BlockMeta) (gs : List (List BlockRecord))
      → AllPlaced ms gs
      → Ordered (all_records gs)
      → Hit key (last_le key ms none) (all_records gs)
        ⊎ ((last_le key ms none ≡ none) × (find key (all_records gs) ≡ none))
  find_block-AllPlaced key [] [] a o = inr (refl, unfold find in refl)
  find_block-AllPlaced key [] (g' ∷ gs) a o = absurd a
  find_block-AllPlaced key (n ∷ ms) [] a o = absurd a
  find_block-AllPlaced key (n ∷ ms) (g' ∷ gs) a o = elim (Bool-cases (str_le n.start_key key)) [
    | inl le ↦
        let hit = last_le_lem key n g' ms gs a.0 a.1 o in
        inl (record {
          meta = hit.meta;
          group = hit.group;
          is_found = last_le-true key n ms none le ∙ hit.is_found;
          heads = hit.heads;
          ordered = hit.ordered;
          same = hit.same;
        })
    | inr gt ↦ inr (
      last_le-false key n ms none gt,
      sym (before_lem key [] (all_records gs) n g' a.0 o gt) ∙ unfold find in refl,
    )
  ]
