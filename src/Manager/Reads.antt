-- ===== src/Manager/Reads.antt =====
-- `get` of the manager: the newest table that holds the key answers.
use arch_db.Prelude.{
  ℕ, ◌<◌, ◌≡◌, refl, Bool, true, false, Option, none, some, List, [], ◌∷◌, ◌++◌, length, ap, sym,
  subst, ◌∙◌, ok, Result, ◌>>=◌, inl, inr, Bool-cases,
}
use mathlib.Core.List.{reverse}
use arch_db.Prelude.Str.{Str, str_eq, str_eq-eq}
use arch_db.Value.{Value, keys, BlockRecord, find}
use arch_db.Bloom.{BloomFilter, contains, compute_hashes}
use arch_db.Bloom.Bits.{all_set}
use arch_db.Bloom.Membership.{Reports, contains_lem}
use arch_db.Sstable.Formats.{Formats, Disk}
use arch_db.Sstable.Index.Search.{Ordered, all_records}
use arch_db.Sstable.Reader.{search_sstable}
use arch_db.Sstable.Writer.Written.{IsWritten}
use arch_db.Sstable.Lookup.{entry, search-IsWritten}
use arch_db.Manager.{SsTable, Levels, search_tables, get}

abbrev pub or_else : Option Value → Option Value → Option Value
or_else a b = elim a [ some v ↦ some v | none ↦ b ]

pub find-append :
    (key : Str) (rs ss : List BlockRecord)
    → find key (rs ++ ss) ≡ or_else (find key rs) (find key ss)
unfolding find
find-append key [] ss = refl
find-append key (r ∷ rs) ss = elim (Bool-cases (str_eq r.key key)) [
  | inl same ↦ rw same refl
  | inr other ↦ rw other (find-append key rs ss)
]

conflict : (x : Result Bool) → x ≡ ok true → x ≡ ok false → ⊥
conflict x h k = cc

module _ (env : Formats) where
  -- A table on disk with its records, which the filter reports.
  pub record Serves (disk : Disk) (t : SsTable) (records : List BlockRecord) : Type 0 where
    pub file : List ℕ
    pub on_disk : disk t.path ≡ some file
    pub written : IsWritten env file t.index records
    pub ordered : Ordered records
    pub bits_some : 0 < length t.bloom.bits
    pub reports : Reports env.hasher t.bloom (keys records)

  abbrev pub AllServing : Disk → List SsTable → List (List BlockRecord) → Type 0
  AllServing disk [] [] = Unit {0}
  AllServing disk (t ∷ ts) (g ∷ gs) = Serves disk t g × AllServing disk ts gs
  AllServing disk _ _ = ⊥

  -- A key that the filter does not report is not in the table.
  pub not_reported :
      (bloom : BloomFilter) (key : Str) (rs : List BlockRecord)
      → Reports env.hasher bloom (keys rs)
      → contains env.hasher bloom key ≡ ok false
      → find key rs ≡ none
  unfolding find
  not_reported bloom key [] h e = refl
  not_reported bloom key (r ∷ rs) h e = elim (Bool-cases (str_eq r.key key)) [
    | inl same ↦ absurd (
        conflict (contains env.hasher bloom key)
          (subst (λ k. contains env.hasher bloom k ≡ ok true) (str_eq-eq r.key key same) h.0) e)
    | inr other ↦ rw other (not_reported bloom key rs h.1 e)
  ]

  abbrev searched :
      Disk → Str → SsTable → List SsTable → Result (Option (Str × Value)) → Result (Option Value)
  searched disk key t ts found =
      found >>= λ x. elim x [ some hit ↦ ok (some (hit.1)) | none ↦ search_tables env disk key ts ]

  abbrev asked : Disk → Str → SsTable → List SsTable → Bool → Result (Option Value)
  asked disk key t ts reported = elim reported [
    | false ↦ search_tables env disk key ts
    | true ↦ searched disk key t ts (search_sstable env disk t.path t.index key)
  ]

  search_tables_step :
      (disk : Disk) (key : Str) (t : SsTable) (ts : List SsTable) (reported : Bool)
      → contains env.hasher t.bloom key ≡ ok reported
      → search_tables env disk key (t ∷ ts) ≡ asked disk key t ts reported
  unfolding search_tables
  search_tables_step disk key t ts reported e = ap (λ x. x >>= asked disk key t ts) e

  searched_lem :
      (disk : Disk) (key : Str) (t : SsTable) (ts : List SsTable) (found later : Option Value)
      → search_tables env disk key ts ≡ ok later
      → searched disk key t ts (ok (entry key found)) ≡ ok (or_else found later)
  searched_lem disk key t ts none later e = e
  searched_lem disk key t ts (some v) later e = refl

  asked_lem :
      (disk : Disk) (key : Str) (t : SsTable) (ts : List SsTable) (rs : List BlockRecord)
      (later : Option Value) (reported : Bool)
      → Serves disk t rs
      → contains env.hasher t.bloom key ≡ ok reported
      → search_tables env disk key ts ≡ ok later
      → asked disk key t ts reported ≡ ok (or_else (find key rs) later)
  asked_lem disk key t ts rs later true s c e =
      ap (searched disk key t ts)
        (search-IsWritten env disk t.path s.file t.index rs key s.written s.ordered s.on_disk)
      ∙ searched_lem disk key t ts (find key rs) later e
  asked_lem disk key t ts rs later false s c e =
      e ∙ ap (λ f. ok (or_else f later)) (sym (not_reported t.bloom key rs s.reports c))

  search_tables-AllServing :
      (disk : Disk) (key : Str) (ts : List SsTable) (gs : List (List BlockRecord))
      → AllServing disk ts gs
      → search_tables env disk key ts ≡ ok (find key (all_records gs))
  search_tables-AllServing disk key [] [] a = unfold search_tables find in refl
  search_tables-AllServing disk key [] (g ∷ gs) a = absurd a
  search_tables-AllServing disk key (t ∷ ts) [] a = absurd a
  search_tables-AllServing disk key (t ∷ ts) (g ∷ gs) a =
      let later = find key (all_records gs) in
      let c = contains_lem env.hasher t.bloom key a.0.bits_some in
      search_tables_step disk key t ts
        (all_set (compute_hashes env.hasher t.bloom key) t.bloom.bits) c
      ∙ asked_lem disk key t ts g later
          (all_set (compute_hashes env.hasher t.bloom key) t.bloom.bits) a.0 c
          (search_tables-AllServing disk key ts gs a.1)
      ∙ ap ok (sym (find-append key g (all_records gs)))

  abbrev then_in : Disk → Str → List SsTable → Option Value → Result (Option Value)
  then_in disk key ts found = elim found [
    | some v ↦ ok (some v)
    | none ↦ search_tables env disk key ts
  ]

  then_in_lem :
      (disk : Disk) (key : Str) (ts : List SsTable) (found later : Option Value)
      → search_tables env disk key ts ≡ ok later
      → then_in disk key ts found ≡ ok (or_else found later)
  then_in_lem disk key ts none later e = e
  then_in_lem disk key ts (some v) later e = refl

  unfoldable after_l0 : Disk → Str → Levels → Option Value → Result (Option Value)
  after_l0 disk key m found = elim found [
    | some v ↦ ok (some v)
    | none ↦ (search_tables env disk key (reverse m.l1) >>= then_in disk key (reverse m.l2))
  ]

  after_l0_lem :
      (disk : Disk) (key : Str) (m : Levels) (found a b : Option Value)
      → search_tables env disk key (reverse m.l1) ≡ ok a
      → search_tables env disk key (reverse m.l2) ≡ ok b
      → after_l0 disk key m found ≡ ok (or_else found (or_else a b))
  unfolding after_l0
  after_l0_lem disk key m (some v) a b h k = refl
  after_l0_lem disk key m none a b h k =
      ap (λ x. x >>= then_in disk key (reverse m.l2)) h ∙ then_in_lem disk key (reverse m.l2) a b k

  -- When the tables of the levels, each level from its newest table on, hold the records of `g0`, `g1`
  -- and `g2`, a read gives the first value of the key among these, in this order, or nothing.
  pub get-AllServing :
      (disk : Disk) (key : Str) (m : Levels) (g0 g1 g2 : List (List BlockRecord))
      → AllServing disk (reverse m.l0) g0
      → AllServing disk (reverse m.l1) g1
      → AllServing disk (reverse m.l2) g2
      → get env disk key m ≡ ok (find key (all_records g0 ++ (all_records g1 ++ all_records g2)))
  unfolding get after_l0
  get-AllServing disk key m g0 g1 g2 a b c =
      ap (λ x. x >>= after_l0 disk key m) (search_tables-AllServing disk key (reverse m.l0) g0 a)
      ∙ after_l0_lem disk key m (find key (all_records g0)) (find key (all_records g1))
          (find key (all_records g2)) (search_tables-AllServing disk key (reverse m.l1) g1 b)
          (search_tables-AllServing disk key (reverse m.l2) g2 c)
      ∙ ap ok (
          sym (
            find-append key (all_records g0) (all_records g1 ++ all_records g2)
            ∙ ap (or_else (find key (all_records g0)))
                (find-append key (all_records g1) (all_records g2))))
