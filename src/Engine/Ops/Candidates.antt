-- ===== src/Engine/Ops/Candidates.antt =====
-- The tables that `get_key` chooses by their key ranges and Bloom filters: they hold for the key what all
-- tables hold.
use arch_db.Prelude.{
  ◌>>=◌, subst, ◌≡◌, refl, Bool, Option, none, List, [], ◌∷◌, Result, ok, ap, sym, ◌∙◌,
  if◌then◌else◌, not, inl, inr, Bool-cases, true, false,
}
use arch_db.Prelude.Str.{Str, str_eq, str_eq-eq}
use arch_db.Value.{Value, BlockRecord, find}
use arch_db.Bloom.{contains, compute_hashes}
use arch_db.Bloom.Bits.{all_set}
use arch_db.Bloom.Membership.{contains_lem}
use arch_db.Cache.{CacheKey_eq}
use arch_db.Sstable.Formats.{Formats, Disk}
use arch_db.Sstable.Index.Search.{all_records}
use arch_db.Manager.{SsTable, contains_key_range}
use arch_db.Manager.Reads.{Serves, AllServing, or_else, find-append, not_reported}
use arch_db.Engine.Ops.{candidates}

-- The keys of the records are in the range that the table names.
abbrev pub AllWithin : SsTable → List BlockRecord → Type 0
AllWithin t [] = Unit {0}
AllWithin t (r ∷ rs) = (contains_key_range t r.key ≡ true) × AllWithin t rs

abbrev pub AllRanged : List SsTable → List (List BlockRecord) → Type 0
AllRanged [] gs = Unit {0}
AllRanged (t ∷ ts) [] = Unit {0}
AllRanged (t ∷ ts) (g ∷ gs) = AllWithin t g × AllRanged ts gs

conflict : (b : Bool) → b ≡ true → b ≡ false → ⊥
conflict b h k = cc

outside :
    (t : SsTable) (key : Str) (rs : List BlockRecord)
    → AllWithin t rs
    → contains_key_range t key ≡ false
    → find key rs ≡ none
unfolding find
outside t key [] h k = refl
outside t key (r ∷ rs) h k = elim (Bool-cases (str_eq r.key key)) [
  | inl same ↦ absurd (
      conflict (contains_key_range t key)
        (subst (λ j. contains_key_range t j ≡ true) (str_eq-eq r.key key same) h.0) k)
  | inr other ↦ rw other (outside t key rs h.1 k)
]

module _ (env : Formats) where
  -- The tables that are chosen hold for the key what all of them hold.
  pub record Chosen (disk : Disk) (key : Str) (ts : List SsTable) (gs : List (List BlockRecord))
      : Type 0 where
    pub tables : List SsTable
    pub groups : List (List BlockRecord)
    pub chosen : candidates env key ts ≡ ok tables
    pub serving : AllServing env disk tables groups
    pub same : find key (all_records groups) ≡ find key (all_records gs)

  abbrev with_report : SsTable → Result (List SsTable) → Bool → Result (List SsTable)
  with_report t others reported = others >>= λ later. ok (if reported then t ∷ later else later)

  candidates_outside :
      (key : Str) (t : SsTable) (ts : List SsTable)
      → contains_key_range t key ≡ false
      → candidates env key (t ∷ ts) ≡ candidates env key ts
  unfolding candidates
  candidates_outside key t ts h =
      ap
        (λ b.
          if not b
          then candidates env key ts
          else (contains env.hasher t.bloom key >>= with_report t (candidates env key ts)))
        h

  candidates_inside :
      (key : Str) (t : SsTable) (ts others : List SsTable) (b : Bool)
      → contains_key_range t key ≡ true
      → contains env.hasher t.bloom key ≡ ok b
      → candidates env key ts ≡ ok others
      → candidates env key (t ∷ ts) ≡ ok (if b then t ∷ others else others)
  unfolding candidates
  candidates_inside key t ts others b h c e =
      ap
        (λ r.
          if not r
          then candidates env key ts
          else (contains env.hasher t.bloom key >>= with_report t (candidates env key ts)))
        h
      ∙ ap (λ r. r >>= with_report t (candidates env key ts)) c
      ∙ ap (λ r. with_report t r b) e

  -- A table without the key may be left out.
  left_out :
      (key : Str) (g : List BlockRecord) (gs : List (List BlockRecord)) (found : Option Value)
      → find key g ≡ none
      → found ≡ find key (all_records gs)
      → found ≡ find key (all_records (g ∷ gs))
  left_out key g gs found h e =
      e
      ∙ ap (λ f. or_else f (find key (all_records gs))) (sym h)
      ∙ sym (find-append key g (all_records gs))

  Chosen-inside :
      (disk : Disk) (key : Str) (t : SsTable) (ts : List SsTable) (g : List BlockRecord)
      (gs : List (List BlockRecord)) (b : Bool)
      → contains_key_range t key ≡ true
      → contains env.hasher t.bloom key ≡ ok b
      → Serves env disk t g
      → Chosen disk key ts gs
      → Chosen disk key (t ∷ ts) (g ∷ gs)
  Chosen-inside disk key t ts g gs true h c a later = record {
    tables = t ∷ later.tables;
    groups = g ∷ later.groups;
    chosen = candidates_inside key t ts later.tables true h c later.chosen;
    serving = (a, later.serving);
    same =
        find-append key g (all_records later.groups)
        ∙ ap (or_else (find key g)) later.same
        ∙ sym (find-append key g (all_records gs));
  }
  Chosen-inside disk key t ts g gs false h c a later = record {
    tables = later.tables;
    groups = later.groups;
    chosen = candidates_inside key t ts later.tables false h c later.chosen;
    serving = later.serving;
    same = left_out key g gs _ (not_reported env t.bloom key g a.reports c) later.same;
  }

  pub candidates-AllServing :
      (disk : Disk) (key : Str) (ts : List SsTable) (gs : List (List BlockRecord))
      → AllServing env disk ts gs
      → AllRanged ts gs
      → Chosen disk key ts gs
  candidates-AllServing disk key [] [] a w = record {
    tables = [];
    groups = [];
    chosen = unfold candidates in refl;
    serving = tt;
    same = refl;
  }
  candidates-AllServing disk key [] (g ∷ gs) a w = absurd a
  candidates-AllServing disk key (t ∷ ts) [] a w = absurd a
  candidates-AllServing disk key (t ∷ ts) (g ∷ gs) a w =
      let later = candidates-AllServing disk key ts gs a.1 w.1 in
      elim (Bool-cases (contains_key_range t key)) [
        | inl inside ↦
            Chosen-inside disk key t ts g gs
              (all_set (compute_hashes env.hasher t.bloom key) t.bloom.bits) inside
              (contains_lem env.hasher t.bloom key a.0.bits_some) a.0 later
        | inr away ↦ record {
          tables = later.tables;
          groups = later.groups;
          chosen = candidates_outside key t ts away ∙ later.chosen;
          serving = later.serving;
          same = left_out key g gs _ (outside t key g w.0 away) later.same;
        }
      ]
