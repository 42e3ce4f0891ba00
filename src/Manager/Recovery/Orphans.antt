-- ===== src/Manager/Recovery/Orphans.antt =====
-- A table that the manifest does not name is loaded with an empty range of keys, so that `get_key`
-- does not choose it.
use arch_db.Prelude.{
  ◌>>=◌, ℕ, ◌≡◌, refl, false, not, ◌||◌, Option, none, some, List, [], ◌∷◌, ◌++◌, length, Result,
  ok, err, panic, ap, sym, ◌∙◌, subst, drop, ◌&&◌, if◌then◌else◌, if_true, if_false, Bool-cases,
  inl, inr,
}
use mathlib.Core.List.{reverse, reverse-append}
use arch_db.Prelude.Str.{Str, str_cmp, str_le}
use arch_db.Prelude.Bytes.{read_be32}
use arch_db.Bloom.{BloomFilter, contains}
use arch_db.Sstable.Formats.{Formats, Disk, read_exact}
use arch_db.Sstable.Index.{SstableIndex, read_metas, deserialize_index}
use arch_db.Sstable.Footer.{read_footer, load_index_from_footer, load_bloom_from_footer}
use arch_db.Manager.{Level, SsTable, Levels, contains_key_range}
use arch_db.Manager.Recovery.{
  first_offset, last_offset, is_table_name, is_known, load_orphan, load_orphans,
}
use arch_db.Engine.Ops.{candidates}

-- The index, if there is one, holds no position of a record.
LacksOffsets : Result SstableIndex → Type 0
LacksOffsets (ok index) = index.offsets ≡ []
LacksOffsets _ = Unit {0}

bind-LacksOffsets :
    {A : Type 0} (r : Result A) (f : A → Result SstableIndex)
    → ((a : A) → LacksOffsets (f a))
    → LacksOffsets (r >>= f)
unfolding LacksOffsets
bind-LacksOffsets panic f h = tt
bind-LacksOffsets (err why) f h = tt
bind-LacksOffsets (ok a) f h = h a

deserialize_index-LacksOffsets : (bytes : List ℕ) → LacksOffsets (deserialize_index bytes)
unfolding LacksOffsets deserialize_index
deserialize_index-LacksOffsets bytes =
    bind-LacksOffsets (read_be32 bytes 0) _
      (λ count. bind-LacksOffsets (read_metas count (drop 4 bytes)) _ (λ blocks. refl))

load_index_from_footer-LacksOffsets : (file : List ℕ) → LacksOffsets (load_index_from_footer file)
unfolding load_index_from_footer
load_index_from_footer-LacksOffsets file = bind-LacksOffsets (read_footer file) _ (λ footer.
    bind-LacksOffsets (read_exact footer.index_size (drop footer.index_offset file)) _
      (λ found. deserialize_index-LacksOffsets (found.0)))

levels_injective : (m m' : Levels) → Path (Result Levels) (ok m) (ok m') → m ≡ m'
levels_injective m m' e = cc

module _ (env : Formats) where
  -- For every key that is not empty, `get_key` chooses the same tables of the levels.
  pub record IsUnread (m m' : Levels) : Type 0 where
    pub same_l0 :
        (c : ℕ) (key : Str)
        → candidates env (c ∷ key) (reverse m'.l0) ≡ candidates env (c ∷ key) (reverse m.l0)
    pub same_l1 : m'.l1 ≡ m.l1
    pub same_l2 : m'.l2 ≡ m.l2

  IsUnread-refl : (m : Levels) → IsUnread m m
  IsUnread-refl m = record { same_l0 = λ c key. refl; same_l1 = refl; same_l2 = refl }

  Keeps : Levels → Result Levels → Type 0
  Keeps m (ok m') = IsUnread m m'
  Keeps m _ = Unit {0}

  abbrev orphan : Str → SstableIndex → BloomFilter → ℕ → SsTable
  orphan name index bloom size = record {
    path = name;
    index = index;
    bloom = bloom;
    level = Level.l0;
    min_key = first_offset index.offsets;
    max_key = last_offset index.offsets;
    file_size = size;
  }

  -- The greatest key of an index without records is empty.
  hidden :
      (name : Str) (index : SstableIndex) (bloom : BloomFilter) (size c : ℕ) (key : Str)
      → index.offsets ≡ []
      → contains_key_range (orphan name index bloom size) (c ∷ key) ≡ false
  unfolding contains_key_range first_offset last_offset str_cmp
  hidden name index bloom size c key e =
      ap (λ m. str_le (first_offset m) (c ∷ key) && str_le (c ∷ key) (last_offset m)) e

  passed_over :
      (key : Str) (t : SsTable) (ts : List SsTable)
      → contains_key_range t key ≡ false
      → candidates env key (t ∷ ts) ≡ candidates env key ts
  unfolding candidates
  passed_over key t ts h =
      ap
        (λ b.
          if not b
          then candidates env key ts
          else (contains env.hasher t.bloom key >>= λ reported.
              candidates env key ts >>= λ later. ok (if reported then t ∷ later else later)))
        h

  orphan-IsUnread :
      (name : Str) (index : SstableIndex) (bloom : BloomFilter) (size : ℕ) (m : Levels)
      → index.offsets ≡ []
      → IsUnread m (record m { l0 = m.l0 ++ orphan name index bloom size ∷ [] })
  orphan-IsUnread name index bloom size m e = record {
    same_l0 = λ c key.
        ap (candidates env (c ∷ key)) (reverse-append m.l0 (orphan name index bloom size ∷ []))
        ∙ passed_over (c ∷ key) (orphan name index bloom size) (reverse m.l0)
            (hidden name index bloom size c key e);
    same_l1 = refl;
    same_l2 = refl;
  }

  with_bloom :
      (name : Str) (index : SstableIndex) (size : ℕ) (m : Levels) (r : Result BloomFilter)
      → index.offsets ≡ []
      → Keeps m (elim r [
        | panic ↦ panic
        | err why ↦ ok m
        | ok bloom ↦ ok (record m { l0 = m.l0 ++ orphan name index bloom size ∷ [] })
      ])
  unfolding Keeps
  with_bloom name index size m panic e = tt
  with_bloom name index size m (err why) e = IsUnread-refl m
  with_bloom name index size m (ok bloom) e = orphan-IsUnread name index bloom size m e

  abbrev with_index : Str → List ℕ → Levels → Result SstableIndex → Result Levels
  with_index name file m r = elim r [
    | panic ↦ panic
    | err why ↦ ok m
    | ok index ↦ elim (load_bloom_from_footer env file) [
      | panic ↦ panic
      | err why ↦ ok m
      | ok bloom ↦ ok (record m { l0 = m.l0 ++ orphan name index bloom (length file) ∷ [] })
    ]
  ]

  with_index-Keeps :
      (name : Str) (file : List ℕ) (m : Levels) (r : Result SstableIndex)
      → LacksOffsets r
      → Keeps m (with_index name file m r)
  unfolding Keeps LacksOffsets
  with_index-Keeps name file m panic h = tt
  with_index-Keeps name file m (err why) h = IsUnread-refl m
  with_index-Keeps name file m (ok index) h =
      with_bloom name index (length file) m (load_bloom_from_footer env file) h

  with_file-Keeps :
      (name : Str) (m : Levels) (file : Option (List ℕ))
      → Keeps m (elim file [
        | none ↦ ok m
        | some bytes ↦ with_index name bytes m (load_index_from_footer bytes)
      ])
  unfolding Keeps
  with_file-Keeps name m none = IsUnread-refl m
  with_file-Keeps name m (some bytes) =
      with_index-Keeps name bytes m (load_index_from_footer bytes)
        (load_index_from_footer-LacksOffsets bytes)

  load_orphan-Keeps :
      (disk : Disk) (name : Str) (m : Levels) → Keeps m (load_orphan env disk name m)
  unfolding load_orphan
  load_orphan-Keeps disk name m = with_file-Keeps name m (disk name)

  IsUnread-trans : (m m' m'' : Levels) → IsUnread m m' → IsUnread m' m'' → IsUnread m m''
  IsUnread-trans m m' m'' h k = record {
    same_l0 = λ c key. k.same_l0 c key ∙ h.same_l0 c key;
    same_l1 = k.same_l1 ∙ h.same_l1;
    same_l2 = k.same_l2 ∙ h.same_l2;
  }

  then_load :
      (disk : Disk) (known : List SsTable) (names : List Str) (m m' : Levels) (r : Result Levels)
      → Keeps m r
      → ((m₁ m₂ : Levels) → load_orphans env disk known names m₁ ≡ ok m₂ → IsUnread m₁ m₂)
      → (r >>= load_orphans env disk known names) ≡ ok m'
      → IsUnread m m'
  unfolding Keeps
  then_load disk known names m m' panic k later e = cc
  then_load disk known names m m' (err why) k later e = cc
  then_load disk known names m m' (ok next) k later e = IsUnread-trans m next m' k (later next m' e)

  -- The files that the manifest does not name leave the tables that `get_key` chooses for a key that is not
  -- empty as they were.
  pub load_orphans-IsUnread :
      (disk : Disk) (known : List SsTable) (names : List Str) (m m' : Levels)
      → load_orphans env disk known names m ≡ ok m'
      → IsUnread m m'
  unfolding load_orphans
  load_orphans-IsUnread disk known [] m m' e =
      subst (IsUnread m) (levels_injective m m' e) (IsUnread-refl m)
  load_orphans-IsUnread disk known (name ∷ names) m m' e =
      elim (Bool-cases (not (is_table_name name) || is_known name known)) [
        | inl skipped ↦
            load_orphans-IsUnread disk known names m m' (sym (if_true _ _ _ skipped) ∙ e)
        | inr taken ↦
            then_load disk known names m m' (load_orphan env disk name m)
              (load_orphan-Keeps disk name m) (load_orphans-IsUnread disk known names)
              (sym (if_false _ _ _ taken) ∙ e)
      ]
