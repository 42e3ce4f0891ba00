-- ===== src/Sstable/Lookup.antt =====
-- A table that was written, as a map: `search_sstable` finds what `find` finds in the records.
use arch_db.Prelude.{
  ℕ, ◌≡◌, refl, true, Option, none, some, List, ◌++◌, arith, ap, sym, subst, ◌∙◌, ok, Result, err,
  io, not_found, ◌>>=◌, ◌>>◌, inl, inr, length, ◌<◌,
}
use arch_db.Prelude.Str.{Str}
use arch_db.Prelude.Bytes.{be32, u32_mod}
use arch_db.Value.{Value, BlockRecord, find}
use arch_db.Sstable.Formats.{Formats, Disk, open_file}
use arch_db.Sstable.Block.{magic, format_version, verify_header, read_block_from_file}
use arch_db.Sstable.Block.Laws.{read_u32-be32, read_exact-append, read_block_from_file-Stands}
use arch_db.Sstable.Index.{BlockMeta, SstableIndex, find_block}
use arch_db.Sstable.Index.Search.{find_block-AllPlaced, find_block_lem, Ordered}
use arch_db.Sstable.Writer.{is_sorted, write_sstable}
use arch_db.Sstable.Writer.Invariant.{IsPlaced}
use arch_db.Sstable.Writer.Append.{AllFitting}
use arch_db.Sstable.Writer.Written.{IsWritten, write_sstable-AllFitting}
use arch_db.Sstable.Writer.Sorted.{is_sorted-Ordered}
use arch_db.Sstable.Reader.{read_block, search_sstable}

pub verify_header_lem :
    (file later : List ℕ)
    → file ≡ (magic ++ be32 format_version) ++ later
    → verify_header file ≡ ok tt
unfolding verify_header
verify_header_lem file later h =
    rw
      (
        h,
        read_exact-append magic (be32 format_version ++ later),
        read_u32-be32 format_version later (omega arith),
      )
      refl

-- The first record with the key.
abbrev pub entry : Str → Option Value → Option (Str × Value)
entry key found = elim found [ none ↦ none | some value ↦ some (key, value) ]

opened_lem :
    (disk : Disk) (path : Str) (file : List ℕ)
    → disk path ≡ some file
    → open_file disk path ≡ ok file
opened_lem disk path file d =
    ap (λ o. elim o [ none ↦ err (io not_found) | some bytes ↦ ok bytes ]) d

abbrev Table : Type 0
Table = List ℕ × SstableIndex

ok_lem : (t u : Table) → Path (Result Table) (ok t) (ok u) → t ≡ u
ok_lem t u e = ap (λ r. elim r [ ok x ↦ x | _ ↦ t ]) e

some_injective : (m n : BlockMeta) → Path (Option BlockMeta) (some m) (some n) → m ≡ n
some_injective m n e = cc

none_lem : (m : BlockMeta) → Path (Option BlockMeta) none (some m) → ⊥
none_lem m e = cc

group_injective :
    (g rs : List BlockRecord) → Path (Result (List BlockRecord)) (ok g) (ok rs) → g ≡ rs
group_injective g rs e = cc

module _ (env : Formats) where
  read_block_lem :
      (disk : Disk) (path : Str) (file later : List ℕ) (m : BlockMeta) (g : List BlockRecord)
      → disk path ≡ some file
      → file ≡ (magic ++ be32 format_version) ++ later
      → IsPlaced env file m g
      → read_block env disk path m.offset ≡ ok g
  unfolding read_block
  read_block_lem disk path file later m g d h p =
      ap (λ x. x >>= λ f. verify_header f >> read_block_from_file env f m.offset)
        (opened_lem disk path file d)
      ∙ ap (λ x. x >> read_block_from_file env file m.offset) (verify_header_lem file later h)
      ∙ read_block_from_file-Stands env file m.offset g p.storable (omega (arith, p.short)) p.stands

  -- The search in the block that was found.
  abbrev in_block : Disk → Str → Str → Option BlockMeta → Result (Option (Str × Value))
  in_block disk path key found = elim found [
    | none ↦ ok none
    | some m ↦ (read_block env disk path m.offset >>= λ g. ok (entry key (find key g)))
  ]

  search_hit :
      (disk : Disk) (path : Str) (index : SstableIndex) (key : Str) (m : BlockMeta)
      (g : List BlockRecord)
      → find_block index key ≡ some m
      → read_block env disk path m.offset ≡ ok g
      → search_sstable env disk path index key ≡ ok (entry key (find key g))
  unfolding search_sstable
  search_hit disk path index key m g f r =
      ap (in_block disk path key) f ∙ ap (λ x. x >>= λ g. ok (entry key (find key g))) r

  search_miss :
      (disk : Disk) (path : Str) (index : SstableIndex) (key : Str)
      → find_block index key ≡ none
      → search_sstable env disk path index key ≡ ok none
  unfolding search_sstable
  search_miss disk path index key f = ap (in_block disk path key) f

  pub search-IsWritten :
      (disk : Disk) (path : Str) (file : List ℕ) (index : SstableIndex) (records : List BlockRecord)
      (key : Str)
      → IsWritten env file index records
      → Ordered records
      → disk path ≡ some file
      → search_sstable env disk path index key ≡ ok (entry key (find key records))
  search-IsWritten disk path file index records key w o d =
      elim (find_block-AllPlaced (IsPlaced env file) key index.blocks w.groups w.placed
        (subst Ordered (sym w.same) o)) [
          | inl hit ↦
              search_hit disk path index key hit.meta hit.group
                (find_block_lem index key ∙ hit.is_found)
                (read_block_lem disk path file w.later hit.meta hit.group d w.header
                  hit.heads.placed)
              ∙ ap (λ v. ok (entry key v)) (hit.same ∙ ap (find key) w.same)
          | inr nothing ↦
              search_miss disk path index key (find_block_lem index key ∙ nothing.0)
              ∙ ap (λ v. ok (entry key v)) (sym (ap (find key) (sym w.same) ∙ nothing.1))
        ]

  -- The block that is found for a key has its records in the order of their keys.
  pub read_block-IsWritten :
      (disk : Disk) (path : Str) (file : List ℕ) (index : SstableIndex) (records : List BlockRecord)
      (key : Str) (m : BlockMeta) (rs : List BlockRecord)
      → IsWritten env file index records
      → Ordered records
      → disk path ≡ some file
      → find_block index key ≡ some m
      → read_block env disk path m.offset ≡ ok rs
      → Ordered rs
  read_block-IsWritten disk path file index records key m rs w o d f e =
      elim (find_block-AllPlaced (IsPlaced env file) key index.blocks w.groups w.placed
        (subst Ordered (sym w.same) o)) [
          | inl hit ↦
              let same =
                some_injective hit.meta m (sym hit.is_found ∙ sym (find_block_lem index key) ∙ f) in
              let read =
                read_block_lem disk path file w.later hit.meta hit.group d w.header
                  hit.heads.placed in
              subst Ordered
                (group_injective hit.group rs
                  (sym read ∙ ap (λ n. read_block env disk path n.offset) same ∙ e))
                hit.ordered
          | inr nothing ↦ absurd (none_lem m (sym (find_block_lem index key ∙ nothing.0) ∙ f))
        ]

  -- Of fewer than 2 ^ 32 storable records in the order of their keys, none of them too large, written to a file: a search
  -- for any key gives the record with this key, or nothing when there is none.
  pub search_sstable-write_sstable :
      (records : List BlockRecord) (disk : Disk) (path : Str) (file : List ℕ) (index : SstableIndex)
      (key : Str)
      → is_sorted records ≡ true
      → length records < u32_mod
      → AllFitting env records
      → write_sstable env records ≡ ok (file, index)
      → disk path ≡ some file
      → search_sstable env disk path index key ≡ ok (entry key (find key records))
  search_sstable-write_sstable records disk path file index key s short a e d =
      let out = write_sstable-AllFitting env records s short a in
      let same = ok_lem (out.file, out.index) (file, index) (sym out.made ∙ e) in
      search-IsWritten disk path file index records key
        (subst (λ p. IsWritten env p.0 p.1 records) same out.written) (is_sorted-Ordered records s)
        d
