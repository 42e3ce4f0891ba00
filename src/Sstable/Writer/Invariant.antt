-- ===== src/Sstable/Writer/Invariant.antt =====
-- What holds of the writer between the records: the closed blocks stand in the file, the open one is in
-- `single_block`.
use arch_db.Prelude.{ℕ, ◌<◌, ◌≡◌, refl, List, [], ◌∷◌, ◌++◌, length, append_assoc, append-nil}
use arch_db.Value.{BlockRecord}
use arch_db.Prelude.TreeMap.{TreeMap}
use arch_db.Sstable.Formats.{Formats}
use arch_db.Sstable.Record.Codec.{AllStorable, block_bytes}
use arch_db.Sstable.Block.Laws.{Stands, Stands-append}
use arch_db.Sstable.Index.{BlockMeta}
use arch_db.Sstable.Index.Search.{Heads, AllPlaced, all_records}
use arch_db.Sstable.Writer.{set_last}

-- 2^31: the largest block that is certain to be compressed.
abbrev pub block_max : ℕ
block_max = 2147483648

module _ (env : Formats) where
  -- The records stand in the file where the block says.
  pub record IsPlaced (file : List ℕ) (m : BlockMeta) (g : List BlockRecord) : Type 0 where
    pub stands : Stands env file m.offset g
    pub storable : AllStorable g
    pub short : length (block_bytes env.crc g) < block_max

  abbrev pub PlacedIn : List ℕ → List BlockMeta → List (List BlockRecord) → Type 0
  PlacedIn file ms gs = AllPlaced (IsPlaced file) ms gs

  pub PlacedIn-append :
      (file more : List ℕ) (ms : List BlockMeta) (gs : List (List BlockRecord))
      → PlacedIn file ms gs
      → PlacedIn (file ++ more) ms gs
  PlacedIn-append file more [] [] a = tt
  PlacedIn-append file more [] (g ∷ gs) a = absurd a
  PlacedIn-append file more (m ∷ ms) [] a = absurd a
  PlacedIn-append file more (m ∷ ms) (g ∷ gs) a =
      let h = a.0 in
      let p = h.placed in
      (
        record {
          first = h.first;
          others = h.others;
          group = h.group;
          start = h.start;
          placed = record {
            stands = Stands-append env file more m.offset g p.stands;
            storable = p.storable;
            short = p.short;
          };
        },
        PlacedIn-append file more ms gs a.1,
      )

  -- A block's entries do not matter to where it stands.
  with_entries :
      (file : List ℕ) (entries : TreeMap ℕ) (m : BlockMeta) (g : List BlockRecord)
      → Heads (IsPlaced file) m g
      → Heads (IsPlaced file) (record m { record_offset = entries }) g
  with_entries file entries m g h =
      let p = h.placed in
      record {
        first = h.first;
        others = h.others;
        group = h.group;
        start = h.start;
        placed = record { stands = p.stands; storable = p.storable; short = p.short };
      }

  pub PlacedIn-set_last :
      (file : List ℕ) (entries : TreeMap ℕ) (ms : List BlockMeta) (gs : List (List BlockRecord))
      → PlacedIn file ms gs
      → PlacedIn file (set_last entries ms) gs
  unfolding set_last
  PlacedIn-set_last file entries [] gs a = a
  PlacedIn-set_last file entries (m ∷ ms) [] a = absurd a
  PlacedIn-set_last file entries (m ∷ []) (g ∷ gs) a = (with_entries file entries m g a.0, a.1)
  PlacedIn-set_last file entries (m ∷ n ∷ ms) (g ∷ gs) a =
      (a.0, PlacedIn-set_last file entries (n ∷ ms) gs a.1)

  pub PlacedIn-last :
      (file : List ℕ) (ms : List BlockMeta) (gs : List (List BlockRecord)) (m : BlockMeta)
      (g : List BlockRecord)
      → PlacedIn file ms gs
      → Heads (IsPlaced file) m g
      → PlacedIn file (ms ++ m ∷ []) (gs ++ g ∷ [])
  PlacedIn-last file [] [] m g a h = (h, tt)
  PlacedIn-last file [] (g' ∷ gs) m g a h = absurd a
  PlacedIn-last file (n ∷ ms) [] m g a h = absurd a
  PlacedIn-last file (n ∷ ms) (g' ∷ gs) m g a h = (a.0, PlacedIn-last file ms gs m g a.1 h)

pub all_records-last :
    (gs : List (List BlockRecord)) (g : List BlockRecord)
    → all_records (gs ++ g ∷ []) ≡ all_records gs ++ g
all_records-last [] g = append-nil g
all_records-last (h ∷ gs) g = rw (all_records-last gs g, append_assoc) refl
