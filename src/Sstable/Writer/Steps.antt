-- ===== src/Sstable/Writer/Steps.antt =====
-- `append` keeps the writer's invariant: it closes the full block, opens one and adds the record.
use arch_db.Prelude.{
  ℕ, ◌+◌, ◌<◌, ◌≡◌, refl, Bool, true, false, some, List, [], ◌∷◌, ◌++◌, arith, length,
  length-append, append_assoc, append-nil, ap, sym, ◌∙◌, ok, if◌then◌else◌, ◌==◌,
}
use arch_db.Prelude.Bytes.{be32}
use arch_db.Prelude.TreeMap.{TreeMap}
use arch_db.Value.{BlockRecord}
use arch_db.Sstable.Formats.{Formats}
use arch_db.Sstable.Record.Codec.{AllStorable, block_bytes}
use arch_db.Sstable.Block.{magic, format_version, block_image, write_block}
use arch_db.Sstable.Index.{BlockMeta}
use arch_db.Sstable.Index.Search.{Heads, all_records}
use arch_db.Sstable.Writer.{SstableWriter, set_last, close_block}
use arch_db.Sstable.Writer.Invariant.{
  block_max, IsPlaced, PlacedIn, PlacedIn-append, PlacedIn-set_last, PlacedIn-last,
  all_records-last,
}

-- Between records: the open block, if there is one, has begun with the first record of `cur`.
abbrev pub Opened : Bool → List BlockMeta → ℕ → List BlockMeta → List BlockRecord → Type 0
Opened is_new blocks offset ms [] = (is_new ≡ true) × (blocks ≡ ms)
Opened is_new blocks offset ms (r ∷ rs) =
    (is_new ≡ false)
    × (m : BlockMeta) × (blocks ≡ ms ++ m ∷ [])
    × (m.start_key ≡ r.key)
    × (m.offset ≡ offset)

set_last-last :
    (entries : TreeMap ℕ) (ms : List BlockMeta) (m : BlockMeta)
    → set_last entries (ms ++ m ∷ []) ≡ ms ++ record m { record_offset = entries } ∷ []
unfolding set_last
set_last-last entries [] m = refl
set_last-last entries (n ∷ []) m = refl
set_last-last entries (n ∷ k ∷ ms) m = ap (λ l. n ∷ l) (set_last-last entries (k ∷ ms) m)

module _ (env : Formats) where
  -- The closed blocks `ms` hold the groups `gs`, the open one holds `cur`.
  pub record Writing (w : SstableWriter) (gs : List (List BlockRecord)) (cur : List BlockRecord)
      : Type 0 where
    pub ms : List BlockMeta
    pub placed : PlacedIn env w.file ms gs
    pub opened : Opened w.is_new_block w.blocks w.file_offset ms cur
    pub at_end : w.file_offset ≡ length w.file
    pub block : w.single_block ≡ block_bytes env.crc cur
    pub size : w.block_size ≡ length w.single_block
    pub short : length (block_bytes env.crc cur) < block_max
    pub storable : AllStorable cur
    pub later : List ℕ
    pub header : w.file ≡ (magic ++ be32 format_version) ++ later
    pub bits_some : 0 < length w.bloom.bits

  -- The writer after its block was written.
  abbrev pub closed : SstableWriter → List ℕ → List ℕ → SstableWriter
  closed w block c = record w {
    file = w.file ++ block_image env block c;
    file_offset = w.file_offset + (12 + length c);
    blocks = set_last w.current_block_offsets w.blocks;
    current_block_offsets = if length w.blocks == 0 then w.current_block_offsets else [];
    single_block = [];
    block_size = 0;
    is_new_block = true;
  }

  pub close_block_lem :
      (w : SstableWriter) (block c : List ℕ)
      → w.single_block ≡ block
      → env.snappy.compress block ≡ some c
      → close_block env w ≡ ok (closed w block c)
  unfolding close_block write_block
  close_block_lem w block c e h = rw (e, h) refl

  length-block_image : (block c : List ℕ) → length (block_image env block c) ≡ 12 + length c
  unfolding block_image
  length-block_image block c = omega arith

  -- The block `cur` stands where it is written.
  new-Heads :
      (file : List ℕ) (m : BlockMeta) (r : BlockRecord) (rs : List BlockRecord) (c : List ℕ)
      → env.snappy.compress (block_bytes env.crc (r ∷ rs)) ≡ some c
      → m.start_key ≡ r.key
      → m.offset ≡ length file
      → AllStorable (r ∷ rs)
      → length (block_bytes env.crc (r ∷ rs)) < block_max
      → Heads (IsPlaced env (file ++ block_image env (block_bytes env.crc (r ∷ rs)) c)) m (r ∷ rs)
  new-Heads file m r rs c made start at a short = record {
    first = r;
    others = rs;
    group = refl;
    start = start;
    placed = record {
      stands = record {
        before = file;
        after = [];
        compressed = c;
        made = made;
        whole = ap (λ s. file ++ s) (sym (append-nil _));
        at = at;
      };
      storable = a;
      short = short;
    };
  }

  -- What `close_block` leaves: no open block, and one more group, unless the open block held nothing.
  pub record Closed (w w' : SstableWriter) (gs : List (List BlockRecord)) (cur : List BlockRecord)
      : Type 0 where
    pub groups : List (List BlockRecord)
    pub writing : Writing w' groups []
    pub same : all_records groups ≡ all_records gs ++ cur

  end_lem :
      (w : SstableWriter) (block c : List ℕ)
      → w.file_offset ≡ length w.file
      → w.file_offset + (12 + length c) ≡ length (w.file ++ block_image env block c)
  end_lem w block c h =
      omega (arith, h, length-append w.file (block_image env block c), length-block_image block c)

  pub header_lem :
      (file later more : List ℕ)
      → file ≡ (magic ++ be32 format_version) ++ later
      → file ++ more ≡ (magic ++ be32 format_version) ++ (later ++ more)
  header_lem file later more h =
      ap (λ s. s ++ more) h ∙ append_assoc (magic ++ be32 format_version) later more

  pub closed-Writing :
      (w : SstableWriter) (gs : List (List BlockRecord)) (cur : List BlockRecord) (c : List ℕ)
      → Writing w gs cur
      → env.snappy.compress (block_bytes env.crc cur) ≡ some c
      → Closed w (closed w (block_bytes env.crc cur) c) gs cur
  unfolding block_bytes
  closed-Writing w gs [] c wr made = record {
    groups = gs;
    writing = record {
      ms = set_last w.current_block_offsets wr.ms;
      placed =
          PlacedIn-set_last env (w.file ++ block_image env [] c) w.current_block_offsets wr.ms gs
            (PlacedIn-append env w.file (block_image env [] c) wr.ms gs wr.placed);
      opened = (refl, ap (set_last w.current_block_offsets) wr.opened.1);
      at_end = end_lem w [] c wr.at_end;
      block = refl;
      size = refl;
      short = omega arith;
      storable = tt;
      later = wr.later ++ block_image env [] c;
      header = header_lem w.file wr.later (block_image env [] c) wr.header;
      bits_some = wr.bits_some;
    };
    same = sym (append-nil _);
  }
  closed-Writing w gs (r ∷ rs) c wr made =
      let g = r ∷ rs in
      let more = block_image env (block_bytes env.crc g) c in
      let m = wr.opened.1 in
      let m' : BlockMeta = record m { record_offset = w.current_block_offsets } in
      record {
        groups = gs ++ g ∷ [];
        writing = record {
          ms = wr.ms ++ m' ∷ [];
          placed =
              PlacedIn-last env (w.file ++ more) wr.ms gs m' g
                (PlacedIn-append env w.file more wr.ms gs wr.placed)
                (new-Heads w.file m' r rs c made wr.opened.3 (wr.opened.4 ∙ wr.at_end) wr.storable
                  wr.short);
          opened = (
            refl,
            ap (set_last w.current_block_offsets) wr.opened.2
                ∙ set_last-last w.current_block_offsets wr.ms m,
          );
          at_end = end_lem w (block_bytes env.crc g) c wr.at_end;
          block = refl;
          size = refl;
          short = omega arith;
          storable = tt;
          later = wr.later ++ more;
          header = header_lem w.file wr.later more wr.header;
          bits_some = wr.bits_some;
        };
        same = all_records-last gs g;
      }
