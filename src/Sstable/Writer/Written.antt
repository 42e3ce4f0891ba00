-- ===== src/Sstable/Writer/Written.antt =====
-- `write_sstable` writes a file in which its blocks stand, with all records in order.
use arch_db.Prelude.{
  if_true, if_false, ◌%◌, ℕ, ◌<◌, ◌≡◌, refl, true, false, some, List, [], ◌∷◌, ◌++◌, arith, length,
  length-append, append_assoc, append-nil, ap, sym, subst, ◌∙◌, ok, Result, ◌>>=◌, if◌then◌else◌,
  ◌==◌, length-replicate,
}
use arch_db.Prelude.Bytes.{u32_mod, be32}
use arch_db.Value.{BlockRecord}
use arch_db.Bloom.Serde.{with_rate}
use arch_db.Bloom.{with_size}
use arch_db.Sstable.Formats.{Formats}
use arch_db.Sstable.Record.{serialize_record}
use arch_db.Sstable.Record.Codec.{block_bytes, length-serialize_record}
use arch_db.Sstable.Block.{magic, format_version, write_block}
use arch_db.Sstable.Index.{BlockMeta, SstableIndex}
use arch_db.Sstable.Index.Search.{Ordered, all_records}
use arch_db.Sstable.Writer.{
  SstableWriter, sort_blocks, is_sorted, new, append, append_all, close_last, tail_bytes, finish,
  write_sstable,
}
use arch_db.Sstable.Writer.Invariant.{PlacedIn, PlacedIn-append}
use arch_db.Sstable.Writer.Steps.{Writing, closed, closed-Writing, header_lem}
use arch_db.Sstable.Writer.Sorted.{is_sorted-Ordered, sort_blocks-PlacedIn}
use arch_db.Sstable.Writer.Append.{AllFitting, append-Appended}

module _ (env : Formats) where
  pub bits_lem : (n : ℕ) → 0 < n → 0 < length (with_rate env.sizing n).bits
  unfolding with_rate with_size
  bits_lem n h =
      omega
        (arith, length-replicate (env.sizing.needed_bits n) false, env.sizing.needed_bits_pos n h)

  new-Writing : (n : ℕ) → n < u32_mod → Writing env (new env n) [] []
  unfolding new
  new-Writing n h = record {
    ms = [];
    placed = tt;
    opened = (refl, refl);
    at_end = refl;
    block = unfold block_bytes in refl;
    size = refl;
    short = unfold block_bytes in omega arith;
    storable = tt;
    later = [];
    header = sym (append-nil _);
    bits_some = bits_lem ((if n == 0 then 1 else n) % u32_mod) (ground arith);
  }

  record Filled (res : Result SstableWriter) (rs : List BlockRecord) : Type 0 where
    after : SstableWriter
    groups : List (List BlockRecord)
    cur : List BlockRecord
    made : res ≡ ok after
    writing : Writing env after groups cur
    same : all_records groups ++ cur ≡ rs

  append_all_step :
      (w w' : SstableWriter) (r : BlockRecord) (rs : List BlockRecord)
      → append env r.key r.value w ≡ ok w'
      → append_all env (r ∷ rs) w ≡ append_all env rs w'
  unfolding append_all
  append_all_step w w' r rs h = ap (λ x. x >>= append_all env rs) h

  append_all-Filled :
      (w : SstableWriter) (gs : List (List BlockRecord)) (cur rs : List BlockRecord)
      → Writing env w gs cur
      → AllFitting env rs
      → Filled (append_all env rs w) ((all_records gs ++ cur) ++ rs)
  append_all-Filled w gs cur [] wr a = record {
    after = w;
    groups = gs;
    cur = cur;
    made = unfold append_all in refl;
    writing = wr;
    same = sym (append-nil _);
  }
  append_all-Filled w gs cur (r ∷ rs) wr a =
      let one = append-Appended env w gs cur r wr a.0 a.1 in
      let all =
        append_all-Filled one.added.after one.groups one.open_records rs one.added.writing a.2 in
      record {
        after = all.after;
        groups = all.groups;
        cur = all.cur;
        made = append_all_step w one.added.after r rs one.added.made ∙ all.made;
        writing = all.writing;
        same =
            all.same
            ∙ ap (λ s. s ++ rs) one.same
            ∙ append_assoc (all_records gs ++ cur) (r ∷ []) rs;
      }

  -- What `finish` needs of the last block: that all of `rs` stands in the file.
  record Complete (res : Result SstableWriter) (rs : List BlockRecord) : Type 0 where
    after : SstableWriter
    groups : List (List BlockRecord)
    made : res ≡ ok after
    placed : PlacedIn env after.file after.blocks groups
    later : List ℕ
    header : after.file ≡ (magic ++ be32 format_version) ++ later
    same : all_records groups ≡ rs

  abbrev last : SstableWriter → List ℕ → List ℕ → SstableWriter
  last w block c = record w {
    file = (closed env w block c).file;
    blocks = (closed env w block c).blocks;
    current_block_offsets = if length w.blocks == 0 then w.current_block_offsets else [];
  }

  close_last_lem :
      (w : SstableWriter) (block c : List ℕ)
      → w.single_block ≡ block
      → env.snappy.compress block ≡ some c
      → 0 < length block
      → close_last env w ≡ ok (last w block c)
  unfolding close_last write_block
  close_last_lem w block c e h pos =
      if_false (length w.single_block == 0) (ok w) _ (rw e (ground arith)) ∙ rw (e, h) refl

  nonempty_lem :
      (r : BlockRecord) (rs : List BlockRecord) → 0 < length (block_bytes env.crc (r ∷ rs))
  unfolding block_bytes
  nonempty_lem r rs = omega (
    arith,
    length-append (serialize_record env.crc r.key r.value) (block_bytes env.crc rs),
    length-serialize_record env.crc r,
  )

  close_last-nothing : (w : SstableWriter) → w.single_block ≡ [] → close_last env w ≡ ok w
  unfolding close_last
  close_last-nothing w e = if_true (length w.single_block == 0) (ok w) _ (rw e refl)

  close_last-Complete :
      (w : SstableWriter) (gs : List (List BlockRecord)) (cur : List BlockRecord)
      → Writing env w gs cur
      → Complete (close_last env w) (all_records gs ++ cur)
  close_last-Complete w gs [] wr = record {
    after = w;
    groups = gs;
    made = close_last-nothing w (wr.block ∙ unfold block_bytes in refl);
    placed = subst (λ b. PlacedIn env w.file b gs) (sym wr.opened.1) wr.placed;
    later = wr.later;
    header = wr.header;
    same = sym (append-nil _);
  }
  close_last-Complete w gs (r ∷ rs) wr =
      let block = block_bytes env.crc (r ∷ rs) in
      let c = env.snappy.compress_some block (omega (arith, wr.short)) in
      let cl = closed-Writing env w gs (r ∷ rs) c.0 wr c.1 in
      record {
        after = last w block c.0;
        groups = cl.groups;
        made = close_last_lem w block c.0 wr.block c.1 (nonempty_lem r rs);
        placed =
            subst (λ b. PlacedIn env (closed env w block c.0).file b cl.groups)
              (sym cl.writing.opened.1) cl.writing.placed;
        later = cl.writing.later;
        header = cl.writing.header;
        same = cl.same;
      }

  -- A file and an index: all records stand in the blocks of the index, in order.
  pub record IsWritten (file : List ℕ) (index : SstableIndex) (records : List BlockRecord)
      : Type 0 where
    pub groups : List (List BlockRecord)
    pub placed : PlacedIn env file index.blocks groups
    pub later : List ℕ
    pub header : file ≡ (magic ++ be32 format_version) ++ later
    pub same : all_records groups ≡ records

  pub record Output (res : Result (List ℕ × SstableIndex)) (records : List BlockRecord)
      : Type 0 where
    pub file : List ℕ
    pub index : SstableIndex
    pub made : res ≡ ok (file, index)
    pub written : IsWritten file index records

  -- The end of `finish`, with the blocks as they were sorted.
  abbrev finished : List BlockMeta → SstableWriter → SstableIndex × SstableWriter
  finished blocks w =
      let index : SstableIndex = record { offsets = w.offsets; blocks = blocks } in
      (index, record w { blocks = blocks; file = w.file ++ tail_bytes env w.file index w.bloom })

  finish_lem :
      (w closed : SstableWriter)
      → close_last env w ≡ ok closed
      → sort_blocks closed.blocks ≡ closed.blocks
      → finish env w ≡ ok (finished closed.blocks closed)
  unfolding finish
  finish_lem w closed e s =
      ap (λ x. x >>= λ c. ok (finished (sort_blocks c.blocks) c)) e
      ∙ ap (λ b. ok (finished b closed)) s

  write_step :
      (records : List BlockRecord) (w done : SstableWriter) (index : SstableIndex)
      → is_sorted records ≡ true
      → append_all env records (new env (length records)) ≡ ok w
      → finish env w ≡ ok (index, done)
      → write_sstable env records ≡ ok (done.file, index)
  unfolding write_sstable
  write_step records w done index s a f = rw (s, a, f) refl

  -- Fewer than 2 ^ 32 storable records in the order of their keys, none of them too large, are written: the result is a
  -- file and an index in which they all stand.
  pub write_sstable-AllFitting :
      (records : List BlockRecord)
      → is_sorted records ≡ true
      → length records < u32_mod
      → AllFitting env records
      → Output (write_sstable env records) records
  write_sstable-AllFitting records s short a =
      let all =
        append_all-Filled (new env (length records)) [] [] records
          (new-Writing (length records) short) a in
      let done = close_last-Complete all.after all.groups all.cur all.writing in
      let w = done.after in
      let index : SstableIndex = record { offsets = w.offsets; blocks = w.blocks } in
      let more = tail_bytes env w.file index w.bloom in
      let whole = done.same ∙ all.same in
      let final = record w { file = w.file ++ more } in
      record {
        file = w.file ++ more;
        index = index;
        made = write_step records all.after final index s all.made (
            finish_lem all.after w done.made (
              sort_blocks-PlacedIn env w.file w.blocks done.groups done.placed
                (subst Ordered (sym whole) (is_sorted-Ordered records s))));
        written = record {
          groups = done.groups;
          placed = PlacedIn-append env w.file more w.blocks done.groups done.placed;
          later = done.later ++ more;
          header = header_lem env w.file done.later more done.header;
          same = whole;
        };
      }
