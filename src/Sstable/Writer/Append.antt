-- ===== src/Sstable/Writer/Append.antt =====
-- `append` and the loop of `write_sstable` keep the writer's invariant.
use arch_db.Prelude.{
  if_true, if_false, ◌+◌, ◌<◌, ◌≡◌, refl, Bool, true, false, List, [], ◌∷◌, ◌++◌, arith, length,
  length-append, append_assoc, append-nil, ap, sym, ◌∙◌, ok, Result, ◌>>=◌, Bool-cases, inl, inr,
  ltb, ltb→le,
}
use arch_db.Prelude.Str.{Str}
use arch_db.Value.{BlockRecord}
use arch_db.Bloom.{compute_hashes}
use arch_db.Bloom.Bits.{length-marked}
use arch_db.Bloom.Membership.{with_item, insert_lem}
use arch_db.Sstable.Formats.{Formats}
use arch_db.Sstable.Record.{serialize_record}
use arch_db.Sstable.Record.Codec.{IsStorable, AllStorable, block_bytes, block_bytes-append}
use arch_db.Sstable.Index.{BlockMeta}
use arch_db.Sstable.Index.Search.{all_records}
use arch_db.Sstable.Writer.{SstableWriter, open_block, add_record, append, close_block}
use arch_db.Sstable.Writer.Invariant.{block_max}
use arch_db.Sstable.Writer.Steps.{Writing, Opened, closed, closed-Writing, close_block_lem}
use arch_db.Prelude.TreeMap

-- The records are storable, and none of them is too large for a block.
abbrev pub AllFitting : Formats → List BlockRecord → Type 0
AllFitting env [] = Unit {0}
AllFitting env (r ∷ rs) =
    IsStorable r × (length (serialize_record env.crc r.key r.value) < block_max) × AllFitting env rs

AllStorable-last :
    (rs : List BlockRecord) (r : BlockRecord)
    → AllStorable rs
    → IsStorable r
    → AllStorable (rs ++ r ∷ [])
AllStorable-last [] r a h = (h, tt)
AllStorable-last (q ∷ rs) r a h = (a.0, AllStorable-last rs r a.1 h)

module _ (env : Formats) where
  -- The writer after the record was added to its open block.
  abbrev added : BlockRecord → SstableWriter → SstableWriter
  added r w = record w {
    current_block_offsets =
        TreeMap.insert r.key (w.file_offset + 12 + length w.single_block) w.current_block_offsets;
    offsets = TreeMap.insert r.key (w.file_offset + 12 + length w.single_block) w.offsets;
    bloom = with_item env.hasher w.bloom r.key;
    single_block = w.single_block ++ serialize_record env.crc r.key r.value;
    block_size = w.block_size + length (serialize_record env.crc r.key r.value);
  }

  add_record_lem :
      (r : BlockRecord) (w : SstableWriter)
      → 0 < length w.bloom.bits
      → add_record env r.key r.value w ≡ ok (added r w)
  unfolding add_record
  add_record_lem r w h = rw (insert_lem env.hasher w.bloom r.key h) refl

  block_bytes-last :
      (cur : List BlockRecord) (r : BlockRecord)
      → block_bytes env.crc (cur ++ r ∷ [])
        ≡ block_bytes env.crc cur ++ serialize_record env.crc r.key r.value
  block_bytes-last cur r =
      block_bytes-append env.crc cur (r ∷ [])
      ∙ ap (λ s. block_bytes env.crc cur ++ s)
          (unfold block_bytes in append-nil (serialize_record env.crc r.key r.value))

  size_lem :
      (w : SstableWriter) (r : BlockRecord)
      → w.block_size ≡ length w.single_block
      → w.block_size + length (serialize_record env.crc r.key r.value)
        ≡ length (w.single_block ++ serialize_record env.crc r.key r.value)
  size_lem w r h =
      omega (arith, h, length-append w.single_block (serialize_record env.crc r.key r.value))

  -- The writer whose open block is `blocks`'s last one.
  abbrev with_block : Bool → List BlockMeta → SstableWriter → SstableWriter
  with_block is_new blocks w = record w { is_new_block = is_new; blocks = blocks }

  added-Writing :
      (w : SstableWriter) (gs : List (List BlockRecord)) (cur : List BlockRecord) (r : BlockRecord)
      → (wr : Writing env w gs cur) → (is_new : Bool) (blocks : List BlockMeta)
      → Opened is_new blocks w.file_offset wr.ms (cur ++ r ∷ [])
      → IsStorable r
      → length (block_bytes env.crc (cur ++ r ∷ [])) < block_max
      → Writing env (added r (with_block is_new blocks w)) gs (cur ++ r ∷ [])
  added-Writing w gs cur r wr is_new blocks o h short = record {
    ms = wr.ms;
    placed = wr.placed;
    opened = o;
    at_end = wr.at_end;
    block =
        ap (λ s. s ++ serialize_record env.crc r.key r.value) wr.block
        ∙ sym (block_bytes-last cur r);
    size = size_lem w r wr.size;
    short = short;
    storable = AllStorable-last cur r wr.storable h;
    later = wr.later;
    header = wr.header;
    bits_some =
        rw (length-marked (compute_hashes env.hasher w.bloom r.key) w.bloom.bits) wr.bits_some;
  }

  -- The record is in the open block, or in one that was opened for it.
  pub record Added (res : Result SstableWriter) (gs : List (List BlockRecord))
      (cur : List BlockRecord) : Type 0 where
    pub after : SstableWriter
    pub made : res ≡ ok after
    pub writing : Writing env after gs cur

  opened_new :
      (key : Str) (w : SstableWriter)
      → w.is_new_block ≡ true
      → open_block env key w
        ≡ with_block false
            (w.blocks
              ++ record { start_key = key; offset = w.file_offset; record_offset = [] } ∷ [])
            w
  unfolding open_block
  opened_new key w h = if_true w.is_new_block _ w h

  opened_old : (key : Str) (w : SstableWriter) → w.is_new_block ≡ false → open_block env key w ≡ w
  unfolding open_block
  opened_old key w h = if_false w.is_new_block _ w h

  add-Added :
      (w : SstableWriter) (gs : List (List BlockRecord)) (cur : List BlockRecord) (r : BlockRecord)
      → Writing env w gs cur
      → IsStorable r
      → length (block_bytes env.crc (cur ++ r ∷ [])) < block_max
      → Added (add_record env r.key r.value (open_block env r.key w)) gs (cur ++ r ∷ [])
  add-Added w gs [] r wr h short =
      let m : BlockMeta = record {
        start_key = r.key;
        offset = w.file_offset;
        record_offset = [];
      } in
      let w' = with_block false (w.blocks ++ m ∷ []) w in
      record {
        after = added r w';
        made =
            ap (add_record env r.key r.value) (opened_new r.key w wr.opened.0)
            ∙ add_record_lem r w' wr.bits_some;
        writing =
            added-Writing w gs [] r wr false (w.blocks ++ m ∷ [])
              (refl, m, ap (λ b. b ++ m ∷ []) wr.opened.1, refl, refl) h short;
      }
  add-Added w gs (q ∷ qs) r wr h short = record {
    after = added r w;
    made =
        ap (add_record env r.key r.value) (opened_old r.key w wr.opened.0)
        ∙ add_record_lem r w wr.bits_some;
    writing = added-Writing w gs (q ∷ qs) r wr w.is_new_block w.blocks wr.opened h short;
  }

  fit_lem :
      (w : SstableWriter) (gs : List (List BlockRecord)) (cur : List BlockRecord) (r : BlockRecord)
      → Writing env w gs cur
      → ltb 40 (w.block_size + length (serialize_record env.crc r.key r.value)) ≡ false
      → length (block_bytes env.crc (cur ++ r ∷ [])) < block_max
  fit_lem w gs cur r wr h =
      let le = ltb→le 40 (w.block_size + length (serialize_record env.crc r.key r.value)) h in
      rw (block_bytes-last cur r) (
        omega (
          arith,
          le,
          wr.size,
          ap length wr.block,
          length-append (block_bytes env.crc cur) (serialize_record env.crc r.key r.value),
        ))

  -- `append` at any place: what is in the groups and in the open block has grown by the record.
  pub record Appended (w : SstableWriter) (gs : List (List BlockRecord)) (cur : List BlockRecord)
      (r : BlockRecord) : Type 0 where
    pub groups : List (List BlockRecord)
    pub open_records : List BlockRecord
    pub added : Added (append env r.key r.value w) groups open_records
    pub same : all_records groups ++ open_records ≡ (all_records gs ++ cur) ++ r ∷ []

  append_roomy :
      (w : SstableWriter) (r : BlockRecord)
      → ltb 40 (w.block_size + length (serialize_record env.crc r.key r.value)) ≡ false
      → append env r.key r.value w ≡ add_record env r.key r.value (open_block env r.key w)
  unfolding append
  append_roomy w r h =
      ap (λ x. x >>= λ roomy. add_record env r.key r.value (open_block env r.key roomy))
        (if_false (ltb 40 (w.block_size + length (serialize_record env.crc r.key r.value)))
          (close_block env w) (ok w) h)

  append_full :
      (w w' : SstableWriter) (r : BlockRecord)
      → ltb 40 (w.block_size + length (serialize_record env.crc r.key r.value)) ≡ true
      → close_block env w ≡ ok w'
      → append env r.key r.value w ≡ add_record env r.key r.value (open_block env r.key w')
  unfolding append
  append_full w w' r h e =
      ap (λ x. x >>= λ roomy. add_record env r.key r.value (open_block env r.key roomy))
        (if_true (ltb 40 (w.block_size + length (serialize_record env.crc r.key r.value)))
            (close_block env w) (ok w) h
          ∙ e)

  pub append-Appended :
      (w : SstableWriter) (gs : List (List BlockRecord)) (cur : List BlockRecord) (r : BlockRecord)
      → Writing env w gs cur
      → IsStorable r
      → length (serialize_record env.crc r.key r.value) < block_max
      → Appended w gs cur r
  append-Appended w gs cur r wr h short =
      elim (Bool-cases (ltb 40 (w.block_size + length (serialize_record env.crc r.key r.value)))) [
        | inr roomy ↦
            let a = add-Added w gs cur r wr h (fit_lem w gs cur r wr roomy) in
            record {
              groups = gs;
              open_records = cur ++ r ∷ [];
              added = record {
                after = a.after;
                made = append_roomy w r roomy ∙ a.made;
                writing = a.writing;
              };
              same = sym (append_assoc (all_records gs) cur (r ∷ []));
            }
        | inl full ↦
            let block = block_bytes env.crc cur in
            let c = env.snappy.compress_some block (omega (arith, wr.short)) in
            let cl = closed-Writing env w gs cur c.0 wr c.1 in
            let a =
              add-Added (closed env w block c.0) cl.groups [] r cl.writing h
                (rw (block_bytes-last [] r) (unfold block_bytes in short)) in
            record {
              groups = cl.groups;
              open_records = r ∷ [];
              added = record {
                after = a.after;
                made =
                    append_full w (closed env w block c.0) r full
                      (close_block_lem env w block c.0 wr.block c.1)
                    ∙ a.made;
                writing = a.writing;
              };
              same = ap (λ s. s ++ r ∷ []) cl.same;
            }
      ]
