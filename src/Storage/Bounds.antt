-- ===== src/Storage/Bounds.antt =====
-- The size of a segment, and what `sync_all` has made durable.
use arch_db.Prelude.{
  ltb, ltb→le, Bool-cases, inl, inr, ℕ, ◌+◌, ◌≤◌, ◌≡◌, arith, length, length-append, none,
}
use arch_db.Command.{Command, Crc32, serialize}
use arch_db.Storage.{
  write_record, rotate_segment, Storage, append, frame, always, current_file, wal_segment_size,
}
use arch_db.Storage.Frames.{length-frame}

-- The recorded size of the current segment is the length of its file, and within the limit.
pub record IsSized (st : Storage) : Type 0 where
  pub exact : st.current_size ≡ length (current_file st).content
  pub bounded : st.current_size ≤ wal_segment_size

module _ (crc : Crc32) where
  write_record-IsSized :
      (now : ℕ) (c : Command) (st : Storage)
      → st.current_size ≡ length (current_file st).content
      → st.current_size + (length (serialize crc c) + 8) ≤ wal_segment_size
      → IsSized (write_record crc now c st)
  unfolding write_record
  write_record-IsSized now c st exact fits =
      ground (arith, length-frame crc c, length-append (current_file st).content (frame crc c))

  -- Where the next segment has no file yet, appending a record that fits a segment keeps the current
  -- segment's recorded size exact and within 1 MiB.
  pub append-IsSized :
      (now : ℕ) (c : Command) (st : Storage)
      → length (serialize crc c) + 8 ≤ wal_segment_size
      → st.files (st.current_segment + 1) ≡ none
      → IsSized st
      → IsSized (append crc now c st)
  unfolding append rotate_segment
  append-IsSized now c st fits next h =
      let total = st.current_size + length (serialize crc c) + 8 in
      elim (Bool-cases (ltb wal_segment_size total)) [
        | inl full ↦
            rw full (write_record-IsSized now c (rotate_segment st) (ground arith) (omega arith))
        | inr room ↦ rw room (
            write_record-IsSized now c st h.exact
              (omega (arith, ltb→le wal_segment_size total room)))
      ]

  -- Under the policy `Always` everything in the current segment is durable when `append` returns.
  pub append-durable :
      (now : ℕ) (c : Command) (st : Storage)
      → st.sync_policy ≡ always
      → (current_file (append crc now c st)).durable
        ≡ length (current_file (append crc now c st)).content
  unfolding append
  append-durable now c st h = ground arith
