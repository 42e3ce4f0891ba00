-- ===== src/Storage/Reopen.antt =====
-- Opening the directory again: after a crash, and after a checkpoint.
use native.Mathlib.Decide.{dec_lt}
use arch_db.Prelude.{
  ℕ, zero, suc, ◌+◌, ◌-◌, ◌≤◌, ◌<◌, ◌≡◌, refl, true, false, List, [], ◌∷◌, arith, ok, none, some,
  ltb, leb, ◌&&◌, if◌then◌else◌, ◌∙◌, subst, sym,
}
use arch_db.Command.{Command, Crc32}
use arch_db.Storage.{
  Storage, Files, SyncPolicy, exists, highest_segment, new, append, checkpoint, load,
  remove_segments, opened, update,
}
use arch_db.Storage.Frames.{AllLogged}
use arch_db.Storage.Recovery.{
  Holds, load-Holds, append_all, commands_of, append_all-Holds, new-Holds, load_before-update,
}

-- Every segment up to the current one has its file.
pub record IsComplete (st : Storage) : Type 0 where
  pub present : (s : ℕ) → s ≤ st.current_segment → exists st.files s ≡ true

highest_segment_lem :
    (fuel : ℕ) (files : Files) (k n : ℕ)
    → ((s : ℕ) → k < s → s ≤ n → exists files s ≡ true)
    → exists files (n + 1) ≡ false
    → k ≤ n
    → n < k + fuel
    → highest_segment fuel files k ≡ n
unfolding highest_segment
highest_segment_lem zero files k n h last le lt = absurd (omega arith)
highest_segment_lem (suc fuel) files k n h last le lt = elim (dec_lt k n) [
  | yes below ↦
      rw (h (k + 1) (omega arith) (omega arith), highest_segment)
        (highest_segment_lem fuel files (k + 1) n (λ s p q. h s (omega arith) q) last (omega arith)
          (omega arith))
  | no at_end ↦
      let e : k ≡ n = omega arith in
      rw (subst (λ m. exists files (m + 1) ≡ false) (sym e) last, highest_segment) e
]

highest_segment_gapped :
    (fuel : ℕ) (files : Files) → files 1 ≡ none → highest_segment fuel files 0 ≡ 0
unfolding highest_segment
highest_segment_gapped zero files h = refl
highest_segment_gapped (suc fuel) files h = rw (h, highest_segment)

remove_segments_lem :
    (from count : ℕ) (files : Files) (s : ℕ)
    → remove_segments from count files s
      ≡ (if leb from s && ltb s (from + count) then none else files s)
unfolding remove_segments
remove_segments_lem from zero files s = ground arith
remove_segments_lem from (suc count) files s =
    ground (arith, remove_segments_lem (from + 1) count (update files from none) s)

-- A checkpoint removes the files of the segments from the last checkpointed one up to, and not
-- including, the current one, and changes no other file.
pub checkpoint_files :
    (st : Storage) (s : ℕ)
    → (checkpoint st).files s ≡ (
        if leb st.last_checkpointed_segment s && ltb s st.current_segment then none else st.files s)
unfolding checkpoint
checkpoint_files st s = ground (
  arith,
  remove_segments_lem st.last_checkpointed_segment
      (st.current_segment - st.last_checkpointed_segment) st.files s,
)

segment-checkpoint : (st : Storage) → (checkpoint st).current_segment ≡ st.current_segment
unfolding checkpoint
segment-checkpoint st = ground arith

module _ (crc : Crc32) where
  -- Opening the directory of a log again, with every segment file in place, gives an open log that
  -- holds the same commands.
  pub new-Holds_again :
      (fuel now : ℕ) (policy : SyncPolicy) (st : Storage) {cs : List Command}
      → st.current_segment < fuel
      → IsComplete st
      → Holds crc st cs
      → Holds crc (new fuel now policy st.files) cs
  unfolding new
  new-Holds_again fuel now policy st lt complete h =
      let n = st.current_segment in
      let start : highest_segment fuel st.files 0 ≡ n =
        highest_segment_lem fuel st.files 0 n (λ s p q. complete.present s q)
          (ground (arith, h.last (n + 1))) (omega arith) (omega arith) in
      record {
        before = h.before;
        here = h.here;
        earlier = rw start (
            load_before-update crc st.files n n (some (opened (st.files n))) (omega arith)
            ∙ h.earlier);
        current = rw start (ground (arith, h.current));
        logged = h.logged;
        size = rw start (ground (arith, h.current, h.size));
        last = λ s p. ground (arith, start, h.last s);
        whole = h.whole;
      }

  append-IsComplete :
      (now : ℕ) (c : Command) (st : Storage) → IsComplete st → IsComplete (append crc now c st)
  unfolding append
  append-IsComplete now c st h = record { present = λ s p. ground (arith, h.present s) }

  append_all-IsComplete :
      (calls : List (ℕ × Command)) (st : Storage)
      → IsComplete st
      → IsComplete (append_all crc calls st)
  unfolding append_all
  append_all-IsComplete [] st h = h
  append_all-IsComplete ((now, c) ∷ calls) st h =
      append_all-IsComplete calls (append crc now c st) (append-IsComplete now c st h)

  -- Neither of the first two segments exists, and a later one is open.
  pub record IsGapped (st : Storage) : Type 0 where
    pub later : 2 ≤ st.current_segment
    pub no_zero : st.files 0 ≡ none
    pub no_one : st.files 1 ≡ none

  append-IsGapped :
      (now : ℕ) (c : Command) (st : Storage) → IsGapped st → IsGapped (append crc now c st)
  unfolding append
  append-IsGapped now c st h = ground arith

  append_all-IsGapped :
      (calls : List (ℕ × Command)) (st : Storage) → IsGapped st → IsGapped (append_all crc calls st)
  unfolding append_all
  append_all-IsGapped [] st h = h
  append_all-IsGapped ((now, c) ∷ calls) st h =
      append_all-IsGapped calls (append crc now c st) (append-IsGapped now c st h)

  new-IsComplete :
      (fuel now : ℕ) (policy : SyncPolicy) (files : Files)
      → ((s : ℕ) → files s ≡ none)
      → IsComplete (new (suc fuel) now policy files)
  unfolding new
  new-IsComplete fuel now policy files h =
      let start = highest_segment_gapped (suc fuel) files (h 1) in
      record { present = λ s p. let e : s ≡ 0 = omega arith in rw (e, start) refl }

  -- Commands survive a restart: from an empty directory, after any appends of loggable commands, the
  -- directory is opened again, and `load` returns the commands appended, in order. The fuel of the
  -- second opening exceeds the number of the last segment.
  pub load_after_restart :
      (fuel now : ℕ) (policy : SyncPolicy) (files : Files) (calls : List (ℕ × Command))
      (fuel' now' : ℕ) (policy' : SyncPolicy)
      → ((s : ℕ) → files s ≡ none)
      → AllLogged crc (commands_of calls)
      → (append_all crc calls (new (suc fuel) now policy files)).current_segment < fuel'
      → load crc
          (new fuel' now' policy' (append_all crc calls (new (suc fuel) now policy files)).files)
        ≡ ok (commands_of calls)
  load_after_restart fuel now policy files calls fuel' now' policy' empty l lt =
      let st = new (suc fuel) now policy files in
      load-Holds crc _ (
        new-Holds_again fuel' now' policy' (append_all crc calls st) lt
          (append_all-IsComplete calls st (new-IsComplete fuel now policy files empty))
          (append_all-Holds crc calls st l (new-Holds crc fuel now policy files empty)))

  checkpoint-IsGapped :
      (st : Storage)
      → 2 ≤ st.current_segment
      → st.last_checkpointed_segment ≡ 0
      → IsGapped (checkpoint st)
  checkpoint-IsGapped st later fresh = record {
    later = rw segment-checkpoint later;
    no_zero = rw checkpoint_files (ground arith);
    no_one = rw checkpoint_files (ground arith);
  }

  load_gapped :
      (fuel now : ℕ) (policy : SyncPolicy) (st : Storage)
      → IsGapped st
      → load crc (new fuel now policy st.files) ≡ ok []
  unfolding load new
  load_gapped fuel now policy st h =
      rw (highest_segment_gapped fuel st.files h.no_one, h.no_zero) refl

  -- The first checkpoint since the log was opened, with the log in segment 2 or later, makes the next opening
  -- lose the log: whatever the current segment holds and whatever is appended after the checkpoint, `new` stops
  -- its search at the missing segment 1, and `load` then returns no command.
  pub load_after_checkpoint :
      (fuel now : ℕ) (policy : SyncPolicy) (st : Storage) (calls : List (ℕ × Command))
      → 2 ≤ st.current_segment
      → st.last_checkpointed_segment ≡ 0
      → load crc (new fuel now policy (append_all crc calls (checkpoint st)).files) ≡ ok []
  load_after_checkpoint fuel now policy st calls later fresh =
      load_gapped fuel now policy _
        (append_all-IsGapped calls (checkpoint st) (checkpoint-IsGapped st later fresh))
