-- ===== src/Storage/Recovery.antt =====
-- The log refines a list of commands: what was appended is what `load` returns.
use arch_db.Prelude.{
  ==_self, if◌then◌else◌, panic, err, ℕ, zero, suc, ◌+◌, ◌≤◌, ◌<◌, ◌≡◌, refl, ap, subst, none, some,
  List, [], ◌∷◌, ◌++◌, arith, length, length-append, append-nil, append_assoc, Result, ok, ◌>>=◌,
  ◌==◌, Bool-cases, inl, inr, Option, err, ◌∙◌, ltb, map,
}
use native.Mathlib.Numerals.{add-one}
use arch_db.Command.{Command, Crc32, serialize}
use arch_db.Storage.{
  Storage, Files, SyncPolicy, frame, load_upto, load_file, load, append, write_record,
  rotate_segment, File, load_segment, update, new, wal_segment_size, highest_segment,
}
use arch_db.Storage.Frames.{
  IsLogged, AllLogged, AllLogged-append, frames, length-frame, load_segment-frames, frames-snoc,
}

abbrev pub bytes_of : Option File → Option (List ℕ)
bytes_of none = none
bytes_of (some f) = some f.content

-- The two directories hold the same bytes in the segments below `n`.
abbrev SameBelow : ℕ → Files → Files → Type 0
SameBelow n files files' = (s : ℕ) → s < n → bytes_of (files s) ≡ bytes_of (files' s)

abbrev pub commands_of : List (ℕ × Command) → List Command
commands_of = map (λ call. call.1)

bind_ok {ℓ} : {A : Type ℓ} (m : Result A) → m ≡ (m >>= λ b. ok b)
bind_ok (ok a) = refl
bind_ok (err e) = refl
bind_ok panic = refl

module _ (crc : Crc32) where
  load_file_congr :
      (f g : Option File) → bytes_of f ≡ bytes_of g → load_file crc f ≡ load_file crc g
  load_file_congr none none h = refl
  load_file_congr none (some g) h = cc
  load_file_congr (some f) none h = cc
  load_file_congr (some f) (some g) h =
      ap (λ (o : Option (List ℕ)). elim o [ none ↦ ok [] | some b ↦ load_segment crc (length b) b ])
        h

  load_upto_congr :
      (n : ℕ) (files files' : Files)
      → SameBelow (suc n) files files'
      → load_upto crc files n ≡ load_upto crc files' n
  unfolding load_upto
  load_upto_congr zero files files' h = load_file_congr (files 0) (files' 0) (h 0 (omega arith))
  load_upto_congr (suc n) files files' h = rw (
    load_upto_congr n files files' (λ s lt. h s (omega arith)),
    load_file_congr (files (suc n)) (files' (suc n)) (h (suc n) (omega arith)),
  )

  -- The commands of the segments before segment `n`.
  pub load_before : Files → ℕ → Result (List Command)
  load_before files zero = ok []
  load_before files (suc n) = load_upto crc files n

  load_before_congr :
      (n : ℕ) (files files' : Files)
      → SameBelow n files files'
      → load_before files n ≡ load_before files' n
  unfolding load_before
  load_before_congr zero files files' h = refl
  load_before_congr (suc n) files files' h = load_upto_congr n files files' h

  load_upto-before :
      (n : ℕ) (files : Files)
      → load_upto crc files n
        ≡ (load_before files n >>= λ a. load_file crc (files n) >>= λ b. ok (a ++ b))
  unfolding load_upto load_before
  load_upto-before zero files = bind_ok (load_file crc (files 0))
  load_upto-before (suc n) files = refl

  -- The storage is open on a log that holds the commands `cs`: the earlier segments load, the
  -- current one is made of whole frames, and no later segment exists.
  pub record Holds (st : Storage) (cs : List Command) : Type 0 where
    pub before : List Command
    pub here : List Command
    pub earlier : load_before st.files st.current_segment ≡ ok before
    pub current : bytes_of (st.files st.current_segment) ≡ some (frames crc here)
    pub logged : AllLogged crc here
    pub size : st.current_size ≡ length (frames crc here)
    pub last : (s : ℕ) → st.current_segment < s → st.files s ≡ none
    pub whole : cs ≡ before ++ here

  load_file-frames :
      (files : Files) (n : ℕ) (cs : List Command)
      → bytes_of (files n) ≡ some (frames crc cs)
      → AllLogged crc cs
      → load_file crc (files n) ≡ ok cs
  load_file-frames files n cs h logged =
      load_file_congr (files n) (some (record { content = frames crc cs; durable = 0 })) h
      ∙ load_segment-frames crc (length (frames crc cs)) cs logged (omega arith)

  pub load-Holds : (st : Storage) {cs : List Command} → Holds st cs → load crc st ≡ ok cs
  unfolding load
  load-Holds st h = rw (
    load_upto-before st.current_segment st.files,
    h.earlier,
    load_file-frames st.files st.current_segment h.here h.current h.logged,
    h.whole,
  )

  pub load_before-update :
      (files : Files) (n k : ℕ) (f : Option File)
      → n ≤ k
      → load_before (update files k f) n ≡ load_before files n
  load_before-update files n k f le =
      load_before_congr n (update files k f) files (λ s lt. ground arith)

  load_before-suc : (files : Files) (n : ℕ) → load_before files (n + 1) ≡ load_upto crc files n
  unfolding load_before
  load_before-suc files n = rw add-one

  rotate-Holds : (st : Storage) {cs : List Command} → Holds st cs → Holds (rotate_segment st) cs
  unfolding rotate_segment frames
  rotate-Holds st h = record {
    before = h.before ++ h.here;
    here = [];
    earlier =
        rw
          (
            load_before-update st.files (st.current_segment + 1) (st.current_segment + 1) _
                (omega arith),
            load_before-suc,
          )
          (unfold load in load-Holds st h ∙ ap ok h.whole);
    current = ground (arith, h.last (st.current_segment + 1));
    logged = tt;
    size = refl;
    last = λ s lt. ground (arith, h.last s);
    whole = rw append-nil h.whole;
  }

  bytes-write_record :
      (now : ℕ) (c : Command) (st : Storage) (s : ℕ) {b : List ℕ}
      → bytes_of (st.files st.current_segment) ≡ some b
      → bytes_of ((write_record crc now c st).files s)
        ≡ (if s == st.current_segment then some (b ++ frame crc c) else bytes_of (st.files s))
  unfolding write_record
  bytes-write_record now c st s h = ground arith

  segment-write_record :
      (now : ℕ) (c : Command) (st : Storage)
      → (write_record crc now c st).current_segment ≡ st.current_segment
  unfolding write_record
  segment-write_record now c st = ground arith

  size-write_record :
      (now : ℕ) (c : Command) (st : Storage)
      → (write_record crc now c st).current_size ≡ st.current_size + (length (serialize crc c) + 8)
  unfolding write_record
  size-write_record now c st = ground arith

  none-write_record :
      (now : ℕ) (c : Command) (st : Storage) (s : ℕ)
      → st.current_segment < s
      → st.files s ≡ none
      → (write_record crc now c st).files s ≡ none
  unfolding write_record
  none-write_record now c st s lt h = ground arith

  write_record-Holds :
      (now : ℕ) (c : Command) (st : Storage) {cs : List Command}
      → IsLogged crc c
      → Holds st cs
      → Holds (write_record crc now c st) (cs ++ c ∷ [])
  write_record-Holds now c st lc h =
      let st' = write_record crc now c st in
      let n = st.current_segment in
      record {
        before = h.before;
        here = h.here ++ c ∷ [];
        earlier = rw segment-write_record (
            load_before_congr n st'.files st.files
              (λ s lt. ground (arith, bytes-write_record now c st s h.current))
            ∙ h.earlier);
        current =
            rw segment-write_record
              (bytes-write_record now c st n h.current ∙ rw (==_self n, frames-snoc crc h.here c));
        logged = AllLogged-append crc h.here (c ∷ []) h.logged (lc, tt);
        size =
            rw (size-write_record, frames-snoc)
              (omega (
                arith,
                h.size,
                length-append (frames crc h.here) (frame crc c),
                length-frame crc c,
              ));
        last = λ s lt.
            none-write_record now c st s (rw segment-write_record at lt)
              (h.last s (rw segment-write_record at lt));
        whole = rw h.whole (append_assoc h.before h.here (c ∷ []));
      }

  pub append-Holds :
      (now : ℕ) (c : Command) (st : Storage) {cs : List Command}
      → IsLogged crc c
      → Holds st cs
      → Holds (append crc now c st) (cs ++ c ∷ [])
  unfolding append
  append-Holds now c st lc h =
      elim (Bool-cases (ltb wal_segment_size (st.current_size + length (serialize crc c) + 8))) [
        | inl full ↦ rw full (write_record-Holds now c (rotate_segment st) lc (rotate-Holds st h))
        | inr fits ↦ rw fits (write_record-Holds now c st lc h)
      ]

  -- In a directory with no segment file `new` opens an empty log.
  pub new-Holds :
      (fuel now : ℕ) (policy : SyncPolicy) (files : Files)
      → ((s : ℕ) → files s ≡ none)
      → Holds (new (suc fuel) now policy files) []
  unfolding new load_before frames
  new-Holds fuel now policy files h =
      let start : highest_segment (suc fuel) files 0 ≡ 0 = rw (h 1, highest_segment) in
      record {
        before = [];
        here = [];
        earlier = rw start;
        current = rw (start, h 0) (ground arith);
        logged = tt;
        size = rw (start, h 0);
        last = λ s lt. ground (arith, h s);
        whole = refl;
      }

  -- A sequence of appends, each with its time.
  unfoldable pub append_all : List (ℕ × Command) → Storage → Storage
  append_all [] st = st
  append_all ((now, c) ∷ calls) st = append_all calls (append crc now c st)

  pub append_all-Holds :
      (calls : List (ℕ × Command)) (st : Storage) {cs : List Command}
      → AllLogged crc (commands_of calls)
      → Holds st cs
      → Holds (append_all calls st) (cs ++ commands_of calls)
  unfolding append_all
  append_all-Holds [] st l h = rw append-nil h
  append_all-Holds ((now, c) ∷ calls) st {cs} l h =
      subst (Holds (append_all calls (append crc now c st)))
        (append_assoc cs (c ∷ []) (commands_of calls))
        (append_all-Holds calls (append crc now c st) l.1 (append-Holds now c st l.0 h))

  -- From an empty directory, after any appends of loggable commands, under any sync policy and
  -- with any rotations between them, `load` returns exactly these commands in order.
  pub load-append_all :
      (fuel now : ℕ) (policy : SyncPolicy) (files : Files) (calls : List (ℕ × Command))
      → ((s : ℕ) → files s ≡ none)
      → AllLogged crc (commands_of calls)
      → load crc (append_all calls (new (suc fuel) now policy files)) ≡ ok (commands_of calls)
  load-append_all fuel now policy files calls empty l =
      load-Holds _ (append_all-Holds calls _ l (new-Holds fuel now policy files empty))
