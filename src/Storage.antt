-- ===== src/Storage.antt =====
-- storage.rs: the write-ahead log, a directory of segment files of framed, checksummed commands.
-- The calls of the file system succeed. A file keeps how much of it `sync_all` has made durable.
pub mod Frames
pub mod Recovery
pub mod Torn
pub mod Reopen
pub mod Bounds
use arch_db.Prelude.{
  ℕ, zero, suc, ◌+◌, ◌-◌, ◌*◌, Option, none, some, List, [], ◌∷◌, ◌++◌, ltb, leb, length, drop,
  if◌then◌else◌, Result, ok, ◌>>=◌, ◌==◌, Bool, true, false, not,
}
use arch_db.Prelude.Bytes.{be32, read_be32, slice}
use arch_db.Command.{Command, Crc32, serialize, deserialize}

abbrev pub wal_segment_size : ℕ
wal_segment_size = 1024 * 1024

pub data SyncPolicy : Type 0 where
  always never : SyncPolicy
  every_seconds : ℕ → SyncPolicy

pub record File : Type 0 where
  pub content : List ℕ
  pub durable : ℕ

-- The files `wal_{segment}.log` of the directory, by their segment.
abbrev pub Files : Type 0
Files = ℕ → Option File

pub record Storage : Type 0 where
  pub files : Files
  pub current_segment : ℕ
  pub current_size : ℕ
  pub sync_policy : SyncPolicy
  pub last_sync : ℕ
  pub last_checkpointed_segment : ℕ

abbrev pub update : Files → ℕ → Option File → Files
update files segment f other = if other == segment then f else files other

abbrev pub exists : Files → ℕ → Bool
exists files segment = elim (files segment) [ none ↦ false | some _ ↦ true ]

abbrev pub empty_file : File
empty_file = record { content = []; durable = 0 }

-- `OpenOptions::new().create(true).append(true)`: the file, made if it is missing.
abbrev pub opened : Option File → File
opened none = empty_file
opened (some f) = f

-- The loop of `new`; the fuel bounds the number of files in the directory.
unfoldable pub highest_segment : ℕ → Files → ℕ → ℕ
highest_segment zero files segment = segment
highest_segment (suc fuel) files segment = elim (exists files (segment + 1)) [
  | true ↦ highest_segment fuel files (segment + 1)
  | false ↦ segment
]

unfoldable pub new : ℕ → ℕ → SyncPolicy → Files → Storage
unfolding highest_segment
new fuel now sync_policy files =
    let segment = highest_segment fuel files 0 in
    let file = opened (files segment) in
    record {
      files = update files segment (some file);
      current_segment = segment;
      current_size = length file.content;
      sync_policy = sync_policy;
      last_sync = now;
      last_checkpointed_segment = 0;
    }

-- `for segment in from..from + count`
unfoldable pub remove_segments : ℕ → ℕ → Files → Files
remove_segments from zero files = files
remove_segments from (suc count) files = remove_segments (from + 1) count (update files from none)

unfoldable pub checkpoint : Storage → Storage
unfolding remove_segments
checkpoint st = if st.current_segment == 0 then st else record st {
  files =
      remove_segments st.last_checkpointed_segment
        (st.current_segment - st.last_checkpointed_segment) st.files;
  last_checkpointed_segment = st.current_segment;
}

unfoldable pub rotate_segment : Storage → Storage
rotate_segment st =
    let segment = st.current_segment + 1 in
    record st {
      files = update st.files segment (some (opened (st.files segment)));
      current_segment = segment;
      current_size = 0;
    }

abbrev pub current_file : Storage → File
current_file st = opened (st.files st.current_segment)

-- `write_all` on the file that is open for appending
abbrev pub write_all : List ℕ → Storage → Storage
write_all bytes st =
    let f = current_file st in
    record st {
      files = update st.files st.current_segment (some (record f { content = f.content ++ bytes }));
    }

-- `sync_all`
abbrev pub sync_all : Storage → Storage
sync_all st =
    let f = current_file st in
    record st {
      files = update st.files st.current_segment (some (record f { durable = length f.content }));
    }

-- `self.last_sync.elapsed() >= Duration::from_secs(seconds)` is tested at the time `now`; times are in
-- nanoseconds.
sync : ℕ → SyncPolicy → Storage → Storage
sync now always st = sync_all st
sync now never st = st
sync now (every_seconds seconds) st =
    if leb (seconds * 1000000000) (now - st.last_sync)
    then record (sync_all st) { last_sync = now }
    else st

unfoldable pub reset : Storage → Storage
reset st = record st { files = update st.files st.current_segment (some empty_file) }

module _ (crc : Crc32) where
  -- What `append` writes: the checksum of the payload, its length, the payload.
  unfoldable pub frame : Command → List ℕ
  frame command =
      let bytes = serialize crc command in be32 (crc.hash bytes) ++ (be32 (length bytes) ++ bytes)

  -- The writes of `append`, after the rotation.
  unfoldable pub write_record : ℕ → Command → Storage → Storage
  unfolding sync frame
  write_record now command st =
      let synced = sync now st.sync_policy (write_all (frame command) st) in
      record synced { current_size = synced.current_size + (length (serialize crc command) + 8) }

  unfoldable pub append : ℕ → Command → Storage → Storage
  unfolding rotate_segment write_record
  append now command st =
      let bytes = serialize crc command in
      write_record now command (
        if ltb wal_segment_size (st.current_size + length bytes + 8) then rotate_segment st else st)

  push : Option (Command × ℕ) → List Command → List Command
  push none commands = commands
  push (some (command, _)) commands = command ∷ commands

  -- The `while` loop over one file; `bytes` is `bytes[position..]`. A round takes 8 bytes or more,
  -- so the length of the file is fuel enough.
  unfoldable pub load_segment : ℕ → List ℕ → Result (List Command)
  unfolding push
  load_segment zero bytes = ok []
  load_segment (suc fuel) bytes = if ltb (length bytes) 8 then ok [] else do
    checksum ← read_be32 bytes 0
    payload_len ← read_be32 bytes 4
    if ltb (length bytes) (8 + payload_len) then ok [] else do
      payload ← slice bytes 8 (8 + payload_len)
      if not (crc.hash payload == checksum) then ok [] else do
        decoded ← deserialize crc payload
        later ← load_segment fuel (drop (8 + payload_len) bytes)
        ok (push decoded later)

  -- A segment that is missing is skipped.
  abbrev pub load_file : Option File → Result (List Command)
  load_file none = ok []
  load_file (some f) = load_segment (length f.content) f.content

  -- `for segment in 0..=last`
  unfoldable pub load_upto : Files → ℕ → Result (List Command)
  unfolding load_segment
  load_upto files zero = load_file (files 0)
  load_upto files (suc last) = do
    commands ← load_upto files last
    more ← load_file (files (suc last))
    ok (commands ++ more)

  unfoldable pub load : Storage → Result (List Command)
  unfolding load_upto
  load st = load_upto st.files st.current_segment
