-- ===== src/Tests/Log.antt =====
-- Commands and the write-ahead log, with a sum of the bytes as the checksum.
use arch_db.Prelude.{
  ℕ, zero, ◌+◌, ◌%◌, ◌<◌, ◌≤◌, ◌≡◌, ◌↔◌, refl, none, some, List, [], ◌∷◌, ◌++◌, arith, length, take,
  if◌then◌else◌, leb, ok, panic,
}
use arch_db.Prelude.Str.{codes}
use arch_db.Prelude.Bytes.{u32_mod, IsBytes, slice}
use arch_db.Prelude.Utf8.{is_utf8, from_utf8}
use arch_db.Command.{Command, Crc32, set, del, serialize, deserialize}
use arch_db.Command.Codec.{IsRecord, deserialize-serialize}
use arch_db.Command.Soundness.{Accepts, deserialize_sound}
use arch_db.Command.Damage.{IsCutSet, deserialize-eq-panic_iff}
use arch_db.Storage.{
  Storage, Files, always, never, every_seconds, new, append, load, load_segment, checkpoint,
  wal_segment_size, current_file,
}
use arch_db.Storage.Frames.{IsLogged, AllLogged, frames}
use arch_db.Storage.Recovery.{append_all, commands_of, load-append_all}
use arch_db.Storage.Torn.{IsWholeCount, load_segment-take}
use arch_db.Storage.Reopen.{load_after_restart, checkpoint_files, load_after_checkpoint}
use arch_db.Storage.Bounds.{IsSized, append-IsSized, append-durable}

abbrev byte_sum : List ℕ → ℕ
byte_sum [] = zero
byte_sum (b ∷ bytes) = b + byte_sum bytes

abbrev crc : Crc32
crc = record { hash = λ bytes. byte_sum bytes % u32_mod; hash_lt = λ bytes. omega arith }

abbrev set_command : Command
set_command = set (codes "key") (codes "value")

abbrev del_command : Command
del_command = del (codes "key")

set_command-IsRecord : IsRecord set_command
unfolding is_utf8
set_command-IsRecord =
    (record { utf8 = refl; short = omega arith }, record { utf8 = refl; short = omega arith })

del_command-IsRecord : IsRecord del_command
unfolding is_utf8
del_command-IsRecord = record { utf8 = refl; short = omega arith }

set_command-IsLogged : IsLogged crc set_command
unfolding serialize
set_command-IsLogged = record { is_record = set_command-IsRecord; short = omega arith }

del_command-IsLogged : IsLogged crc del_command
unfolding serialize
del_command-IsLogged = record { is_record = del_command-IsRecord; short = omega arith }

deserialize-serialize_example :
    deserialize crc (serialize crc set_command ++ 1 ∷ 2 ∷ [])
    ≡ ok (some (set_command, length (serialize crc set_command)))
deserialize-serialize_example =
    deserialize-serialize crc set_command (1 ∷ 2 ∷ []) set_command-IsRecord

abbrev del_bytes : List ℕ
del_bytes = 0 ∷ 0 ∷ 0 ∷ 110 ∷ 2 ∷ 0 ∷ 0 ∷ 0 ∷ 1 ∷ 107 ∷ 255 ∷ []

del_bytes-IsBytes : IsBytes del_bytes
del_bytes-IsBytes = ground arith

del_bytes_read : deserialize crc del_bytes ≡ ok (some (del (codes "k"), 10))
unfolding deserialize slice from_utf8 is_utf8
del_bytes_read = refl

deserialize_sound_example : Accepts crc del_bytes (del (codes "k")) 10
deserialize_sound_example =
    deserialize_sound crc del_bytes (del (codes "k")) 10 del_bytes-IsBytes del_bytes_read

abbrev cut_bytes : List ℕ
cut_bytes = 0 ∷ 0 ∷ 0 ∷ 0 ∷ 1 ∷ 0 ∷ 0 ∷ 0 ∷ 1 ∷ 0 ∷ []

deserialize-eq-panic_iff_example : (deserialize crc cut_bytes ≡ panic) ↔ IsCutSet cut_bytes
deserialize-eq-panic_iff_example = deserialize-eq-panic_iff crc cut_bytes

abbrev no_files : Files
no_files s = none

abbrev fresh : Storage
fresh = new 2 0 (every_seconds 5) no_files

abbrev calls : List (ℕ × Command)
calls = (1, set_command) ∷ (9, del_command) ∷ []

calls-AllLogged : AllLogged crc (commands_of calls)
calls-AllLogged = (set_command-IsLogged, (del_command-IsLogged, tt))

load-append_all_example :
    load crc (append_all crc calls (new 2 0 always no_files)) ≡ ok (set_command ∷ del_command ∷ [])
load-append_all_example = load-append_all crc 1 0 always no_files calls (λ s. refl) calls-AllLogged

load_segment-take_example :
    (m : ℕ) × (load_segment crc 40 (take 40 (frames crc (set_command ∷ del_command ∷ [])))
      ≡ ok (take m (set_command ∷ del_command ∷ [])))
    × IsWholeCount crc (set_command ∷ del_command ∷ []) 40 m
load_segment-take_example =
    load_segment-take crc (set_command ∷ del_command ∷ []) 40 40 calls-AllLogged (omega arith)

calls_segment : (append_all crc calls (new 2 0 never no_files)).current_segment < 3
unfolding append_all new append serialize
calls_segment = omega arith

load_after_restart_example :
    load crc (new 3 20 always (append_all crc calls (new 2 0 never no_files)).files)
    ≡ ok (set_command ∷ del_command ∷ [])
load_after_restart_example =
    load_after_restart crc 1 0 never no_files calls 3 20 always (λ s. refl) calls-AllLogged
      calls_segment

-- A log in segment 3.
abbrev rotated : Storage
rotated = record {
  files = λ s. if leb s 3 then some (record { content = 1 ∷ 2 ∷ []; durable = 0 }) else none;
  current_segment = 3;
  current_size = 2;
  sync_policy = always;
  last_sync = 0;
  last_checkpointed_segment = 0;
}

checkpoint_files_example : (checkpoint rotated).files 2 ≡ none
checkpoint_files_example = checkpoint_files rotated 2

load_after_checkpoint_example :
    load crc (new 9 5 always (append_all crc calls (checkpoint rotated)).files) ≡ ok []
load_after_checkpoint_example =
    load_after_checkpoint crc 9 5 always rotated calls (omega arith) refl

set_command_fits : length (serialize crc set_command) + 8 ≤ wal_segment_size
unfolding serialize
set_command_fits = omega arith

append-IsSized_example : IsSized (append crc 4 set_command rotated)
append-IsSized_example =
    append-IsSized crc 4 set_command rotated set_command_fits refl
      (record { exact = refl; bounded = omega arith })

append-durable_example :
    (current_file (append crc 4 set_command rotated)).durable
    ≡ length (current_file (append crc 4 set_command rotated)).content
append-durable_example = append-durable crc 4 set_command rotated refl
