-- ===== src/SessionLog.antt =====
-- crates/daemon/src/session_log.rs: the on-disk log and its rotation.
pub mod Disk
pub mod Scan
pub mod Cut
pub mod Shift
pub mod Rotation
pub mod Sequence
pub mod Place
pub mod History
mod Tests
use hytch.Common.{
  ℕ, ◌+◌, ◌-◌, ◌≤◌, Bool, true, false, Option, none, some, List, [], ◌∷◌, length, take, drop, min,
  bit_and, ltb, leb, ◌==◌, if◌then◌else◌, ◌&&◌,
}
use hytch.Common.Results.{Result, ok, err}
use Disk.{
  File, Fault, io_error, panicked, ReadAnswer, M, ◌>>=◌, ◌>>◌, done, fault, seek_end, seek_start,
  read, set_len, write_all,
}

abbrev pub escape_lookback : ℕ
escape_lookback = 64

abbrev pub esc : ℕ
esc = 0x1b

-- The byte that ends a CSI sequence.
abbrev pub is_final_byte : ℕ → Bool
is_final_byte b = leb 0x40 b && leb b 0x7e

-- `iter().any(..)` for the final byte.
pub any_final : List ℕ → Bool
any_final [] = false
any_final (b ∷ bs) = if is_final_byte b then true else any_final bs

-- The sequence begins with its `ESC`.
pub escape_sequence_terminated : List ℕ → Bool
escape_sequence_terminated [] = false
escape_sequence_terminated (e ∷ []) = false
escape_sequence_terminated (e ∷ b ∷ rest) = if b == b'[' then any_final rest else true

-- `iter().rposition(|&b| b == 0x1b)`.
pub rposition_esc : List ℕ → Option ℕ
rposition_esc [] = none
rposition_esc (b ∷ bs) = elim (rposition_esc bs) [
  | some i ↦ some (i + 1)
  | none ↦ if b == esc then some 0 else none
]

abbrev pub is_continuation : ℕ → Bool
is_continuation b = bit_and b 0xc0 == 0x80

-- The `while` loop over the bytes from `start` on.
pub skip_continuation : List ℕ → ℕ → ℕ
skip_continuation [] start = start
skip_continuation (b ∷ bs) start =
    if is_continuation b then skip_continuation bs (start + 1) else start

pub safe_trim_start : List ℕ → ℕ → ℕ
safe_trim_start buf naive_cut =
    let lookback_start = naive_cut - escape_lookback in
    let window = drop lookback_start (take naive_cut buf) in
    let forward = skip_continuation (drop naive_cut buf) naive_cut in
    elim (rposition_esc window) [
      | some rel ↦
          if escape_sequence_terminated (drop rel window) then forward else lookback_start + rel
      | none ↦ forward
    ]

-- What the operating system answers to the calls of one rotation. `written` is `none` for success.
pub record Answers : Type 0 where
  pub size_seek : Bool
  pub read_seek : Bool
  pub reading : ReadAnswer
  pub truncation : Bool
  pub start_seek : Bool
  pub writing : Option ℕ
  pub final_seek : Bool

-- `safe_trim_start` slices up to `lookback`: a shorter read panics.
pub trim_tail : ℕ → List ℕ → M (List ℕ)
trim_tail lookback buf =
    if ltb (length buf) lookback
    then fault panicked
    else done (drop (safe_trim_start buf lookback) buf)

-- The rewriting of a file of `size` bytes, more than `max_size`.
pub trim_file : Answers → ℕ → ℕ → M (Unit {0})
trim_file a max_size size = do
  let naive_start = size - max_size
  let lookback = min escape_lookback naive_start
  let read_start = naive_start - lookback
  seek_start a.read_seek read_start
  buf ← read a.reading (max_size + lookback)
  tail ← trim_tail lookback buf
  set_len a.truncation 0
  seek_start a.start_seek 0
  write_all a.writing tail

abbrev pub trim_if_needed : Answers → ℕ → ℕ → M (Unit {0})
trim_if_needed a max_size size = if ltb max_size size then trim_file a max_size size else done tt

pub rotate_log_file : Answers → ℕ → M (Unit {0})
rotate_log_file a max_size = do
  size ← seek_end a.size_seek
  trim_if_needed a max_size size
  end ← seek_end a.final_seek
  done tt

pub record SessionLog : Type 0 where
  pub file : File
  pub max_size : ℕ
  pub current_size : ℕ

-- `open` on a file of the given content; `metadata` is asked after the rotation.
pub open_log : Answers → Bool → List ℕ → ℕ → Result Fault SessionLog
open_log a metadata content max_size =
    let (r, file) = rotate_log_file a max_size (record { content = content; pos = 0 }) in
    elim r [
      | ok u ↦
          if metadata
          then ok (record { file = file; max_size = max_size; current_size = length file.content })
          else err io_error
      | err e ↦ err e
    ]

-- The part of `append` after the write: `file` is the file written to.
pub append_rotate : Answers → Bool → SessionLog → ℕ → File → Result Fault (Unit {0}) × SessionLog
append_rotate a metadata log size file =
    let (r, rotated) = rotate_log_file a log.max_size file in
    if ltb log.max_size size
    then elim r [
      | ok u ↦
          if metadata
          then (ok tt, record log { file = rotated; current_size = length rotated.content })
          else (err io_error, record log { file = rotated; current_size = size })
      | err e ↦ (err e, record log { file = rotated; current_size = size })
    ]
    else (ok tt, record log { file = file; current_size = size })

-- `append`: the write's answer comes first, then those of the rotation and of `metadata`.
pub append : Option ℕ → Answers → Bool → SessionLog → List ℕ → Result Fault (Unit {0}) × SessionLog
append writing a metadata log bytes =
    let (r, file) = write_all writing bytes log.file in
    elim r [
      | ok u ↦ append_rotate a metadata log (log.current_size + length bytes) file
      | err e ↦ (err e, record log { file = file })
    ]

pub write_end_marker : Option ℕ → SessionLog → List ℕ → Result Fault (Unit {0}) × SessionLog
write_end_marker writing log marker =
    let (r, file) = write_all writing marker log.file in (r, record log { file = file })

-- A chunk that the writer thread receives, with what the operating system answers to its `append`.
pub record Chunk : Type 0 where
  pub bytes : List ℕ
  pub writing : Option ℕ
  pub rotation : Answers
  pub metadata : Bool

-- The loop of `spawn_log_writer` (crates/daemon/src/daemon.rs): an error of `append` is ignored, and a
-- panic ends the thread.
pub log_writer : SessionLog → List Chunk → SessionLog
log_writer log [] = log
log_writer log (c ∷ cs) =
    let (r, log') = append c.writing c.rotation c.metadata log c.bytes in
    let rest = log_writer log' cs in
    elim r [ err panicked ↦ log' | err io_error ↦ rest | ok u ↦ rest ]
