-- ===== src/SessionLog/Tests.antt =====
-- Runs of the log, and its theorems at concrete logs.
use hytch.Common.{
  AreBytes, ℕ, zero, suc, ◌≡◌, refl, true, false, none, List, [], ◌∷◌, ◌++◌, get_or, map, arith,
}
use hytch.Common.Results.{ok}
use hytch.SessionLog.{
  esc, any_final, escape_sequence_terminated, rposition_esc, skip_continuation, safe_trim_start,
  rotate_log_file, trim_file, trim_tail, append, open_log, log_writer, SessionLog, is_continuation,
}
use hytch.SessionLog.Disk.{File}
use hytch.SessionLog.Place.{IsCut, safe_trim_start-IsCut, rotate_log_file-IsCut}
use hytch.SessionLog.Rotation.{all_granted, tail_file, NoLongRun}
use hytch.SessionLog.History.{Synced, granted_chunk, empty_log, log_keeps, append_exceeds}

-- `a`, then the sequence that clears the screen, then `b`.
abbrev output : List ℕ
output = b'a' ∷ esc ∷ b'[' ∷ b'2' ∷ b'J' ∷ b'b' ∷ []

abbrev output_file : File
output_file = record { content = output; pos = 6 }

-- A cut at three bytes would split the sequence.
cut_in_sequence : rotate_log_file all_granted 3 output_file ≡ (ok tt, tail_file 1 output)
unfolding rotate_log_file trim_file trim_tail safe_trim_start rposition_esc
    escape_sequence_terminated any_final
cut_in_sequence = refl

-- A cut at one byte lies behind the sequence.
cut_behind_sequence : rotate_log_file all_granted 1 output_file ≡ (ok tt, tail_file 5 output)
unfolding rotate_log_file trim_file trim_tail safe_trim_start rposition_esc
    escape_sequence_terminated any_final skip_continuation
cut_behind_sequence = refl

-- A cut in the middle of a three-byte character moves to the next one.
cut_in_character : safe_trim_start (0xe2 ∷ 0x82 ∷ 0xac ∷ b'x' ∷ []) 1 ≡ 3
unfolding safe_trim_start rposition_esc skip_continuation
cut_in_character = refl

output_bytes : AreBytes output
output_bytes =
    (omega arith, (omega arith, (omega arith, (omega arith, (omega arith, (omega arith, tt))))))

safe_trim_start-IsCut_example : IsCut output 3 (safe_trim_start output 3)
safe_trim_start-IsCut_example = safe_trim_start-IsCut output 3 (omega arith) output_bytes

rotate_log_file-IsCut_example :
    (k : ℕ) × (rotate_log_file all_granted 3 output_file ≡ (ok tt, tail_file k output))
    × IsCut output 3 k
rotate_log_file-IsCut_example = rotate_log_file-IsCut 3 output_file (omega arith) output_bytes

log_keeps_example :
    (log : SessionLog) × (open_log all_granted true output 8 ≡ ok log)
    × Synced
        (log_writer log (map granted_chunk ((b'c' ∷ b'd' ∷ []) ∷ (b'e' ∷ []) ∷ [])))
        (output ++ (b'c' ∷ b'd' ∷ b'e' ∷ []))
    × ((log_writer log (map granted_chunk ((b'c' ∷ b'd' ∷ []) ∷ (b'e' ∷ []) ∷ []))).max_size ≡ 8)
log_keeps_example = log_keeps output 8 ((b'c' ∷ b'd' ∷ []) ∷ (b'e' ∷ []) ∷ [])

append_exceeds_example : append none all_granted true (empty_log 2) (esc ∷ b'[' ∷ b'm' ∷ []) ≡ (
  ok tt,
  record {
    file = record { content = esc ∷ b'[' ∷ b'm' ∷ []; pos = 3 };
    max_size = 2;
    current_size = 3;
  },
)
append_exceeds_example = append_exceeds (b'[' ∷ b'm' ∷ [])

no_continuation : (i : ℕ) → is_continuation (get_or output i 0) ≡ false
no_continuation zero = refl
no_continuation (suc zero) = refl
no_continuation (suc (suc zero)) = refl
no_continuation (suc (suc (suc zero))) = refl
no_continuation (suc (suc (suc (suc zero)))) = refl
no_continuation (suc (suc (suc (suc (suc zero))))) = refl
no_continuation (suc (suc (suc (suc (suc (suc i)))))) = refl

no_long_run : NoLongRun output
no_long_run i all = cc (no_continuation i, all i (omega arith) (omega arith))
