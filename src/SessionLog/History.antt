-- ===== src/SessionLog/History.antt =====
-- The log against all the output that it was given, when every call is granted.
use hytch.Common.{
  ℕ, map, suc, ◌+◌, ◌-◌, ◌≤◌, ◌<◌, ◌≡◌, refl, sym, ap, ◌∙◌, ◌⊎◌, inl, inr, true, none, List, [],
  ◌∷◌, ◌++◌, length, drop, concat, arith, length-append, length-drop, drop-drop, drop-append_le,
  take-length_le, drop-length_le, append-nil, append_assoc,
}
use hytch.Common.Results.{ok}
use hytch.SessionLog.{
  esc, SessionLog, escape_lookback, append, append_rotate, open_log, rotate_log_file, Chunk,
  log_writer, safe_trim_start, rposition_esc, escape_sequence_terminated,
}
use hytch.SessionLog.Disk.{File, written}
use hytch.SessionLog.Rotation.{all_granted, cut_of, rotate_large, tail_file, rotate_log_file_keeps}
use native.Mathlib.Decide.{dec_lt}

-- The file is an end of the history, all of it if that is within the limit, and at most 64 bytes above
-- the limit; the handle is at its end, and the size is known.
pub record Synced (log : SessionLog) (history : List ℕ) : Type 0 where
  pub at_end : log.file.pos ≡ length log.file.content
  pub size : log.current_size ≡ length log.file.content
  pub dropped : ℕ
  pub inside : dropped ≤ length history
  pub is_end : log.file.content ≡ drop dropped history
  pub whole : (dropped ≡ 0) ⊎ (log.max_size < length history)
  pub bounded : length log.file.content ≤ log.max_size + escape_lookback

-- A write at the end of the file.
written_end :
    (file : File) (bytes : List ℕ)
    → file.pos ≡ length file.content
    → written bytes file
      ≡ record { content = file.content ++ bytes; pos = length (file.content ++ bytes) }
written_end file bytes e =
    let gap : length file.content - length file.content ≡ 0 = omega arith in
    rw (
      e,
      gap,
      take-length_le (length file.content) file.content (omega arith),
      drop-length_le (length file.content + length bytes) file.content (omega arith),
      append-nil,
      length-append,
    )

pub open_log-Synced :
    (content : List ℕ) (max_size : ℕ)
    → (log : SessionLog) × (open_log all_granted true content max_size ≡ ok log)
      × Synced log content
      × (log.max_size ≡ max_size)
unfolding open_log
open_log-Synced content max_size =
    let (k, e, inside, small, big) =
      rotate_log_file_keeps max_size (record { content = content; pos = 0 }) in
    (
      record {
        file = tail_file k content;
        max_size = max_size;
        current_size = length (drop k content);
      },
      ground (arith, e),
      record {
        at_end = refl;
        size = refl;
        dropped = k;
        inside = inside;
        is_end = refl;
        whole = small;
        bounded = big;
      },
      refl,
    )

abbrev extended : SessionLog → List ℕ → File
extended log bytes = record {
  content = log.file.content ++ bytes;
  pos = length (log.file.content ++ bytes);
}

append_lem :
    (log : SessionLog) (bytes : List ℕ)
    → log.file.pos ≡ length log.file.content
    → append none all_granted true log bytes
      ≡ append_rotate all_granted true log (log.current_size + length bytes) (extended log bytes)
unfolding append
append_lem log bytes e = rw (written_end log.file bytes e)

append_rotate_small :
    (log : SessionLog) (size : ℕ) (file : File)
    → size ≤ log.max_size
    → append_rotate all_granted true log size file
      ≡ (ok tt, record log { file = file; current_size = size })
unfolding append_rotate
append_rotate_small log size file h = ground arith

append_rotate_large :
    (log : SessionLog) (size : ℕ) (file rotated : File)
    → log.max_size < size
    → rotate_log_file all_granted log.max_size file ≡ (ok tt, rotated)
    → append_rotate all_granted true log size file
      ≡ (ok tt, record log { file = rotated; current_size = length rotated.content })
unfolding append_rotate
append_rotate_large log size file rotated h e = ground arith

-- The content with the new bytes is the history with them, less what is dropped.
extended_end :
    (log : SessionLog) (history bytes : List ℕ)
    → (s : Synced log history) → log.file.content ++ bytes ≡ drop s.dropped (history ++ bytes)
extended_end log history bytes s =
    ap (λ c. c ++ bytes) s.is_end ∙ sym (drop-append_le s.dropped history bytes s.inside)

-- What one granted `append` gives.
abbrev Appended : SessionLog → List ℕ → List ℕ → Type 0
Appended log history bytes =
    (log' : SessionLog) × (append none all_granted true log bytes ≡ (ok tt, log'))
    × Synced log' (history ++ bytes)
    × (log'.max_size ≡ log.max_size)

append_small :
    (log : SessionLog) (history bytes : List ℕ)
    → Synced log history
    → log.current_size + length bytes ≤ log.max_size
    → Appended log history bytes
append_small log history bytes s small =
    let len = length-append log.file.content bytes in
    (
      record log { file = extended log bytes; current_size = log.current_size + length bytes },
      append_lem log bytes s.at_end ∙ append_rotate_small log _ (extended log bytes) small,
      record {
        at_end = refl;
        size = omega (arith, s.size);
        dropped = s.dropped;
        inside = omega (arith, s.inside, length-append history bytes);
        is_end = extended_end log history bytes s;
        whole = still_whole s.whole;
        bounded = omega (arith, s.size);
      },
      refl,
    )
  where
    still_whole :
        (s.dropped ≡ 0) ⊎ (log.max_size < length history)
        → (s.dropped ≡ 0) ⊎ (log.max_size < length (history ++ bytes))
    still_whole (inl e) = inl e
    still_whole (inr h) = inr (omega (arith, length-append history bytes))

append_large :
    (log : SessionLog) (history bytes : List ℕ)
    → Synced log history
    → log.max_size < log.current_size + length bytes
    → Appended log history bytes
append_large log history bytes s large =
    let (k, e, inside, small, big) = rotate_log_file_keeps log.max_size (extended log bytes) in
    let ends = extended_end log history bytes s in
    (
      record log {
        file = tail_file k (log.file.content ++ bytes);
        current_size = length (drop k (log.file.content ++ bytes));
      },
      append_lem log bytes s.at_end
          ∙ append_rotate_large log _ (extended log bytes) (tail_file k (log.file.content ++ bytes))
              large e,
      record {
        at_end = refl;
        size = refl;
        dropped = s.dropped + k;
        inside = omega (
          arith,
          inside,
          s.inside,
          ap length ends,
          length-drop s.dropped (history ++ bytes),
          length-append history bytes,
        );
        is_end = ap (drop k) ends ∙ drop-drop k s.dropped (history ++ bytes);
        whole = inr (
            omega (
              arith,
              s.size,
              ap length s.is_end,
              length-drop s.dropped history,
              length-append history bytes,
            ));
        bounded = big;
      },
      refl,
    )

-- A granted `append` succeeds and keeps the log in step with the history.
append-Synced :
    (log : SessionLog) (history bytes : List ℕ) → Synced log history → Appended log history bytes
append-Synced log history bytes s = elim (dec_lt log.max_size (log.current_size + length bytes)) [
  | yes large ↦ append_large log history bytes s large
  | no small ↦ append_small log history bytes s (omega arith)
]

abbrev pub granted_chunk : List ℕ → Chunk
granted_chunk bytes = record {
  bytes = bytes;
  writing = none;
  rotation = all_granted;
  metadata = true;
}

log_writer-Synced :
    (chunks : List (List ℕ)) (log : SessionLog) (history : List ℕ)
    → Synced log history
    → Synced (log_writer log (map granted_chunk chunks)) (history ++ concat chunks)
      × ((log_writer log (map granted_chunk chunks)).max_size ≡ log.max_size)
unfolding log_writer
log_writer-Synced [] log history s = (rw append-nil s, refl)
log_writer-Synced (c ∷ cs) log history s =
    let (log', e, s', same) = append-Synced log history c s in
    let (t, same') = log_writer-Synced cs log' (history ++ c) s' in
    let on : log_writer log (map granted_chunk (c ∷ cs)) ≡ log_writer log' (map granted_chunk cs) =
      ground arith in
    rw (on, ← append_assoc) (t, same' ∙ same)

-- The log of a session, opened on what an earlier one left and given any chunks of output while every
-- call is granted: the file is an end of all of it, all of it as long as that is within the limit, and
-- never more than 64 bytes above the limit; the recorded size is the size of the file.
pub log_keeps :
    (content : List ℕ) (max_size : ℕ) (chunks : List (List ℕ))
    → (log : SessionLog) × (open_log all_granted true content max_size ≡ ok log)
      × Synced (log_writer log (map granted_chunk chunks)) (content ++ concat chunks)
      × ((log_writer log (map granted_chunk chunks)).max_size ≡ max_size)
log_keeps content max_size chunks =
    let (log, e, s, same) = open_log-Synced content max_size in
    let (t, same') = log_writer-Synced chunks log content s in (log, e, t, same' ∙ same)

-- A session's first output: nothing in the log, and a limit of `max_size` bytes.
abbrev pub empty_log : ℕ → SessionLog
empty_log max_size = record {
  file = record { content = []; pos = 0 };
  max_size = max_size;
  current_size = 0;
}

uncut : (tail : List ℕ) → cut_of (length tail) (esc ∷ tail) ≡ 0
unfolding safe_trim_start rposition_esc escape_sequence_terminated
uncut tail = let over : length (esc ∷ tail) - length tail ≡ 1 = omega arith in rw over

-- A log may exceed its limit after an `append`: when an `ESC` and as many bytes as the limit are
-- appended to an empty log, all of it stays in the file, one byte more than the limit.
pub append_exceeds :
    (tail : List ℕ)
    → let log = empty_log (length tail) in
      append none all_granted true log (esc ∷ tail) ≡ (
        ok tt,
        record log {
          file = record { content = esc ∷ tail; pos = log.max_size + 1 };
          current_size = log.max_size + 1;
        },
      )
append_exceeds tail =
    let log = empty_log (length tail) in
    let large : length tail < length (esc ∷ tail) = omega arith in
    let one_more : length tail + 1 ≡ suc (length tail) = omega arith in
    append_lem log (esc ∷ tail) refl
    ∙ append_rotate_large log (0 + length (esc ∷ tail)) (extended log (esc ∷ tail))
        (tail_file 0 (esc ∷ tail)) (omega arith)
        (rotate_large (length tail) (extended log (esc ∷ tail)) large
          ∙ ap (λ k. (ok tt, tail_file k (esc ∷ tail))) (uncut tail))
    ∙ rw one_more
