-- ===== src/SessionLog/Rotation.antt =====
-- `rotate_log_file` on a file, when the operating system grants each call in full.
use hytch.Common.{
  ℕ, ◌+◌, ◌-◌, ◌≤◌, ◌<◌, ◌≡◌, refl, ap, ◌∙◌, subst, ◌⊎◌, inl, inr, true, false, none, List, length,
  get_or, take, drop, min, arith, ltb, length-drop, drop-drop, drop-nil, replicate, take-length_le,
  append-nil, lt→ltb,
}
use hytch.Common.Results.{ok}
use hytch.SessionLog.{
  escape_lookback, is_continuation, safe_trim_start, Answers, trim_tail, trim_file, trim_if_needed,
  rotate_log_file,
}
use hytch.SessionLog.Disk.{File, seek_end, ◌>>=◌, >>=-ok, full, done, written}
use hytch.SessionLog.Shift.{AtEscape-drop, AtCharacter-drop}
use native.Mathlib.Decide.{dec_lt}
use hytch.SessionLog.Cut.{AtEscape, AtCharacter, safe_trim_start_lem}

-- Every call succeeds, and the read returns all that is asked for.
abbrev pub all_granted : Answers
all_granted = record {
  size_seek = true;
  read_seek = true;
  reading = full;
  truncation = true;
  start_seek = true;
  writing = none;
  final_seek = true;
}

-- The file that a rotation leaves: the content from byte `k` on, and the handle at its end.
abbrev pub tail_file : ℕ → List ℕ → File
tail_file k content = record { content = drop k content; pos = length (drop k content) }

abbrev pub lookback_of : ℕ → List ℕ → ℕ
lookback_of max_size content = min escape_lookback (length content - max_size)

abbrev pub read_start_of : ℕ → List ℕ → ℕ
read_start_of max_size content = length content - max_size - lookback_of max_size content

-- Where the file is cut.
abbrev pub cut_of : ℕ → List ℕ → ℕ
cut_of max_size content =
    read_start_of max_size content
    + safe_trim_start (drop (read_start_of max_size content) content) (lookback_of max_size content)

pub rotate_small :
    (max_size : ℕ) (file : File)
    → length file.content ≤ max_size
    → rotate_log_file all_granted max_size file ≡ (ok tt, record file { pos = length file.content })
unfolding rotate_log_file
rotate_small max_size file small = ground arith

trim_tail_ok :
    (lookback : ℕ) (buf : List ℕ)
    → lookback ≤ length buf
    → trim_tail lookback buf ≡ done (drop (safe_trim_start buf lookback) buf)
unfolding trim_tail
trim_tail_ok lookback buf h =
    let enough : ltb (length buf) lookback ≡ false = ground arith in rw enough

-- Writing to a file that was cut to nothing.
written_fresh :
    (n : ℕ) (bytes : List ℕ)
    → written bytes (record { content = replicate (0 - n) 0; pos = 0 })
      ≡ record { content = bytes; pos = length bytes }
written_fresh n bytes =
    let e : 0 - n ≡ 0 = omega arith in
    let z : 0 + length bytes ≡ length bytes = omega arith in rw (e, z, drop-nil, append-nil)

module _ (max_size : ℕ) (file : File) (large : max_size < length file.content) where
  abbrev content : List ℕ
  content = file.content

  read_all :
      take (max_size + lookback_of max_size content) (drop (read_start_of max_size content) content)
      ≡ drop (read_start_of max_size content) content
  read_all =
      take-length_le _ (drop (read_start_of max_size content) content)
        (omega (arith, length-drop (read_start_of max_size content) content))

  long : lookback_of max_size content ≤ length (drop (read_start_of max_size content) content)
  long = omega (arith, length-drop (read_start_of max_size content) content)

  trim_file_lem :
      (f : File)
      → f.content ≡ content
      → trim_file all_granted max_size (length content) f
        ≡ (ok tt, tail_file (cut_of max_size content) content)
  unfolding trim_file
  trim_file_lem f e =
      rw (e, read_all, trim_tail_ok _ (drop (read_start_of max_size content) content) long)
        (ap (λ w. (ok tt, w))
          (written_fresh (length content)
              (drop safe (drop (read_start_of max_size content) content))
            ∙ ap (λ c. record { content = c; pos = length c })
                (drop-drop safe (read_start_of max_size content) content)))
    where
      safe : ℕ
      safe =
          safe_trim_start (drop (read_start_of max_size content) content)
            (lookback_of max_size content)

  -- A file above the limit is replaced by its tail from the cut on.
  pub rotate_large :
      rotate_log_file all_granted max_size file
      ≡ (ok tt, tail_file (cut_of max_size content) content)
  unfolding rotate_log_file
  rotate_large =
      let over : ltb max_size (length content) ≡ true = lt→ltb max_size (length content) large in
      >>=-ok (trim_if_needed all_granted max_size (length content))
        (λ u. seek_end true >>= λ end. done tt) (record file { pos = length content })
        (tail_file (cut_of max_size content) content) tt
        (rw over (trim_file_lem (record file { pos = length content }) refl))

  -- The cut in the whole file is the cut in the part that is read.
  cut_place :
      AtEscape content (length content - max_size) (cut_of max_size content)
      ⊎ AtCharacter content (length content - max_size) (cut_of max_size content)
  cut_place = elim (safe_trim_start_lem (drop rs content) (lookback_of max_size content) long) [
    | inl r ↦ inl (
        subst (λ c. AtEscape content c (cut_of max_size content)) place
          (AtEscape-drop content rs (lookback_of max_size content) _ r))
    | inr r ↦ inr (
        subst (λ c. AtCharacter content c (cut_of max_size content)) place
          (AtCharacter-drop content rs (lookback_of max_size content) _ (omega arith) from r))
  ]
    where
      rs : ℕ
      rs = read_start_of max_size content

      place : rs + lookback_of max_size content ≡ length content - max_size
      place = omega arith

      from : (rs ≡ 0) ⊎ (escape_lookback ≤ lookback_of max_size content)
      from = elim (dec_lt (length content - max_size) escape_lookback) [
        | yes p ↦ inl (omega arith)
        | no p ↦ inr (omega arith)
      ]

-- A granted rotation of a file above the limit, in the words of the code's own tests.
pub rotate_log_file_lem :
    (max_size : ℕ) (file : File)
    → max_size < length file.content
    → (k : ℕ) × (rotate_log_file all_granted max_size file ≡ (ok tt, tail_file k file.content))
      × (AtEscape file.content (length file.content - max_size) k
          ⊎ AtCharacter file.content (length file.content - max_size) k)
rotate_log_file_lem max_size file large =
    (cut_of max_size file.content, rotate_large max_size file large, cut_place max_size file large)

-- No four bytes in a row continue a character, as in any UTF-8 text.
abbrev pub NoLongRun : List ℕ → Type 0
NoLongRun bytes =
    (i : ℕ) → ¬ ((j : ℕ) → i ≤ j → j < i + 4 → is_continuation (get_or bytes j 0) ≡ true)

cut_bounds :
    (bytes : List ℕ) (cut k : ℕ)
    → AtEscape bytes cut k ⊎ AtCharacter bytes cut k
    → cut ≤ length bytes
    → (cut ≤ k + escape_lookback) × (k ≤ length bytes)
cut_bounds bytes cut k (inl r) fits = (r.near, omega (arith, r.before))
cut_bounds bytes cut k (inr r) fits = (omega (arith, r.behind), r.inside)

cut_text :
    (bytes : List ℕ) (cut k : ℕ)
    → AtEscape bytes cut k ⊎ AtCharacter bytes cut k
    → NoLongRun bytes
    → k ≤ cut + 3
cut_text bytes cut k (inl r) text = omega (arith, r.before)
cut_text bytes cut k (inr r) text = elim (dec_lt k (cut + 4)) [
  | yes p ↦ omega arith
  | no p ↦ absurd (text cut (λ j lo hi. r.skipped j lo (omega arith)))
]

-- Any granted rotation keeps an end of the file: all of it, unless the file is above the limit, and at
-- most 64 bytes more than the limit.
pub rotate_log_file_keeps :
    (max_size : ℕ) (file : File)
    → (k : ℕ) × (rotate_log_file all_granted max_size file ≡ (ok tt, tail_file k file.content))
      × (k ≤ length file.content)
      × ((k ≡ 0) ⊎ (max_size < length file.content))
      × (length (drop k file.content) ≤ max_size + escape_lookback)
rotate_log_file_keeps max_size file = elim (dec_lt max_size (length file.content)) [
  | yes large ↦
      let (k, e, place) = rotate_log_file_lem max_size file large in
      let (near, inside) = cut_bounds file.content _ k place (omega arith) in
      (k, e, inside, inr large, omega (arith, length-drop k file.content))
  | no small ↦ (0, rotate_small max_size file (omega arith), omega arith, inl refl, omega arith)
]

-- A granted rotation of a file above the limit, in which no four bytes in a row continue a character
-- (as in UTF-8 text), leaves an end of it that is at most 3 bytes shorter than the limit.
pub rotate_log_file_text :
    (max_size : ℕ) (file : File)
    → max_size < length file.content
    → NoLongRun file.content
    → (k : ℕ) × (rotate_log_file all_granted max_size file ≡ (ok tt, tail_file k file.content))
      × (max_size ≤ length (drop k file.content) + 3)
rotate_log_file_text max_size file large text =
    let (k, e, place) = rotate_log_file_lem max_size file large in
    let (near, inside) = cut_bounds file.content _ k place (omega arith) in
    (k, e, omega (arith, cut_text file.content _ k place text, length-drop k file.content))
