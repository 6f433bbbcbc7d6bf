-- ===== src/SessionLog/Place.antt =====
-- Where `safe_trim_start` and a rotation of crates/daemon/src/session_log.rs cut a log, told from its
-- bytes.
use hytch.Common.{
  ℕ, ◌+◌, ◌-◌, ◌≤◌, ◌<◌, ◌≡◌, refl, sym, ap, ◌∙◌, subst, ◌⊎◌, inl, inr, true, false, List, [], ◌∷◌,
  length, get_or, take, drop, arith, length-take, length-drop, AreBytes, get_or-byte, get_or-drop,
  get_or-take,
}
use hytch.Common.Results.{ok}
use native.Mathlib.Decide.{dec_lt}
use hytch.SessionLog.Disk.{File}
use hytch.SessionLog.{escape_sequence_terminated, safe_trim_start, rotate_log_file}
use hytch.SessionLog.Cut.{AtEscape, AtCharacter, safe_trim_start_lem}
use hytch.SessionLog.Rotation.{all_granted, tail_file, rotate_log_file_lem}
use hytch.SessionLog.Sequence.{
  IsSplit, IsWhole, BeforeSequence, BeforeCharacter, IsFinal, terminated_lem, continues,
}

module _ (buf : List ℕ) (cut : ℕ) (fits : cut ≤ length buf) (i : ℕ) (before : i < cut) where
  sequence : List ℕ
  sequence = drop i (take cut buf)

  length-sequence : length sequence ≡ cut - i
  unfolding sequence
  length-sequence = omega (arith, length-drop i (take cut buf), length-take cut buf)

  get_or-sequence : (j : ℕ) → i + j < cut → get_or sequence j 0 ≡ get_or buf (i + j) 0
  unfolding sequence
  get_or-sequence j h = get_or-drop i j (take cut buf) 0 ∙ get_or-take cut (i + j) buf 0 h

  whole : IsWhole sequence (length sequence) 0 → IsWhole buf cut i
  whole (h, inl p) = (
    omega (arith, length-sequence),
    inl (λ q. p (get_or-sequence 1 (omega (arith, length-sequence)) ∙ q)),
  )
  whole (h, inr (j, lo, hi, final)) = (
    omega (arith, length-sequence),
    inr (
      i + j,
      omega arith,
      omega (arith, length-sequence),
      subst IsFinal (get_or-sequence j (omega (arith, length-sequence))) final,
    ),
  )

  split : IsSplit sequence (length sequence) 0 → IsSplit buf cut i
  split (inl e) = inl (omega (arith, length-sequence))
  split (inr (p, none_final)) = elim (dec_lt (i + 1) cut) [
    | no q ↦ inl (omega arith)
    | yes q ↦ inr (
      sym (get_or-sequence 1 q) ∙ p,
      λ j lo hi final.
          let same : i + (j - i) ≡ j = omega arith in
          none_final (j - i) (omega arith) (omega (arith, length-sequence)) (
            subst IsFinal
              (sym (get_or-sequence (j - i) (omega arith) ∙ ap (λ k. get_or buf k 0) same)) final),
    )
  ]

  by_test :
      ((escape_sequence_terminated sequence ≡ true) × IsWhole buf cut i)
      ⊎ ((escape_sequence_terminated sequence ≡ false) × IsSplit buf cut i)
  by_test = go sequence refl
    where
      go :
          (seq : List ℕ)
          → sequence ≡ seq
          → ((escape_sequence_terminated sequence ≡ true) × IsWhole buf cut i)
            ⊎ ((escape_sequence_terminated sequence ≡ false) × IsSplit buf cut i)
      go [] e = absurd (let h = ap length e in omega (arith, length-sequence))
      go (x ∷ seq) e = elim (terminated_lem x seq) [
        | inl (t, w) ↦ inl (
          ap escape_sequence_terminated e ∙ t,
          whole (subst (λ l. IsWhole l (length l) 0) (sym e) w),
        )
        | inr (t, w) ↦ inr (
          ap escape_sequence_terminated e ∙ t,
          split (subst (λ l. IsSplit l (length l) 0) (sym e) w),
        )
      ]

abbrev pub IsCut : List ℕ → ℕ → ℕ → Type 0
IsCut buf cut s = BeforeSequence buf cut s ⊎ BeforeCharacter buf cut s

place-IsCut :
    (buf : List ℕ) (cut s : ℕ)
    → cut ≤ length buf
    → AreBytes buf
    → AtEscape buf cut s ⊎ AtCharacter buf cut s
    → IsCut buf cut s
unfolding sequence
place-IsCut buf cut s fits bytes (inl r) = elim (by_test buf cut fits s r.before) [
  | inl (t, w) ↦ absurd (let x : true ≡ false = sym t ∙ r.opened in cc)
  | inr (t, w) ↦ inl (record { near = r.near; before = r.before; is_esc = r.is_esc; is_split = w })
]
place-IsCut buf cut s fits bytes (inr r) = inr (record {
  behind = r.behind;
  inside = r.inside;
  skipped = λ i lo hi. elim (continues (get_or buf i 0) (get_or-byte buf i bytes)) [
    | inl (e, p) ↦ p
    | inr (e, p) ↦ absurd (let x : true ≡ false = sym (r.skipped i lo hi) ∙ e in cc)
  ];
  starts = elim r.start [
    | inl e ↦ inl e
    | inr e ↦ elim (continues (get_or buf s 0) (get_or-byte buf s bytes)) [
      | inl (e', p) ↦ absurd (let x : true ≡ false = sym e' ∙ e in cc)
      | inr (e', p) ↦ inr p
    ]
  ];
  is_whole = λ i near lt at_i latest. elim (by_test buf cut fits i lt) [
    | inl (t, w) ↦ w
    | inr (t, w) ↦ absurd (let x : true ≡ false = sym (r.closed i near lt at_i latest) ∙ t in cc)
  ];
})

-- `safe_trim_start` starts the tail at an `ESC`, at most 64 bytes before the naive cut, whose escape the
-- naive cut splits: a control sequence `ESC [` without its final byte, or a lone `ESC`. Otherwise it
-- starts it at the first byte from the naive cut on that does not continue a character of UTF-8, and
-- then the last escape that begins in those 64 bytes is not split so. Escapes of other shapes, as `ESC ]`,
-- count as two bytes long. The naive cut lies in the buffer.
pub safe_trim_start-IsCut :
    (buf : List ℕ) (cut : ℕ)
    → cut ≤ length buf
    → AreBytes buf
    → IsCut buf cut (safe_trim_start buf cut)
safe_trim_start-IsCut buf cut fits bytes =
    place-IsCut buf cut (safe_trim_start buf cut) fits bytes (safe_trim_start_lem buf cut fits)

-- A granted rotation of a file above the limit leaves its end from some byte on, with the handle behind
-- the last byte. Let the cut be at exactly the limit: that byte is an `ESC`, at most 64 bytes before the
-- cut, whose control sequence `ESC [` has no final byte before it, or which stands alone before it.
-- Otherwise it is the first byte from the cut on that does not continue a character of UTF-8, and then
-- the last escape that begins in those 64 bytes is not split so. Escapes of other shapes, as `ESC ]`,
-- count as two bytes long.
pub rotate_log_file-IsCut :
    (max_size : ℕ) (file : File)
    → max_size < length file.content
    → AreBytes file.content
    → (k : ℕ) × (rotate_log_file all_granted max_size file ≡ (ok tt, tail_file k file.content))
      × IsCut file.content (length file.content - max_size) k
rotate_log_file-IsCut max_size file large bytes =
    let (k, e, place) = rotate_log_file_lem max_size file large in
    (k, e, place-IsCut file.content _ k (omega arith) bytes place)
