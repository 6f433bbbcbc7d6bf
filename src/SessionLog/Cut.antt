-- ===== src/SessionLog/Cut.antt =====
-- Where `safe_trim_start` cuts: at the start of an escape sequence that the naive cut would split, or
-- else at the first byte from the naive cut on that starts a character.
use hytch.Common.{
  ℕ, ◌+◌, ◌-◌, ◌≤◌, ◌<◌, ◌≡◌, ◌≢◌, sym, ap, ◌∙◌, subst, ◌⊎◌, inl, inr, true, false, List, length,
  get_or, take, drop, arith, length-take, length-drop, get_or-drop, get_or-take, drop-drop,
  Bool-cases, Option-cases,
}
use native.Mathlib.Decide.{dec_lt}
use hytch.SessionLog.Scan.{NoEsc, LastEsc, rposition_none, rposition_some, skip_lem}
use hytch.SessionLog.{
  esc, escape_lookback, escape_sequence_terminated, rposition_esc, is_continuation,
  skip_continuation, safe_trim_start,
}

-- The cut lies on an `ESC` before the naive cut, whose sequence is open at the naive cut.
pub record AtEscape (buf : List ℕ) (cut s : ℕ) : Type 0 where
  pub near : cut ≤ s + escape_lookback
  pub before : s < cut
  pub is_esc : get_or buf s 0 ≡ esc
  pub opened : escape_sequence_terminated (drop s (take cut buf)) ≡ false

-- The cut lies at or behind the naive cut, only continuation bytes are skipped, what follows starts a
-- character, and no escape sequence that starts in the lookback window is left open at the naive cut.
pub record AtCharacter (buf : List ℕ) (cut s : ℕ) : Type 0 where
  pub behind : cut ≤ s
  pub inside : s ≤ length buf
  pub skipped : (i : ℕ) → cut ≤ i → i < s → is_continuation (get_or buf i 0) ≡ true
  pub start : (s ≡ length buf) ⊎ (is_continuation (get_or buf s 0) ≡ false)
  pub closed :
      (i : ℕ)
      → cut ≤ i + escape_lookback
      → i < cut
      → get_or buf i 0 ≡ esc
      → ((j : ℕ) → i < j → j < cut → get_or buf j 0 ≢ esc)
      → escape_sequence_terminated (drop i (take cut buf)) ≡ true

module _ (buf : List ℕ) (cut : ℕ) (fits : cut ≤ length buf) where
  abbrev window : List ℕ
  window = drop (cut - escape_lookback) (take cut buf)

  length-window : length window ≡ cut - (cut - escape_lookback)
  length-window =
      omega (arith, length-drop (cut - escape_lookback) (take cut buf), length-take cut buf)

  get_or-window :
      (j : ℕ)
      → cut - escape_lookback + j < cut
      → get_or window j 0 ≡ get_or buf (cut - escape_lookback + j) 0
  get_or-window j h =
      get_or-drop (cut - escape_lookback) j (take cut buf) 0
      ∙ get_or-take cut (cut - escape_lookback + j) buf 0 h

  -- An index of the buffer in the window.
  in_window :
      (i : ℕ)
      → cut ≤ i + escape_lookback
      → i < cut
      → get_or window (i - (cut - escape_lookback)) 0 ≡ get_or buf i 0
  in_window i near lt =
      let same : cut - escape_lookback + (i - (cut - escape_lookback)) ≡ i = omega arith in
      get_or-window (i - (cut - escape_lookback)) (omega arith) ∙ ap (λ k. get_or buf k 0) same

  Closed : Type 0
  Closed =
      (i : ℕ)
      → cut ≤ i + escape_lookback
      → i < cut
      → get_or buf i 0 ≡ esc
      → ((j : ℕ) → i < j → j < cut → get_or buf j 0 ≢ esc)
      → escape_sequence_terminated (drop i (take cut buf)) ≡ true

  closed_none : NoEsc window → Closed
  unfolding Closed
  closed_none no_esc i near lt at_i latest = absurd (
      no_esc (i - (cut - escape_lookback)) (omega (arith, length-window))
        (in_window i near lt ∙ at_i))

  drop-window : (rel : ℕ) → drop rel window ≡ drop (cut - escape_lookback + rel) (take cut buf)
  drop-window rel = drop-drop rel (cut - escape_lookback) (take cut buf)

  closed_some :
      (rel : ℕ) → LastEsc window rel → escape_sequence_terminated (drop rel window) ≡ true → Closed
  unfolding Closed
  closed_some rel r term i near lt at_i latest =
      subst (λ k. escape_sequence_terminated (drop k (take cut buf)) ≡ true) same
        (ap escape_sequence_terminated (sym (drop-window rel)) ∙ term)
    where
      same : cut - escape_lookback + rel ≡ i
      same = elim (dec_lt i (cut - escape_lookback + rel)) [
        | yes p ↦ absurd (
            latest (cut - escape_lookback + rel) p (omega (arith, r.inside, length-window))
              (sym (get_or-window rel (omega (arith, r.inside, length-window))) ∙ r.is_esc))
        | no p ↦ elim (dec_lt (cut - escape_lookback + rel) i) [
          | yes q ↦ absurd (
              r.latest (i - (cut - escape_lookback)) (omega arith) (omega (arith, length-window))
                (in_window i near lt ∙ at_i))
          | no q ↦ omega arith
        ]
      ]

  at_character : Closed → AtCharacter buf cut (skip_continuation (drop cut buf) cut)
  unfolding Closed
  at_character closed =
      let (n, e, r) = skip_lem (drop cut buf) cut in
      let len = length-drop cut buf in
      rw e (record {
        behind = omega arith;
        inside = omega (arith, r.inside, len);
        skipped = λ i lo hi. rw (← shifted i lo) (r.all (i - cut) (omega arith));
        start = stops n r.stop;
        closed = closed;
      })
    where
      shifted : (i : ℕ) → cut ≤ i → get_or (drop cut buf) (i - cut) 0 ≡ get_or buf i 0
      shifted i lo =
          let same : cut + (i - cut) ≡ i = omega arith in
          get_or-drop cut (i - cut) buf 0 ∙ ap (λ k. get_or buf k 0) same

      stops :
          (n : ℕ)
          → (n ≡ length (drop cut buf)) ⊎ (is_continuation (get_or (drop cut buf) n 0) ≡ false)
          → (cut + n ≡ length buf) ⊎ (is_continuation (get_or buf (cut + n) 0) ≡ false)
      stops n (inl q) = inl (omega (arith, length-drop cut buf))
      stops n (inr q) = inr (ap is_continuation (sym (get_or-drop cut n buf 0)) ∙ q)

  at_escape :
      (rel : ℕ)
      → LastEsc window rel
      → escape_sequence_terminated (drop rel window) ≡ false
      → AtEscape buf cut (cut - escape_lookback + rel)
  at_escape rel r open_ = record {
    near = omega arith;
    before = omega (arith, r.inside, length-window);
    is_esc = sym (get_or-window rel (omega (arith, r.inside, length-window))) ∙ r.is_esc;
    opened = ap escape_sequence_terminated (sym (drop-window rel)) ∙ open_;
  }

  -- Where the tail starts, in the words of the code's own tests. The naive cut lies in the buffer.
  pub safe_trim_start_lem :
      AtEscape buf cut (safe_trim_start buf cut) ⊎ AtCharacter buf cut (safe_trim_start buf cut)
  unfolding safe_trim_start
  safe_trim_start_lem = elim (Option-cases (rposition_esc window)) [
    | inl no_esc ↦
        rw (safe_trim_start, no_esc)
          (inr (at_character (closed_none (rposition_none window no_esc))))
    | inr (rel, found) ↦
        let r = rposition_some window rel found in
        elim (Bool-cases (escape_sequence_terminated (drop rel window))) [
          | inl term ↦
              rw (safe_trim_start, found, term) (inr (at_character (closed_some rel r term)))
          | inr open_ ↦ rw (safe_trim_start, found, open_) (inl (at_escape rel r open_))
        ]
  ]
