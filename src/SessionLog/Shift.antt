-- ===== src/SessionLog/Shift.antt =====
-- The cut of a file's end, in terms of the whole file.
use hytch.Common.{
  ℕ, ◌+◌, ◌-◌, ◌≤◌, ◌≡◌, sym, ap, ◌∙◌, ◌⊎◌, inl, inr, false, List, length, get_or, take, drop,
  arith, length-drop, get_or-drop, take-drop, drop-drop,
}
use hytch.SessionLog.{escape_lookback, escape_sequence_terminated, is_continuation}
use hytch.SessionLog.Cut.{AtEscape, AtCharacter}

-- Where the cut of a file above the limit lies, in terms of the file's own bytes.
pub AtEscape-drop :
    (bytes : List ℕ) (rs cut s : ℕ)
    → AtEscape (drop rs bytes) cut s
    → AtEscape bytes (rs + cut) (rs + s)
AtEscape-drop bytes rs cut s r = record {
  near = omega (arith, r.near);
  before = omega (arith, r.before);
  is_esc = sym (get_or-drop rs s bytes 0) ∙ r.is_esc;
  opened =
      ap escape_sequence_terminated
        (sym (drop-drop s rs (take (rs + cut) bytes)) ∙ ap (drop s) (sym (take-drop rs cut bytes)))
      ∙ r.opened;
}

pub AtCharacter-drop :
    (bytes : List ℕ) (rs cut s : ℕ)
    → rs + cut ≤ length bytes
    → (rs ≡ 0) ⊎ (escape_lookback ≤ cut)
    → AtCharacter (drop rs bytes) cut s
    → AtCharacter bytes (rs + cut) (rs + s)
AtCharacter-drop bytes rs cut s fits from r = record {
  behind = omega (arith, r.behind);
  inside = omega (arith, r.inside, length-drop rs bytes);
  skipped = λ i lo hi.
      ap is_continuation (sym (shifted i (omega arith)))
      ∙ r.skipped (i - rs) (omega arith) (omega arith);
  start = starts r.start;
  closed = λ i near lt at_i latest.
      ap escape_sequence_terminated (drop_shifted i (omega arith))
      ∙ r.closed (i - rs) (omega arith) (omega arith) (shifted i (omega arith) ∙ at_i) (λ j p q e.
        latest (rs + j) (omega arith) (omega arith) (sym (get_or-drop rs j bytes 0) ∙ e));
}
  where
    shifted : (i : ℕ) → rs ≤ i → get_or (drop rs bytes) (i - rs) 0 ≡ get_or bytes i 0
    shifted i lo =
        let same : rs + (i - rs) ≡ i = omega arith in
        get_or-drop rs (i - rs) bytes 0 ∙ ap (λ k. get_or bytes k 0) same

    drop_shifted :
        (i : ℕ) → rs ≤ i → drop i (take (rs + cut) bytes) ≡ drop (i - rs) (take cut (drop rs bytes))
    drop_shifted i lo =
        let same : rs + (i - rs) ≡ i = omega arith in
        ap (λ k. drop k (take (rs + cut) bytes)) (sym same)
        ∙ sym (drop-drop (i - rs) rs (take (rs + cut) bytes))
        ∙ ap (drop (i - rs)) (sym (take-drop rs cut bytes))

    starts :
        (s ≡ length (drop rs bytes)) ⊎ (is_continuation (get_or (drop rs bytes) s 0) ≡ false)
        → (rs + s ≡ length bytes) ⊎ (is_continuation (get_or bytes (rs + s) 0) ≡ false)
    starts (inl q) = inl (omega (arith, length-drop rs bytes))
    starts (inr q) = inr (ap is_continuation (sym (get_or-drop rs s bytes 0)) ∙ q)
