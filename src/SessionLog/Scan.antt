-- ===== src/SessionLog/Scan.antt =====
-- The two searches of `safe_trim_start`: the last `ESC` before the cut, and the first byte behind it
-- that does not continue a character.
use hytch.Common.{
  ℕ, zero, suc, ◌+◌, ◌≤◌, ◌<◌, ◌≡◌, ◌≢◌, refl, ap, ◌∙◌, subst, ◌⊎◌, inl, inr, true, false, none,
  some, List, [], ◌∷◌, length, get_or, arith, Bool-cases, Option-cases,
}
use hytch.SessionLog.{esc, rposition_esc, is_continuation, skip_continuation}

-- The last `ESC` of a list, if there is one.
pub record LastEsc (xs : List ℕ) (i : ℕ) : Type 0 where
  pub inside : i < length xs
  pub is_esc : get_or xs i 0 ≡ esc
  pub latest : (j : ℕ) → i < j → j < length xs → get_or xs j 0 ≢ esc

abbrev pub NoEsc : List ℕ → Type 0
NoEsc xs = (j : ℕ) → j < length xs → get_or xs j 0 ≢ esc

LastEsc-cons : {bs : List ℕ} {k : ℕ} (b : ℕ) → LastEsc bs k → LastEsc (b ∷ bs) (suc k)
LastEsc-cons {bs} {k} b r = record {
  inside = omega (arith, r.inside);
  is_esc = r.is_esc;
  latest = later;
}
  where
    later : (j : ℕ) → suc k < j → j < length (b ∷ bs) → get_or (b ∷ bs) j 0 ≢ esc
    later zero h lt = absurd (omega arith)
    later (suc j) h lt = r.latest j (omega arith) (omega arith)

LastEsc-head : {bs : List ℕ} (b : ℕ) → b ≡ esc → NoEsc bs → LastEsc (b ∷ bs) 0
LastEsc-head {bs} b e none_later = record { inside = omega arith; is_esc = e; latest = later }
  where
    later : (j : ℕ) → 0 < j → j < length (b ∷ bs) → get_or (b ∷ bs) j 0 ≢ esc
    later zero h lt = absurd (omega arith)
    later (suc j) h lt = none_later j (omega arith)

pub rposition_none : (xs : List ℕ) → rposition_esc xs ≡ none → NoEsc xs
unfolding rposition_esc
rposition_none [] e j h = absurd (omega arith)
rposition_none (b ∷ bs) e zero h = ground arith
rposition_none (b ∷ bs) e (suc j) h = rposition_none bs (ground arith) j (omega arith)

pub rposition_some : (xs : List ℕ) (i : ℕ) → rposition_esc xs ≡ some i → LastEsc xs i
unfolding rposition_esc
rposition_some [] i e = cc
rposition_some (b ∷ bs) i e = elim (Option-cases (rposition_esc bs)) [
  | inr (k, later) ↦
      let at : suc k ≡ i = ground (arith, later) in
      subst (LastEsc (b ∷ bs)) at (LastEsc-cons b (rposition_some bs k later))
  | inl last ↦
      let at : 0 ≡ i = ground (arith, last) in
      let here : b ≡ esc = ground (arith, last) in
      subst (LastEsc (b ∷ bs)) at (LastEsc-head b here (rposition_none bs last))
]

-- The bytes skipped are continuation bytes, and the loop stops at the end or at another byte.
pub record Skipped (bs : List ℕ) (n : ℕ) : Type 0 where
  pub inside : n ≤ length bs
  pub all : (j : ℕ) → j < n → is_continuation (get_or bs j 0) ≡ true
  pub stop : (n ≡ length bs) ⊎ (is_continuation (get_or bs n 0) ≡ false)

Skipped-cons :
    {bs : List ℕ} {n : ℕ} (b : ℕ)
    → is_continuation b ≡ true
    → Skipped bs n
    → Skipped (b ∷ bs) (suc n)
Skipped-cons {bs} {n} b e r = record {
  inside = omega (arith, r.inside);
  all = each;
  stop = stops r.stop;
}
  where
    each : (j : ℕ) → j < suc n → is_continuation (get_or (b ∷ bs) j 0) ≡ true
    each zero h = e
    each (suc j) h = r.all j (omega arith)

    stops :
        (n ≡ length bs) ⊎ (is_continuation (get_or bs n 0) ≡ false)
        → (suc n ≡ suc (length bs)) ⊎ (is_continuation (get_or bs n 0) ≡ false)
    stops (inl q) = inl (ap suc q)
    stops (inr q) = inr q

pub skip_lem :
    (bs : List ℕ) (start : ℕ) → (n : ℕ) × (skip_continuation bs start ≡ start + n) × Skipped bs n
unfolding skip_continuation
skip_lem [] start = (
  0,
  omega arith,
  record { inside = omega arith; all = λ j h. absurd (omega arith); stop = inl refl },
)
skip_lem (b ∷ bs) start = elim (Bool-cases (is_continuation b)) [
  | inl more ↦
      let (n, e, r) = skip_lem bs (start + 1) in
      (suc n, rw more (e ∙ omega arith), Skipped-cons b more r)
  | inr stop ↦ (
    0,
    rw stop (omega arith),
    record { inside = omega arith; all = λ j h. absurd (omega arith); stop = inr stop },
  )
]
