-- ===== src/Client/Attach/Special.antt =====
-- The special characters in what is typed, whichever reads it comes in.
use hytch.Common.{
  ◌↔◌, ◌≢◌, Bool-cases, true, false, ℕ, suc, ◌+◌, ◌<◌, ◌≡◌, refl, sym, ap, ◌∙◌, inl, inr, Option,
  none, some, List, [], ◌∷◌, ◌++◌, Option-cases, append-nil, length, take, arith,
}
use hytch.Client.Attach.{AttachOutcome, suspended, detached, is_char, special, find_from}

-- What is typed, the part of it before the first byte that is the suspend or the detach character, and
-- the outcome that this byte asks for. A byte that is both suspends.
pub data UpTo (detach_char suspend_char : Option ℕ)
    : List ℕ → List ℕ → Option AttachOutcome → Type 0 where
  ends : UpTo detach_char suspend_char [] [] none
  suspends :
      {b : ℕ} {bs : List ℕ}
      → suspend_char ≡ some b
      → UpTo detach_char suspend_char (b ∷ bs) [] (some suspended)
  detaches :
      {b : ℕ} {bs : List ℕ}
      → suspend_char ≢ some b
      → detach_char ≡ some b
      → UpTo detach_char suspend_char (b ∷ bs) [] (some detached)
  goes_on :
      {b : ℕ} {bs keys : List ℕ} {outcome : Option AttachOutcome}
      → suspend_char ≢ some b
      → detach_char ≢ some b
      → UpTo detach_char suspend_char bs keys outcome
      → UpTo detach_char suspend_char (b ∷ bs) (b ∷ keys) outcome

is_char_iff : (b : ℕ) (c : Option ℕ) → (is_char b c ≡ true) ↔ (c ≡ some b)
unfolding is_char
is_char_iff b none = (λ e. cc, λ e. cc)
is_char_iff b (some x) = (
  λ e. let same : b ≡ x = ground arith in ap some (sym same),
  λ e. let same : x ≡ b = ground (arith, e) in ground arith,
)

is_no_char : (b : ℕ) (c : Option ℕ) → is_char b c ≡ false → c ≢ some b
is_no_char b c e e' = let h = (is_char_iff b c).1 e' in cc

module _ (detach_char suspend_char : Option ℕ) where
  -- The first special character of what is typed.
  unfoldable pub first_special : List ℕ → Option AttachOutcome
  first_special [] = none
  first_special (b ∷ bs) = elim (special detach_char suspend_char b) [
    | some outcome ↦ some outcome
    | none ↦ first_special bs
  ]

  -- What is typed before it.
  unfoldable pub before_special : List ℕ → List ℕ
  before_special [] = []
  before_special (b ∷ bs) = elim (special detach_char suspend_char b) [
    | some outcome ↦ []
    | none ↦ b ∷ before_special bs
  ]

  pub first_special-append :
      (xs ys : List ℕ)
      → first_special xs ≡ none
      → (first_special (xs ++ ys) ≡ first_special ys)
        × (before_special (xs ++ ys) ≡ xs ++ before_special ys)
  unfolding first_special before_special
  first_special-append [] ys e = (refl, refl)
  first_special-append (x ∷ xs) ys e = elim (Option-cases (special detach_char suspend_char x)) [
    | inl e' ↦
        let (p, q) = first_special-append xs ys (ground arith) in (ground arith, ground arith)
    | inr (o, e') ↦ absurd (ground arith)
  ]

  pub before_special-whole : (xs : List ℕ) → first_special xs ≡ none → before_special xs ≡ xs
  unfolding before_special
  before_special-whole xs e =
      ap before_special (sym (append-nil xs)) ∙ (first_special-append xs [] e).1 ∙ append-nil xs

  -- A chunk without a special character.
  pub find_from-none :
      (i : ℕ) (chunk : List ℕ)
      → find_from detach_char suspend_char i chunk ≡ none
      → (first_special chunk ≡ none) × (before_special chunk ≡ chunk)
  unfolding first_special before_special find_from
  find_from-none i [] e = (refl, refl)
  find_from-none i (b ∷ bs) e = elim (Option-cases (special detach_char suspend_char b)) [
    | inl e' ↦ let (p, q) = find_from-none (i + 1) bs (ground arith) in (ground arith, ground arith)
    | inr (o, e') ↦ absurd (ground arith)
  ]

  -- A chunk with one: it stands at a place `j`, after what is typed before it.
  pub find_from-some :
      (i : ℕ) (chunk : List ℕ) (pos : ℕ) (outcome : AttachOutcome)
      → find_from detach_char suspend_char i chunk ≡ some (pos, outcome)
      → (j : ℕ) × (pos ≡ i + j)
        × (j < length chunk)
        × (first_special chunk ≡ some outcome)
        × (before_special chunk ≡ take j chunk)
  unfolding first_special before_special find_from
  find_from-some i [] pos outcome e = absurd (ground arith)
  find_from-some i (b ∷ bs) pos outcome e =
      elim (Option-cases (special detach_char suspend_char b)) [
        | inl e' ↦
            let (j, p, q, r, t) = find_from-some (i + 1) bs pos outcome (ground arith) in
            (suc j, omega arith, omega arith, ground arith, ground arith)
        | inr (o, e') ↦ (0, ground arith, omega arith, ground arith, ground arith)
      ]

  -- Both functions, described without the code's test.
  pub special-UpTo :
      (keys : List ℕ)
      → UpTo detach_char suspend_char keys (before_special keys) (first_special keys)
  unfolding first_special before_special special
  special-UpTo [] = ends
  special-UpTo (b ∷ bs) = elim (Bool-cases (is_char b suspend_char)) [
    | inl e ↦
        rw (before_special, first_special, special, e) (suspends ((is_char_iff b suspend_char).0 e))
    | inr e ↦ elim (Bool-cases (is_char b detach_char)) [
      | inl e' ↦
          rw (before_special, first_special, special, e, e')
            (detaches (is_no_char b suspend_char e) ((is_char_iff b detach_char).0 e'))
      | inr e' ↦
          rw (before_special, first_special, special, e, e')
            (goes_on (is_no_char b suspend_char e) (is_no_char b detach_char e') (special-UpTo bs))
    ]
  ]
