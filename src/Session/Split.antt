-- ===== src/Session/Split.antt =====
-- Splitting text at a character, and tests on text.
use hytch.Common.{
  ℕ, ◌≡◌, refl, sym, ap, ◌∙◌, inl, inr, List, [], ◌∷◌, ◌++◌, false, Bool-cases, ◌||◌, ◌==◌, arith,
}
use hytch.Session.{contains, cons_first, split_on, any_same}

-- There is at least one part.
split_on-cons :
    (sep : ℕ) (xs : List ℕ) → (y : List ℕ) × (ys : List (List ℕ)) × (split_on sep xs ≡ y ∷ ys)
unfolding split_on
split_on-cons sep [] = ([], [], refl)
split_on-cons sep (x ∷ xs) =
    let (y, ys, e) = split_on-cons sep xs in
    elim (Bool-cases (x == sep)) [
      | inl h ↦ ([], split_on sep xs, ground arith)
      | inr h ↦ (x ∷ y, ys, ground arith)
    ]

pub split_on-append :
    (sep : ℕ) (xs ys : List ℕ)
    → split_on sep (xs ++ (sep ∷ ys)) ≡ split_on sep xs ++ split_on sep ys
unfolding split_on
split_on-append sep [] ys = ground arith
split_on-append sep (x ∷ xs) ys = elim (Bool-cases (x == sep)) [
  | inl e ↦ ground (arith, split_on-append sep xs ys)
  | inr e ↦
      let (y, rest, e') = split_on-cons sep xs in
      let ih = split_on-append sep xs ys in
      let here : cons_first x (split_on sep (xs ++ (sep ∷ ys)))
          ≡ cons_first x (split_on sep xs) ++ split_on sep ys =
        ap (cons_first x) (ih ∙ ap (λ l. l ++ split_on sep ys) e')
        ∙ ap (λ l. cons_first x l ++ split_on sep ys) (sym e') in
      ground arith
]

pub split_on-whole : (sep : ℕ) (xs : List ℕ) → contains xs sep ≡ false → split_on sep xs ≡ xs ∷ []
unfolding split_on contains
split_on-whole sep [] e = refl
split_on-whole sep (x ∷ xs) e = ground (arith, split_on-whole sep xs)

pub any_same-append :
    (xs ys : List (List ℕ)) (t : List ℕ) → any_same (xs ++ ys) t ≡ (any_same xs t || any_same ys t)
unfolding any_same
any_same-append [] ys t = refl
any_same-append (x ∷ xs) ys t = ground (arith, any_same-append xs ys t)

pub contains-append :
    (xs ys : List ℕ) (c : ℕ) → contains (xs ++ ys) c ≡ (contains xs c || contains ys c)
unfolding contains
contains-append [] ys c = refl
contains-append (x ∷ xs) ys c = ground (arith, contains-append xs ys c)
