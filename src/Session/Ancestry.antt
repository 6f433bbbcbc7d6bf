-- ===== src/Session/Ancestry.antt =====
-- The chain of the sessions around a process, and the guard that reads it.
use hytch.Common.{
  ℕ, ◌≡◌, refl, sym, ap, ap₂, ◌∙◌, ◌≢◌, ◌↔◌, ◌⊎◌, inl, inr, subst, true, arith, ◌==◌, Bool-cases,
  Option, none, some, List, [], ◌∷◌, ◌++◌, false, ◌||◌, append-nil, append_assoc,
}
use hytch.Session.{
  colon, same_text, contains, split_on, any_same, non_empty, extend_ancestry, ancestry_contains,
}
use hytch.Session.Split.{split_on-append, split_on-whole, any_same-append}

-- The chain in a session started from within others, outermost first, below a chain that was there.
unfoldable pub nest : Option (List ℕ) → List (List ℕ) → Option (List ℕ)
nest chain [] = chain
nest chain (p ∷ ps) = nest (some (extend_ancestry chain p)) ps

-- A socket's path can stand in a chain: it is not empty and has no colon.
abbrev pub IsLink : List ℕ → Type 0
IsLink p = (p ≢ []) × (contains p colon ≡ false)

abbrev pub AllLinks : List (List ℕ) → Type 0
AllLinks [] = Unit
AllLinks (p ∷ ps) = IsLink p × AllLinks ps

-- The segments of a chain.
unfoldable pub segments : Option (List ℕ) → List (List ℕ)
segments chain = elim (non_empty chain) [ some c ↦ split_on colon c | none ↦ [] ]

same_text_iff : (xs ys : List ℕ) → (same_text xs ys ≡ true) ↔ (xs ≡ ys)
same_text_iff xs ys = (same xs ys, λ e. rw (← e) (reflexive xs))
  where
    same : (xs ys : List ℕ) → same_text xs ys ≡ true → xs ≡ ys
    same [] [] e = refl
    same [] (y ∷ ys) e = absurd (ground arith)
    same (x ∷ xs) [] e = absurd (ground arith)
    same (x ∷ xs) (y ∷ ys) e = elim (Bool-cases (x == y)) [
      | inl h ↦
          let head : x ≡ y = ground arith in
          let tail : same_text xs ys ≡ true = ground arith in
          ap₂ (λ a l. a ∷ l) head (same xs ys tail)
      | inr h ↦ absurd (ground arith)
    ]

    reflexive : (xs : List ℕ) → same_text xs xs ≡ true
    reflexive [] = refl
    reflexive (x ∷ xs) = let head : (x == x) ≡ true = ground arith in rw (head) (reflexive xs)

-- A path is one of some.
pub data OneOf (q : List ℕ) : List (List ℕ) → Type 0 where
  here : {ps : List (List ℕ)} → OneOf q (q ∷ ps)
  later : {p : List ℕ} {ps : List (List ℕ)} → OneOf q ps → OneOf q (p ∷ ps)

any_same-OneOf : (ps : List (List ℕ)) (q : List ℕ) → (any_same ps q ≡ true) ↔ OneOf q ps
unfolding any_same
any_same-OneOf ps q = (found ps, holds ps)
  where
    found : (ps : List (List ℕ)) → any_same ps q ≡ true → OneOf q ps
    found [] e = absurd (ground arith)
    found (p ∷ ps) e = elim (Bool-cases (same_text p q)) [
      | inl h ↦ subst (λ x. OneOf q (x ∷ ps)) (sym ((same_text_iff p q).0 h)) OneOf.here
      | inr h ↦ OneOf.later (found ps (ground arith))
    ]

    holds : (ps : List (List ℕ)) → OneOf q ps → any_same ps q ≡ true
    holds [] o = elim o [ ]
    holds (p ∷ ps) OneOf.here =
        let h : same_text q q ≡ true = (same_text_iff q q).1 refl in ground arith
    holds (p ∷ ps) (OneOf.later o) =
        let h = holds ps o in
        elim (Bool-cases (same_text p q)) [ inl e ↦ ground arith | inr e ↦ ground arith ]

any_segment :
    (chain : Option (List ℕ)) (q : List ℕ) → ancestry_contains chain q ≡ any_same (segments chain) q
unfolding ancestry_contains segments any_same
any_segment none q = refl
any_segment (some []) q = refl
any_segment (some (b ∷ bs)) q = refl

-- One more session is one more segment.
segments-extend :
    (chain : Option (List ℕ)) (p : List ℕ)
    → IsLink p
    → segments (some (extend_ancestry chain p)) ≡ segments chain ++ (p ∷ [])
unfolding segments extend_ancestry
segments-extend none [] (some_byte, h) = absurd (some_byte refl)
segments-extend none (b ∷ bs) (some_byte, h) = split_on-whole colon (b ∷ bs) h
segments-extend (some []) [] (some_byte, h) = absurd (some_byte refl)
segments-extend (some []) (b ∷ bs) (some_byte, h) = split_on-whole colon (b ∷ bs) h
segments-extend (some (x ∷ xs)) p (some_byte, h) =
    split_on-append colon (x ∷ xs) p
    ∙ ap (λ l. split_on colon (x ∷ xs) ++ l) (split_on-whole colon p h)

pub segments-nest :
    (ps : List (List ℕ)) (chain : Option (List ℕ))
    → AllLinks ps
    → segments (nest chain ps) ≡ segments chain ++ ps
unfolding nest
segments-nest [] chain h = sym (append-nil (segments chain))
segments-nest (p ∷ ps) chain (link, h) =
    segments-nest ps (some (extend_ancestry chain p)) h
    ∙ ap (λ l. l ++ ps) (segments-extend chain p link)
    ∙ append_assoc (segments chain) (p ∷ []) ps

nest_guard :
    (chain : Option (List ℕ)) (ps : List (List ℕ)) (q : List ℕ)
    → AllLinks ps
    → ancestry_contains (nest chain ps) q ≡ (ancestry_contains chain q || any_same ps q)
nest_guard chain ps q h =
    any_segment (nest chain ps) q
    ∙ ap (λ l. any_same l q) (segments-nest ps chain h)
    ∙ any_same-append (segments chain) ps q
    ∙ ap (λ b. b || any_same ps q) (sym (any_segment chain q))

-- In a session started from within others, the guard against attaching to oneself holds for exactly
-- the sessions around it: it holds for a path if and only if that is one of the paths that were added
-- or it held for it at the start, and with no chain at the start it held for none. The added paths are
-- not empty and have no colon.
pub ancestry_contains-nest :
    (chain : Option (List ℕ)) (ps : List (List ℕ)) (q : List ℕ)
    → AllLinks ps
    → ((ancestry_contains (nest chain ps) q ≡ true)
        ↔ ((ancestry_contains chain q ≡ true) ⊎ OneOf q ps))
      × (ancestry_contains none q ≡ false)
unfolding ancestry_contains
ancestry_contains-nest chain ps q h =
    let whole = nest_guard chain ps q h in
    let added = any_same-OneOf ps q in
    (
      (
        λ e. elim (Bool-cases (any_same ps q)) [
          | inl e' ↦ inr (added.0 e')
          | inr e' ↦ inl (ground arith)
        ],
        λ o. elim o [ inl e ↦ ground arith | inr o' ↦ let e = added.1 o' in ground arith ],
      ),
      refl,
    )
