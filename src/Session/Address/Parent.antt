-- ===== src/Session/Address/Parent.antt =====
-- The parent of a path, against the names in the path.
use hytch.Common.{
  ℕ, ◌≡◌, ◌≢◌, refl, sym, ap, ◌∙◌, inl, inr, some, List, [], ◌∷◌, ◌++◌, Bool, true, false,
  Bool-cases, ◌==◌, arith, Option-cases,
}
use hytch.Session.{slash, split_on, cons_first, is_empty, components, join_with}
use mathlib.Core.Option.{some-injective}
use hytch.Session.Address.{
  is_absolute, unless_alone, trim, is_passed, trim_body, without_last, body_parent, parent,
}
use hytch.Session.Address.Place.{
  names, components-trim_body, HasLast, trim_body-HasLast, AllParts, split_on-AllParts,
  trim_body-AllParts, without_last-AllParts, names-join_with,
}

-- A list of parts that does not start at the root.
StartsBelow : List (List ℕ) → Type 0
StartsBelow [] = Unit
StartsBelow (x ∷ xs) = (is_empty x ≡ false) × (is_absolute x ≡ false)

trim_body-StartsBelow :
    (rooted : Bool) (l : List (List ℕ)) → StartsBelow l → StartsBelow (trim_body rooted l)
unfolding trim_body StartsBelow
trim_body-StartsBelow rooted [] h = tt
trim_body-StartsBelow rooted (x ∷ xs) h = go (trim xs) (is_passed rooted x)
  where
    go : (l : List (List ℕ)) (d : Bool) → StartsBelow (unless_alone d x l)
    go [] true = tt
    go [] false = h
    go (y ∷ ys) d = h

without_last-StartsBelow : (l : List (List ℕ)) → StartsBelow l → StartsBelow (without_last l)
unfolding without_last StartsBelow
without_last-StartsBelow [] h = tt
without_last-StartsBelow (x ∷ []) h = tt
without_last-StartsBelow (x ∷ y ∷ ys) h = h

is_absolute-join_with :
    (l : List (List ℕ)) → StartsBelow l → is_absolute (join_with (slash ∷ []) l) ≡ false
unfolding join_with StartsBelow
is_absolute-join_with [] h = refl
is_absolute-join_with ([] ∷ l) (h, h') = absurd (cc)
is_absolute-join_with ((b ∷ bs) ∷ []) (h, h') = h'
is_absolute-join_with ((b ∷ bs) ∷ y ∷ l) (h, h') = h'

split_on-StartsBelow :
    (b : ℕ) (bs : List ℕ) → (b == slash) ≡ false → StartsBelow (split_on slash (b ∷ bs))
unfolding split_on StartsBelow
split_on-StartsBelow b bs e = rw e (go (split_on slash bs))
  where
    go : (l : List (List ℕ)) → StartsBelow (cons_first b l)
    go [] = (refl, e)
    go (x ∷ xs) = (refl, e)

-- The parent of the parts, made into a path again.
names-body_parent :
    (rooted : Bool) (l : List (List ℕ)) (dir : List ℕ)
    → AllParts l
    → components l ≢ []
    → body_parent rooted (trim_body rooted l) ≡ some dir
    → (n : List ℕ) × (components l ≡ names dir ++ (n ∷ []))
names-body_parent rooted l dir all some_part e =
    go (trim_body rooted l) (trim_body-AllParts rooted l all) (trim_body-HasLast rooted l some_part)
      e
  where
    go :
        (t : List (List ℕ))
        → AllParts t
        → HasLast l t
        → body_parent rooted t ≡ some dir
        → (n : List ℕ) × (components l ≡ names dir ++ (n ∷ []))
    go [] all' (n, h) e' = absurd (cc)
    go (x ∷ xs) all' (n, h) e' =
        let front = without_last (x ∷ xs) in
        let parts = trim_body-AllParts rooted front (without_last-AllParts (x ∷ xs) all') in
        let back : names dir ≡ components front =
          sym (ap names (some-injective _ _ e'))
          ∙ names-join_with (trim_body rooted front) parts
          ∙ components-trim_body rooted front in
        (n, h ∙ ap (λ p. p ++ (n ∷ [])) (sym back))

body_parent-relative :
    (l : List (List ℕ)) (dir : List ℕ)
    → StartsBelow l
    → body_parent false (trim_body false l) ≡ some dir
    → is_absolute dir ≡ false
body_parent-relative l dir h e = go (trim_body false l) (trim_body-StartsBelow false l h) e
  where
    go :
        (t : List (List ℕ))
        → StartsBelow t
        → body_parent false t ≡ some dir
        → is_absolute dir ≡ false
    go [] h' e' = absurd (cc)
    go (x ∷ xs) h' e' =
        let front = without_last (x ∷ xs) in
        ap is_absolute (sym (some-injective _ _ e'))
        ∙ is_absolute-join_with (trim_body false front)
            (trim_body-StartsBelow false front (without_last-StartsBelow (x ∷ xs) h'))

names-slash : (s : List ℕ) → names (slash ∷ s) ≡ names s
unfolding names split_on components
names-slash s = refl

-- A path is its parent with one name more, and starts where the parent does.
pub names-parent :
    (path dir : List ℕ)
    → names path ≢ []
    → parent path ≡ some dir
    → ((n : List ℕ) × (names path ≡ names dir ++ (n ∷ []))) × (is_absolute dir ≡ is_absolute path)
unfolding parent names components split_on
names-parent [] dir h e = absurd (cc)
names-parent (b ∷ bs) dir h e = elim (Bool-cases (b == slash)) [
  | inr f ↦
      let below = split_on-StartsBelow b bs f in
      let e' : body_parent false (trim_body false (split_on slash (b ∷ bs))) ≡ some dir =
        ground arith in
      (
        names-body_parent false (split_on slash (b ∷ bs)) dir (split_on-AllParts (b ∷ bs)) h e',
        body_parent-relative (split_on slash (b ∷ bs)) dir below e' ∙ sym f,
      )
  | inl f ↦
      let same : names (b ∷ bs) ≡ names bs = rw f refl in
      elim (Option-cases (body_parent true (trim_body true (split_on slash bs)))) [
        | inl o ↦ absurd (ground arith)
        | inr (rest, o) ↦
            let found : some (slash ∷ rest) ≡ some dir = ground arith in
            let e' = sym (some-injective _ _ found) in
            let (n, parts) =
              names-body_parent true (split_on slash bs) rest (split_on-AllParts bs)
                (λ nothing. h (same ∙ nothing)) o in
            (
              (n, same ∙ parts ∙ ap (λ l. l ++ (n ∷ [])) (sym (ap names e' ∙ names-slash rest))),
              ap is_absolute e' ∙ sym f,
            )
      ]
]

body_parent-some :
    (rooted : Bool) (l : List (List ℕ))
    → components l ≢ []
    → (dir : List ℕ) × (body_parent rooted (trim_body rooted l) ≡ some dir)
unfolding components
body_parent-some rooted l h = go (trim_body rooted l) (components-trim_body rooted l)
  where
    go :
        (t : List (List ℕ))
        → components t ≡ components l
        → (dir : List ℕ) × (body_parent rooted t ≡ some dir)
    go [] e = absurd (h (sym e))
    go (x ∷ xs) e = (_, refl)

parent-relative :
    (b : ℕ) (bs : List ℕ)
    → (b == slash) ≡ false
    → parent (b ∷ bs) ≡ body_parent false (trim_body false (split_on slash (b ∷ bs)))
unfolding parent
parent-relative b bs f = rw f refl

pub parent-some : (path : List ℕ) → names path ≢ [] → (dir : List ℕ) × (parent path ≡ some dir)
unfolding parent names components split_on
parent-some [] h = absurd (h refl)
parent-some (b ∷ bs) h = elim (Bool-cases (b == slash)) [
  | inl f ↦
      let same : names (b ∷ bs) ≡ names bs = rw f refl in
      let (dir, e) = body_parent-some true (split_on slash bs) (λ nothing. h (same ∙ nothing)) in
      (slash ∷ dir, rw (f, e) refl)
  | inr f ↦
      let (dir, e) = body_parent-some false (split_on slash (b ∷ bs)) h in
      (dir, parent-relative b bs f ∙ e)
]
