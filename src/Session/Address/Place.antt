-- ===== src/Session/Address/Place.antt =====
-- The place that a path denotes, and the place of its parent and name.
use hytch.Common.{
  ℕ, ◌≡◌, ◌≢◌, refl, sym, ap, ◌∙◌, inl, inr, some, List, [], ◌∷◌, ◌++◌, Bool, true, false,
  Bool-cases, ◌==◌, arith, if◌then◌else◌,
}
use hytch.Session.{slash, contains, split_on, cons_first, components, last_of, join_with}
use hytch.Session.Split.{split_on-append, split_on-whole}
use mathlib.Core.Option.{some-injective}
use hytch.Session.Address.{
  is_absolute, is_trivial, unless_alone, trim, is_passed, trim_body, without_last,
}

-- The names from the root on; `..` is kept, since links decide what it means.
abbrev pub Place : Type 0
Place = List (List ℕ)

unfoldable pub names : List ℕ → Place
names path = components (split_on slash path)

unfoldable pub resolve : Place → List ℕ → Place
resolve cwd path = if is_absolute path then names path else cwd ++ names path

components-unless_alone :
    (d : Bool) (x : List ℕ) (xs : List (List ℕ))
    → (d ≡ true → is_trivial x ≡ true)
    → components (unless_alone d x xs) ≡ components (x ∷ xs)
unfolding components
components-unless_alone true x [] h = let t = h refl in ground arith
components-unless_alone false x [] h = refl
components-unless_alone d x (y ∷ ys) h = refl

components-cons :
    (x : List ℕ) (xs ys : List (List ℕ))
    → components xs ≡ components ys
    → components (x ∷ xs) ≡ components (x ∷ ys)
unfolding components
components-cons x xs ys e = ap (λ l. if is_trivial x then l else x ∷ l) e

components-trim : (l : List (List ℕ)) → components (trim l) ≡ components l
unfolding trim
components-trim [] = refl
components-trim (x ∷ xs) =
    components-unless_alone (is_trivial x) x (trim xs) (λ e. e)
    ∙ components-cons x (trim xs) xs (components-trim xs)

passed-trivial : (rooted : Bool) (x : List ℕ) → is_passed rooted x ≡ true → is_trivial x ≡ true
passed-trivial rooted x e = ground arith

pub components-trim_body :
    (rooted : Bool) (l : List (List ℕ)) → components (trim_body rooted l) ≡ components l
unfolding trim_body
components-trim_body rooted [] = refl
components-trim_body rooted (x ∷ xs) =
    components-unless_alone (is_passed rooted x) x (trim xs) (passed-trivial rooted x)
    ∙ components-cons x (trim xs) xs (components-trim xs)

-- The last part of a list without idle parts at the end is the last component.
IsTrimmed : List (List ℕ) → Type 0
IsTrimmed [] = Unit
IsTrimmed (x ∷ []) = is_trivial x ≡ false
IsTrimmed (x ∷ y ∷ ys) = IsTrimmed (y ∷ ys)

trim-IsTrimmed : (l : List (List ℕ)) → IsTrimmed (trim l)
unfolding trim IsTrimmed
trim-IsTrimmed [] = tt
trim-IsTrimmed (x ∷ xs) = go (trim xs) (trim-IsTrimmed xs) (is_trivial x) refl
  where
    go :
        (l : List (List ℕ))
        → IsTrimmed l
        → (t : Bool) → is_trivial x ≡ t
        → IsTrimmed (unless_alone t x l)
    go [] h true e = tt
    go [] h false e = e
    go (y ∷ ys) h t e = h

components-cons_append :
    (x : List ℕ) (xs ys zs : List (List ℕ))
    → components xs ≡ components ys ++ zs
    → components (x ∷ xs) ≡ components (x ∷ ys) ++ zs
unfolding components
components-cons_append x xs ys zs e = elim (Bool-cases (is_trivial x)) [
  | inl t ↦ rw (t, e) refl
  | inr t ↦ rw (t, e) refl
]

-- A list's last component, and those before it.
abbrev pub HasLast : List (List ℕ) → List (List ℕ) → Type 0
HasLast l t = (n : List ℕ) × (components l ≡ components (without_last t) ++ (n ∷ []))

IsTrimmed-HasLast :
    (y : List ℕ) (ys : List (List ℕ)) → IsTrimmed (y ∷ ys) → HasLast (y ∷ ys) (y ∷ ys)
unfolding without_last components IsTrimmed
IsTrimmed-HasLast y [] h = (y, rw h refl)
IsTrimmed-HasLast y (z ∷ zs) h =
    let (n, e) = IsTrimmed-HasLast z zs h in
    (n, components-cons_append y (z ∷ zs) (without_last (z ∷ zs)) (n ∷ []) e)

pub trim_body-HasLast :
    (rooted : Bool) (l : List (List ℕ)) → components l ≢ [] → HasLast l (trim_body rooted l)
unfolding trim_body components without_last
trim_body-HasLast rooted [] h = absurd (h refl)
trim_body-HasLast rooted (x ∷ xs) h = go (trim xs) (trim-IsTrimmed xs) (sym (components-trim xs))
  where
    go :
        (t : List (List ℕ))
        → IsTrimmed t
        → components xs ≡ components t
        → HasLast (x ∷ xs) (unless_alone (is_passed rooted x) x t)
    go [] i e = elim (Bool-cases (is_trivial x)) [
      | inl t ↦ absurd (h (rw t e))
      | inr t ↦ let p : is_passed rooted x ≡ false = ground arith in (x, rw (p, t, e) refl)
    ]
    go (y ∷ ys) i e =
        let (n, e') = IsTrimmed-HasLast y ys i in
        (n, components-cons_append x xs (without_last (y ∷ ys)) (n ∷ []) (e ∙ e'))

-- Parts without a slash.
pub AllParts : List (List ℕ) → Type 0
AllParts [] = Unit
AllParts (x ∷ xs) = (contains x slash ≡ false) × AllParts xs

cons_first-AllParts :
    (b : ℕ) (l : List (List ℕ)) → (b == slash) ≡ false → AllParts l → AllParts (cons_first b l)
unfolding AllParts contains
cons_first-AllParts b [] h all = (ground arith, tt)
cons_first-AllParts b (x ∷ xs) h (e, all) = (ground arith, all)

pub split_on-AllParts : (s : List ℕ) → AllParts (split_on slash s)
unfolding split_on AllParts contains
split_on-AllParts [] = (refl, tt)
split_on-AllParts (b ∷ bs) = elim (Bool-cases (b == slash)) [
  | inl e ↦ rw e (refl, split_on-AllParts bs)
  | inr e ↦ rw e (cons_first-AllParts b (split_on slash bs) e (split_on-AllParts bs))
]

unless_alone-AllParts :
    (d : Bool) (x : List ℕ) (l : List (List ℕ))
    → contains x slash ≡ false
    → AllParts l
    → AllParts (unless_alone d x l)
unfolding AllParts
unless_alone-AllParts true x [] e all = tt
unless_alone-AllParts false x [] e all = (e, tt)
unless_alone-AllParts d x (y ∷ ys) e all = (e, all)

trim-AllParts : (l : List (List ℕ)) → AllParts l → AllParts (trim l)
unfolding trim AllParts
trim-AllParts [] all = tt
trim-AllParts (x ∷ xs) (e, all) =
    unless_alone-AllParts (is_trivial x) x (trim xs) e (trim-AllParts xs all)

pub trim_body-AllParts :
    (rooted : Bool) (l : List (List ℕ)) → AllParts l → AllParts (trim_body rooted l)
unfolding trim_body AllParts
trim_body-AllParts rooted [] all = tt
trim_body-AllParts rooted (x ∷ xs) (e, all) =
    unless_alone-AllParts (is_passed rooted x) x (trim xs) e (trim-AllParts xs all)

pub without_last-AllParts : (l : List (List ℕ)) → AllParts l → AllParts (without_last l)
unfolding without_last AllParts
without_last-AllParts [] all = tt
without_last-AllParts (x ∷ []) all = tt
without_last-AllParts (x ∷ y ∷ ys) (e, all) = (e, without_last-AllParts (y ∷ ys) all)

pub names-join_with :
    (l : List (List ℕ)) → AllParts l → names (join_with (slash ∷ []) l) ≡ components l
unfolding names AllParts join_with split_on components
names-join_with [] all = refl
names-join_with (x ∷ []) (e, all) = ap components (split_on-whole slash x e)
names-join_with (x ∷ y ∷ ys) (e, all) =
    let joined = join_with (slash ∷ []) (y ∷ ys) in
    ap components (
      split_on-append slash x joined
      ∙ ap (λ l. l ++ split_on slash joined) (split_on-whole slash x e))
    ∙ components-cons x (split_on slash joined) (y ∷ ys) (names-join_with (y ∷ ys) all)

-- A last component is a name that counts, without a slash.
pub last_of-components :
    (l : List (List ℕ)) (n : List ℕ)
    → AllParts l
    → last_of (components l) ≡ some n
    → (is_trivial n ≡ false) × (contains n slash ≡ false)
unfolding AllParts components
last_of-components [] n all e = absurd (cc)
last_of-components (x ∷ xs) n (plain, all) e = elim (Bool-cases (is_trivial x)) [
  | inl t ↦ last_of-components xs n all (ground arith)
  | inr t ↦ go t (components xs) (last_of-components xs n all) (ground arith)
]
  where
    go :
        is_trivial x ≡ false
        → (l : List (List ℕ))
        → (last_of l ≡ some n → (is_trivial n ≡ false) × (contains n slash ≡ false))
        → last_of (x ∷ l) ≡ some n
        → (is_trivial n ≡ false) × (contains n slash ≡ false)
    go t [] h e' = let same = some-injective _ _ e' in rw (← same) (t, plain)
    go t (y ∷ ys) h e' = h e'
