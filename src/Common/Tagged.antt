-- ===== src/Common/Tagged.antt =====
-- Lists whose elements carry the number of who they come from.
use Prim.Native.Nat.{ℕ}
use mathlib.Core.Path.{◌≡◌, refl, sym, ap, ap₂, ◌∙◌}
use mathlib.Core.Logic.{inl, inr}
use mathlib.Core.Bool.{true, false}
use mathlib.Core.List.{List, [], ◌∷◌, ◌++◌, map, append-nil}
use native.Mathlib.Omega.{arith}
use hytch.Common.Lists.{map-append}
use hytch.Common.Tests.{if◌then◌else◌, ◌==◌, Bool-cases}

module _ {ℓ} {A : Type ℓ} where
  abbrev pub untag : List (ℕ × A) → List A
  untag l = map (λ p. p.1) l

  abbrev pub tag : ℕ → List A → List (ℕ × A)
  tag i xs = map (λ x. (i, x)) xs

  -- The elements from `j`, in order.
  unfoldable pub only_from : ℕ → List (ℕ × A) → List A
  only_from j [] = []
  only_from j (p ∷ l) = let rest = only_from j l in if p.0 == j then p.1 ∷ rest else rest

  pub untag-tag : (i : ℕ) (xs : List A) → untag (tag i xs) ≡ xs
  untag-tag i [] = refl
  untag-tag i (x ∷ xs) = ap (λ l. x ∷ l) (untag-tag i xs)

  pub only_from-append :
      (j : ℕ) (l k : List (ℕ × A)) → only_from j (l ++ k) ≡ only_from j l ++ only_from j k
  unfolding only_from
  only_from-append j [] k = refl
  only_from-append j (p ∷ l) k = elim (Bool-cases (p.0 == j)) [
    | inl e ↦ rw e (ap (λ r. p.1 ∷ r) (only_from-append j l k))
    | inr e ↦ rw e (only_from-append j l k)
  ]

  pub only_from-tag : (i : ℕ) (xs : List A) → only_from i (tag i xs) ≡ xs
  unfolding only_from
  only_from-tag i [] = refl
  only_from-tag i (x ∷ xs) =
      let same : (i == i) ≡ true = ground arith in rw same (ap (λ l. x ∷ l) (only_from-tag i xs))

  pub only_from-tag_other : (i j : ℕ) (xs : List A) → (i == j) ≡ false → only_from j (tag i xs) ≡ []
  unfolding only_from
  only_from-tag_other i j [] e = refl
  only_from-tag_other i j (x ∷ xs) e = rw e (only_from-tag_other i j xs e)

  -- A list that is made of one for each number, each whole and in order.
  pub record Interleaves (all : List A) (own : ℕ → List A) : Type ℓ where
    pub tagged : List (ℕ × A)
    pub whole : untag tagged ≡ all
    pub each : (i : ℕ) → only_from i tagged ≡ own i

  pub Interleaves-none : (own : ℕ → List A) → ((i : ℕ) → own i ≡ []) → Interleaves [] own
  unfolding only_from
  Interleaves-none own nothing = record { tagged = []; whole = refl; each = λ i. sym (nothing i) }

  pub Interleaves-same :
      {all all' : List A} {own own' : ℕ → List A}
      → all' ≡ all
      → ((i : ℕ) → own' i ≡ own i)
      → Interleaves all own
      → Interleaves all' own'
  Interleaves-same e es v = record {
    tagged = v.tagged;
    whole = v.whole ∙ sym e;
    each = λ i. v.each i ∙ sym (es i);
  }

  -- One of the lists, and so the whole, is extended.
  pub Interleaves-append :
      {all all' : List A} {own own' : ℕ → List A} (i : ℕ) (xs : List A)
      → all' ≡ all ++ xs
      → own' i ≡ own i ++ xs
      → ((j : ℕ) → (i == j) ≡ false → own' j ≡ own j)
      → Interleaves all own
      → Interleaves all' own'
  Interleaves-append {own = own} {own' = own'} i xs more mine others v = record {
    tagged = v.tagged ++ tag i xs;
    whole =
        map-append (λ p. p.1) v.tagged (tag i xs)
        ∙ ap₂ (λ l k. l ++ k) v.whole (untag-tag i xs)
        ∙ sym more;
    each = λ j. only_from-append j v.tagged (tag i xs) ∙ elim (Bool-cases (i == j)) [
      | inl e ↦
          let same : i ≡ j = ground arith in
          ap₂ (λ l k. l ++ k) (v.each j)
            (ap (λ k. only_from k (tag i xs)) (sym same) ∙ only_from-tag i xs)
          ∙ ap (λ k. own k ++ xs) (sym same)
          ∙ sym mine
          ∙ ap own' same
      | inr e ↦
          ap₂ (λ l k. l ++ k) (v.each j) (only_from-tag_other i j xs e)
          ∙ append-nil (own j)
          ∙ sym (others j e)
    ];
  }
