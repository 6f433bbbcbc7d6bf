-- ===== src/Cli/List/Order.antt =====
-- The listing against the order in which the directory is read.
use hytch.Common.{
  ℕ, ◌≡◌, refl, sym, ap, ap₂, ◌∙◌, ◌⊎◌, inl, inr, List, [], ◌∷◌, Bool, true, false, Bool-cases,
  arith,
}
use hytch.Cli.List.{le, insert, sort, entries, list, list_entries}
use mathlib.Core.List.{Permᴰ}

le_total : (xs ys : List ℕ) → (le xs ys ≡ true) ⊎ (le ys xs ≡ true)
unfolding le
le_total [] ys = inl refl
le_total (x ∷ xs) [] = inr refl
le_total (x ∷ xs) (y ∷ ys) = elim (le_total xs ys) [ inl e ↦ ground arith | inr e ↦ ground arith ]

le_antisymm : (xs ys : List ℕ) → le xs ys ≡ true → le ys xs ≡ true → xs ≡ ys
unfolding le
le_antisymm [] [] e e' = refl
le_antisymm [] (y ∷ ys) e e' = absurd (cc)
le_antisymm (x ∷ xs) [] e e' = absurd (cc)
le_antisymm (x ∷ xs) (y ∷ ys) e e' = ground (arith, le_antisymm xs ys)

le_trans : (xs ys zs : List ℕ) → le xs ys ≡ true → le ys zs ≡ true → le xs zs ≡ true
unfolding le
le_trans [] ys zs e e' = refl
le_trans (x ∷ xs) [] zs e e' = absurd (cc)
le_trans (x ∷ xs) (y ∷ ys) [] e e' = absurd (cc)
le_trans (x ∷ xs) (y ∷ ys) (z ∷ zs) e e' = ground (arith, le_trans xs ys zs)

-- If `a` does not come before `x`, then neither does what comes after `a`.
below : (a b x : List ℕ) → le a b ≡ true → le a x ≡ false → le b x ≡ false
below a b x e f = elim (Bool-cases (le b x)) [
  | inl g ↦ absurd (ground (arith, le_trans a b x))
  | inr g ↦ g
]

insert_step :
    (a b : List ℕ) (l : List (List ℕ))
    → le a b ≡ true
    → le b a ≡ false
    → insert a (insert b l) ≡ insert b (insert a l)
unfolding insert
insert_step a b [] e e' = rw (e, e') refl
insert_step a b (x ∷ l) e e' = elim (Bool-cases (le a x)) [
  | inr f ↦ let g = below a b x e f in rw (g, f, insert, g, insert_step a b l e e') refl
  | inl f ↦ elim (Bool-cases (le b x)) [
    | inl g ↦ rw (f, g, insert, e, e', insert) refl
    | inr g ↦ rw (f, g, insert, f, e', insert) refl
  ]
]

insert_comm : (a b : List ℕ) (l : List (List ℕ)) → insert a (insert b l) ≡ insert b (insert a l)
insert_comm a b l = elim (Bool-cases (le a b)) [
  | inl e ↦ elim (Bool-cases (le b a)) [
    | inl e' ↦ let same = le_antisymm a b e e' in ap₂ (λ x y. insert x (insert y l)) same (sym same)
    | inr e' ↦ insert_step a b l e e'
  ]
  | inr e ↦ elim (le_total a b) [ inl e' ↦ absurd (cc) | inr e' ↦ sym (insert_step b a l e' e) ]
]

sort-perm : {xs ys : List (List ℕ)} → Permᴰ xs ys → sort xs ≡ sort ys
unfolding sort
sort-perm Permᴰ.nil = refl
sort-perm (Permᴰ.cons e p) = ap₂ insert e (sort-perm p)
sort-perm (Permᴰ.swap {a} {b} {l = l} e e') =
    insert_comm a b (sort l) ∙ ap₂ (λ x y. insert x (insert y (sort l))) e' e
sort-perm (Permᴰ.trans p q) = sort-perm p ∙ sort-perm q

-- The listing does not depend on the order in which the directory's names are read.
pub list-perm :
    (probe there : List ℕ → Bool) (dir : List ℕ) (show_all quiet : Bool) (xs ys : List (List ℕ))
    → Permᴰ xs ys
    → list probe there dir show_all quiet (entries xs)
      ≡ list probe there dir show_all quiet (entries ys)
unfolding list
list-perm probe there dir show_all quiet xs ys p =
    ap (λ names. (0, list_entries probe there dir show_all quiet names)) (sort-perm p)
