-- ===== src/Session/Address/Shorten.antt =====
-- A long path against its short form: the parent and the name.
use hytch.Common.{
  ℕ, ◌≡◌, refl, sym, ap, ◌∙◌, inl, inr, none, some, List, [], ◌∷◌, ◌++◌, true, false, arith, length,
  leb, Option-cases,
}
use hytch.Session.{slash, contains, split_on, components, last_of, file_name}
use hytch.Session.Split.{split_on-whole}
use hytch.Session.Names.{last_of-append}
use mathlib.Core.Option.{some-injective}
use hytch.Session.Address.{
  max_socket_path_len, is_absolute, is_trivial, parent, shorten_for_unix_socket,
}
use hytch.Session.Address.Parent.{names-parent, parent-some}
use hytch.Session.Address.Place.{names, last_of-components, split_on-AllParts}

shorten-parts :
    (path dir name : List ℕ)
    → shorten_for_unix_socket path ≡ some (dir, name)
    → (parent path ≡ some dir) × (file_name path ≡ some name)
unfolding shorten_for_unix_socket
shorten-parts path dir name e = elim (Option-cases (parent path)) [
  | inl p ↦ absurd (ground arith)
  | inr (d, p) ↦ elim (Option-cases (file_name path)) [
    | inl q ↦ absurd (ground arith)
    | inr (n, q) ↦
        let found : shorten_for_unix_socket path ≡ some (d, n) = ground arith in
        let pair = some-injective _ _ (sym found ∙ e) in
        (p ∙ ap (λ x. some x.0) pair, q ∙ ap (λ x. some x.1) pair)
  ]
]

last_of-names : (path name : List ℕ) → file_name path ≡ some name → last_of (names path) ≡ some name
unfolding file_name names
last_of-names path name e = ground arith

is_absolute-name : (name : List ℕ) → contains name slash ≡ false → is_absolute name ≡ false
unfolding contains
is_absolute-name [] h = refl
is_absolute-name (b ∷ bs) h = ground arith

names-name :
    (name : List ℕ) → is_trivial name ≡ false → contains name slash ≡ false → names name ≡ name ∷ []
unfolding names components
names-name name h h' = ap components (split_on-whole slash name h') ∙ rw h refl

-- The short form of a path: a directory that starts where the path does, and a name.
pub shorten-names :
    (path dir name : List ℕ)
    → shorten_for_unix_socket path ≡ some (dir, name)
    → (names path ≡ names dir ++ names name)
      × (is_absolute dir ≡ is_absolute path)
      × (is_absolute name ≡ false)
      × (file_name path ≡ some name)
unfolding names
shorten-names path dir name e =
    let (above, named) = shorten-parts path dir name e in
    let last = last_of-names path name named in
    let ((n, parts), start) = names-parent path dir (λ nothing. absurd (ground arith)) above in
    let same : n ≡ name =
      some-injective _ _ (sym (last_of-append (names dir) n) ∙ ap last_of (sym parts) ∙ last) in
    let (counts, plain) =
      last_of-components (split_on slash path) name (split_on-AllParts path) last in
    (
      parts ∙ ap (λ m. names dir ++ m) (ap (λ m. m ∷ []) same ∙ sym (names-name name counts plain)),
      start,
      is_absolute-name name plain,
      named,
    )

-- A long path whose file has a name has a short form.
pub shorten-some :
    (path name : List ℕ)
    → file_name path ≡ some name
    → leb (length path) max_socket_path_len ≡ false
    → (dir : List ℕ) × (shorten_for_unix_socket path ≡ some (dir, name))
unfolding shorten_for_unix_socket
shorten-some path name named long =
    let last = last_of-names path name named in
    let (dir, above) = parent-some path (λ nothing. absurd (ground arith)) in
    (dir, rw (long, above, named) refl)

pub shorten-fits :
    (path : List ℕ)
    → leb (length path) max_socket_path_len ≡ true
    → shorten_for_unix_socket path ≡ none
unfolding shorten_for_unix_socket
shorten-fits path fits = rw fits refl
