-- ===== src/Session/Names.antt =====
-- From a session's name to its socket and back.
use hytch.Common.{
  ℕ, ◌≡◌, refl, sym, ap, ◌∙◌, inl, inr, none, some, List, [], ◌∷◌, ◌++◌, true, false, Bool-cases,
  map, arith, append_assoc,
}
use hytch.Session.{
  slash, colon, dot, dot_dot, contains, split_on, same_text, is_empty, ends_in_slash, join_path,
  resolve_socket_path, extend_ancestry, is_valid_bare_name, components, last_of, file_name,
  display_name, arrow, join_with, short_name,
}
use hytch.Session.Split.{split_on-append, split_on-whole, contains-append}
use hytch.Session.Ancestry.{nest, IsLink, AllLinks, segments, segments-nest}

components-append : (xs ys : List (List ℕ)) → components (xs ++ ys) ≡ components xs ++ components ys
unfolding components
components-append [] ys = refl
components-append (x ∷ xs) ys = ground (arith, components-append xs ys)

pub last_of-append : (xs : List (List ℕ)) (x : List ℕ) → last_of (xs ++ (x ∷ [])) ≡ some x
last_of-append [] x = refl
last_of-append (y ∷ []) x = refl
last_of-append (y ∷ z ∷ zs) x = last_of-append (z ∷ zs) x

-- What a valid name is.
valid_parts :
    (name : List ℕ)
    → is_valid_bare_name name ≡ true
    → (is_empty name ≡ false)
      × (same_text name dot ≡ false)
      × (same_text name dot_dot ≡ false)
      × (contains name slash ≡ false)
unfolding is_valid_bare_name
valid_parts name h = ground arith

ends_in_slash_lem :
    (dir : List ℕ) → ends_in_slash dir ≡ true → (d : List ℕ) × (dir ≡ d ++ (slash ∷ []))
ends_in_slash_lem [] h = absurd (cc)
ends_in_slash_lem (b ∷ []) h = let e : b ≡ slash = ground arith in ([], ap (λ x. x ∷ []) e)
ends_in_slash_lem (b ∷ c ∷ bs) h =
    let (d, e) = ends_in_slash_lem (c ∷ bs) h in (b ∷ d, ap (λ l. b ∷ l) e)

-- The name is the last part of the joined path.
join_path_parts :
    (dir name : List ℕ)
    → contains name slash ≡ false
    → (front : List (List ℕ)) × (split_on slash (join_path dir name) ≡ front ++ (name ∷ []))
unfolding join_path
join_path_parts [] name h = ([], split_on-whole slash name h)
join_path_parts (b ∷ bs) name h = elim (Bool-cases (ends_in_slash (b ∷ bs))) [
  | inl e ↦
      let (d, e') = ends_in_slash_lem (b ∷ bs) e in
      let joined : join_path (b ∷ bs) name ≡ d ++ (slash ∷ name) =
        rw (join_path, e) (ap (λ l. l ++ name) e' ∙ append_assoc d (slash ∷ []) name) in
      (
        split_on slash d,
        ap (split_on slash) joined
            ∙ split_on-append slash d name
            ∙ ap (λ l. split_on slash d ++ l) (split_on-whole slash name h),
      )
  | inr e ↦
      let joined : join_path (b ∷ bs) name ≡ (b ∷ bs) ++ (slash ∷ name) = rw (join_path, e) refl in
      (
        split_on slash (b ∷ bs),
        ap (split_on slash) joined
            ∙ split_on-append slash (b ∷ bs) name
            ∙ ap (λ l. split_on slash (b ∷ bs) ++ l) (split_on-whole slash name h),
      )
]

-- The socket of a session with a valid bare name is the file of that name, whatever the directory:
-- no two names share a socket, and none is the directory itself.
pub file_name-resolve_socket_path :
    (name dir : List ℕ)
    → is_valid_bare_name name ≡ true
    → file_name (resolve_socket_path name dir) ≡ some name
unfolding file_name resolve_socket_path components
file_name-resolve_socket_path name dir h =
    let (some_byte, no_dot, no_dots, no_slash) = valid_parts name h in
    let (front, e) = join_path_parts dir name no_slash in
    let resolved : resolve_socket_path name dir ≡ join_path dir name = ground arith in
    let only : components (name ∷ []) ≡ name ∷ [] = ground arith in
    let found : last_of (components (split_on slash (resolve_socket_path name dir))) ≡ some name =
      ap (λ p. last_of (components (split_on slash p))) resolved
      ∙ ap (λ l. last_of (components l)) e
      ∙ ap last_of (components-append front (name ∷ []) ∙ ap (λ l. components front ++ l) only)
      ∙ last_of-append (components front) name in
    ground arith

join_path-contains :
    (dir name : List ℕ)
    → contains dir colon ≡ false
    → contains name colon ≡ false
    → contains (join_path dir name) colon ≡ false
unfolding join_path contains
join_path-contains dir name h h' =
    let plain = contains-append dir name colon in
    let joined = contains-append dir (slash ∷ name) colon in ground arith

resolve_socket_path-IsLink :
    (dir name : List ℕ)
    → contains dir colon ≡ false
    → is_valid_bare_name name ≡ true
    → contains name colon ≡ false
    → IsLink (resolve_socket_path name dir)
unfolding resolve_socket_path file_name components split_on
resolve_socket_path-IsLink dir name h valid h' =
    let (some_byte, no_dot, no_dots, no_slash) = valid_parts name valid in
    let resolved : resolve_socket_path name dir ≡ join_path dir name = ground arith in
    let named = file_name-resolve_socket_path name dir valid in
    (
      λ e. let nothing = sym (ap file_name e) ∙ named in cc nothing,
      ap (λ p. contains p colon) resolved ∙ join_path-contains dir name h h',
    )

-- Names for sessions in the session directory, which can also stand in a chain.
abbrev pub AllNames : List (List ℕ) → Type 0
AllNames [] = Unit
AllNames (n ∷ ns) = (is_valid_bare_name n ≡ true) × (contains n colon ≡ false) × AllNames ns

abbrev pub sockets : List ℕ → List (List ℕ) → List (List ℕ)
sockets dir [] = []
sockets dir (n ∷ ns) = resolve_socket_path n dir ∷ sockets dir ns

sockets-AllLinks :
    (dir : List ℕ) (names : List (List ℕ))
    → contains dir colon ≡ false
    → AllNames names
    → AllLinks (sockets dir names)
sockets-AllLinks dir [] h all = tt
sockets-AllLinks dir (n ∷ ns) h (valid, no_colon, all) =
    (resolve_socket_path-IsLink dir n h valid no_colon, sockets-AllLinks dir ns h all)

display_names :
    (dir : List ℕ) (names : List (List ℕ))
    → AllNames names
    → map display_name (sockets dir names) ≡ names
unfolding display_name
display_names dir [] all = refl
display_names dir (n ∷ ns) (valid, no_colon, all) =
    let named = file_name-resolve_socket_path n dir valid in
    let shown : display_name (resolve_socket_path n dir) ≡ n = ground arith in
    ap (λ x. x ∷ map display_name (sockets dir ns)) shown
    ∙ ap (λ l. n ∷ l) (display_names dir ns all)

nest-some : (ps : List (List ℕ)) (chain : List ℕ) → (c : List ℕ) × (nest (some chain) ps ≡ some c)
unfolding nest
nest-some [] chain = (chain, refl)
nest-some (p ∷ ps) chain = nest-some ps (extend_ancestry (some chain) p)

chain_parts :
    (c : List ℕ) (p : List ℕ) (ps : List (List ℕ))
    → segments (some c) ≡ p ∷ ps
    → split_on colon c ≡ p ∷ ps
unfolding segments
chain_parts [] p ps e = absurd (cc)
chain_parts (b ∷ bs) p ps e = e

-- In sessions of the session directory, each started from within the one before, the short form of
-- the chain is their names, outermost first, with arrows between. The names are valid ones, and
-- neither they nor the directory has a colon.
pub short_name-nest :
    (dir n : List ℕ) (ns : List (List ℕ))
    → contains dir colon ≡ false
    → AllNames (n ∷ ns)
    → (chain : List ℕ) × (nest none (sockets dir (n ∷ ns)) ≡ some chain)
      × (short_name chain ≡ join_with arrow (n ∷ ns))
unfolding nest short_name segments
short_name-nest dir n ns h all =
    let (c, e) = nest-some (sockets dir ns) (extend_ancestry none (resolve_socket_path n dir)) in
    let parts = segments-nest (sockets dir (n ∷ ns)) none (sockets-AllLinks dir (n ∷ ns) h all) in
    let split = chain_parts c _ (sockets dir ns) (sym (ap segments e) ∙ parts) in
    (
      c,
      e,
      ap (λ l. join_with arrow (map display_name l)) split
          ∙ ap (join_with arrow) (display_names dir (n ∷ ns) all),
    )

pub join_with-one : (sep x : List ℕ) → join_with sep (x ∷ []) ≡ x
unfolding join_with
join_with-one sep x = refl
