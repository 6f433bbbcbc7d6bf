-- ===== src/Session/Tests.antt =====
-- Names and chains on concrete text.
use hytch.Common.{ℕ, ◌≡◌, refl, ◌↔◌, ◌⊎◌, some, none, List, [], ◌∷◌, true, false}
use hytch.Session.{
  slash, colon, arrow, contains, is_valid_bare_name, file_name, resolve_socket_path,
  ancestry_contains, any_same, short_name, join_with, split_on, display_name, components,
}
use hytch.Session.Ancestry.{nest, OneOf, ancestry_contains-nest}
use hytch.Session.Names.{sockets, short_name-nest}

abbrev dir : List ℕ
dir = b'/' ∷ b'd' ∷ []

abbrev work : List ℕ
work = b'w' ∷ []

abbrev inner : List ℕ
inner = b'i' ∷ b'n' ∷ []

work_valid : is_valid_bare_name work ≡ true
work_valid = unfold is_valid_bare_name contains in refl

inner_valid : is_valid_bare_name inner ≡ true
inner_valid = unfold is_valid_bare_name contains in refl

-- A socket whose path has a colon is not found in its own chain: the guard does not hold there.
colon_missed :
    ancestry_contains (nest none ((b'a' ∷ b':' ∷ b'b' ∷ []) ∷ [])) (b'a' ∷ b':' ∷ b'b' ∷ []) ≡ false
colon_missed = unfold ancestry_contains nest hytch.Session.extend_ancestry split_on any_same in refl

ancestry_contains-nest_example :
    ((ancestry_contains (nest none (work ∷ inner ∷ [])) inner ≡ true)
      ↔ ((ancestry_contains none inner ≡ true) ⊎ OneOf inner (work ∷ inner ∷ [])))
    × (ancestry_contains none inner ≡ false)
ancestry_contains-nest_example =
    ancestry_contains-nest none (work ∷ inner ∷ []) inner
      ((λ e. cc, unfold contains in refl), ((λ e. cc, unfold contains in refl), tt))

short_name-nest_example :
    (chain : List ℕ) × (nest none (sockets dir (work ∷ inner ∷ [])) ≡ some chain)
    × (short_name chain ≡ join_with arrow (work ∷ inner ∷ []))
short_name-nest_example =
    short_name-nest dir work (inner ∷ []) (unfold contains in refl)
      (work_valid, unfold contains in refl, (inner_valid, unfold contains in refl, tt))
