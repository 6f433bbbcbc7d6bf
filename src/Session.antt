-- ===== src/Session.antt =====
-- crates/session/src/lib.rs: the names of sessions, their sockets, and chains of nested sessions. Text
-- is a list of bytes; `home` directories and chains may be missing.
pub mod Split
pub mod Ancestry
pub mod Names
pub mod Address
mod Tests
use hytch.Common.{
  ℕ, Option, none, some, List, [], ◌∷◌, ◌++◌, Bool, true, false, not, ◌&&◌, ◌||◌, map, length, leb,
  ◌==◌, if◌then◌else◌,
}
use hytch.Common.Decimal.{decimal}

abbrev pub slash : ℕ
slash = b'/'

abbrev pub colon : ℕ
colon = b':'

abbrev pub dot : List ℕ
dot = b'.' ∷ []

abbrev pub dot_dot : List ℕ
dot_dot = b'.' ∷ b'.' ∷ []

-- `==` on text.
abbrev pub same_text : List ℕ → List ℕ → Bool
same_text [] [] = true
same_text [] (y ∷ ys) = false
same_text (x ∷ xs) [] = false
same_text (x ∷ xs) (y ∷ ys) = if x == y then same_text xs ys else false

abbrev pub is_empty : List ℕ → Bool
is_empty [] = true
is_empty (x ∷ xs) = false

-- `contains` for a character.
unfoldable pub contains : List ℕ → ℕ → Bool
contains [] c = false
contains (b ∷ bs) c = (b == c) || contains bs c

abbrev pub cons_first : ℕ → List (List ℕ) → List (List ℕ)
cons_first b [] = (b ∷ []) ∷ []
cons_first b (x ∷ xs) = (b ∷ x) ∷ xs

-- `split` at a character: one part more than there are separators.
pub split_on : ℕ → List ℕ → List (List ℕ)
split_on sep [] = [] ∷ []
split_on sep (b ∷ bs) =
    let rest = split_on sep bs in if b == sep then [] ∷ rest else cons_first b rest

-- `join` with a separator.
pub join_with : List ℕ → List (List ℕ) → List ℕ
join_with sep [] = []
join_with sep (x ∷ []) = x
join_with sep (x ∷ y ∷ ys) = x ++ (sep ++ join_with sep (y ∷ ys))

-- `filter` on a `Option<&str>`.
abbrev pub non_empty : Option (List ℕ) → Option (List ℕ)
non_empty none = none
non_empty (some c) = if is_empty c then none else some c

pub usable_home : Option (List ℕ) → Option (List ℕ)
usable_home none = none
usable_home (some h) = if not (is_empty h) && not (same_text h (slash ∷ [])) then some h else none

abbrev pub cache_of : List ℕ → List ℕ → List ℕ
cache_of home prog_basename =
    home ++ (b'/' ∷ b'.' ∷ b'c' ∷ b'a' ∷ b'c' ∷ b'h' ∷ b'e' ∷ b'/' ∷ prog_basename)

pub resolve_session_dir : Option (List ℕ) → Option (List ℕ) → List ℕ → ℕ → List ℕ
resolve_session_dir env_home passwd_home prog_basename uid = elim (usable_home env_home) [
  | some home ↦ cache_of home prog_basename
  | none ↦ elim (usable_home passwd_home) [
    | some home ↦ cache_of home prog_basename
    | none ↦ b'/' ∷ b't' ∷ b'm' ∷ b'p' ∷ b'/' ∷ b'.' ∷ (prog_basename ++ (b'-' ∷ decimal uid))
  ]
]

abbrev pub ends_in_slash : List ℕ → Bool
ends_in_slash [] = false
ends_in_slash (b ∷ []) = b == slash
ends_in_slash (b ∷ c ∷ bs) = ends_in_slash (c ∷ bs)

-- `Path::join` with a relative path.
unfoldable pub join_path : List ℕ → List ℕ → List ℕ
join_path dir name =
    if is_empty dir || ends_in_slash dir then dir ++ name else dir ++ (slash ∷ name)

unfoldable pub resolve_socket_path : List ℕ → List ℕ → List ℕ
resolve_socket_path name session_dir =
    if contains name slash then name else join_path session_dir name

unfoldable pub is_valid_bare_name : List ℕ → Bool
is_valid_bare_name name =
    not (is_empty name)
    && not (same_text name dot)
    && not (same_text name dot_dot)
    && not (contains name slash)

pub extend_ancestry : Option (List ℕ) → List ℕ → List ℕ
extend_ancestry current new_socket_path = elim (non_empty current) [
  | some chain ↦ chain ++ (colon ∷ new_socket_path)
  | none ↦ new_socket_path
]

-- `any` for a segment that is the target.
pub any_same : List (List ℕ) → List ℕ → Bool
any_same [] target = false
any_same (x ∷ xs) target = same_text x target || any_same xs target

unfoldable pub ancestry_contains : Option (List ℕ) → List ℕ → Bool
ancestry_contains chain target = elim (non_empty chain) [
  | some c ↦ any_same (split_on colon c) target
  | none ↦ false
]

-- The parts of a path that name something: empty parts and `.` do not.
pub components : List (List ℕ) → List (List ℕ)
components [] = []
components (x ∷ xs) =
    let rest = components xs in if is_empty x || same_text x dot then rest else x ∷ rest

abbrev pub last_of : List (List ℕ) → Option (List ℕ)
last_of [] = none
last_of (x ∷ []) = some x
last_of (x ∷ y ∷ ys) = last_of (y ∷ ys)

-- `Path::file_name`: the last component, unless that is `..` or there is none.
pub file_name : List ℕ → Option (List ℕ)
file_name path = elim (last_of (components (split_on slash path))) [
  | some name ↦ if same_text name dot_dot then none else some name
  | none ↦ none
]

-- The file's name, or the path where there is none.
pub display_name : List ℕ → List ℕ
display_name path = elim (file_name path) [ some name ↦ name | none ↦ path ]

abbrev pub arrow : List ℕ
arrow = b' ' ∷ b'>' ∷ b' ' ∷ []

pub short_name : List ℕ → List ℕ
short_name chain = join_with arrow (map display_name (split_on colon chain))
