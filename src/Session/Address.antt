-- ===== src/Session/Address.antt =====
-- `shorten_for_unix_socket` of crates/session/src/lib.rs, with the parent of a path.
pub mod Place
mod Parent
pub mod Shorten
use hytch.Common.{
  ℕ, Option, none, some, List, [], ◌∷◌, ◌++◌, Bool, true, false, ◌&&◌, ◌||◌, length, leb, ◌==◌,
  if◌then◌else◌,
}
use hytch.Session.{slash, dot, same_text, is_empty, split_on, join_with, file_name}

abbrev pub max_socket_path_len : ℕ
max_socket_path_len = 107

abbrev pub is_absolute : List ℕ → Bool
is_absolute [] = false
is_absolute (b ∷ bs) = b == slash

-- A part of a path that `Path` passes over.
abbrev pub is_trivial : List ℕ → Bool
is_trivial part = is_empty part || same_text part dot

abbrev pub unless_alone : Bool → List ℕ → List (List ℕ) → List (List ℕ)
unless_alone dropped x [] = if dropped then [] else x ∷ []
unless_alone dropped x (y ∷ ys) = x ∷ y ∷ ys

-- Without the parts at the end that are passed over.
pub trim : List (List ℕ) → List (List ℕ)
trim [] = []
trim (x ∷ xs) = unless_alone (is_trivial x) x (trim xs)

-- A `.` in front of a relative path counts.
abbrev pub is_passed : Bool → List ℕ → Bool
is_passed rooted x = is_empty x || (rooted && same_text x dot)

pub trim_body : Bool → List (List ℕ) → List (List ℕ)
trim_body rooted [] = []
trim_body rooted (x ∷ xs) = unless_alone (is_passed rooted x) x (trim xs)

pub without_last : List (List ℕ) → List (List ℕ)
without_last [] = []
without_last (x ∷ []) = []
without_last (x ∷ y ∷ ys) = x ∷ without_last (y ∷ ys)

abbrev pub body_parent : Bool → List (List ℕ) → Option (List ℕ)
body_parent rooted [] = none
body_parent rooted (x ∷ xs) =
    some (join_with (slash ∷ []) (trim_body rooted (without_last (x ∷ xs))))

-- `Path::parent`.
pub parent : List ℕ → Option (List ℕ)
parent [] = none
parent (b ∷ bs) =
    if b == slash
    then elim (body_parent true (trim_body true (split_on slash bs))) [
      | some dir ↦ some (slash ∷ dir)
      | none ↦ none
    ]
    else body_parent false (trim_body false (split_on slash (b ∷ bs)))

pub shorten_for_unix_socket : List ℕ → Option (List ℕ × List ℕ)
shorten_for_unix_socket path =
    if leb (length path) max_socket_path_len then none else elim (parent path) [
      | none ↦ none
      | some dir ↦ elim (file_name path) [ some name ↦ some (dir, name) | none ↦ none ]
    ]
