-- ===== src/Cli/List.antt =====
-- `list` of crates/cli/src/commands.rs. Names are ASCII text; `probe` is whether a daemon listens at a
-- path, `there` whether a path exists.
pub mod Order
mod Tests
use hytch.Common.{
  ℕ, ◌+◌, ◌-◌, Option, none, some, List, [], ◌∷◌, ◌++◌, Bool, true, false, not, ◌&&◌, ◌||◌, map,
  length, take, drop, replicate, ltb, leb, ◌==◌, if◌then◌else◌,
}
use hytch.Common.Text.{codes}
use hytch.Session.{same_text, is_empty, join_path}

-- `OsString`'s order: byte by byte.
unfoldable pub le : List ℕ → List ℕ → Bool
le [] ys = true
le (x ∷ xs) [] = false
le (x ∷ xs) (y ∷ ys) = let rest = le xs ys in if x == y then rest else ltb x y

pub insert : List ℕ → List (List ℕ) → List (List ℕ)
insert a [] = a ∷ []
insert a (x ∷ xs) = let rest = insert a xs in if le a x then a ∷ x ∷ xs else x ∷ rest

-- `sort_by_key` on the names.
pub sort : List (List ℕ) → List (List ℕ)
sort [] = []
sort (x ∷ xs) = insert x (sort xs)

pub strip_suffix : List ℕ → List ℕ → Option (List ℕ)
strip_suffix name suffix =
    let n = length name - length suffix in
    if leb (length suffix) (length name) && same_text (drop n name) suffix
    then some (take n name)
    else none

-- A dot in front, or a log.
abbrev pub is_hidden : List ℕ → Bool
is_hidden [] = false
is_hidden (c ∷ s) = c == b'.'

pub is_skipped : List ℕ → Bool
is_skipped name = elim (strip_suffix name (codes ".log")) [
  | some base ↦ true
  | none ↦ is_hidden name
]

-- `{name:<24} ..`.
abbrev pub line : List ℕ → List ℕ → List ℕ
line name state = name ++ (replicate (24 - length name) b' ' ++ (b' ' ∷ state))

pub running_lines : (List ℕ → Bool) → List ℕ → List (List ℕ) → List (List ℕ)
running_lines probe dir [] = []
running_lines probe dir (name ∷ names) =
    let rest = running_lines probe dir names in
    if is_skipped name
    then rest
    else line name (if probe (join_path dir name) then codes "[running]" else codes "[stale]")
      ∷ rest

pub exited_lines : (List ℕ → Bool) → List ℕ → List (List ℕ) → List (List ℕ)
exited_lines there dir [] = []
exited_lines there dir (name ∷ names) =
    let rest = exited_lines there dir names in
    elim (strip_suffix name (codes ".log")) [
      | some base ↦ if there (join_path dir base) then rest else line base (codes "[exited]") ∷ rest
      | none ↦ rest
    ]

pub data ReadDir : Type 0 where
  entries : List (List ℕ) → ReadDir
  missing : ReadDir
  failed : List ℕ → ReadDir

-- The line for no sessions.
abbrev pub or_none : Bool → List (List ℕ) → List (List ℕ)
or_none quiet [] = if quiet then [] else codes "(no sessions)" ∷ []
or_none quiet (l ∷ ls) = l ∷ ls

abbrev pub list_entries :
    (List ℕ → Bool) → (List ℕ → Bool) → List ℕ → Bool → Bool → List (List ℕ) → List (List ℕ)
list_entries probe there dir show_all quiet names =
    or_none quiet
      (running_lines probe dir names ++ (if show_all then exited_lines there dir names else []))

-- The exit code and the lines.
unfoldable pub list :
    (List ℕ → Bool) → (List ℕ → Bool) → List ℕ → Bool → Bool → ReadDir → ℕ × List (List ℕ)
list probe there dir show_all quiet missing = (0, or_none quiet [])
list probe there dir show_all quiet (failed text) =
    (1, (codes "hytch: " ++ (dir ++ (codes ": " ++ text))) ∷ [])
list probe there dir show_all quiet (entries found) =
    (0, list_entries probe there dir show_all quiet (sort found))
