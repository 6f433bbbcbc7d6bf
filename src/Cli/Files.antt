-- ===== src/Cli/Files.antt =====
-- `rm`, `clear` and `current` of crates/cli/src/commands.rs, over the files of the session directories.
pub mod Removed
pub mod Cleared
mod Tests
use hytch.Common.{
  ℕ, Option, none, some, List, [], ◌∷◌, ◌++◌, Bool, true, false, not, ◌&&◌, ◌||◌, if◌then◌else◌,
}
use hytch.Common.Text.{codes}
use hytch.Session.{same_text, short_name}
use hytch.Cli.Paths.{Environment, socket_path, log_path_for}
use mathlib.Core.Option

pub data Node : Type 0 where
  socket : Node
  regular : List ℕ → Node
  directory : Node

-- Paths with what is there, the first entry of a path counting.
abbrev pub Files : Type 0
Files = List (List ℕ × Node)

unfoldable pub lookup : List ℕ → Files → Option Node
lookup path [] = none
lookup path ((p, n) ∷ files) = if same_text p path then some n else lookup path files

-- `exists`.
abbrev pub exists : List ℕ → Files → Bool
exists path files = elim (lookup path files) [ some n ↦ true | none ↦ false ]

pub unlink : List ℕ → Files → Files
unlink path [] = []
unlink path ((p, n) ∷ files) =
    let rest = unlink path files in if same_text p path then rest else (p, n) ∷ rest

-- `remove_file`, which does not remove a directory; the answer is not looked at.
pub remove_file : Bool → List ℕ → Files → Files
remove_file granted path files = elim (lookup path files) [
  | some directory ↦ files
  | some socket ↦ if granted then unlink path files else files
  | some (regular bytes) ↦ if granted then unlink path files else files
  | none ↦ files
]

-- The exit code, what is printed, and the files.
abbrev pub Outcome : Type 0
Outcome = ℕ × List ℕ × Files

abbrev pub quoted : List ℕ → List ℕ → List ℕ
quoted name rest = codes "hytch: session '" ++ (name ++ (codes "' " ++ rest))

abbrev pub removed_text : Bool → List ℕ → List ℕ
removed_text quiet name = if quiet then [] else quoted name (codes "removed")

unfoldable pub rm : Bool → Bool → Bool → List ℕ → List ℕ → List ℕ → Bool → Files → Outcome
rm listening socket_granted log_granted socket_path log_path name quiet files =
    let had_socket = exists socket_path files in
    let had_log = exists log_path files in
    let left = remove_file log_granted log_path (remove_file socket_granted socket_path files) in
    if listening
    then (
      1,
      quoted name (codes "is running (use 'hytch kill " ++ (name ++ codes "' first)")),
      files,
    )
    else if not had_socket && not had_log
    then (1, quoted name (codes "does not exist"), left)
    else (0, removed_text quiet name, left)

-- Opening a path to write: `none` for what the system refuses.
pub data Opened : Type 0 where
  opened : Opened
  missing : Opened
  failed : List ℕ → Opened

pub set_empty : List ℕ → Files → Files
set_empty path [] = []
set_empty path ((p, n) ∷ files) =
    let rest = set_empty path files in
    if same_text p path then (p, regular []) ∷ rest else (p, n) ∷ rest

unfoldable pub clear : Opened → Bool → List ℕ → List ℕ → Bool → Files → Outcome
clear opened granted log_path name quiet files =
    (0, [], if granted then set_empty log_path files else files)
clear missing granted log_path name quiet files = (0, [], files)
clear (failed text) granted log_path name quiet files =
    (1, if quiet then [] else codes "hytch: " ++ (name ++ (codes ": " ++ text)), files)

unfoldable pub current : Option (List ℕ) → ℕ × List ℕ
current none = (1, [])
current (some []) = (1, [])
current (some (b ∷ bs)) = (0, short_name (b ∷ bs))

-- `cmd_rm` and `cmd_clear` of crates/cli/src/main.rs.
unfoldable pub cmd_rm :
    Environment → Bool → Bool → Bool → Bool → Option (List ℕ) → Bool → Files → Outcome
cmd_rm env listening socket_granted log_granted true session quiet files =
    (1, codes "hytch: rm -a is not implemented yet; remove sessions by name for now", files)
cmd_rm env listening socket_granted log_granted false none quiet files =
    (1, codes "hytch: a session name is required (or use -a)", files)
cmd_rm env listening socket_granted log_granted false (some name) quiet files =
    let path = socket_path env name in
    rm listening socket_granted log_granted path (log_path_for path) name quiet files

-- The name given, or else the short form of the chain around.
abbrev pub named : Option (List ℕ) → Option (List ℕ) → Option (List ℕ)
named (some name) chain = some name
named none chain = Option.map short_name chain

unfoldable pub cmd_clear :
    Environment → Opened → Bool → Option (List ℕ) → Option (List ℕ) → Bool → Files → Outcome
cmd_clear env answer granted session chain quiet files = elim (named session chain) [
  | none ↦ (1, codes "hytch: no session specified and not inside one", files)
  | some name ↦ clear answer granted (log_path_for (socket_path env name)) name quiet files
]
