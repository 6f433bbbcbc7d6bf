-- ===== src/Cli/Files/Cleared.antt =====
-- `clear` inside a session.
use hytch.Common.{ℕ, ◌≡◌, refl, ◌∙◌, Option, none, some, List, [], ◌∷◌, Bool, true, false}
use hytch.Session.{arrow, colon, contains, is_valid_bare_name}
use hytch.Session.Ancestry.{nest}
use hytch.Session.Names.{sockets, short_name-nest, join_with-one}
use hytch.Cli.Paths.{Environment}
use hytch.Cli.Files.{Files, Opened, cmd_clear}

-- Inside a session that was started outside of all others, `clear` without a name does the same as
-- with the session's name. The name is a valid one, and neither it nor the directory has a colon.
pub cmd_clear-current :
    (env : Environment) (dir name : List ℕ) (answer : Opened) (granted quiet : Bool) (files : Files)
    → contains dir colon ≡ false
    → is_valid_bare_name name ≡ true
    → contains name colon ≡ false
    → (elsewhere : Option (List ℕ))
    → cmd_clear env answer granted none (nest none (sockets dir (name ∷ []))) quiet files
      ≡ cmd_clear env answer granted (some name) elsewhere quiet files
unfolding cmd_clear
cmd_clear-current env dir name answer granted quiet files h valid h' elsewhere =
    let (chain, e, shown) = short_name-nest dir name [] h (valid, h', tt) in
    rw (e, shown ∙ join_with-one arrow name) refl
