-- ===== src/Cli/List/Tests.antt =====
-- Tests of the listing.
use hytch.Common.{ℕ, List, [], ◌∷◌, ◌++◌, Bool, true, false, ◌≡◌, refl}
use hytch.Common.Text.{codes}
use hytch.Session.{join_path, same_text}
use hytch.Cli.List.{ReadDir, entries, list}
use hytch.Cli.List.Order.{list-perm}
use mathlib.Core.List.{Permᴰ}

abbrev tmp : List ℕ
tmp = codes "/tmp"

abbrev only_a : List ℕ → Bool
only_a path = same_text path (codes "/tmp/a")

abbrev nothing : List ℕ → Bool
nothing path = false

abbrev found : List (List ℕ)
found = codes "c.log" ∷ codes "b" ∷ codes "a" ∷ []

abbrev found_later : List (List ℕ)
found_later = codes "b" ∷ codes "a" ∷ codes "c.log" ∷ []

shuffled : Permᴰ found found_later
shuffled = Permᴰ.trans (Permᴰ.swap refl refl) (Permᴰ.cons refl (Permᴰ.swap refl refl))

listed : list only_a nothing tmp true false (entries found) ≡ (
  0,
  (codes "a" ++ codes "                        [running]")
      ∷ (codes "b" ++ codes "                        [stale]")
      ∷ (codes "c" ++ codes "                        [exited]")
      ∷ [],
)
unfolding list hytch.Cli.List.running_lines hytch.Cli.List.sort hytch.Cli.List.insert
    hytch.Cli.List.le hytch.Cli.List.is_skipped hytch.Cli.List.strip_suffix
    hytch.Cli.List.exited_lines join_path
listed = refl

list-perm_example :
    list only_a nothing tmp true false (entries found)
    ≡ list only_a nothing tmp true false (entries found_later)
list-perm_example = list-perm only_a nothing tmp true false found found_later shuffled
