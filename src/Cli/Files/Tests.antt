-- ===== src/Cli/Files/Tests.antt =====
-- Tests of the commands on the files of a session.
use hytch.Common.{none, some, [], ◌∷◌, true, false, ◌≡◌, refl, not, ◌&&◌, ◌||◌, if◌then◌else◌}
use hytch.Common.Results.{err}
use hytch.Common.Text.{codes}
use hytch.Session.{same_text, colon, contains, is_valid_bare_name}
use hytch.Session.Ancestry.{nest}
use hytch.Session.Names.{sockets}
use hytch.Cli.Paths.{Environment}
use hytch.Cli.Files.Cleared.{cmd_clear-current}
use hytch.Cli.Files.{socket, regular, Files, lookup, exists, rm, opened, cmd_clear}
use hytch.Cli.Files.Removed.{IsFile, lookup-rm}

abbrev here : Files
here =
    (codes "/s/a", socket) ∷ (codes "/s/a.log", regular (b'x' ∷ [])) ∷ (codes "/s/b", socket) ∷ []

socket-IsFile : IsFile (codes "/s/a") here
unfolding lookup
socket-IsFile e = absurd (cc)

log-IsFile : IsFile (codes "/s/a.log") here
unfolding lookup
log-IsFile e = absurd (cc)

lookup-rm_example :
    let r = rm false true true (codes "/s/a") (codes "/s/a.log") (codes "a") true here in
    (lookup (codes "/s/a.log") r.2 ≡ (
      if not false
        && (same_text (codes "/s/a") (codes "/s/a.log")
            || same_text (codes "/s/a.log") (codes "/s/a.log"))
      then none
      else lookup (codes "/s/a.log") here))
    × (r.0 ≡ (
        if not false && (exists (codes "/s/a") here || exists (codes "/s/a.log") here)
        then 0
        else 1))
lookup-rm_example =
    lookup-rm false (codes "/s/a") (codes "/s/a.log") (codes "a") true here (codes "/s/a.log")
      socket-IsFile log-IsFile

abbrev plain : Environment
plain = record {
  home = some (codes "/h");
  uid = 7;
  shell = none;
  stdin_is_tty = false;
  stdin_size = err tt;
}

work_valid : is_valid_bare_name (codes "work") ≡ true
unfolding is_valid_bare_name contains
work_valid = refl

no_colon : contains (codes "/s") colon ≡ false
unfolding contains
no_colon = refl

no_colon_work : contains (codes "work") colon ≡ false
unfolding contains
no_colon_work = refl

cmd_clear-current_example :
    cmd_clear plain opened true none
      (nest none (sockets (codes "/s") (codes "work" ∷ [])))
      false
      here
    ≡ cmd_clear plain opened true (some (codes "work")) none false here
cmd_clear-current_example =
    cmd_clear-current plain (codes "/s") (codes "work") opened true false here no_colon work_valid
      no_colon_work none
