-- ===== src/Client/RawMode.antt =====
-- crates/client/src/raw_mode.rs: raw mode for as long as a guard lives. The state is the terminal's
-- attributes; each call takes the terminal's answer.
use hytch.Common.{Bool, if◌then◌else◌}
use hytch.Common.Results.{Result, ok, err}

-- What is used of `rustix::termios`, which is not part of the repository.
pub record TermiosCrate : Type 1 where
  pub Termios : Type 0
  pub make_raw : Termios → Termios

module _ (t : TermiosCrate) where
  -- The descriptor is the terminal's.
  pub record RawModeGuard : Type 0 where
    pub original : t.Termios

  -- `tcsetattr`: a call that fails changes nothing.
  abbrev pub tcsetattr : Bool → t.Termios → t.Termios → t.Termios
  tcsetattr granted attrs tty = if granted then attrs else tty

  unfoldable pub enable : Bool → Bool → t.Termios → Result (Unit {0}) RawModeGuard × t.Termios
  enable got set tty =
      if got
      then if set
        then (ok (record { original = tty }), tcsetattr set (t.make_raw tty) tty)
        else (err tt, tcsetattr set (t.make_raw tty) tty)
      else (err tt, tty)

  -- `drop`, which ignores the answer.
  abbrev pub drop_guard : Bool → RawModeGuard → t.Termios → t.Termios
  drop_guard restored guard tty = tcsetattr restored guard.original tty
