-- ===== src/Daemon/Signals.antt =====
-- What the daemon uses of `rustix::process::Signal`, which is not part of the repository.
use hytch.Common.{ℕ, ◌≡◌, refl, Option, none, some, ◌==◌, if◌then◌else◌}

pub record SignalCrate : Type 1 where
  pub Signal : Type 0
  pub from_raw : ℕ → Option Signal
  pub term : Signal
  pub kill : Signal
  pub from_raw-term : from_raw 15 ≡ some term
  pub from_raw-kill : from_raw 9 ≡ some kill

-- Signals as their numbers.
abbrev pub numbers : SignalCrate
numbers = record {
  Signal = ℕ;
  from_raw = λ n. if n == 0 then none else some n;
  term = 15;
  kill = 9;
  from_raw-term = refl;
  from_raw-kill = refl;
}
