-- ===== src/Cli/Command.antt =====
-- The arguments of crates/cli/src/main.rs as its argument parser hands them over.
use hytch.Common.{ℕ, Option, List, Bool, true, false}
use hytch.Cli.Spawn.Arguments.{DaemonRun}

pub data Command : Type 0 where
  attach : List ℕ → Command
  new : List ℕ → List (List ℕ) → Command
  start : List ℕ → List (List ℕ) → Command
  push : List ℕ → Command
  kill : Bool → List ℕ → Command
  clear : Option (List ℕ) → Command
  list : Bool → Command
  rm : Bool → Option (List ℕ) → Command
  current : Command
  daemon_run : DaemonRun → Command
  default : List (List ℕ) → Command

-- What stands before a command.
pub record Cli : Type 0 where
  pub detach_char : Option (List ℕ)
  pub no_detach : Bool
  pub quiet : Bool
  pub log_cap : Option (List ℕ)
  pub command : Option Command

-- `__daemon-run`, which is not part of the public interface.
abbrev pub is_internal : Command → Bool
is_internal (Command.daemon_run d) = true
is_internal _ = false
