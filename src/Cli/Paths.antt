-- ===== src/Cli/Paths.antt =====
-- crates/cli/src/paths.rs: a session's paths, from the environment of the process.
use hytch.Common.{ℕ, Option, none, Bool, List, ◌++◌}
use hytch.Common.Results.{Result}
use hytch.Common.Text.{codes}
use hytch.Client.Resize.{Winsize}
use hytch.Session.{resolve_session_dir, resolve_socket_path}

pub record Environment : Type 0 where
  pub home : Option (List ℕ)
  pub uid : ℕ
  pub shell : Option (List ℕ)
  pub stdin_is_tty : Bool
  pub stdin_size : Result (Unit {0}) Winsize

abbrev pub session_dir : Environment → List ℕ
session_dir env = resolve_session_dir env.home none (codes "hytch") env.uid

abbrev pub socket_path : Environment → List ℕ → List ℕ
socket_path env name = resolve_socket_path name (session_dir env)

abbrev pub log_path_for : List ℕ → List ℕ
log_path_for path = path ++ codes ".log"
