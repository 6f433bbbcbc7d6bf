-- ===== src/Cli/Spawn.antt =====
-- crates/cli/src/spawn.rs: the daemon is this program again, with the request as its arguments.
pub mod Arguments
pub mod Wait
mod Tests
use hytch.Common.{
  ℕ, ◌^◌, ◌-◌, Option, none, some, List, [], ◌∷◌, ◌++◌, Bool, true, false, ltb, not, if◌then◌else◌,
}
use hytch.Common.Decimal.{decimal}
use hytch.Common.Results.{Result, ok, err}
use hytch.Common.Text.{codes}
use hytch.Daemon.Setup.{DaemonConfig}
use hytch.Daemon.Loop.{ShutdownReason, child_exited, daemon_signaled}
use hytch.Session.{same_text}

abbrev pub daemon_subcommand : List ℕ
daemon_subcommand = codes "__daemon-run"

pub record SpawnRequest : Type 0 where
  pub socket_path : List ℕ
  pub log_path : Option (List ℕ)
  pub log_max_size : ℕ
  pub scrollback_size : ℕ
  pub rows : ℕ
  pub cols : ℕ
  pub program : List ℕ
  pub args : List (List ℕ)

-- No log is written as `-`.
abbrev pub log_argument : Option (List ℕ) → List ℕ
log_argument none = codes "-"
log_argument (some path) = path

unfoldable pub daemon_run_args : SpawnRequest → List (List ℕ)
daemon_run_args r =
    daemon_subcommand
    ∷ r.socket_path
    ∷ log_argument r.log_path
    ∷ decimal r.log_max_size
    ∷ decimal r.scrollback_size
    ∷ decimal r.rows
    ∷ decimal r.cols
    ∷ r.program
    ∷ r.args

-- What `symlink_metadata` tells of a path.
pub data FileType : Type 0 where
  socket directory other : FileType

-- `none` is an error of the call.
abbrev pub is_socket : Option FileType → Bool
is_socket (some socket) = true
is_socket _ = false

-- A round of the wait: the milliseconds since it began, and what is at the path.
pub record Look : Type 0 where
  pub now : ℕ
  pub found : Option FileType

-- Whether the socket was found; `none` if it is still waited for after all the looks.
pub wait_for_socket : ℕ → List Look → Option Bool
wait_for_socket timeout [] = none
wait_for_socket timeout (p ∷ ps) =
    let rest = wait_for_socket timeout ps in
    if ltb p.now timeout
    then if is_socket p.found then some true else rest
    else some (is_socket p.found)

pub data SpawnError : Type 0 where
  no_executable : SpawnError
  no_process : SpawnError
  no_status : SpawnError
  exited_immediately : SpawnError
  not_ready : SpawnError

-- What the system answers: the program's path, the new process, the looks while it lives, and its end
-- if that comes first, with whether its status could be had.
pub record Answers : Type 0 where
  pub executable : Bool
  pub process : Bool
  pub looks : List Look
  pub ended : Option Bool

-- The end of the process and the wait race: `ended` wins unless the wait has its answer.
pub spawn_detached : Answers → Option (Result SpawnError (Unit {0}))
spawn_detached a =
    if not a.executable
    then some (err no_executable)
    else if not a.process
    then some (err no_process)
    else elim (wait_for_socket 3000 a.looks) [
      | some true ↦ some (ok tt)
      | some false ↦ some (err not_ready)
      | none ↦ elim a.ended [
        | some true ↦ some (err exited_immediately)
        | some false ↦ some (err no_status)
        | none ↦ none
      ]
    ]

-- The configuration that the daemon's process runs.
abbrev pub config_of : SpawnRequest → DaemonConfig
config_of req = record {
  socket_path = req.socket_path;
  log_path = req.log_path;
  log_max_size = req.log_max_size;
  scrollback_size = req.scrollback_size;
  program = req.program;
  args = req.args;
  initial_rows = req.rows;
  initial_cols = req.cols;
}

-- The exit code of the daemon's process; `none` is an error of `run`.
unfoldable pub run_daemon_foreground : Option ShutdownReason → Option ℕ
run_daemon_foreground (some (child_exited (some code))) = some code
run_daemon_foreground (some (child_exited none)) = some 0
run_daemon_foreground (some daemon_signaled) = some 0
run_daemon_foreground none = none
