-- ===== src/Cli/Main/Request.antt =====
-- From the command line to the daemon's process.
use hytch.Common.{ℕ, none, some, List, ltb, if◌then◌else◌}
use hytch.Cli.Paths.{Environment, socket_path, log_path_for}
use hytch.Cli.Spawn.{SpawnRequest}
use hytch.Daemon.Setup.{DaemonConfig}
use hytch.Cli.Main.{current_terminal_size, program_of, scrollback_size}

module _ (env : Environment) (session : List ℕ) (cmd : List (List ℕ)) (log_max_size : ℕ) where
  -- The request, if the name is accepted.
  abbrev pub request : SpawnRequest
  request = record {
    socket_path = socket_path env session;
    log_path = if ltb 0 log_max_size then some (log_path_for (socket_path env session)) else none;
    log_max_size = log_max_size;
    scrollback_size = scrollback_size;
    rows = (current_terminal_size env).0;
    cols = (current_terminal_size env).1;
    program = (program_of env cmd).0;
    args = (program_of env cmd).1;
  }

  -- The daemon's configuration that is asked for.
  abbrev pub asked_config : DaemonConfig
  asked_config = record {
    socket_path = socket_path env session;
    log_path = if ltb 0 log_max_size then some (log_path_for (socket_path env session)) else none;
    log_max_size = log_max_size;
    scrollback_size = scrollback_size;
    program = (program_of env cmd).0;
    args = (program_of env cmd).1;
    initial_rows = (current_terminal_size env).0;
    initial_cols = (current_terminal_size env).1;
  }
