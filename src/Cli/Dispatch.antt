-- ===== src/Cli/Dispatch.antt =====
-- `main` of crates/cli/src/main.rs: from the arguments to the exit code.
pub mod ExitCode
mod Tests
use hytch.Common.{ℕ, Option, none, some, List, [], Bool, true, false}
use hytch.Common.Results.{Result}
use hytch.Proto.Buffer.{BytesCrate}
use hytch.Daemon.Loop.{ShutdownReason}
use hytch.Cli.Command.{Command, Cli}
use hytch.Cli.Paths.{Environment, session_dir}
use hytch.Cli.Files.{Files, Opened, cmd_rm, cmd_clear, current}
use hytch.Cli.List.{ReadDir, list}
use hytch.Cli.Push.{Round, push}
use hytch.Cli.Kill.{Poll, kill}
use hytch.Cli.Options.{parse_log_cap, detach_char}
use hytch.Cli.Spawn.{run_daemon_foreground}
use hytch.Cli.Main.{Calls, cmd_attach, cmd_new, cmd_start, cmd_default}

-- What the calls of each command answer: the chain around the process, the files, the calls of an
-- attach or a spawn, the connection and the rounds of `push`, the sends and polls of `kill`, and what
-- the others find.
pub record World : Type 0 where
  pub env : Environment
  pub chain : Option (List ℕ)
  pub files : Files
  pub calls : Calls
  pub connected : Bool
  pub rounds : List Round
  pub sent : Bool
  pub polls : List Poll
  pub sent_again : Bool
  pub more_polls : List Poll
  pub opened : Opened
  pub truncated : Bool
  pub listening : Bool
  pub socket_granted : Bool
  pub log_granted : Bool
  pub directory : ReadDir
  pub probe : List ℕ → Bool
  pub there : List ℕ → Bool
  pub daemon : Option ShutdownReason

-- `Err(e) => 1`.
abbrev pub daemon_code : Option ℕ → ℕ
daemon_code none = 1
daemon_code (some code) = code

-- The exit code, unless the command is not done after the rounds and polls that are given.
pub dispatch : BytesCrate → World → Cli → Command → Option ℕ
dispatch b w cli (Command.attach session) =
    some (cmd_attach w.env session (detach_char cli.no_detach cli.detach_char) w.calls).0
dispatch b w cli (Command.new session cmd) =
    some
      (cmd_new w.env session cmd (parse_log_cap cli.log_cap)
        (detach_char cli.no_detach cli.detach_char) cli.quiet w.calls).0
dispatch b w cli (Command.start session cmd) =
    some (cmd_start w.env session cmd (parse_log_cap cli.log_cap) cli.quiet w.calls).0
dispatch b w cli (Command.push session) = (push b w.connected w.rounds).0
dispatch b w cli (Command.kill force session) =
    (kill force w.sent w.polls w.sent_again w.more_polls).0
dispatch b w cli (Command.clear session) =
    some (cmd_clear w.env w.opened w.truncated session w.chain cli.quiet w.files).0
dispatch b w cli (Command.list all) =
    some (list w.probe w.there (session_dir w.env) all cli.quiet w.directory).0
dispatch b w cli (Command.rm all session) =
    some (cmd_rm w.env w.listening w.socket_granted w.log_granted all session cli.quiet w.files).0
dispatch b w cli Command.current = some (current w.chain).0
dispatch b w cli (Command.daemon_run d) = some (daemon_code (run_daemon_foreground w.daemon))
dispatch b w cli (Command.default rest) =
    some
      (cmd_default w.env rest (parse_log_cap cli.log_cap)
        (detach_char cli.no_detach cli.detach_char) cli.quiet w.calls).0

pub main : BytesCrate → World → Cli → Option ℕ
main b w cli = elim cli.command [ some command ↦ dispatch b w cli command | none ↦ some 1 ]
