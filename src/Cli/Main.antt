-- ===== src/Cli/Main.antt =====
-- The commands of crates/cli/src/main.rs that create and attach. What the calls that they make answer
-- is given; what they do, in order, is a list of effects.
pub mod Replay
pub mod Request
mod Tests
use hytch.Common.{
  ℕ, Option, none, some, List, [], ◌∷◌, ◌++◌, Bool, true, false, not, ◌&&◌, ltb, if◌then◌else◌,
}
use hytch.Common.Results.{Result, ok, err}
use hytch.Common.Text.{codes}
use hytch.Session.{slash, contains, is_valid_bare_name}
use hytch.Client.Attach.{AttachOutcome}
use hytch.Cli.Attach.{AttachError, not_found, refused, size_or_default, replay_log_to_stdout}
use hytch.Cli.Options.{exit_code_for_outcome}
use hytch.Cli.Paths.{Environment, socket_path, log_path_for}
use hytch.Cli.Spawn.{SpawnRequest, SpawnError}

-- A replay's bytes; an attach to a socket, with whether the log was replayed; a spawn; a message.
pub data Effect : Type 0 where
  show_log : List ℕ → Effect
  attach_to : List ℕ → Option ℕ → Bool → Effect
  spawn_daemon : SpawnRequest → Effect
  print : List ℕ → Effect

-- What the calls of one command answer: the log's content, whether the socket's path exists, the
-- attach to a running session, the spawn, and the attach after it, with the text of an error.
pub record Calls : Type 0 where
  pub log : Option (List ℕ)
  pub exists : Bool
  pub first_attach : Result AttachError AttachOutcome
  pub spawn : Result SpawnError (Unit {0})
  pub second_attach : Result AttachError AttachOutcome
  pub error_text : List ℕ

abbrev pub scrollback_size : ℕ
scrollback_size = 131072

abbrev pub message : List ℕ → List ℕ → List ℕ → Effect
message front name back = print (front ++ (name ++ back))

abbrev pub current_terminal_size : Environment → ℕ × ℕ
current_terminal_size env = size_or_default env.stdin_is_tty env.stdin_size

-- The program and its arguments, or the shell.
abbrev pub program_of : Environment → List (List ℕ) → List ℕ × List (List ℕ)
program_of env (program ∷ rest) = (program, rest)
program_of env [] = elim env.shell [ some shell ↦ (shell, []) | none ↦ (codes "/bin/sh", []) ]

pub build_spawn_request : Environment → List ℕ → List (List ℕ) → ℕ → Result (List ℕ) SpawnRequest
build_spawn_request env session cmd log_max_size =
    let path = socket_path env session in
    let (program, args) = program_of env cmd in
    let (rows, cols) = current_terminal_size env in
    if not (contains session slash) && not (is_valid_bare_name session)
    then err (codes "'" ++ (session ++ codes "' is not a valid session name"))
    else ok (record {
      socket_path = path;
      log_path = if ltb 0 log_max_size then some (log_path_for path) else none;
      log_max_size = log_max_size;
      scrollback_size = scrollback_size;
      rows = rows;
      cols = cols;
      program = program;
      args = args;
    })

-- `print_connect_error` of crates/cli/src/commands.rs.
abbrev pub connect_error : List ℕ → List ℕ → AttachError → Effect
connect_error text name not_found =
    message (codes "hytch: session '") name (codes "' does not exist")
connect_error text name refused = message (codes "hytch: session '") name (codes "' is not running")
connect_error text name _ = message (codes "hytch: ") name (codes ": " ++ text)

abbrev pub attach_code : List ℕ → List ℕ → Result AttachError AttachOutcome → ℕ × List Effect
attach_code text session (ok outcome) = (exit_code_for_outcome outcome, [])
attach_code text session (err e) = (1, connect_error text session e ∷ [])

unfoldable pub cmd_attach_replayed :
    List ℕ → List ℕ → List ℕ → Option ℕ → Bool → Result AttachError AttachOutcome → ℕ × List Effect
cmd_attach_replayed text session path detach_char replayed answer =
    let (code, effects) = attach_code text session answer in
    (code, attach_to path detach_char replayed ∷ effects)

-- A replay, where there is something.
abbrev pub replay_effect : Bool × List ℕ → List Effect
replay_effect (true, bytes) = show_log bytes ∷ []
replay_effect (false, bytes) = []

abbrev pub behind : List Effect → ℕ × List Effect → ℕ × List Effect
behind before (code, effects) = (code, before ++ effects)

unfoldable pub cmd_attach : Environment → List ℕ → Option ℕ → Calls → ℕ × List Effect
cmd_attach env session detach_char calls =
    let replay = replay_log_to_stdout calls.log in
    behind (replay_effect replay) (
      cmd_attach_replayed calls.error_text session (socket_path env session) detach_char replay.0
        calls.first_attach)

-- What follows the spawn's answer.
abbrev pub after_spawn :
    List ℕ → List ℕ → Result SpawnError (Unit {0}) → List Effect → ℕ × List Effect → ℕ × List Effect
after_spawn text session (err e) note next =
    (1, message (codes "hytch: ") session (codes ": " ++ text) ∷ [])
after_spawn text session (ok u) note next = behind note next

-- The creation of a session: the request, and the spawn.
abbrev pub create :
    List ℕ → Calls → Result (List ℕ) SpawnRequest → List Effect → ℕ × List Effect → ℕ × List Effect
create session calls (err e) note next = (1, message (codes "hytch: ") e [] ∷ [])
create session calls (ok req) note next =
    behind (spawn_daemon req ∷ []) (after_spawn calls.error_text session calls.spawn note next)

abbrev pub created : Bool → List ℕ → List Effect
created quiet session =
    if quiet then [] else message (codes "hytch: session '") session (codes "' created") ∷ []

unfoldable pub cmd_new_after_replay :
    Environment → List ℕ → List (List ℕ) → ℕ → Option ℕ → Bool → Bool → Calls → ℕ × List Effect
cmd_new_after_replay env session cmd log_max_size detach_char replayed quiet calls =
    create session calls (build_spawn_request env session cmd log_max_size) (created quiet session)
      (cmd_attach_replayed calls.error_text session (socket_path env session) detach_char replayed
        calls.second_attach)

unfoldable pub cmd_new :
    Environment → List ℕ → List (List ℕ) → ℕ → Option ℕ → Bool → Calls → ℕ × List Effect
cmd_new env session cmd log_max_size detach_char quiet calls =
    let replay = replay_log_to_stdout calls.log in
    behind (replay_effect replay)
      (cmd_new_after_replay env session cmd log_max_size detach_char replay.0 quiet calls)

abbrev pub started : Bool → List ℕ → List Effect
started quiet session =
    if quiet then [] else message (codes "hytch: session '") session (codes "' started") ∷ []

unfoldable pub cmd_start : Environment → List ℕ → List (List ℕ) → ℕ → Bool → Calls → ℕ × List Effect
cmd_start env session cmd log_max_size quiet calls =
    create session calls (build_spawn_request env session cmd log_max_size) (started quiet session)
      (0, [])

-- What follows the attach to what exists.
abbrev pub after_attach : Result AttachError AttachOutcome → ℕ × List Effect → ℕ × List Effect
after_attach (ok outcome) fallback = (exit_code_for_outcome outcome, [])
after_attach (err e) fallback = fallback

-- The attach, if the path exists, else the creation of a session.
abbrev pub attach_or_create :
    Bool → Effect → Result AttachError AttachOutcome → ℕ × List Effect → ℕ × List Effect
attach_or_create true attempt answer fallback = behind (attempt ∷ []) (after_attach answer fallback)
attach_or_create false attempt answer fallback = fallback

unfoldable pub cmd_default :
    Environment → List (List ℕ) → ℕ → Option ℕ → Bool → Calls → ℕ × List Effect
cmd_default env [] log_max_size detach_char quiet calls =
    (1, print (codes "hytch: a session name is required. Try `hytch --help`.") ∷ [])
cmd_default env (session ∷ cmd) log_max_size detach_char quiet calls =
    let replay = replay_log_to_stdout calls.log in
    behind (replay_effect replay) (
      attach_or_create calls.exists (attach_to (socket_path env session) detach_char replay.0)
        calls.first_attach
        (cmd_new_after_replay env session cmd log_max_size detach_char replay.0 quiet calls))
