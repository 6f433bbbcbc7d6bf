-- ===== src/Cli/Main/Tests.antt =====
-- The bare command at a session that was left by a crash, and a request.
use hytch.Common.{ℕ, ◌≡◌, refl, none, some, List, [], ◌∷◌, ◌++◌, true, false}
use hytch.Common.Results.{ok, err}
use hytch.Common.Text.{codes}
use hytch.Session.{contains, is_valid_bare_name}
use hytch.Client.Attach.{session_ended}
use hytch.Cli.Attach.{refused, replay_log_to_stdout}
use hytch.Cli.Paths.{Environment}
use hytch.Cli.Main.{
  Effect, Calls, build_spawn_request, cmd_attach_replayed, cmd_new_after_replay, cmd_default,
  replay_effect,
}
use hytch.Cli.Main.Replay.{Follows, cmd_default-Follows}

abbrev env : Environment
env = record { home = none; uid = 0; shell = none; stdin_is_tty = false; stdin_size = err tt }

-- The socket is there, nobody listens, and the new session ends while it is attached.
abbrev calls : Calls
calls = record {
  log = some (1 ∷ []);
  exists = true;
  first_attach = err refused;
  spawn = ok tt;
  second_attach = ok session_ended;
  error_text = [];
}

cmd_default-Follows_example :
    (rest : List Effect) × ((cmd_default env (codes "w" ∷ []) 0 none false calls).1
      ≡ replay_effect (replay_log_to_stdout calls.log) ++ rest)
    × Follows (replay_log_to_stdout calls.log).0 rest
cmd_default-Follows_example = cmd_default-Follows env (codes "w") [] 0 none false calls

ended : (cmd_default env (codes "w" ∷ []) 0 none false calls).0 ≡ 90
unfolding cmd_default cmd_new_after_replay cmd_attach_replayed build_spawn_request
ended = unfold contains is_valid_bare_name in refl

abbrev command : List (List ℕ)
command = codes "sh" ∷ codes "run" ∷ codes "-e" ∷ []
