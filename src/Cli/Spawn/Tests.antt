-- ===== src/Cli/Spawn/Tests.antt =====
-- A request as arguments, and a spawn whose daemon is ready at the second look.
use hytch.Common.{◌≡◌, refl, none, some, [], ◌∷◌, true}
use hytch.Common.Results.{ok}
use hytch.Common.Text.{codes}
use hytch.Cli.Spawn.{SpawnRequest, socket, Answers, wait_for_socket, spawn_detached}

abbrev request : SpawnRequest
request = record {
  socket_path = codes "/d/work";
  log_path = some (codes "/d/work.log");
  log_max_size = 1048576;
  scrollback_size = 131072;
  rows = 24;
  cols = 80;
  program = codes "sh";
  args = codes "-l" ∷ [];
}

abbrev answers : Answers
answers = record {
  executable = true;
  process = true;
  looks = record { now = 0; found = none } ∷ record { now = 25; found = some socket } ∷ [];
  ended = none;
}

started : spawn_detached answers ≡ some (ok tt)
unfolding spawn_detached wait_for_socket
started = refl
