-- ===== src/Cli/Dispatch/Tests.antt =====
-- `hytch attach w`, where the session ends.
use hytch.Common.{◌≡◌, refl, ◌⊎◌, none, some, [], true, false}
use hytch.Common.Results.{ok, err}
use hytch.Common.Text.{codes}
use hytch.Proto.ListBytes.{list_bytes}
use hytch.Client.Attach.{session_ended}
use hytch.Cli.Attach.{refused}
use hytch.Cli.Command.{Command, Cli}
use hytch.Cli.Files.{opened}
use hytch.Cli.List.{ReadDir}
use hytch.Cli.Main.{cmd_attach, cmd_attach_replayed}
use hytch.Cli.Main.Replay.{HasEnded}
use hytch.Cli.Dispatch.{World, dispatch, main}
use hytch.Cli.Dispatch.ExitCode.{dispatch-HasEnded}

abbrev world : World
world = record {
  env = record {
    home = some (codes "/h");
    uid = 7;
    shell = none;
    stdin_is_tty = false;
    stdin_size = err tt;
  };
  chain = none;
  files = [];
  calls = record {
    log = none;
    exists = true;
    first_attach = ok session_ended;
    spawn = ok tt;
    second_attach = err refused;
    error_text = [];
  };
  connected = true;
  rounds = [];
  sent = true;
  polls = [];
  sent_again = true;
  more_polls = [];
  opened = opened;
  truncated = true;
  listening = false;
  socket_granted = true;
  log_granted = true;
  directory = ReadDir.missing;
  probe = λ path. false;
  there = λ path. false;
  daemon = none;
}

abbrev attach_work : Cli
attach_work = record {
  detach_char = none;
  no_detach = false;
  quiet = false;
  log_cap = none;
  command = some (Command.attach (codes "w"));
}

ended : dispatch list_bytes world attach_work (Command.attach (codes "w")) ≡ some 90
unfolding dispatch cmd_attach cmd_attach_replayed
ended = refl

same_ended : main list_bytes world attach_work ≡ some 90
unfolding main
same_ended = ended

dispatch-HasEnded_example :
    HasEnded world.calls.first_attach
    ⊎ ((world.calls.spawn ≡ ok tt) × HasEnded world.calls.second_attach)
dispatch-HasEnded_example =
    dispatch-HasEnded list_bytes world attach_work (Command.attach (codes "w")) refl ended
