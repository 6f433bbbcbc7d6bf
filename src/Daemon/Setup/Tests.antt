-- ===== src/Daemon/Setup/Tests.antt =====
-- A setup of which nothing is refused, within another session.
use hytch.Common.{some, [], true}
use hytch.Common.Text.{codes}
use hytch.Sockets.Tests.{all_granted}
use hytch.Daemon.Pty.Tests.{all_well}
use hytch.Daemon.Setup.{DaemonConfig, Allowed}

abbrev config : DaemonConfig
config = record {
  socket_path = codes "/s/a";
  log_path = some (codes "/s/a.log");
  log_max_size = 1024;
  scrollback_size = 2;
  program = codes "sh";
  args = [];
  initial_rows = 24;
  initial_cols = 80;
}

abbrev allowed : Allowed
allowed = record {
  directory = true;
  pty = all_well;
  log = true;
  working = all_granted;
  signals = true;
}
