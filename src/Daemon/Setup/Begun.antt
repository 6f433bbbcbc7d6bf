-- ===== src/Daemon/Setup/Begun.antt =====
-- What holds when the daemon's loop begins.
use hytch.Common.{ℕ, ◌≡◌, none, some, List, [], ◌∷◌, ◌++◌, map}
use hytch.Common.Results.{ok}
use hytch.Session.Address.Place.{Place, resolve}
use hytch.Fanout.Broadcast.{BroadcastCrate}
use hytch.Sockets.{SocketCrate}
use hytch.Daemon.Signals.{SignalCrate}
use hytch.Daemon.Loop.{Daemon, start}
use hytch.Daemon.Pty.{ProcessCrate, Pty, path_of}
use hytch.Daemon.Pty.Spawned.{whole}
use hytch.Daemon.Setup.{
  DaemonConfig, Allowed, Effect, pty_call, bind, create_parent, open_writer, has_log, began,
  panicked, failed, Outcome,
}

-- All the effects, in order, when a child is given a chain.
abbrev pub all_effects : Allowed → DaemonConfig → List ℕ → List Effect
all_effects a config chain =
    (create_parent config.socket_path
      ++ map pty_call (
          whole (path_of a.pty.slave_name) config.program config.args config.initial_rows
            config.initial_cols chain))
    ++ (open_writer config.log_path config.log_max_size ++ (bind config.socket_path ∷ []))

-- The effects are the first ones of all.
abbrev pub Begins : List Effect → List Effect → Type 0
Begins effects all = (rest : List Effect) × (effects ++ rest ≡ all)

module _ (c : BroadcastCrate) (s : SignalCrate) (p : ProcessCrate) (k : SocketCrate) where
  -- How the setup of a daemon may go: see the theorem.
  pub IsSound : Allowed → DaemonConfig → List ℕ → Place → Outcome c s p k → Type 0
  IsSound a config chain cwd (began pty d listener, effects, after) =
      (start c s (has_log config.log_path) config.scrollback_size ≡ some d)
      × (k.at (resolve cwd config.socket_path) ≡ ok listener)
      × (after ≡ cwd)
      × (effects ≡ all_effects a config chain)
  IsSound a config chain cwd (panicked, effects, after) =
      (start c s (has_log config.log_path) config.scrollback_size ≡ none)
      × Begins effects (all_effects a config chain)
  IsSound a config chain cwd (failed, effects, after) = Begins effects (all_effects a config chain)
