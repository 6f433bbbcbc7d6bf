-- ===== src/Daemon/Setup.antt =====
-- `run` of crates/daemon/src/daemon.rs before its loop: the session's directory, the child, the log and
-- the socket, in this order, each of which can be refused.
pub mod Begun
mod Tests
use hytch.Common.{ℕ, Option, none, some, List, [], ◌∷◌, ◌++◌, Bool, true, false, map, if◌then◌else◌}
use hytch.Common.Results.{Result, ok, err}
use hytch.Session.{extend_ancestry}
use hytch.Session.Address.{parent}
use hytch.Session.Address.Place.{Place}
use hytch.Fanout.Broadcast.{BroadcastCrate}
use hytch.Sockets.{SocketCrate, Grants, bind_listener}
use hytch.Daemon.Signals.{SignalCrate}
use hytch.Daemon.Loop.{Daemon, start}
use hytch.Daemon.Pty.{ProcessCrate, Call, Answers, Pty, spawn}

pub record DaemonConfig : Type 0 where
  pub socket_path : List ℕ
  pub log_path : Option (List ℕ)
  pub log_max_size : ℕ
  pub scrollback_size : ℕ
  pub program : List ℕ
  pub args : List (List ℕ)
  pub initial_rows : ℕ
  pub initial_cols : ℕ

-- What the system allows.
pub record Allowed : Type 0 where
  pub directory : Bool
  pub pty : Answers
  pub log : Bool
  pub working : Grants
  pub signals : Bool

pub data Effect : Type 0 where
  create_dir_all : List ℕ → Effect
  pty_call : Call → Effect
  open_log : List ℕ → ℕ → Effect
  bind : List ℕ → Effect

abbrev pub create_parent : List ℕ → List Effect
create_parent path = elim (parent path) [ none ↦ [] | some dir ↦ create_dir_all dir ∷ [] ]

abbrev pub open_writer : Option (List ℕ) → ℕ → List Effect
open_writer none max_size = []
open_writer (some path) max_size = open_log path max_size ∷ []

abbrev pub has_log : Option (List ℕ) → Bool
has_log none = false
has_log (some path) = true

-- Where there is nothing to do, nothing is refused.
abbrev pub unless_none : Option (List ℕ) → Bool → Bool
unless_none none granted = true
unless_none (some path) granted = granted

module _ (c : BroadcastCrate) (s : SignalCrate) (p : ProcessCrate) (k : SocketCrate) where
  pub data Started : Type 0 where
    began : Pty p → Daemon c s → k.Socket → Started
    panicked : Started
    failed : Started

  -- How it went, the effects, and the working directory then.
  abbrev pub Outcome : Type 0
  Outcome = Started × List Effect × Place

  -- With a socket, or without.
  abbrev pub listen :
      Bool → Pty p → Daemon c s → Result k.Error k.Socket × Place → List Effect → Outcome
  listen signals pty d (err e, cwd) effects = (failed, effects, cwd)
  listen signals pty d (ok listener, cwd) effects =
      (if signals then began pty d listener else failed, effects, cwd)

  abbrev pub with_pty : Allowed → DaemonConfig → Place → Pty p → List Effect → Outcome
  with_pty a config cwd pty effects =
      elim (start c s (has_log config.log_path) config.scrollback_size) [
        | none ↦ (panicked, effects, cwd)
        | some d ↦
            let effects' = effects ++ open_writer config.log_path config.log_max_size in
            if unless_none config.log_path a.log
            then listen a.signals pty d (bind_listener k a.working cwd config.socket_path)
                (effects' ++ (bind config.socket_path ∷ []))
            else (failed, effects', cwd)
      ]

  abbrev pub after_spawn : Allowed → DaemonConfig → Place → Option (Pty p) → List Effect → Outcome
  after_spawn a config cwd none effects = (failed, effects, cwd)
  after_spawn a config cwd (some pty) effects = with_pty a config cwd pty effects

  pub set_up : Allowed → DaemonConfig → Option (List ℕ) → Place → Outcome
  set_up a config inherited_chain cwd =
      let session_chain = extend_ancestry inherited_chain config.socket_path in
      let (pty, calls) =
        spawn p a.pty config.program config.args config.initial_rows config.initial_cols
          session_chain in
      let created = create_parent config.socket_path in
      if unless_none (parent config.socket_path) a.directory
      then after_spawn a config cwd pty (created ++ map pty_call calls)
      else (failed, created, cwd)
