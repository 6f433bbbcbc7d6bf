-- ===== src/Daemon/Loop.antt =====
-- `run` of crates/daemon/src/daemon.rs: the loop that owns the pty, and the shutdown after it. A round
-- takes the first branch of the biased `select!` that is ready.
pub mod Step
pub mod Output
pub mod Order
pub mod Written
pub mod Queue
pub mod Delivered
pub mod Sized
pub mod Window
pub mod Exit
pub mod Tests
use hytch.Common.{
  ℕ, zero, suc, Option, none, some, List, [], ◌∷◌, ◌++◌, Bool, true, false, ◌||◌, if◌then◌else◌,
}
use hytch.Common.Results.{Result, ok, err}
use hytch.Fanout
use hytch.Fanout.{Fanout}
use hytch.Fanout.Broadcast.{BroadcastCrate}
use hytch.Daemon.Age.{format_age}
use hytch.Daemon.Signals.{SignalCrate}
use hytch.Daemon.Client.{ControlCommand, resize, signal}
use mathlib.Core.Option

-- An exit code, where the child's status could be had and has one.
pub data ShutdownReason : Type 0 where
  child_exited : Option ℕ → ShutdownReason
  daemon_signaled : ShutdownReason

module _ (c : BroadcastCrate) where
  pub attach_times : ℕ → Fanout c → Fanout c
  attach_times zero f = f
  attach_times (suc n) f = attach_times n (Fanout.attach c f).2

module _ (c : BroadcastCrate) (s : SignalCrate) where
  -- What was done with the pty. `took` is a chunk written to it, with how
  -- much of it the pty took, `none` for all, if the write failed or was not done in time.
  pub data PtyCall : Type 0 where
    resized : ℕ → ℕ → PtyCall
    signalled : s.Signal → PtyCall
    gave : List ℕ → PtyCall
    took : List ℕ → Option ℕ → PtyCall

  -- The chunks sent to the log's writer (`none` without a log), the calls on the pty so far, how many
  -- connections have a handler, the two queues that the handlers send to, and the socket's file.
  pub record Daemon : Type 0 where
    pub fanout : Fanout c
    pub log : Option (List (List ℕ))
    pub pty : List PtyCall
    pub clients : ℕ
    pub controls : List (ControlCommand c s)
    pub pushes : List (List ℕ)
    pub bound : Bool

  -- What the handlers have sent and attached since the round before, and what the branches find:
  -- `read` is an answer of the pty, `exit` the child's status, `accepted` whether a connection came,
  -- `cut_short` how much of a chunk the pty takes, if not all of it.
  --
  pub record Ready : Type 0 where
    pub new_controls : List (ControlCommand c s)
    pub new_pushes : List (List ℕ)
    pub attaches : ℕ
    pub read : Option (Result (Unit {0}) (List ℕ))
    pub exit : Option (Option ℕ)
    pub accepted : Option Bool
    pub cut_short : Option ℕ
    pub sigterm : Bool
    pub sigint : Bool

  -- The daemon before its first round; the channel has room for 1024 chunks.
  pub start : Bool → ℕ → Option Daemon
  start logging scrollback_size = elim (Fanout.new c scrollback_size 1024) [
    | none ↦ none
    | some f ↦ some (record {
      fanout = f;
      log = if logging then some [] else none;
      pty = [];
      clients = 0;
      controls = [];
      pushes = [];
      bound = true;
    })
  ]

  abbrev pub arrive : Ready → Daemon → Daemon
  arrive r d = record d {
    fanout = attach_times c r.attaches d.fanout;
    controls = d.controls ++ r.new_controls;
    pushes = d.pushes ++ r.new_pushes;
  }

  abbrev pub call_of : ControlCommand c s → PtyCall
  call_of (resize rows cols) = resized rows cols
  call_of (signal sig) = signalled sig

  abbrev pub on_control : ControlCommand c s → Daemon → Daemon
  on_control command d = record d { pty = d.pty ++ (call_of command ∷ []) }

  abbrev pub log_chunk : List ℕ → Daemon → Daemon
  log_chunk chunk d = record d { log = Option.map (λ l. l ++ (chunk ∷ [])) d.log }

  abbrev pub on_output : List ℕ → Daemon → Daemon
  on_output chunk d =
      log_chunk chunk
        (record d { fanout = Fanout.push c d.fanout chunk; pty = d.pty ++ (gave chunk ∷ []) })

  -- `status.and_then(|s| s.code())`.
  abbrev pub exit_code : Option (Option ℕ) → Option ℕ
  exit_code (some code) = code
  exit_code none = none

  abbrev pub on_read :
      Result (Unit {0}) (List ℕ) → Option (Option ℕ) → Daemon → Option ShutdownReason × Daemon
  on_read (ok (b ∷ bs)) exit d = (none, on_output (b ∷ bs) d)
  on_read (ok []) exit d = (some (child_exited (exit_code exit)), d)
  on_read (err e) exit d = (some (child_exited (exit_code exit)), d)

  abbrev pub on_accepted : Bool → Daemon → Daemon
  on_accepted true d = record d { clients = suc d.clients }
  on_accepted false d = d

  abbrev pub on_push : List ℕ → Option ℕ → Daemon → Daemon
  on_push chunk cut_short d = record d { pty = d.pty ++ (took chunk cut_short ∷ []) }

  -- The branches after the pty's.
  unfoldable pub late_branches : Ready → Daemon → Option ShutdownReason × Daemon
  late_branches r d = elim r.accepted [
    | some came ↦ (none, on_accepted came d)
    | none ↦ elim d.pushes [
      | chunk ∷ rest ↦ (none, on_push chunk r.cut_short (record d { pushes = rest }))
      | [] ↦ (if r.sigterm || r.sigint then some daemon_signaled else none, d)
    ]
  ]

  unfoldable pub round : Ready → Daemon → Option ShutdownReason × Daemon
  round r d = elim d.controls [
    | command ∷ rest ↦ (none, on_control command (record d { controls = rest }))
    | [] ↦ elim r.read [ some answer ↦ on_read answer r.exit d | none ↦ late_branches r d ]
  ]

  -- The rounds until a reason to stop, or as many as are given.
  pub loop : List Ready → Daemon → Option ShutdownReason × Daemon
  loop [] d = (none, d)
  loop (r ∷ rs) d =
      let (reason, d') = round r (arrive r d) in
      elim reason [ some why ↦ (some why, d') | none ↦ loop rs d' ]

  abbrev pub end_marker : ℕ → List ℕ
  end_marker secs =
      13
      ∷ 10
      ∷ b'['
      ∷ b'h'
      ∷ b'y'
      ∷ b't'
      ∷ b'c'
      ∷ b'h'
      ∷ b':'
      ∷ b' '
      ∷ b's'
      ∷ b'e'
      ∷ b's'
      ∷ b's'
      ∷ b'i'
      ∷ b'o'
      ∷ b'n'
      ∷ b' '
      ∷ b'e'
      ∷ b'n'
      ∷ b'd'
      ∷ b'e'
      ∷ b'd'
      ∷ b' '
      ∷ b'a'
      ∷ b'f'
      ∷ b't'
      ∷ b'e'
      ∷ b'r'
      ∷ b' '
      ∷ (format_age secs ++ (b']' ∷ 13 ∷ 10 ∷ []))

  -- After the loop: the marker goes to the log, and the socket's file away.
  pub shutdown : ℕ → Daemon → Daemon
  shutdown secs d = record (log_chunk (end_marker secs) d) { bound = false }
