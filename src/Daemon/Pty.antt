-- ===== src/Daemon/Pty.antt =====
-- crates/daemon/src/pty.rs: a pty with a child on its other side. `spawn` is a sequence of calls, of
-- which the first that is refused is the last.
pub mod Spawned
pub mod Moved
pub mod Tests
use hytch.Common.{
  ℕ, Option, none, some, List, [], ◌∷◌, ◌++◌, Bool, true, false, take, drop, if◌then◌else◌,
}
use hytch.Common.Results.{Result, ok, err}
use hytch.Client.Resize.{Winsize}

-- The process ids of the system: `from_raw` reads 32 bits, and need not take all of them.
pub record ProcessCrate : Type 1 where
  pub Pid : Type 0
  pub from_raw : ℕ → Option Pid

-- Calls of the daemon, and of the child between fork and exec, in order.
pub data Call : Type 0 where
  openpt : Call
  grantpt : Call
  unlockpt : Call
  set_nonblocking : Call
  set_size : ℕ → ℕ → Call
  ptsname : Call
  open_noctty : List ℕ → Call
  dup_stdio : Call
  fork : Call
  setsid : Call
  set_controlling : ℕ → Call
  exec : List ℕ → List (List ℕ) → List ℕ → Call

-- What the calls answer: the slave's name, the child's id while there is one, and whether the master
-- is taken by the runtime.
pub record Answers : Type 0 where
  pub opened : Bool
  pub granted : Bool
  pub unlocked : Bool
  pub nonblocking : Bool
  pub sized : Bool
  pub slave_name : Option (List ℕ)
  pub slave : Bool
  pub dup_in : Bool
  pub dup_out : Bool
  pub dup_err : Bool
  pub forked : Bool
  pub session : Bool
  pub controlling : Bool
  pub executed : Bool
  pub id : Option ℕ
  pub registered : Bool

-- Whether all are granted, and those made.
pub attempt : List (Bool × Call) → Bool × List Call
attempt [] = (true, [])
attempt ((granted, call) ∷ rest) =
    let later = attempt rest in if granted then (later.0, call ∷ later.1) else (false, call ∷ [])

abbrev pub is_some : Option (List ℕ) → Bool
is_some none = false
is_some (some name) = true

abbrev pub path_of : Option (List ℕ) → List ℕ
path_of none = []
path_of (some name) = name

pub steps : Answers → List ℕ → List (List ℕ) → ℕ → ℕ → List ℕ → List (Bool × Call)
steps a program args rows cols session_chain =
    (a.opened, openpt)
    ∷ (a.granted, grantpt)
    ∷ (a.unlocked, unlockpt)
    ∷ (a.nonblocking, set_nonblocking)
    ∷ (a.sized, set_size rows cols)
    ∷ (is_some a.slave_name, ptsname)
    ∷ (a.slave, open_noctty (path_of a.slave_name))
    ∷ (a.dup_in, dup_stdio)
    ∷ (a.dup_out, dup_stdio)
    ∷ (a.dup_err, dup_stdio)
    ∷ (a.forked, fork)
    ∷ (a.session, setsid)
    ∷ (a.controlling, set_controlling 0)
    ∷ (a.executed, exec program args session_chain)
    ∷ []

module _ (p : ProcessCrate) where
  pub record Pty : Type 0 where
    pub pgid : p.Pid

  -- The child has its own session by then, so its id is its group's.
  abbrev pub adopt : Option ℕ → Bool → Option Pty
  adopt none registered = none
  adopt (some raw_pid) registered = elim (p.from_raw raw_pid) [
    | none ↦ none
    | some pid ↦ if registered then some (record { pgid = pid }) else none
  ]

  -- The pty, unless a call fails, and the calls made.
  pub spawn : Answers → List ℕ → List (List ℕ) → ℕ → ℕ → List ℕ → Option Pty × List Call
  spawn a program args rows cols session_chain =
      let (granted, calls) = attempt (steps a program args rows cols session_chain) in
      (if granted then adopt a.id a.registered else none, calls)

  -- The group that a signal goes to.
  abbrev pub signal : Pty → ℕ → p.Pid × ℕ
  signal pty sig = (pty.pgid, sig)

-- `tcsetwinsize` on the master, which a refusal leaves as it was, and `tcgetwinsize`.
unfoldable pub resize : Bool → ℕ → ℕ → Winsize → Result (Unit {0}) (Unit {0}) × Winsize
resize granted rows cols window =
    let winsize : Winsize = record { ws_row = rows; ws_col = cols; ws_xpixel = 0; ws_ypixel = 0 } in
    if granted then (ok tt, winsize) else (err tt, window)

unfoldable pub current_size : Bool → Winsize → Result (Unit {0}) (ℕ × ℕ)
current_size granted window = if granted then ok (window.ws_row, window.ws_col) else err tt

-- One turn of a poll: whether the master is ready, and then how many bytes a call moves, unless it
-- would block after all.
pub data Turn : Type 0 where
  pending : Turn
  ready_failed : Turn
  blocked : Turn
  failed : Turn
  moved : ℕ → Turn

-- `none` is `Pending`. Without further turns nothing has been answered yet.
abbrev pub Poll : Type 0 → Type 0
Poll A = Option (Result (Unit {0}) A)

-- The bytes read, and those that are still in the pty.
pub poll_read : List Turn → List ℕ → Poll (List ℕ) × List ℕ
poll_read [] source = (none, source)
poll_read (pending ∷ turns) source = (none, source)
poll_read (ready_failed ∷ turns) source = (some (err tt), source)
poll_read (blocked ∷ turns) source = poll_read turns source
poll_read (failed ∷ turns) source = (some (err tt), source)
poll_read (moved n ∷ turns) source = (some (ok (take n source)), drop n source)

-- The number of bytes taken, and what is in the pty then.
pub poll_write : List Turn → List ℕ → List ℕ → Poll ℕ × List ℕ
poll_write [] bytes sink = (none, sink)
poll_write (pending ∷ turns) bytes sink = (none, sink)
poll_write (ready_failed ∷ turns) bytes sink = (some (err tt), sink)
poll_write (blocked ∷ turns) bytes sink = poll_write turns bytes sink
poll_write (failed ∷ turns) bytes sink = (some (err tt), sink)
poll_write (moved n ∷ turns) bytes sink = (some (ok n), sink ++ take n bytes)

-- There is nothing to flush or to shut down.
abbrev pub poll_flush : Poll (Unit {0})
poll_flush = some (ok tt)

abbrev pub poll_shutdown : Poll (Unit {0})
poll_shutdown = some (ok tt)
