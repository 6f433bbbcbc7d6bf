-- ===== src/Cli/Attach.antt =====
-- crates/cli/src/attach.rs: attaching the terminal to a session, and the replay of its log.
pub mod Terminal
pub mod Once
mod Tests
use hytch.Common.{
  ℕ, Option, none, some, List, [], ◌∷◌, ◌++◌, Bool, true, false, not, ◌&&◌, if◌then◌else◌,
}
use hytch.Common.Text.{codes}
use hytch.Common.Results.{Result, ok, err}
use hytch.Proto.Buffer.{BytesCrate}
use hytch.Proto.Message.{RedrawMethod}
use hytch.Session.{ancestry_contains}
use hytch.Client.Resize.{Winsize, current_size}
use hytch.Client.RawMode.{TermiosCrate, RawModeGuard, enable, drop_guard}
use hytch.Client.Attach.{
  AttachOptions, AttachOutcome, session_ended, AttachEvent, IoError, Link, run,
}

-- `io::Error` as the callers tell its kinds apart.
pub data AttachError : Type 0 where
  within_itself not_found refused other : AttachError

-- What the system answers to one call: the chain of the process, the connection, whether standard
-- input is a terminal, its attributes and size, and what happens on the connection.
pub record Answers : Type 0 where
  pub chain : Option (List ℕ)
  pub connection : Result AttachError (Unit {0})
  pub is_tty : Bool
  pub got_attrs : Bool
  pub set_attrs : Bool
  pub restored : Bool
  pub size : Result (Unit {0}) Winsize
  pub first_write : Option ℕ
  pub second_write : Option ℕ
  pub events : List AttachEvent

-- The soft reset before a replay.
abbrev pub pre_replay_reset : List ℕ
pre_replay_reset =
    0x1b
    ∷ (codes "[!p"
        ++ (0x1b ∷ (codes "[0m" ++ (0x1b ∷ (codes "[?1049l" ++ (0x1b ∷ codes "[?25h"))))))

-- What a replay writes, where the log can be read and has something; whether there was a replay.
pub replay_log_to_stdout : Option (List ℕ) → Bool × List ℕ
replay_log_to_stdout (some (b ∷ bs)) = (true, pre_replay_reset ++ (b ∷ bs))
replay_log_to_stdout (some []) = (false, [])
replay_log_to_stdout none = (false, [])

pub self_attach_error : Option (List ℕ) → List ℕ → Option AttachError
self_attach_error chain socket_path =
    if ancestry_contains chain socket_path then some within_itself else none

-- `unwrap_or` of the size that standard input has, if it is a terminal.
abbrev pub size_or_default : Bool → Result (Unit {0}) Winsize → ℕ × ℕ
size_or_default is_tty size = elim (current_size size) [
  | ok had ↦ if is_tty then had else (24, 80)
  | err e ↦ (24, 80)
]

abbrev pub options : Answers → Option ℕ → Bool → AttachOptions
options a detach_char replayed =
    let (rows, cols) = size_or_default a.is_tty a.size in
    record {
      detach_char = detach_char;
      suspend_char = none;
      redraw_method = RedrawMethod.winch;
      rows = rows;
      cols = cols;
      skip_ring = replayed;
    }

module _ (b : BytesCrate) (t : TermiosCrate) where
  -- The result (`none` while the loop runs), the terminal's attributes, what went to the daemon and to
  -- standard output, and what to standard error.
  pub record Attached : Type 0 where
    pub result : Result AttachError (Option AttachOutcome)
    pub attrs : t.Termios
    pub link : Link
    pub notes : List ℕ

  abbrev pub no_link : Link
  no_link = record { wire = []; screen = [] }

  abbrev pub refuse : AttachError → t.Termios → Attached
  refuse e tty = record { result = err e; attrs = tty; link = no_link; notes = [] }

  abbrev pub blank_line : Bool → Bool → List ℕ
  blank_line quiet replayed = if not quiet && not replayed then codes "\n" else []

  abbrev pub farewell : Bool → AttachOutcome → List ℕ
  farewell quiet session_ended = if quiet then [] else codes "hytch: session ended\n"
  farewell quiet _ = []

  -- The end of the function, where the guard is dropped unless the loop still runs.
  abbrev pub leave :
      Bool
      → Bool
      → Option (RawModeGuard t)
      → Result IoError (Option AttachOutcome) × Link
      → t.Termios
      → List ℕ
      → Attached
  leave quiet restored guard (ok none, link) tty notes = record {
    result = ok none;
    attrs = tty;
    link = link;
    notes = notes;
  }
  leave quiet restored (some guard) (ok (some o), link) tty notes = record {
    result = ok (some o);
    attrs = drop_guard t restored guard tty;
    link = link;
    notes = notes ++ farewell quiet o;
  }
  leave quiet restored none (ok (some o), link) tty notes = record {
    result = ok (some o);
    attrs = tty;
    link = link;
    notes = notes ++ farewell quiet o;
  }
  leave quiet restored (some guard) (err e, link) tty notes = record {
    result = err other;
    attrs = drop_guard t restored guard tty;
    link = link;
    notes = notes;
  }
  leave quiet restored none (err e, link) tty notes = record {
    result = err other;
    attrs = tty;
    link = link;
    notes = notes;
  }

  pub attach_with :
      Answers → Option ℕ → Bool → Bool → Option (RawModeGuard t) → t.Termios → Attached
  attach_with a detach_char replayed quiet guard tty =
      leave quiet a.restored guard
        (run b (options a detach_char replayed) a.first_write a.second_write a.events no_link) tty
        (blank_line quiet replayed)

  pub attach_connected : Answers → Option ℕ → Bool → Bool → t.Termios → Attached
  attach_connected a detach_char replayed quiet tty =
      let (r, tty') = enable t a.got_attrs a.set_attrs tty in
      if a.is_tty
      then elim r [
        | ok guard ↦ attach_with a detach_char replayed quiet (some guard) tty'
        | err e ↦ refuse other tty'
      ]
      else attach_with a detach_char replayed quiet none tty

  pub attach_foreground : Answers → List ℕ → Option ℕ → Bool → Bool → t.Termios → Attached
  attach_foreground a socket_path detach_char replayed quiet tty =
      elim (self_attach_error a.chain socket_path) [
        | some e ↦ refuse e tty
        | none ↦ elim a.connection [
          | err e ↦ refuse e tty
          | ok u ↦ attach_connected a detach_char replayed quiet tty
        ]
      ]
