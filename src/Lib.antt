-- ===== src/Lib.antt =====
-- hytch keeps terminal sessions alive: a daemon owns a pty and the program in it, and clients attach
-- to the daemon's socket, send framed messages and are sent the pty's output as it is.
--
-- The parts, from the bytes up:
-- - Proto: crates/proto. `Message` is the message type and `Codec` the framing (`encode`, `decode`),
--   over the operations of the `bytes` crate as an interface, `Proto.Buffer.BytesCrate`, which
--   `Proto.ListBytes` fills with lists. `Codec.Stream` drives `decode` over a stream of reads.
-- - Ring: crates/daemon/src/ring_buffer.rs, the scrollback in memory, with its mask arithmetic.
-- - Fanout: crates/daemon/src/fanout.rs, the ring with a broadcast channel behind one lock. tokio's
--   channel is the interface `Fanout.Broadcast.BroadcastCrate`, which `Fanout.LogChannel` fills.
-- - SessionLog: crates/daemon/src/session_log.rs, the log on disk, and the thread that writes it
--   (`spawn_log_writer` of crates/daemon/src/daemon.rs). `SessionLog.Disk` is a file with a position;
--   each call on it takes the operating system's answer, success or failure, from outside.
-- - Daemon.Client: `handle_client` of crates/daemon/src/daemon.rs, a round of a client's handler as a
--   function of what `select!` delivers. Signals are the interface `Daemon.Signals.SignalCrate`.
-- - Daemon.Loop: `run` of crates/daemon/src/daemon.rs. A round takes what the handlers have sent and
--   which branches are ready, and picks the first in the order of the biased `select!`; the daemon's
--   calls on the pty are kept as a list. `Daemon.Age` is crates/daemon/src/age.rs, and `Age.Reading`
--   reads its text back. `Loop.Delivered`, `Loop.Sized` and `Loop.Window` join a client, its handler
--   and the loop: from keys, standard input and window sizes to the bytes and the size that the pty
--   takes; a write that fails or is not done in time takes only some of its chunk (`Loop.Written`).
-- - Daemon.System: the loop and a task of `handle_client` for each connection, together. A step is a
--   round of one of them, in any order; a task's fields `earlier`, `joined`, `skipped`, `pushed` and
--   `commanded` are history, which no step looks at. A write to a connection adds to what its task wrote
--   when the call is made.
-- - Daemon.Setup: what `run` does before its loop, with its early returns; its state at the end is the
--   one that `Daemon.Loop` starts from.
-- - Daemon.Pty: crates/daemon/src/pty.rs, `spawn` as a sequence of calls that stops at the first one
--   refused, the size of the window, and the polls that move bytes.
-- - Sockets: crates/cli/src/sockets.rs and `bind_listener` of crates/daemon/src/daemon.rs, with the
--   working directory as state; `Session.Address` is `shorten_for_unix_socket` of
--   crates/session/src/lib.rs, over the parts of a path. The system's sockets are the interface
--   `Sockets.SocketCrate`.
-- - Client.Attach: crates/client/src/attach.rs, the loop of an attached terminal. Client.RawMode:
--   crates/client/src/raw_mode.rs, the guard that keeps a terminal raw. Client.Resize:
--   crates/client/src/resize.rs, the terminal's size and the task that watches it.
-- - Session: crates/session/src/lib.rs, the names of sessions, their sockets and chains of nested ones.
-- - Cli.Push: `push` of crates/cli/src/commands.rs, which sends standard input to a session;
--   Cli.Kill: `kill`, `send_control` and `wait_gone` of the same file, over polls with their times;
--   Cli.Files: `rm`, `clear` and `current`, over the files at the paths, with `cmd_rm` and `cmd_clear`
--   of crates/cli/src/main.rs; Cli.List: `list`.
-- - Cli.Attach: crates/cli/src/attach.rs, the replay of the log and the attach of the terminal, around
--   `Client.Attach`. Cli.Spawn: crates/cli/src/spawn.rs, the daemon as this program again, with its
--   arguments; the `clap` crate that reads them is the interface `Cli.Spawn.Arguments.ClapCrate`.
-- - Cli.Main: the commands of crates/cli/src/main.rs that create and attach, as lists of effects over
--   what `Cli.Attach` and `Cli.Spawn` answer. Cli.Options: its options, `parse_char_spec` and the exit
--   codes. Cli.Paths: crates/cli/src/paths.rs. Cli.Dispatch: `main` over the commands of `Cli.Command`.
-- `Common` holds the tests, lists, bits and results that the parts share. The modules named `Tests`
-- hold runs on concrete inputs.
--
-- A byte is a number below 256, a file, a buffer or a stream a list of bytes; the frame header's
-- length and the ring's capacity keep the bounds of their Rust types. Sizes of files are not wrapped
-- at 64 bits. Loops are recursions on lists, and on fuel in two places: `drain` of `Codec.Stream`
-- gets one round more than the buffer has bytes, where each message takes at least five, and `digits`
-- of `Common.Decimal` one round more than the number, where each divides it by ten.
--
-- An interleaving is a list: of calls on a fanout in the order in which they take its lock, of rounds
-- of the daemon's loop, of steps of the loop and the tasks, of events at a terminal. Time is left out
-- but for the polls of `Cli.Kill` and `Cli.Spawn`: how much a write to the pty takes within its limit
-- is an answer from outside.
--
-- Text is ASCII, so a path is the list of its bytes. Links and `..` are not resolved: a place is the
-- list of names from the root.
--
-- Not modelled: the parsing of the arguments of `main` (crates/cli/src/main.rs), `wait` of
-- crates/daemon/src/pty.rs, a call of tokio's process handle whose answer the daemon's loop takes,
-- `MessageCodec`'s constructors (crates/proto/src/codec.rs), since the codec's limit is an argument of
-- `decode`, what the broadcast channel drops for a receiver that lags, and logging to `tracing`. After
-- the loop has stopped `Daemon.System` lets the tasks go on, which only adds behaviours.
pub mod Common
pub mod Proto
pub mod Ring
pub mod Fanout
pub mod SessionLog
pub mod Sockets
pub mod Daemon
pub mod Client
pub mod Session
pub mod Cli
