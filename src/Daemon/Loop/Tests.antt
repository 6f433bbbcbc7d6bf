-- ===== src/Daemon/Loop/Tests.antt =====
-- Runs of the loop over a channel that keeps all it was sent, with signals as numbers.
use hytch.Common.{
  ℕ, ◌≡◌, refl, some, none, List, [], ◌∷◌, ◌++◌, true, false, last, concat, map, arith,
}
use hytch.Common.Bits.{is_power_of_two}
use hytch.Common.Results.{ok, err}
use hytch.Ring
use hytch.Fanout
use hytch.Fanout.{Fanout}
use hytch.Fanout.LogChannel.{log_channel}
use hytch.SessionLog.{SessionLog, open_log, log_writer}
use hytch.SessionLog.Rotation.{all_granted}
use hytch.SessionLog.History.{Synced, granted_chunk}
use hytch.Daemon.Signals.{numbers}
use hytch.Daemon.Client.{resize, signal}
use hytch.Daemon.Loop.{
  child_exited, signalled, Daemon, Ready, start, loop, round, late_branches, attach_times,
  end_marker, shutdown,
}
use hytch.Daemon.Loop.Step.{read_failed}
use hytch.Daemon.Loop.Output.{output_of, loop-output, log-shutdown}
use hytch.Daemon.Loop.Order.{Kept, loop-Kept}
use hytch.Daemon.Loop.Exit.{loop-exits}

abbrev pub fresh : Daemon log_channel numbers
fresh = record {
  fanout = record {
    ring = record { buf = 0 ∷ 0 ∷ []; head = 0; len = 0 };
    tx = record { room = 1024; chunks = [] };
  };
  log = some [];
  pty = [];
  clients = 0;
  controls = [];
  pushes = [];
  bound = true;
}

pub fresh_started : start log_channel numbers true 2 ≡ some fresh
unfolding start Fanout.new Ring.new is_power_of_two
fresh_started = refl

abbrev pub quiet : Ready log_channel numbers
quiet = record {
  new_controls = [];
  new_pushes = [];
  attaches = 0;
  read = none;
  exit = none;
  accepted = none;
  cut_short = none;
  sigterm = false;
  sigint = false;
}

abbrev pub speaks : List ℕ → Ready log_channel numbers
speaks chunk = record quiet { read = some (ok chunk) }

abbrev gone : Ready log_channel numbers
gone = record quiet { read = some (err tt); exit = some (some 3) }

-- A client resizes and writes, which the pty takes nothing of; the child answers, and then is gone.
abbrev rounds : List (Ready log_channel numbers)
rounds =
    speaks (1 ∷ 2 ∷ 3 ∷ [])
    ∷ record quiet { new_controls = resize 24 80 ∷ []; new_pushes = (7 ∷ []) ∷ []; attaches = 1 }
    ∷ record quiet { cut_short = some 0 }
    ∷ speaks (4 ∷ [])
    ∷ gone
    ∷ []

loop_stops : (loop log_channel numbers rounds fresh).0 ≡ some (child_exited (some 3))
unfolding loop round late_branches attach_times
loop_stops = unfold Fanout.push Fanout.attach in refl

loop-output_example :
    let d' = (loop log_channel numbers rounds fresh).1 in
    (Ring.snapshot d'.fanout.ring ≡ last 2 (concat (output_of d'.pty)))
    × (d'.log ≡ some (output_of d'.pty))
loop-output_example =
    loop-output log_channel numbers rounds true 2 fresh (omega arith) fresh_started

log-shutdown_example :
    let d' = (loop log_channel numbers rounds fresh).1 in
    (log : SessionLog) × (sent : List (List ℕ)) × (open_log all_granted true (5 ∷ []) 100 ≡ ok log)
    × ((shutdown log_channel numbers 65 d').log ≡ some sent)
    × Synced
        (log_writer log (map granted_chunk sent))
        ((5 ∷ []) ++ (concat (output_of d'.pty) ++ end_marker log_channel numbers 65))
    × ((log_writer log (map granted_chunk sent)).max_size ≡ 100)
log-shutdown_example =
    log-shutdown log_channel numbers rounds 2 fresh 65 (5 ∷ []) 100 (omega arith) fresh_started

loop-Kept_example : Kept rounds fresh (loop log_channel numbers rounds fresh)
loop-Kept_example = loop-Kept log_channel numbers rounds fresh

-- A kill waits, and input for a child that has gone.
abbrev loaded : Daemon log_channel numbers
loaded = record fresh { controls = signal 15 ∷ []; pushes = (7 ∷ []) ∷ (8 ∷ []) ∷ [] }

loop-exits_example :
    ((loop log_channel numbers (gone ∷ gone ∷ []) loaded).0 ≡ some (child_exited (some 3)))
    × ((loop log_channel numbers (gone ∷ gone ∷ []) loaded).1.pty ≡ signalled 15 ∷ [])
loop-exits_example =
    loop-exits log_channel numbers (gone ∷ gone ∷ []) loaded (some (some 3)) (omega arith)
      (err tt, refl, read_failed tt, refl, refl, (err tt, refl, read_failed tt, refl, refl, tt))
