-- ===== src/Daemon/Pty/Tests.antt =====
-- Tests of the pty: a terminal that cannot be entered, and calls that block first.
use hytch.Common.{
  ℕ, zero, suc, ◌≡◌, refl, ◌⊎◌, Option, none, some, List, [], ◌∷◌, ◌++◌, true, false,
}
use hytch.Common.Results.{ok}
use hytch.Client.Resize.{Winsize}
use hytch.Common.Text.{codes}
use hytch.Daemon.Pty.{
  ProcessCrate, Call, Answers, Pty, path_of, spawn, Turn, pending, blocked, moved, poll_read,
  poll_write, resize, current_size,
}
use hytch.Daemon.Pty.Spawned.{whole, spawn-whole}

-- Zero is no process.
abbrev pub positive : ℕ → Option ℕ
positive zero = none
positive (suc n) = some (suc n)

abbrev pub linux : ProcessCrate
linux = record { Pid = ℕ; from_raw = positive }

abbrev pub all_well : Answers
all_well = record {
  opened = true;
  granted = true;
  unlocked = true;
  nonblocking = true;
  sized = true;
  slave_name = some (codes "/dev/pts/3");
  slave = true;
  dup_in = true;
  dup_out = true;
  dup_err = true;
  forked = true;
  session = true;
  controlling = true;
  executed = true;
  id = some 4711;
  registered = true;
}

no_terminal :
    (spawn linux (record all_well { slave = false }) (codes "sh") [] 24 80 (codes "/s/a")).0 ≡ none
unfolding spawn hytch.Daemon.Pty.attempt hytch.Daemon.Pty.steps
no_terminal = refl

spawn-whole_example :
    let (pty, calls) = spawn linux all_well (codes "sh") [] 24 80 (codes "/s/a") in
    let all = whole (path_of all_well.slave_name) (codes "sh") [] 24 80 (codes "/s/a") in
    ((rest : List Call) × (calls ++ rest ≡ all))
    × ((pty ≡ none)
        ⊎ ((raw_pid : ℕ) × (group : Pty linux) × (pty ≡ some group)
            × (calls ≡ all)
            × (all_well.id ≡ some raw_pid)
            × (linux.from_raw raw_pid ≡ some group.pgid)))
spawn-whole_example = spawn-whole linux all_well (codes "sh") [] 24 80 (codes "/s/a")

abbrev turns : List Turn
turns = blocked ∷ moved 2 ∷ []

read_two : poll_read turns (1 ∷ 2 ∷ 3 ∷ []) ≡ (some (ok (1 ∷ 2 ∷ [])), 3 ∷ [])
unfolding poll_read
read_two = refl

abbrev window : Winsize
window = record { ws_row = 24; ws_col = 80; ws_xpixel = 640; ws_ypixel = 480 }

-- A new size takes the place of the old one, its pixels too.
resized :
    (resize true 30 100 window).1
    ≡ record { ws_row = 30; ws_col = 100; ws_xpixel = 0; ws_ypixel = 0 }
unfolding resize
resized = refl

refused : current_size true (resize false 30 100 window).1 ≡ ok (24, 80)
unfolding resize current_size
refused = refl
