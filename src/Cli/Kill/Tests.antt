-- ===== src/Cli/Kill/Tests.antt =====
-- A session that never stops, and a signal on its way.
use hytch.Common.{
  ℕ, zero, suc, ◌+◌, ◌≡◌, refl, sym, none, some, List, [], ◌∷◌, true, false, arith, append-nil,
}
use hytch.Proto.ListBytes.{list_bytes}
use hytch.Proto.Message.{Message}
use hytch.Proto.Codec.{default_max_frame_len}
use hytch.Proto.Codec.Stream.{receive}
use hytch.Fanout.LogChannel.{log_channel}
use hytch.Daemon.Signals.{numbers}
use hytch.Daemon.Client.{resize}
use hytch.Daemon.Client.Requests.{handle_all}
use hytch.Daemon.Loop.{Daemon, Ready, resized, signalled, loop}
use hytch.Daemon.Loop.Tests.{fresh, speaks}
use hytch.Cli.Kill.{Poll, kill, wait_gone, escalate, send_control}
use hytch.Cli.Kill.Signalled.{kill-signalled}
use hytch.Cli.Kill.Answer.{Spaced, Ended, kill-Ended}

-- `n` polls, 100 milliseconds apart from `t` on.
abbrev polls_from : ℕ → ℕ → List Poll
polls_from zero t = []
polls_from (suc n) t = record { now = t; there = true } ∷ polls_from n (t + 100)

kill_fails : kill false true (polls_from 51 0) true (polls_from 21 0) ≡ (some 1, 15 ∷ 9 ∷ [])
unfolding kill wait_gone escalate
kill_fails = refl

polls_from-Spaced : (n t : ℕ) → Spaced t (polls_from n t)
polls_from-Spaced zero t = tt
polls_from-Spaced (suc n) t = (omega arith, polls_from-Spaced n (t + 100))

kill-Ended_example :
    Ended false true
      (polls_from 51 0)
      (polls_from 21 0)
      (kill false true (polls_from 51 0) true (polls_from 21 0))
kill-Ended_example =
    kill-Ended false true (polls_from 51 0) (polls_from 21 0) (polls_from-Spaced 51 0) (omega arith)
      (polls_from-Spaced 21 0) (omega arith)

abbrev terminate : List (List ℕ)
terminate = (send_control list_bytes true (Message.kill 15) none).1 ∷ []

-- The child writes something in the same round.
abbrev busy : Ready log_channel numbers
busy = record (speaks (1 ∷ [])) {
  new_controls =
      (handle_all log_channel numbers (receive list_bytes default_max_frame_len [] terminate).0 none
        fresh.fanout).controls;
}

-- A resize waits before it.
abbrev resizing : Daemon log_channel numbers
resizing = record fresh { controls = resize 24 80 ∷ [] }

kill-signalled_example :
    ((loop log_channel numbers (busy ∷ speaks (2 ∷ []) ∷ []) resizing).0 ≡ none)
    × ((loop log_channel numbers (busy ∷ speaks (2 ∷ []) ∷ []) resizing).1.pty
        ≡ resized 24 80 ∷ signalled 15 ∷ [])
kill-signalled_example =
    kill-signalled log_channel numbers list_bytes false terminate fresh.fanout resizing busy
      (speaks (2 ∷ []) ∷ []) [] (append-nil (send_control list_bytes true (Message.kill 15) none).1)
      (sym (append-nil busy.new_controls)) refl
