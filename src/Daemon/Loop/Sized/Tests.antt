-- ===== src/Daemon/Loop/Sized/Tests.antt =====
-- A new size that comes while the child writes.
use hytch.Common.{
  ℕ, zero, suc, ◌-◌, Bool, false, length, ◌≡◌, refl, ap, sym, subst, true, none, List, [], ◌∷◌,
  ◌++◌, map, arith, append-nil,
}
use hytch.Common.Results.{ok}
use hytch.Proto.ListBytes.{list_bytes}
use hytch.Proto.Codec.{default_max_frame_len}
use hytch.Proto.Codec.Stream.{receive}
use hytch.Fanout.LogChannel.{log_channel}
use hytch.Daemon.Signals.{numbers}
use hytch.Daemon.Client.{ControlCommand, resize}
use hytch.Daemon.Client.Requests.{handle_all}
use hytch.Daemon.Loop.{Ready, round, loop}
use hytch.Daemon.Loop.Tests.{fresh, speaks}
use hytch.Daemon.Loop.Order.{all_controls, commands_of}
use hytch.Daemon.Loop.Sized.{winch_of, commands_sent, sizes_delivered}
use hytch.Daemon.Pty
use hytch.Daemon.Loop.Window.{window_after, pty_follows}
use hytch.Client.Resize.{watch, watch-sizes_had}
use hytch.Client.Resize.Tests.{changes}
use hytch.Client.Attach.{run}
use hytch.Client.Attach.Happening.{event_of, new_link}
use hytch.Client.Attach.Sent.{sized_all}
use hytch.Client.Attach.Tests.{options, sized_once, size-goes_on}

abbrev wire : List (List ℕ)
wire = (run list_bytes options none none (map event_of sized_once) new_link).1.wire ∷ []

-- Two rounds with output.
abbrev bringing : List (ControlCommand log_channel numbers) → List (Ready log_channel numbers)
bringing controls = record (speaks (1 ∷ [])) { new_controls = controls } ∷ speaks (2 ∷ []) ∷ []

abbrev asked : List (ControlCommand log_channel numbers)
asked =
    (handle_all log_channel numbers (receive list_bytes default_max_frame_len [] wire).0 none
      fresh.fanout).controls

watched : sized_all sized_once ≡ map winch_of (watch changes).0
watched = ap (λ o. map winch_of o.0) (sym (watch-sizes_had changes (refl, (refl, tt))))

asked_both : asked ≡ resize 24 80 ∷ resize 30 100 ∷ []
asked_both =
    commands_sent log_channel numbers list_bytes options sized_once changes wire fresh.fanout
      (omega arith, omega arith) ((omega arith, omega arith), tt) (refl, (refl, tt)) watched
      size-goes_on (append-nil _)

bringing-carries :
    (controls : List (ControlCommand log_channel numbers))
    → controls ≡ resize 24 80 ∷ resize 30 100 ∷ []
    → ((loop log_channel numbers (bringing controls) fresh).0 ≡ none)
      × ((loop log_channel numbers (bringing controls) fresh).1.controls ≡ [])
unfolding loop round
bringing-carries controls e =
    subst
      (λ l.
        ((loop log_channel numbers (bringing l) fresh).0 ≡ none)
        × ((loop log_channel numbers (bringing l) fresh).1.controls ≡ []))
      (sym e) (refl, refl)

sizes_delivered_example :
    all_controls (loop log_channel numbers (bringing asked) fresh).1
    ≡ all_controls fresh ++ (resize 24 80 ∷ resize 30 100 ∷ [])
sizes_delivered_example =
    sizes_delivered log_channel numbers list_bytes options sized_once changes wire fresh.fanout
      (bringing asked) fresh (omega arith, omega arith) ((omega arith, omega arith), tt)
      (refl, (refl, tt)) watched size-goes_on (append-nil _) (append-nil _)
      (bringing-carries asked asked_both).0

-- The first resize is refused.
abbrev grants : ℕ → Bool
grants zero = false
grants (suc k) = true

two_commands :
    (controls : List (ControlCommand log_channel numbers))
    → controls ≡ resize 24 80 ∷ resize 30 100 ∷ []
    → grants (length (commands_of (loop log_channel numbers (bringing controls) fresh).1.pty) - 1)
      ≡ true
unfolding loop round commands_of
two_commands controls e =
    subst
      (λ l.
        grants (length (commands_of (loop log_channel numbers (bringing l) fresh).1.pty) - 1)
        ≡ true)
      (sym e) refl

pty_follows_example :
    Pty.current_size true (
      window_after log_channel numbers grants
        (loop log_channel numbers (bringing asked) fresh).1.pty
        (record { ws_row = 0; ws_col = 0; ws_xpixel = 0; ws_ypixel = 0 }))
    ≡ ok (30, 100)
pty_follows_example =
    pty_follows log_channel numbers list_bytes options sized_once changes wire fresh.fanout
      (bringing asked) fresh [] (30, 100)
      (record { ws_row = 0; ws_col = 0; ws_xpixel = 0; ws_ypixel = 0 }) grants
      (omega arith, omega arith) ((omega arith, omega arith), tt) (refl, (refl, tt)) watched refl
      size-goes_on (append-nil _) (append-nil _) (bringing-carries asked asked_both).0
      (bringing-carries asked asked_both).1 (two_commands asked asked_both)
