-- ===== src/Daemon/Loop/Window.antt =====
-- The pty's window after the loop's calls, and the terminal's.
use hytch.Common.{
  ℕ, suc, ◌-◌, Bool, length, length-append, arith, ◌<◌, ◌^◌, ◌≡◌, refl, sym, ap, ◌∙◌, map,
  map-append, none, List, [], ◌∷◌, ◌++◌, true, concat, append-nil, append_assoc,
}
use hytch.Common.Results.{ok}
use hytch.Proto.Buffer.{BytesCrate}
use hytch.Proto.Codec.{default_max_frame_len}
use hytch.Proto.Codec.Stream.{receive}
use hytch.Fanout.{Fanout}
use hytch.Fanout.Broadcast.{BroadcastCrate}
use hytch.Daemon.Signals.{SignalCrate}
use hytch.Daemon.Pty
use hytch.Daemon.Client.{ControlCommand, resize, signal}
use hytch.Daemon.Client.Requests.{handle_all}
use hytch.Daemon.Loop.{PtyCall, resized, signalled, gave, took, Daemon, Ready, loop}
use hytch.Daemon.Loop.Order.{commands_of, all_controls, sent_controls}
use hytch.Daemon.Loop.Sized.{winch_of, resize_of, first_size, sizes_delivered}
use hytch.Client.Resize.{Winsize, WindowChange, watch, sizes_had, AllReceived}
use hytch.Client.Attach.{AttachOptions, run}
use hytch.Client.Attach.Happening.{Happening, event_of, AllInRange, new_link}
use hytch.Client.Attach.Sent.{sized_all}

module _ (c : BroadcastCrate) (s : SignalCrate) where
  -- The window after calls on the pty: `grants k` is the system's answer to the `k`-th command, counted
  -- from 0, if that is a resize. The loop ignores a refusal.
  unfoldable pub window_after : (ℕ → Bool) → List (PtyCall c s) → Winsize → Winsize
  window_after grants [] window = window
  window_after grants (resized rows cols ∷ calls) window =
      window_after (λ k. grants (suc k)) calls (Pty.resize (grants 0) rows cols window).1
  window_after grants (signalled sig ∷ calls) window =
      window_after (λ k. grants (suc k)) calls window
  window_after grants (_ ∷ calls) window = window_after grants calls window

  after_commands : (ℕ → Bool) → List (ControlCommand c s) → Winsize → Winsize
  after_commands grants [] window = window
  after_commands grants (resize rows cols ∷ commands) window =
      after_commands (λ k. grants (suc k)) commands (Pty.resize (grants 0) rows cols window).1
  after_commands grants (signal sig ∷ commands) window =
      after_commands (λ k. grants (suc k)) commands window

  window_after-commands :
      (grants : ℕ → Bool) (calls : List (PtyCall c s)) (window : Winsize)
      → window_after grants calls window ≡ after_commands grants (commands_of calls) window
  unfolding window_after after_commands commands_of
  window_after-commands grants [] window = refl
  window_after-commands grants (resized rows cols ∷ calls) window =
      window_after-commands (λ k. grants (suc k)) calls _
  window_after-commands grants (signalled sig ∷ calls) window =
      window_after-commands (λ k. grants (suc k)) calls window
  window_after-commands grants (gave chunk ∷ calls) window =
      window_after-commands grants calls window
  window_after-commands grants (took chunk cut_short ∷ calls) window =
      window_after-commands grants calls window

  -- Only the answer to the last resize matters.
  last_command :
      (grants : ℕ → Bool) (commands : List (ControlCommand c s)) (size : ℕ × ℕ) (window : Winsize)
      → grants (length commands) ≡ true
      → Pty.current_size true (after_commands grants (commands ++ (resize_of c s size ∷ [])) window)
        ≡ ok size
  unfolding after_commands Pty.resize Pty.current_size
  last_command grants [] size window e =
      ap (λ g. Pty.current_size true (Pty.resize g size.0 size.1 window).1) e
  last_command grants (resize rows cols ∷ commands) size window e =
      last_command (λ k. grants (suc k)) commands size _ e
  last_command grants (signal sig ∷ commands) size window e =
      last_command (λ k. grants (suc k)) commands size window e

  -- The pty takes on the terminal's size: a client attaches, its loop still runs, no call of it fails, and
  -- its handler is granted every send. The sizes it handles are those that the watcher sent, whose
  -- receiver is there; the last one had was `size`. However the handler's reads cut what the client
  -- sends, and whatever else the rounds of the loop bring, as long as no other command comes and nothing
  -- stops the loop: once no command waits, the pty, if it can be asked for its size, answers `size`. The
  -- system grants the resize that is the last of the commands carried out; it may refuse the others.
  pub pty_follows :
      (b : BytesCrate) (opts : AttachOptions) (hs : List Happening) (ws : List WindowChange)
      (chunks : List (List ℕ)) (f : Fanout c) (rs : List (Ready c s)) (d : Daemon c s)
      (sizes : List (ℕ × ℕ)) (size : ℕ × ℕ) (window : Winsize) (grants : ℕ → Bool)
      → (opts.rows < 2 ^ 16) × (opts.cols < 2 ^ 16)
      → AllInRange hs
      → AllReceived ws
      → sized_all hs ≡ map winch_of (watch ws).0
      → sizes_had ws ≡ sizes ++ (size ∷ [])
      → (run b opts none none (map event_of hs) new_link).0 ≡ ok none
      → concat chunks ≡ (run b opts none none (map event_of hs) new_link).1.wire
      → sent_controls rs
        ≡ (handle_all c s (receive b default_max_frame_len [] chunks).0 none f).controls
      → (loop c s rs d).0 ≡ none
      → (loop c s rs d).1.controls ≡ []
      → grants (length (commands_of (loop c s rs d).1.pty) - 1) ≡ true
      → Pty.current_size true (window_after grants (loop c s rs d).1.pty window) ≡ ok size
  pty_follows b opts hs ws chunks f rs d sizes size window grants fits fit there sized had on e came
        going idle granted =
      let d' = (loop c s rs d).1 in
      let first = first_size c s opts.redraw_method opts.rows opts.cols in
      let all =
        sizes_delivered c s b opts hs ws chunks f rs d fits fit there sized on e came going in
      let split : map (resize_of c s) (sizes_had ws)
          ≡ map (resize_of c s) sizes ++ (resize_of c s size ∷ []) =
        ap (map (resize_of c s)) had ∙ map-append (resize_of c s) sizes (size ∷ []) in
      let done : commands_of d'.pty
          ≡ (all_controls d ++ (first ++ map (resize_of c s) sizes)) ++ (resize_of c s size ∷ []) =
        sym (append-nil (commands_of d'.pty))
        ∙ ap (λ l. commands_of d'.pty ++ l) (sym idle)
        ∙ all
        ∙ ap (λ l. all_controls d ++ (first ++ l)) split
        ∙ ap (λ l. all_controls d ++ l) (sym (append_assoc first (map (resize_of c s) sizes) _))
        ∙ sym (append_assoc (all_controls d) (first ++ map (resize_of c s) sizes) _) in
      let before = all_controls d ++ (first ++ map (resize_of c s) sizes) in
      let place : length (commands_of d'.pty) - 1 ≡ length before =
        let e = ap length done in omega (arith, length-append before (resize_of c s size ∷ [])) in
      ap (Pty.current_size true)
        (window_after-commands grants d'.pty window ∙ ap (λ l. after_commands grants l window) done)
      ∙ last_command grants before size window (ap grants (sym place) ∙ granted)
