-- ===== src/Daemon/Loop/Sized.antt =====
-- The way of a terminal's size, from `SIGWINCH` to the pty.
mod Tests
use hytch.Common.{
  ℕ, ◌<◌, ◌^◌, ◌≡◌, ◌≢◌, refl, sym, ap, ap₂, ◌∙◌, subst, map, inl, inr, Option, none, some, List,
  [], ◌∷◌, ◌++◌, true, concat, append-nil, append_assoc,
}
use hytch.Common.Results.{ok}
use hytch.Proto.Buffer.{BytesCrate}
use hytch.Proto.Message.{RedrawMethod, Message}
use hytch.Proto.Codec.{default_max_frame_len}
use hytch.Proto.Codec.Stream.{receive}
use hytch.Fanout.{Fanout}
use hytch.Fanout.Broadcast.{BroadcastCrate}
use hytch.Daemon.Signals.{SignalCrate}
use hytch.Daemon.Client.{ControlCommand, resize, signal, signal_of}
use hytch.Daemon.Client.Requests.{handle_all, commands, handle_all-commands}
use hytch.Daemon.Loop.{Daemon, Ready, loop}
use hytch.Daemon.Loop.Order.{all_controls, sent_controls, all_used-controls}
use hytch.Client.Resize.{WindowChange, watch, sizes_had, AllReceived, watch-sizes_had}
use hytch.Client.Attach.{AttachOptions, run}
use hytch.Client.Attach.Happening.{Happening, event_of, asked_of, AllInRange, handshake, new_link}
use hytch.Client.Attach.Messages.{asked_of-append}
use hytch.Client.Attach.Sent.{sized_all}
use hytch.Client.Attach.Received.{attach_received, run-asked}

abbrev pub winch_of : ℕ × ℕ → Message
winch_of (rows, cols) = Message.winch rows cols

module _ (c : BroadcastCrate) (s : SignalCrate) where
  abbrev pub resize_of : ℕ × ℕ → ControlCommand c s
  resize_of (rows, cols) = resize rows cols

  -- The size that comes with the handshake, unless no redraw is asked for.
  abbrev pub first_size : RedrawMethod → ℕ → ℕ → List (ControlCommand c s)
  first_size RedrawMethod.none rows cols = []
  first_size _ rows cols = resize rows cols ∷ []

  commands-winch : (sizes : List (ℕ × ℕ)) → commands c s (map winch_of sizes) ≡ map resize_of sizes
  unfolding commands
  commands-winch [] = refl
  commands-winch ((rows, cols) ∷ sizes) = ap (λ l. resize rows cols ∷ l) (commands-winch sizes)

  commands-handshake :
      (opts : AttachOptions) (ms : List Message)
      → commands c s (asked_of (handshake opts) ++ ms)
        ≡ first_size opts.redraw_method opts.rows opts.cols ++ commands c s ms
  unfolding commands
  commands-handshake opts ms = go opts.redraw_method
    where
      go :
          (m : RedrawMethod)
          → commands c s (asked_of (Message.redraw m opts.rows opts.cols ∷ []) ++ ms)
            ≡ first_size m opts.rows opts.cols ++ commands c s ms
      go RedrawMethod.none = refl
      go RedrawMethod.unspecified = refl
      go RedrawMethod.ctrl_l = refl
      go RedrawMethod.winch = refl

  -- What the handler asks of the loop.
  pub commands_sent :
      (b : BytesCrate) (opts : AttachOptions) (hs : List Happening) (ws : List WindowChange)
      (chunks : List (List ℕ)) (f : Fanout c)
      → (opts.rows < 2 ^ 16) × (opts.cols < 2 ^ 16)
      → AllInRange hs
      → AllReceived ws
      → sized_all hs ≡ map winch_of (watch ws).0
      → (run b opts none none (map event_of hs) new_link).0 ≡ ok none
      → concat chunks ≡ (run b opts none none (map event_of hs) new_link).1.wire
      → (handle_all c s (receive b default_max_frame_len [] chunks).0 none f).controls
        ≡ first_size opts.redraw_method opts.rows opts.cols ++ map resize_of (sizes_had ws)
  commands_sent b opts hs ws chunks f window fit there sized on e =
      let (sent, got, key, kept, ending) = attach_received b opts hs chunks window fit e in
      let asked : asked_of sent.messages ≡ map winch_of (sizes_had ws) =
        run-asked b opts hs on sent
        ∙ sized
        ∙ ap (λ o. map winch_of o.0) (watch-sizes_had ws there) in
      ap (λ r. (handle_all c s r.0 none f).controls) got
      ∙ handle_all-commands c s (handshake opts ++ sent.messages) none f
      ∙ ap (commands c s) (asked_of-append (handshake opts) sent.messages)
      ∙ commands-handshake opts (asked_of sent.messages)
      ∙ ap (λ l. first_size opts.redraw_method opts.rows opts.cols ++ l)
          (ap (commands c s) asked ∙ commands-winch (sizes_had ws))

  -- From the terminal to the pty: a client attaches, its loop still runs, no call of it fails, and its handler
  -- is granted every send. The sizes it handles are those that the watcher sent, whose receiver is
  -- there. However the handler's reads cut what the client sends, and whatever else the rounds of the loop
  -- bring, as long as no other command comes and nothing stops the loop, the commands carried out on
  -- the pty and then those that wait are the ones from before, in order, then the size of the handshake,
  -- unless no redraw was asked for, and then the size after each `SIGWINCH` at which it could be had.
  pub sizes_delivered :
      (b : BytesCrate) (opts : AttachOptions) (hs : List Happening) (ws : List WindowChange)
      (chunks : List (List ℕ)) (f : Fanout c) (rs : List (Ready c s)) (d : Daemon c s)
      → (opts.rows < 2 ^ 16) × (opts.cols < 2 ^ 16)
      → AllInRange hs
      → AllReceived ws
      → sized_all hs ≡ map winch_of (watch ws).0
      → (run b opts none none (map event_of hs) new_link).0 ≡ ok none
      → concat chunks ≡ (run b opts none none (map event_of hs) new_link).1.wire
      → sent_controls rs
        ≡ (handle_all c s (receive b default_max_frame_len [] chunks).0 none f).controls
      → (loop c s rs d).0 ≡ none
      → all_controls (loop c s rs d).1
        ≡ all_controls d
          ++ (first_size opts.redraw_method opts.rows opts.cols ++ map resize_of (sizes_had ws))
  sizes_delivered b opts hs ws chunks f rs d window fit there sized on e came going =
      all_used-controls c s rs d going
      ∙ ap (λ l. all_controls d ++ l)
          (came ∙ commands_sent b opts hs ws chunks f window fit there sized on e)
