-- ===== src/Daemon/Client/Requests.antt =====
-- What a handler does with all that a client sends.
use hytch.Common.{ℕ, ◌≡◌, refl, ap, Option, none, some, List, [], ◌∷◌, ◌++◌, true, false, concat}
use hytch.Proto.Message.{RedrawMethod, Message}
use hytch.Fanout.{Fanout}
use hytch.Fanout.Broadcast.{BroadcastCrate}
use hytch.Daemon.Signals.{SignalCrate}
use hytch.Daemon.Client.{
  ControlCommand, resize, Reaction, signal, going_on, on_attach, send_control, signal_of,
  on_message,
}
use hytch.Client.Attach.Happening.{asked_of, pushes_of}

module _ (c : BroadcastCrate) (s : SignalCrate) where
  -- One message after the other, each granted what it sends; what the rounds do is put together.
  pub handle_all : List Message → Option c.Receiver → Fanout c → Reaction c s
  handle_all [] a f = going_on c s a f
  handle_all (m ∷ ms) a f =
      let r = on_message c s true m a f in
      elim r.attached [
        | none ↦ r
        | some a' ↦
            let rest = handle_all ms a' r.fanout in
            record rest {
              wrote = r.wrote ++ rest.wrote;
              pushes = r.pushes ++ rest.pushes;
              controls = r.controls ++ rest.controls;
            }
      ]

  pub handle_all-pushes :
      (ms : List Message) (a : Option c.Receiver) (f : Fanout c)
      → concat (handle_all ms a f).pushes ≡ pushes_of ms
  unfolding handle_all on_message on_attach send_control
  handle_all-pushes [] a f = refl
  handle_all-pushes (Message.push p ∷ ms) a f = ap (λ l. p ++ l) (handle_all-pushes ms a f)
  handle_all-pushes (Message.attach true ∷ ms) a f = handle_all-pushes ms _ _
  handle_all-pushes (Message.attach false ∷ ms) a f = handle_all-pushes ms _ _
  handle_all-pushes (Message.detach ∷ ms) a f = handle_all-pushes ms none f
  handle_all-pushes (Message.winch rows cols ∷ ms) a f = handle_all-pushes ms a f
  handle_all-pushes (Message.redraw RedrawMethod.unspecified rows cols ∷ ms) a f =
      handle_all-pushes ms a f
  handle_all-pushes (Message.redraw RedrawMethod.none rows cols ∷ ms) a f = handle_all-pushes ms a f
  handle_all-pushes (Message.redraw RedrawMethod.ctrl_l rows cols ∷ ms) a f =
      handle_all-pushes ms a f
  handle_all-pushes (Message.redraw RedrawMethod.winch rows cols ∷ ms) a f =
      handle_all-pushes ms a f
  handle_all-pushes (Message.kill n ∷ ms) a f = handle_all-pushes ms a f

  -- The commands for the sizes and signals that are asked for.
  unfoldable pub commands : List Message → List (ControlCommand c s)
  commands [] = []
  commands (Message.winch rows cols ∷ ms) = resize rows cols ∷ commands ms
  commands (Message.kill n ∷ ms) = signal (signal_of c s n) ∷ commands ms
  commands (_ ∷ ms) = commands ms

  pub handle_all-commands :
      (ms : List Message) (a : Option c.Receiver) (f : Fanout c)
      → (handle_all ms a f).controls ≡ commands (asked_of ms)
  unfolding handle_all on_message on_attach send_control commands
  handle_all-commands [] a f = refl
  handle_all-commands (Message.push p ∷ ms) a f = handle_all-commands ms a f
  handle_all-commands (Message.attach true ∷ ms) a f = handle_all-commands ms _ _
  handle_all-commands (Message.attach false ∷ ms) a f = handle_all-commands ms _ _
  handle_all-commands (Message.detach ∷ ms) a f = handle_all-commands ms none f
  handle_all-commands (Message.winch rows cols ∷ ms) a f =
      ap (λ l. resize rows cols ∷ l) (handle_all-commands ms a f)
  handle_all-commands (Message.redraw RedrawMethod.none rows cols ∷ ms) a f =
      handle_all-commands ms a f
  handle_all-commands (Message.redraw RedrawMethod.unspecified rows cols ∷ ms) a f =
      ap (λ l. resize rows cols ∷ l) (handle_all-commands ms a f)
  handle_all-commands (Message.redraw RedrawMethod.ctrl_l rows cols ∷ ms) a f =
      ap (λ l. resize rows cols ∷ l) (handle_all-commands ms a f)
  handle_all-commands (Message.redraw RedrawMethod.winch rows cols ∷ ms) a f =
      ap (λ l. resize rows cols ∷ l) (handle_all-commands ms a f)
  handle_all-commands (Message.kill n ∷ ms) a f =
      ap (λ l. signal (signal_of c s n) ∷ l) (handle_all-commands ms a f)

  signal_of_lem : (n : ℕ) (sig : s.Signal) → s.from_raw n ≡ some sig → signal_of c s n ≡ sig
  unfolding signal_of
  signal_of_lem n sig e = rw (signal_of, e) refl

  -- A signal that there is goes to the daemon's loop.
  pub handle_all-kill :
      (n : ℕ) (sig : s.Signal) (a : Option c.Receiver) (f : Fanout c)
      → s.from_raw n ≡ some sig
      → (handle_all (Message.kill n ∷ []) a f).controls ≡ signal sig ∷ []
  unfolding handle_all on_message send_control
  handle_all-kill n sig a f e = ap (λ x. signal x ∷ []) (signal_of_lem n sig e)
