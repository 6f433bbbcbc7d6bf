-- ===== src/Daemon/Client/Reactions.antt =====
-- What a handler's round leaves, by what it was given.
use hytch.Common.{
  ◌∷◌, ℕ, ◌≡◌, ◌≢◌, refl, ◌⊎◌, inl, inr, Option, none, some, List, [], Bool, true, false,
  if◌then◌else◌,
}
use hytch.Common.Results.{Result, ok, err}
use hytch.Proto.Message.{RedrawMethod, Message}
use hytch.Proto.Codec.{InvalidData}
use hytch.Fanout
use hytch.Fanout.{Fanout}
use hytch.Fanout.Broadcast.{BroadcastCrate}
use hytch.Daemon.Signals.{SignalCrate}
use hytch.Daemon.Client.{
  RecvError, ControlCommand, resize, signal, signal_of, next, item, Reaction, returned, going_on,
  on_attach, send_control, on_message, handle_event,
}

-- The chunks of a message that is a push, if the send is granted.
abbrev pub offered : Bool → Option (Result InvalidData Message) → List (List ℕ)
offered true (some (ok (Message.push bytes))) = bytes ∷ []
offered _ _ = []

module _ (c : BroadcastCrate) (s : SignalCrate) where
  -- The commands that a message asks for, if the send is granted.
  pub asked : Bool → Option (Result InvalidData Message) → List (ControlCommand c s)
  asked true (some (ok (Message.winch rows cols))) = resize rows cols ∷ []
  asked true (some (ok (Message.redraw RedrawMethod.unspecified rows cols))) = resize rows cols ∷ []
  asked true (some (ok (Message.redraw RedrawMethod.ctrl_l rows cols))) = resize rows cols ∷ []
  asked true (some (ok (Message.redraw RedrawMethod.winch rows cols))) = resize rows cols ∷ []
  asked true (some (ok (Message.kill n))) = signal (signal_of c s n) ∷ []
  asked _ _ = []

  -- The handler's receiver is the one it had, or it has none.
  abbrev pub Keeps : Option c.Receiver → Reaction c s → Type 0
  Keeps a r = (r.attached ≡ some a) ⊎ ((rx : c.Receiver) → r.attached ≢ some (some rx))

  pub data Reacts (o : Option (Result InvalidData Message)) (a : Option c.Receiver) (f : Fanout c)
      (r : Reaction c s) : Type 0 where
    attaching :
        (skip_ring : Bool)
        → o ≡ some (ok (Message.attach skip_ring))
        → r.fanout ≡ (Fanout.attach c f).2
        → (r.attached ≡ none)
          ⊎ ((r.attached ≡ some (some (Fanout.attach c f).1))
              × (r.wrote ≡ (if skip_ring then [] else (Fanout.attach c f).0)))
        → Reacts o a f r
    other :
        ((skip_ring : Bool) → o ≢ some (ok (Message.attach skip_ring)))
        → r.fanout ≡ f
        → r.wrote ≡ []
        → Keeps a r
        → Reacts o a f r

  pub handle_event-Reacts :
      (sent : Bool) (o : Option (Result InvalidData Message)) (a : Option c.Receiver) (f : Fanout c)
      → Reacts o a f (handle_event c s sent (next o) a f)
  unfolding handle_event on_message on_attach send_control
  handle_event-Reacts sent none a f = other (λ k e. cc) refl refl (inr (λ rx e. cc))
  handle_event-Reacts sent (some (err x)) a f = other (λ k e. cc) refl refl (inr (λ rx e. cc))
  handle_event-Reacts sent (some (ok (Message.attach true))) a f =
      attaching true refl refl (inr (refl, refl))
  handle_event-Reacts true (some (ok (Message.attach false))) a f =
      attaching false refl refl (inr (refl, refl))
  handle_event-Reacts false (some (ok (Message.attach false))) a f =
      attaching false refl refl (inl refl)
  handle_event-Reacts sent (some (ok Message.detach)) a f =
      other (λ k e. cc) refl refl (inr (λ rx e. cc))
  handle_event-Reacts true (some (ok (Message.push bytes))) a f =
      other (λ k e. cc) refl refl (inl refl)
  handle_event-Reacts false (some (ok (Message.push bytes))) a f =
      other (λ k e. cc) refl refl (inr (λ rx e. cc))
  handle_event-Reacts true (some (ok (Message.winch rows cols))) a f =
      other (λ k e. cc) refl refl (inl refl)
  handle_event-Reacts false (some (ok (Message.winch rows cols))) a f =
      other (λ k e. cc) refl refl (inr (λ rx e. cc))
  handle_event-Reacts true (some (ok (Message.kill n))) a f = other (λ k e. cc) refl refl (inl refl)
  handle_event-Reacts false (some (ok (Message.kill n))) a f =
      other (λ k e. cc) refl refl (inr (λ rx e. cc))
  handle_event-Reacts sent (some (ok (Message.redraw RedrawMethod.none rows cols))) a f =
      other (λ k e. cc) refl refl (inl refl)
  handle_event-Reacts true (some (ok (Message.redraw _ rows cols))) a f =
      other (λ k e. cc) refl refl (inl refl)
  handle_event-Reacts false (some (ok (Message.redraw _ rows cols))) a f =
      other (λ k e. cc) refl refl (inr (λ rx e. cc))

  pub handle_event-item :
      (bytes : List ℕ) (a : Option c.Receiver) (f : Fanout c)
      → (handle_event c s true (item (ok bytes)) a f ≡ record (going_on c s a f) { wrote = bytes })
        × (handle_event c s false (item (ok bytes)) a f ≡ returned c s f)
  unfolding handle_event
  handle_event-item bytes a f = (refl, refl)

  pub handle_event-lost :
      (sent : Bool) (e : RecvError) (a : Option c.Receiver) (f : Fanout c)
      → handle_event c s sent (item (err e)) a f ≡ returned c s f
  unfolding handle_event
  handle_event-lost sent e a f = refl

  -- Output is not answered to the loop.
  pub handle_event-quiet :
      (sent : Bool) (o : Result RecvError (List ℕ)) (a : Option c.Receiver) (f : Fanout c)
      → ((handle_event c s sent (item o) a f).pushes ≡ [])
        × ((handle_event c s sent (item o) a f).controls ≡ [])
  unfolding handle_event
  handle_event-quiet true (ok bytes) a f = (refl, refl)
  handle_event-quiet false (ok bytes) a f = (refl, refl)
  handle_event-quiet sent (err e) a f = (refl, refl)

  -- Only a push is handed on as input, and only if the send is granted.
  pub handle_event-pushes :
      (sent : Bool) (o : Option (Result InvalidData Message)) (a : Option c.Receiver) (f : Fanout c)
      → (handle_event c s sent (next o) a f).pushes ≡ offered sent o
  unfolding handle_event on_message on_attach send_control
  handle_event-pushes true none a f = refl
  handle_event-pushes false none a f = refl
  handle_event-pushes true (some (err x)) a f = refl
  handle_event-pushes false (some (err x)) a f = refl
  handle_event-pushes true (some (ok (Message.attach true))) a f = refl
  handle_event-pushes true (some (ok (Message.attach false))) a f = refl
  handle_event-pushes false (some (ok (Message.attach true))) a f = refl
  handle_event-pushes false (some (ok (Message.attach false))) a f = refl
  handle_event-pushes true (some (ok Message.detach)) a f = refl
  handle_event-pushes false (some (ok Message.detach)) a f = refl
  handle_event-pushes true (some (ok (Message.push bytes))) a f = refl
  handle_event-pushes false (some (ok (Message.push bytes))) a f = refl
  handle_event-pushes true (some (ok (Message.winch rows cols))) a f = refl
  handle_event-pushes false (some (ok (Message.winch rows cols))) a f = refl
  handle_event-pushes true (some (ok (Message.kill n))) a f = refl
  handle_event-pushes false (some (ok (Message.kill n))) a f = refl
  handle_event-pushes true (some (ok (Message.redraw RedrawMethod.none rows cols))) a f = refl
  handle_event-pushes false (some (ok (Message.redraw RedrawMethod.none rows cols))) a f = refl
  handle_event-pushes true (some (ok (Message.redraw RedrawMethod.unspecified rows cols))) a f =
      refl
  handle_event-pushes false (some (ok (Message.redraw RedrawMethod.unspecified rows cols))) a f =
      refl
  handle_event-pushes true (some (ok (Message.redraw RedrawMethod.ctrl_l rows cols))) a f = refl
  handle_event-pushes false (some (ok (Message.redraw RedrawMethod.ctrl_l rows cols))) a f = refl
  handle_event-pushes true (some (ok (Message.redraw RedrawMethod.winch rows cols))) a f = refl
  handle_event-pushes false (some (ok (Message.redraw RedrawMethod.winch rows cols))) a f = refl

  -- Only a granted send is handed on as a command.
  pub handle_event-controls :
      (sent : Bool) (o : Option (Result InvalidData Message)) (a : Option c.Receiver) (f : Fanout c)
      → (handle_event c s sent (next o) a f).controls ≡ asked sent o
  unfolding handle_event on_message on_attach send_control asked
  handle_event-controls true none a f = refl
  handle_event-controls false none a f = refl
  handle_event-controls true (some (err x)) a f = refl
  handle_event-controls false (some (err x)) a f = refl
  handle_event-controls true (some (ok (Message.attach true))) a f = refl
  handle_event-controls true (some (ok (Message.attach false))) a f = refl
  handle_event-controls false (some (ok (Message.attach true))) a f = refl
  handle_event-controls false (some (ok (Message.attach false))) a f = refl
  handle_event-controls true (some (ok Message.detach)) a f = refl
  handle_event-controls false (some (ok Message.detach)) a f = refl
  handle_event-controls true (some (ok (Message.push bytes))) a f = refl
  handle_event-controls false (some (ok (Message.push bytes))) a f = refl
  handle_event-controls true (some (ok (Message.winch rows cols))) a f = refl
  handle_event-controls false (some (ok (Message.winch rows cols))) a f = refl
  handle_event-controls true (some (ok (Message.kill n))) a f = refl
  handle_event-controls false (some (ok (Message.kill n))) a f = refl
  handle_event-controls true (some (ok (Message.redraw RedrawMethod.none rows cols))) a f = refl
  handle_event-controls false (some (ok (Message.redraw RedrawMethod.none rows cols))) a f = refl
  handle_event-controls true (some (ok (Message.redraw RedrawMethod.unspecified rows cols))) a f =
      refl
  handle_event-controls false (some (ok (Message.redraw RedrawMethod.unspecified rows cols))) a f =
      refl
  handle_event-controls true (some (ok (Message.redraw RedrawMethod.ctrl_l rows cols))) a f = refl
  handle_event-controls false (some (ok (Message.redraw RedrawMethod.ctrl_l rows cols))) a f = refl
  handle_event-controls true (some (ok (Message.redraw RedrawMethod.winch rows cols))) a f = refl
  handle_event-controls false (some (ok (Message.redraw RedrawMethod.winch rows cols))) a f = refl
