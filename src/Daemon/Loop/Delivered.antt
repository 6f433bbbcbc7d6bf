-- ===== src/Daemon/Loop/Delivered.antt =====
-- The way of input, from the keyboard or the standard input of `push` to the child's pty.
mod Tests
use hytch.Common.{
  ℕ, ◌<◌, ◌^◌, ◌≡◌, ◌≢◌, refl, sym, ap, ◌∙◌, subst, map, ◌⊎◌, inl, inr, Option, none, some, List,
  [], ◌∷◌, ◌++◌, true, concat, concat-append, append-nil,
}
use hytch.Proto.Buffer.{BytesCrate}
use hytch.Proto.Message.{Message}
use hytch.Proto.Codec.{default_max_frame_len}
use hytch.Proto.Codec.Stream.{receive}
use hytch.Fanout.{Fanout}
use hytch.Fanout.Broadcast.{BroadcastCrate}
use hytch.Daemon.Signals.{SignalCrate}
use hytch.Daemon.Client.Requests.{handle_all, handle_all-pushes}
use hytch.Daemon.Loop.{Daemon, Ready, loop}
use hytch.Daemon.Loop.Order.{sent_pushes}
use hytch.Daemon.Loop.Written.{input_bytes, AllTaken, loop-input_bytes}
use hytch.Client.Attach.{AttachOptions, AttachOutcome, run}
use hytch.Client.Attach.Special.{UpTo}
use hytch.Client.Attach.Happening.{
  Happening, event_of, pushes_of, AllInRange, after, handshake, new_link,
}
use hytch.Client.Attach.Sent.{Sent, typed_all}
use hytch.Client.Attach.Received.{attach_received}
use hytch.Cli.Push.{push}
use hytch.Cli.Push.Received.{rounds_of, AllReads, push-received}

module _ (c : BroadcastCrate) (s : SignalCrate) where
  -- The input of rounds that bring what a handler makes of its client's messages.
  pub loop-input :
      (rs : List (Ready c s)) (d : Daemon c s) (ms : List Message) (a : Option c.Receiver)
      (f : Fanout c)
      → AllTaken rs
      → (loop c s rs d).0 ≡ none
      → sent_pushes rs ≡ (handle_all c s ms a f).pushes
      → input_bytes (loop c s rs d).1 ≡ input_bytes d ++ pushes_of ms
  loop-input rs d ms a f whole on same =
      loop-input_bytes c s rs d whole on
      ∙ ap (λ l. input_bytes d ++ concat l) same
      ∙ ap (λ l. input_bytes d ++ l) (handle_all-pushes c s ms a f)

  -- From the keyboard to the pty: a client attaches, no call of it fails, its handler is granted every
  -- send, and the pty takes all of every chunk that is written to it, in time. However the handler's
  -- reads cut what the client sends, and whatever else the rounds of the loop bring, as long as no
  -- other input comes and nothing stops the loop, the bytes that the pty took and then those that wait
  -- are the ones from before, in order, and then exactly those typed before the first byte that is the
  -- suspend or the detach character.
  pub typed_delivered :
      (b : BytesCrate) (opts : AttachOptions) (hs : List Happening) (chunks : List (List ℕ))
      (f : Fanout c) (rs : List (Ready c s)) (d : Daemon c s)
      → (opts.rows < 2 ^ 16) × (opts.cols < 2 ^ 16)
      → AllInRange hs
      → concat chunks ≡ (run b opts none none (map event_of hs) new_link).1.wire
      → sent_pushes rs
        ≡ (handle_all c s (receive b default_max_frame_len [] chunks).0 none f).pushes
      → AllTaken rs
      → (loop c s rs d).0 ≡ none
      → (sent : Sent opts hs
          (after new_link (handshake opts) [])
          (run b opts none none (map event_of hs) new_link))
        × (keys : List ℕ) × (outcome : Option AttachOutcome) × UpTo opts.detach_char
            opts.suspend_char
            (typed_all sent.used)
            keys
            outcome
        × (input_bytes (loop c s rs d).1 ≡ input_bytes d ++ keys)
  typed_delivered b opts hs chunks f rs d window fit e came whole on =
      let (sent, got, key, kept, ending) = attach_received b opts hs chunks window fit e in
      (
        sent,
        pushes_of sent.messages,
        key,
        kept,
        loop-input rs d (handshake opts ++ sent.messages) none f whole on
            (came ∙ ap (λ r. (handle_all c s r.0 none f).pushes) got),
      )

  pushes_of-push : (input : List (List ℕ)) → pushes_of (map Message.push input) ≡ concat input
  pushes_of-push [] = refl
  pushes_of-push (x ∷ xs) = ap (λ l. x ++ l) (pushes_of-push xs)

  -- From the standard input of `push` to the pty: with a connection and no failing call the command ends
  -- with exit code 0, and however the handler's reads cut what it sent, and whatever else the rounds of
  -- the loop bring, as long as no other input comes, nothing stops the loop and the pty takes all of
  -- every chunk that is written to it, in time, the bytes that the pty took and then those that wait are
  -- the ones from before, in order, and then exactly the input. Each read of it gives at least a byte
  -- and at most the buffer's size.
  pub push_delivered :
      (b : BytesCrate) (input chunks : List (List ℕ)) (f : Fanout c) (rs : List (Ready c s))
      (d : Daemon c s)
      → AllReads input
      → concat chunks ≡ (push b true (rounds_of input)).1
      → sent_pushes rs
        ≡ (handle_all c s (receive b default_max_frame_len [] chunks).0 none f).pushes
      → AllTaken rs
      → (loop c s rs d).0 ≡ none
      → ((push b true (rounds_of input)).0 ≡ some 0)
        × (input_bytes (loop c s rs d).1 ≡ input_bytes d ++ concat input)
  push_delivered b input chunks f rs d fit e came whole on =
      let (code, got) = push-received b input chunks fit e in
      (
        code,
        loop-input rs d (map Message.push input) none f whole on
              (came ∙ ap (λ r. (handle_all c s r.0 none f).pushes) got)
            ∙ ap (λ l. input_bytes d ++ l) (pushes_of-push input),
      )
