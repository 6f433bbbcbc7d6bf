-- ===== src/Cli/Attach/Once.antt =====
-- What of a session's history a terminal shows when it attaches: the log and the daemon's ring are two
-- sources of it.
use hytch.Common.{
  ℕ, ◌<◌, ◌^◌, ◌≡◌, refl, ap, ◌∙◌, Option, none, some, List, [], ◌∷◌, ◌++◌, Bool, true, false,
  concat, map, arith, append-nil, Bool-cases, inl, inr, if◌then◌else◌,
}
use hytch.Common.Results.{Result, ok}
use hytch.Client.Resize.{Winsize}
use hytch.Ring
use hytch.Fanout.{Fanout}
use hytch.Fanout.Broadcast.{BroadcastCrate}
use hytch.Daemon.Signals.{SignalCrate}
use hytch.Daemon.Client.{on_message, on_attach-wrote}
use hytch.Proto.Buffer.{BytesCrate}
use hytch.Proto.Message.{RedrawMethod, Message}
use hytch.Proto.Codec.{default_max_frame_len}
use hytch.Proto.Codec.Stream.{receive}
use hytch.Session.{ancestry_contains}
use hytch.Client.RawMode.{TermiosCrate}
use hytch.Cli.Attach.Terminal.{attach_with-link, connected_raw, connected_plain}
use hytch.Client.Attach.Happening.{Happening, event_of, AllInRange, new_link}
use hytch.Client.Attach.Received.{attach_received}
use hytch.Client.Attach.{run}
use hytch.Cli.Attach.{
  Answers, options, size_or_default, pre_replay_reset, replay_log_to_stdout, self_attach_error,
  attach_connected, attach_foreground,
}

-- Every call succeeds.
abbrev pub all_well : Option (List ℕ) → Bool → Result (Unit {0}) Winsize → List Happening → Answers
all_well chain is_tty size hs = record {
  chain = chain;
  connection = ok tt;
  is_tty = is_tty;
  got_attrs = true;
  set_attrs = true;
  restored = true;
  size = size;
  first_write = none;
  second_write = none;
  events = map event_of hs;
}

module _ (b : BytesCrate) (t : TermiosCrate) where
  attached_link :
      (chain : Option (List ℕ)) (is_tty : Bool) (size : Result (Unit {0}) Winsize)
      (hs : List Happening) (socket_path : List ℕ) (detach_char : Option ℕ) (replayed quiet : Bool)
      (tty : t.Termios)
      → ancestry_contains chain socket_path ≡ false
      → let a = all_well chain is_tty size hs in
        (attach_foreground b t a socket_path detach_char replayed quiet tty).link
        ≡ (run b (options a detach_char replayed) none none (map event_of hs) new_link).1
  unfolding attach_foreground self_attach_error
  attached_link chain is_tty size hs socket_path detach_char replayed quiet tty e =
      let a = all_well chain is_tty size hs in
      let here : attach_foreground b t a socket_path detach_char replayed quiet tty
          ≡ attach_connected b t a detach_char replayed quiet tty =
        ground arith in
      ap (λ r. r.link) here ∙ elim (Bool-cases is_tty) [
        | inl e' ↦
            ap (λ r. r.link) (connected_raw b t a detach_char replayed quiet tty e' refl refl)
            ∙ attach_with-link b t a detach_char replayed quiet tty
                (some (record { original = tty })) (t.make_raw tty)
        | inr e' ↦
            ap (λ r. r.link) (connected_plain b t a detach_char replayed quiet tty e')
            ∙ attach_with-link b t a detach_char replayed quiet tty none tty
      ]

-- What a session's log and its ring have to show: the log, if it has something.
abbrev pub history : Option (List ℕ) → List ℕ → List ℕ
history (some (b ∷ bs)) ring = pre_replay_reset ++ (b ∷ bs)
history (some []) ring = ring
history none ring = ring

replayed_history :
    (log : Option (List ℕ)) (ring : List ℕ)
    → (replay_log_to_stdout log).1 ++ (if (replay_log_to_stdout log).0 then [] else ring)
      ≡ history log ring
unfolding replay_log_to_stdout
replayed_history none ring = refl
replayed_history (some []) ring = refl
replayed_history (some (b ∷ bs)) ring = append-nil (pre_replay_reset ++ (b ∷ bs))

module _ (b : BytesCrate) (t : TermiosCrate) (c : BroadcastCrate) (s : SignalCrate) where
  -- A terminal that attaches is shown a session's history once: the log is replayed if it has
  -- something, and then the daemon, which is told so in the first message that it decodes, does not
  -- replay its ring; else the daemon does. Every call succeeds, the session is not one around the
  -- terminal, sizes are 16-bit numbers, and the daemon's reads cut what the client sends in any way.
  pub history_once :
      (chain : Option (List ℕ)) (is_tty : Bool) (size : Result (Unit {0}) Winsize)
      (hs : List Happening) (socket_path : List ℕ) (detach_char : Option ℕ) (quiet : Bool)
      (tty : t.Termios) (log : Option (List ℕ)) (f : Fanout c) (chunks : List (List ℕ))
      → ancestry_contains chain socket_path ≡ false
      → ((size_or_default is_tty size).0 < 2 ^ 16) × ((size_or_default is_tty size).1 < 2 ^ 16)
      → AllInRange hs
      → let (replayed, shown) = replay_log_to_stdout log in
        let r =
          attach_foreground b t
            (all_well chain is_tty size hs)
            socket_path
            detach_char
            replayed
            quiet
            tty in
        concat chunks ≡ r.link.wire
        → (m : Message) × (rest : List Message) × (receive b default_max_frame_len [] chunks
            ≡ (m ∷ rest, none, []))
          × (shown ++ (on_message c s true m none f).wrote ≡ history log (Ring.snapshot f.ring))
  history_once chain is_tty size hs socket_path detach_char quiet tty log f chunks outside window
        fit e =
      let (replayed, shown) = replay_log_to_stdout log in
      let a = all_well chain is_tty size hs in
      let opts = options a detach_char replayed in
      let wire =
        ap (λ l. l.wire)
          (attached_link b t chain is_tty size hs socket_path detach_char replayed quiet tty
            outside) in
      let (sent, got, key, kept, ending) = attach_received b opts hs chunks window fit (e ∙ wire) in
      (
        Message.attach replayed,
        Message.redraw RedrawMethod.winch opts.rows opts.cols ∷ sent.messages,
        got,
        ap (λ l. shown ++ l) (on_attach-wrote c s replayed none f)
            ∙ replayed_history log (Ring.snapshot f.ring),
      )
