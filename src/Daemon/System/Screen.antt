-- ===== src/Daemon/System/Screen.antt =====
-- From the pty to the terminal: a daemon's tasks, one connection, and the attach loop at its other end.
use hytch.Common.{
  ℕ, ◌+◌, ◌<◌, ◌^◌, ◌≡◌, sym, ap, ◌∙◌, map, none, some, List, [], ◌++◌, Bool, length, concat, drop,
  last, append_assoc, if◌then◌else◌,
}
use hytch.Common.Results.{ok}
use hytch.Proto.Buffer.{BytesCrate}
use hytch.Fanout.Broadcast.{BroadcastCrate}
use hytch.Daemon.Signals.{SignalCrate}
use hytch.Daemon.Loop.{Daemon, start}
use hytch.Daemon.System.{System, output, Reach}
use hytch.Daemon.System.Lagging.{NeverLags}
use hytch.Daemon.System.Invariant.{attached-view}
use hytch.Client.Attach.{AttachOptions, run}
use hytch.Client.Attach.Happening.{Happening, event_of, AllInRange, new_link}
use hytch.Client.Attach.Sent.{shown_all}
use hytch.Client.Attach.Received.{run-shown}

module _ (c : BroadcastCrate) (s : SignalCrate) (b : BytesCrate) where
  -- At any moment of any interleaving of the loop and the connections' tasks, for a client that
  -- never lagged, is attached for the first time and whose loop still runs with no failing call:
  -- what its terminal shows, then what is on the way in the connection, then what its receiver
  -- holds, is the pty's output since its `Attach`, preceded by the up to `n` bytes before it unless
  -- it asked to skip them. The connection hands the client's reads what its task wrote, in order.
  -- The scrollback is of `n` bytes.
  pub terminal_shows :
      {d : Daemon c s} {t : System c s} (logging : Bool) (n : ℕ) (r : Reach c s d t) (i : ℕ)
      (rx : c.Receiver) (opts : AttachOptions) (hs : List Happening) (on_the_way : List ℕ)
      → NeverLags i r
      → n < 2 ^ 64
      → start c s logging n ≡ some d
      → (t.handlers i).attached ≡ some (some rx)
      → (t.handlers i).earlier ≡ []
      → (opts.rows < 2 ^ 16) × (opts.cols < 2 ^ 16)
      → AllInRange hs
      → shown_all hs ++ on_the_way ≡ (t.handlers i).wrote
      → (run b opts none none (map event_of hs) new_link).0 ≡ ok none
      → let out = output c s t.daemon in
        let since = drop (t.handlers i).joined out in
        (run b opts none none (map event_of hs) new_link).1.screen
          ++ (on_the_way ++ concat (c.backlog t.daemon.fanout.tx rx))
        ≡ (if (t.handlers i).skipped then since else last (n + length since) out)
  terminal_shows {t = t} logging n r i rx opts hs on_the_way keeping small e had first window fit
        carried on =
      let since = drop (t.handlers i).joined (output c s t.daemon) in
      let shown =
        if (t.handlers i).skipped then since else last (n + length since) (output c s t.daemon) in
      let rest = concat (c.backlog t.daemon.fanout.tx rx) in
      ap (λ l. l ++ (on_the_way ++ rest)) (run-shown b opts hs window fit on)
      ∙ sym (append_assoc (shown_all hs) on_the_way rest)
      ∙ ap (λ l. l ++ rest) carried
      ∙ (attached-view c s logging n r i rx keeping small e had).1
      ∙ ap (λ l. l ++ shown) first
