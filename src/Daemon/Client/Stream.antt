-- ===== src/Daemon/Client/Stream.antt =====
-- What a client sees on its connection, from its `Attach` on, while the daemon pushes output and other
-- clients attach.
use hytch.Common.{
  ℕ, ◌+◌, ◌<◌, ◌^◌, ◌≡◌, refl, sym, ap, ◌∙◌, subst, some, List, [], ◌∷◌, ◌++◌, Bool, true, false,
  length, last, concat, append-nil, append_assoc, last_extend, if◌then◌else◌,
}
use hytch.Common.Results.{ok}
use hytch.Fanout
use hytch.Ring
use hytch.Fanout.{Fanout}
use hytch.Fanout.Broadcast.{BroadcastCrate}
use hytch.Fanout.Delivery.{Call, chunks_of, run_calls, run_calls-Holds, new-Holds}
use hytch.Daemon.Signals.{SignalCrate}
use hytch.Daemon.Client.{item, on_attach, handle_event}

module _ (c : BroadcastCrate) (s : SignalCrate) where
  -- An attached client: the fanout, the receiver in its handler, and the bytes written to it so far.
  pub record Session : Type 0 where
    pub fanout : Fanout c
    pub rx : c.Receiver
    pub seen : List ℕ

  -- The output pushed since the attach, along with the steps that the parties take. The client does not
  -- lag: a push finds room in its backlog.
  pub data Steps : Session → List ℕ → Session → Type 0 where
    start : {t : Session} → Steps t [] t
    pushed :
        {t u : Session} {out : List ℕ} (bytes : List ℕ)
        → Steps t out u
        → length (c.backlog u.fanout.tx u.rx) < c.room u.fanout.tx
        → Steps t (out ++ bytes) (record u { fanout = Fanout.push c u.fanout bytes })
    other_attached :
        {t u : Session} {out : List ℕ}
        → Steps t out u
        → Steps t out (record u { fanout = (Fanout.attach c u.fanout).2 })
    received :
        {t u : Session} {out : List ℕ} {rx : c.Receiver} {seen : List ℕ} (d : List ℕ)
        (ds : List (List ℕ))
        → Steps t out u
        → c.backlog u.fanout.tx u.rx ≡ d ∷ ds
        → rx ≡ (c.recv u.fanout.tx u.rx).1
        → seen
          ≡ u.seen
            ++ (handle_event c s true
                (item (ok (c.recv u.fanout.tx u.rx).0))
                (some rx)
                u.fanout).wrote
        → Steps t out (record { fanout = u.fanout; rx = rx; seen = seen })

  -- The receiver is live, and what it has still to give completes the view.
  record Shows (t : Session) (view : List ℕ) : Type 0 where
    live : c.Live t.fanout.tx t.rx
    complete : t.seen ++ concat (c.backlog t.fanout.tx t.rx) ≡ view

  concat-snoc : (xs : List (List ℕ)) (d : List ℕ) → concat (xs ++ (d ∷ [])) ≡ concat xs ++ d
  concat-snoc [] d = append-nil d
  concat-snoc (x ∷ xs) d = ap (λ l. x ++ l) (concat-snoc xs d) ∙ sym (append_assoc x (concat xs) d)

  Shows-push :
      (u : Session) (view bytes : List ℕ)
      → Shows u view
      → length (c.backlog u.fanout.tx u.rx) < c.room u.fanout.tx
      → Shows (record u { fanout = Fanout.push c u.fanout bytes }) (view ++ bytes)
  unfolding Fanout.push
  Shows-push u view bytes h room = record {
    live = c.send-Live u.fanout.tx u.rx bytes h.live;
    complete =
        ap (λ l. u.seen ++ concat l) (c.send-backlog u.fanout.tx u.rx bytes h.live room)
        ∙ ap (λ l. u.seen ++ l) (concat-snoc (c.backlog u.fanout.tx u.rx) bytes)
        ∙ sym (append_assoc u.seen _ bytes)
        ∙ ap (λ l. l ++ bytes) h.complete;
  }

  Shows-attach :
      (u : Session) (view : List ℕ)
      → Shows u view
      → Shows (record u { fanout = (Fanout.attach c u.fanout).2 }) view
  unfolding Fanout.attach
  Shows-attach u view h = record {
    live = c.keep-Live u.fanout.tx u.rx h.live;
    complete = ap (λ l. u.seen ++ concat l) (c.keep-backlog u.fanout.tx u.rx h.live) ∙ h.complete;
  }

  Shows-receive :
      (u : Session) (view d : List ℕ) (ds : List (List ℕ)) (rx : c.Receiver) (seen : List ℕ)
      → Shows u view
      → c.backlog u.fanout.tx u.rx ≡ d ∷ ds
      → rx ≡ (c.recv u.fanout.tx u.rx).1
      → seen
        ≡ u.seen
          ++ (handle_event c s true
              (item (ok (c.recv u.fanout.tx u.rx).0))
              (some rx)
              u.fanout).wrote
      → Shows (record { fanout = u.fanout; rx = rx; seen = seen }) view
  unfolding handle_event
  Shows-receive u view d ds rx seen h has moved wrote =
      let (got, live, rest) = c.recv_lem u.fanout.tx u.rx d ds h.live has in
      record {
        live = subst (c.Live u.fanout.tx) (sym moved) live;
        complete =
            ap (λ l. l ++ concat (c.backlog u.fanout.tx rx)) (wrote ∙ ap (λ x. u.seen ++ x) got)
            ∙ ap (λ r. (u.seen ++ d) ++ concat (c.backlog u.fanout.tx r)) moved
            ∙ ap (λ l. (u.seen ++ d) ++ concat l) rest
            ∙ append_assoc u.seen d (concat ds)
            ∙ ap (λ l. u.seen ++ concat l) (sym has)
            ∙ h.complete;
      }

  Steps-Shows :
      {t u : Session} {out : List ℕ} (view : List ℕ)
      → Shows t view
      → Steps t out u
      → Shows u (view ++ out)
  Steps-Shows view h start = rw append-nil h
  Steps-Shows view h (pushed {u = u} {out = out} bytes r room) =
      subst (Shows _) (append_assoc view out bytes)
        (Shows-push u (view ++ out) bytes (Steps-Shows view h r) room)
  Steps-Shows view h (other_attached {u = u} r) = Shows-attach u _ (Steps-Shows view h r)
  Steps-Shows view h (received {u = u} {rx = rx} {seen = seen} d ds r has moved wrote) =
      Shows-receive u _ d ds rx seen (Steps-Shows view h r) has moved wrote

  on_attach-Shows :
      (g : Fanout c) (skip_ring : Bool) (rx : c.Receiver)
      → (on_attach c s true skip_ring g).attached ≡ some (some rx)
      → Shows
          (record {
            fanout = (on_attach c s true skip_ring g).fanout;
            rx = rx;
            seen = (on_attach c s true skip_ring g).wrote;
          })
          (if skip_ring then [] else Ring.snapshot g.ring)
  unfolding on_attach Fanout.attach
  on_attach-Shows g true rx e =
      let same : (c.subscribe g.tx).1 ≡ rx = cc in
      rw (← same)
        (record { live = c.subscribe-Live g.tx; complete = rw (c.subscribe-backlog g.tx) })
  on_attach-Shows g false rx e =
      let same : (c.subscribe g.tx).1 ≡ rx = cc in
      rw (← same) (record {
        live = c.subscribe-Live g.tx;
        complete = rw (c.subscribe-backlog g.tx) (append-nil (Ring.snapshot g.ring));
      })

  -- What a client has seen since its `Attach`, followed by what its receiver still holds, is the end of
  -- the pty's output: `n` bytes of history and all output since, or just the output since if it asked
  -- to skip the ring. The daemon made its fanout with a scrollback of `n` bytes; `before` is what
  -- happened until the attach; the writes to the client succeed and it does not lag.
  pub client_sees :
      (n m : ℕ) (f : Fanout c) (before : List Call) (skip_ring : Bool) (rx : c.Receiver)
      (out : List ℕ) (u : Session)
      → n < 2 ^ 64
      → Fanout.new c n m ≡ some f
      → let r = on_attach c s true skip_ring (run_calls c f before) in
        r.attached ≡ some (some rx)
        → Steps (record { fanout = r.fanout; rx = rx; seen = r.wrote }) out u
        → u.seen ++ concat (c.backlog u.fanout.tx u.rx)
          ≡ (if skip_ring then out else last (n + length out) (concat (chunks_of before) ++ out))
  client_sees n m f before skip_ring rx out u small made e steps =
      let g = run_calls c f before in
      let held = run_calls-Holds c before f n [] (new-Holds c n m f small made).0 in
      (Steps-Shows _ (on_attach-Shows g skip_ring rx e) steps).complete
      ∙ view skip_ring g held.content
    where
      view :
          (skip : Bool) (g : Fanout c)
          → Ring.snapshot g.ring ≡ last n (concat (chunks_of before))
          → (if skip then [] else Ring.snapshot g.ring) ++ out
            ≡ (if skip then out else last (n + length out) (concat (chunks_of before) ++ out))
      view true g e = refl
      view false g e = ap (λ l. l ++ out) e ∙ last_extend n (concat (chunks_of before)) out
