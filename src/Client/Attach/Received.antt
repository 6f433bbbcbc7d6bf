-- ===== src/Client/Attach/Received.antt =====
-- A whole run of an attached client: what the daemon makes of what it sends, and what it shows.
use hytch.Common.{
  ℕ, ◌<◌, ◌^◌, ◌≡◌, refl, sym, ap, ap₂, ◌∙◌, subst, map, some, Option, ◌⊎◌, inl, inr, none, List,
  [], ◌∷◌, ◌++◌, Option-cases, concat, append-nil, arith,
}
use hytch.Common.Results.{ok}
use hytch.Proto.Buffer.{BytesCrate}
use hytch.Proto.Message.{Message}
use hytch.Proto.Codec.{default_max_frame_len}
use hytch.Proto.Codec.Frame.{frame, payload_of}
use hytch.Proto.Codec.Stream.{frames, AllFit, receive, receive-frames}
use hytch.Client.Attach.{
  AttachOptions, AttachOutcome, session_ended, input_closed, Link, AttachEvent, >>=-ok, ◌>>◌, send,
  if_running, on_event, run_loop, run,
}
use hytch.Client.Attach.Special.{first_special, before_special, UpTo, special-UpTo}
use hytch.Client.Attach.Happening.{
  Happening, Ending, hung_up, ran_dry, by_key, pushes_of, event_of, asked_of, shown_of, AllInRange,
  running, after, handshake, new_link,
}
use hytch.Client.Attach.Messages.{frames-append}
use hytch.Client.Attach.Reply.{on_event-Reply, send_lem}
use hytch.Client.Attach.Sent.{typed_all, shown_all, sized_all, Sent, Sent-stop, Sent-cons}

module _ (b : BytesCrate) (opts : AttachOptions) where
  run_loop-Sent :
      (hs : List Happening) (link : Link)
      → AllInRange hs
      → Sent opts hs link (run_loop b opts (map event_of hs) link)
  unfolding run_loop frames before_special first_special
  run_loop-Sent [] link fit = record {
    used = [];
    unused = [];
    split = refl;
    outcome = none;
    messages = [];
    is_ok =
        ap₂ (λ w t. (ok none, record { wire = w; screen = t })) (sym (append-nil link.wire))
          (sym (append-nil link.screen));
    fit = tt;
    ending = running refl;
    all_used = inl refl;
    pushes = refl;
    sizes = refl;
  }
  run_loop-Sent (h ∷ hs) link (fit, more) =
      let r = on_event-Reply b opts h link fit in
      let link' = after link r.messages (shown_of h) in
      let go =
        >>=-ok (on_event b opts (event_of h))
          (λ o. if_running b o (run_loop b opts (map event_of hs))) link link' r.outcome r.is_ok in
      elim (Option-cases r.outcome) [
        | inl e ↦ Sent-cons b opts h hs link _ r e (
            subst (Sent opts hs link')
              (sym (go ∙ ap (λ o. if_running b o (run_loop b opts (map event_of hs)) link') e))
              (run_loop-Sent hs link' more))
        | inr (o, e) ↦
            Sent-stop b opts h hs link _ r
              (go
                ∙ ap (λ o. if_running b o (run_loop b opts (map event_of hs)) link') e
                ∙ ap (λ o. (ok o, link')) (sym e))
              (λ e'. ground arith)
      ]

  pub run_lem :
      (es : List AttachEvent)
      → (opts.rows < 2 ^ 16) × (opts.cols < 2 ^ 16)
      → run b opts none none es new_link ≡ run_loop b opts es (after new_link (handshake opts) [])
  unfolding run frames
  run_lem es window =
      >>=-ok (send b none (Message.attach opts.skip_ring))
        (λ _.
          send b none (Message.redraw opts.redraw_method opts.rows opts.cols) >> run_loop b opts es)
        new_link _ tt (send_lem b (Message.attach opts.skip_ring) new_link tt)
      ∙ >>=-ok (send b none (Message.redraw opts.redraw_method opts.rows opts.cols))
          (λ _. run_loop b opts es)
          (record { wire = frame (Message.attach opts.skip_ring); screen = [] }) _ tt
          (send_lem b (Message.redraw opts.redraw_method opts.rows opts.cols) _ window)
      ∙ ap (λ w. run_loop b opts es (record { wire = w; screen = [] }))
          (ap (λ l. frame (Message.attach opts.skip_ring) ++ l) (sym (append-nil _)))

  -- What a whole run has sent, and shown.
  pub run-Sent :
      (hs : List Happening)
      → (opts.rows < 2 ^ 16) × (opts.cols < 2 ^ 16)
      → AllInRange hs
      → Sent opts hs
          (after new_link (handshake opts) [])
          (run b opts none none (map event_of hs) new_link)
  run-Sent hs window fit =
      subst (Sent opts hs (after new_link (handshake opts) []))
        (sym (run_lem (map event_of hs) window))
        (run_loop-Sent hs (after new_link (handshake opts) []) fit)

  whole_run :
      (hs : List Happening)
      → (run b opts none none (map event_of hs) new_link).0 ≡ ok none
      → (sent : Sent opts hs
          (after new_link (handshake opts) [])
          (run b opts none none (map event_of hs) new_link))
      → sent.used ≡ hs
  whole_run hs on sent = elim sent.all_used [
    | inl e ↦ sym (sent.split ∙ ap (λ l. sent.used ++ l) e ∙ append-nil sent.used)
    | inr ended ↦
        absurd
          (ended (let x : ok sent.outcome ≡ ok none = sym (ap (λ o. o.0) sent.is_ok) ∙ on in cc))
  ]

  -- A client that still runs has shown all that it read.
  pub run-shown :
      (hs : List Happening)
      → (opts.rows < 2 ^ 16) × (opts.cols < 2 ^ 16)
      → AllInRange hs
      → (run b opts none none (map event_of hs) new_link).0 ≡ ok none
      → (run b opts none none (map event_of hs) new_link).1.screen ≡ shown_all hs
  run-shown hs window fit on =
      let sent = run-Sent hs window fit in
      ap (λ o. o.1.screen) sent.is_ok ∙ ap shown_all (whole_run hs on sent)

  -- And has asked for all sizes that came.
  pub run-asked :
      (hs : List Happening)
      → (run b opts none none (map event_of hs) new_link).0 ≡ ok none
      → (sent : Sent opts hs
          (after new_link (handshake opts) [])
          (run b opts none none (map event_of hs) new_link))
      → asked_of sent.messages ≡ sized_all hs
  run-asked hs on sent = sent.sizes ∙ ap sized_all (whole_run hs on sent)

  widen : (ms : List Message) → AllFit 4096 ms → AllFit default_max_frame_len ms
  widen [] h = tt
  widen (m ∷ ms) (p, q, h) = (p, omega arith, widen ms h)

  Ending-first_special :
      {keys : List ℕ} {o : Option AttachOutcome}
      → Ending opts keys o
      → let key = first_special opts.detach_char opts.suspend_char keys in
        (o ≡ key) ⊎ ((key ≡ none) × ((o ≡ some session_ended) ⊎ (o ≡ some input_closed)))
  Ending-first_special (running p) = inl (sym p)
  Ending-first_special (hung_up p) = inr (p, inl refl)
  Ending-first_special (ran_dry p) = inr (p, inr refl)
  Ending-first_special (by_key o p) = inl (sym p)

  -- A client attaches and no call fails. However the daemon's reads cut what the client sends, it
  -- decodes the handshake and then the client's messages, with no error and nothing left, and their
  -- pushes are exactly what was typed before the first byte that is the suspend or the detach character.
  -- The loop takes events until there is an outcome, and shows all output. If such a byte was typed,
  -- the outcome is `Suspended` or `Detached` as that byte asks for, `Suspended` if it is both; if none
  -- was, it is that the session has ended or the input was closed, or there is none yet.
  pub attach_received :
      (hs : List Happening) (chunks : List (List ℕ))
      → (opts.rows < 2 ^ 16) × (opts.cols < 2 ^ 16)
      → AllInRange hs
      → concat chunks ≡ (run b opts none none (map event_of hs) new_link).1.wire
      → (sent : Sent opts hs
          (after new_link (handshake opts) [])
          (run b opts none none (map event_of hs) new_link))
        × (receive b default_max_frame_len [] chunks
            ≡ ((handshake opts) ++ sent.messages, none, []))
        × (key : Option AttachOutcome) × UpTo opts.detach_char opts.suspend_char
            (typed_all sent.used)
            (pushes_of sent.messages)
            key
        × ((sent.outcome ≡ key)
            ⊎ ((key ≡ none)
                × ((sent.outcome ≡ some session_ended) ⊎ (sent.outcome ≡ some input_closed))))
  unfolding payload_of
  attach_received hs chunks window fit e =
      let sent = run-Sent hs window fit in
      let wire =
        e ∙ ap (λ o. o.1.wire) sent.is_ok ∙ sym (frames-append (handshake opts) sent.messages) in
      (
        sent,
        receive-frames b default_max_frame_len chunks ((handshake opts) ++ sent.messages)
            (tt, omega arith, (window, omega arith, widen sent.messages sent.fit)) wire,
        first_special opts.detach_char opts.suspend_char (typed_all sent.used),
        subst
            (λ l.
              UpTo opts.detach_char opts.suspend_char (typed_all sent.used) l
                (first_special opts.detach_char opts.suspend_char (typed_all sent.used)))
            (sym sent.pushes)
            (special-UpTo opts.detach_char opts.suspend_char (typed_all sent.used)),
        Ending-first_special sent.ending,
      )
