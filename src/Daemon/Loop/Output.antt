-- ===== src/Daemon/Loop/Output.antt =====
-- What the loop has read from the pty, against the ring and the log.
use hytch.Common.{
  ℕ, zero, suc, ◌<◌, ◌^◌, ◌≡◌, refl, sym, ap, ◌∙◌, subst, map, Option, none, some, List, [], ◌∷◌,
  ◌++◌, Bool, true, false, last, Option-cases, inl, inr, concat, concat-append, append-nil,
  if◌then◌else◌, arith,
}
use hytch.Common.Results.{ok}
use mathlib.Core.Option
use hytch.Ring
use hytch.Fanout
use hytch.Fanout.{Fanout}
use hytch.Fanout.Broadcast.{BroadcastCrate}
use hytch.Fanout.Delivery.{Call, run_calls, Holds, run_calls-Holds, new-Holds}
use hytch.Daemon.Signals.{SignalCrate}
use hytch.Daemon.Client.{resize, signal}
use hytch.Daemon.Loop.{
  ShutdownReason, PtyCall, resized, signalled, gave, took, Daemon, Ready, start, attach_times,
  arrive, on_output, round, loop, end_marker, shutdown,
}
use hytch.Daemon.Loop.Step.{Step, round-Step, loop_on, loop_stop}
use hytch.SessionLog.{SessionLog, open_log, log_writer}
use hytch.SessionLog.Rotation.{all_granted}
use hytch.SessionLog.History.{Synced, granted_chunk, log_keeps}

module _ {c : BroadcastCrate} where
  Holds-push :
      (f : Fanout c) (n : ℕ) (output chunk : List ℕ)
      → Holds c f n output
      → Holds c (Fanout.push c f chunk) n (output ++ (chunk ++ []))
  unfolding run_calls
  Holds-push f n output chunk h = run_calls-Holds c (Call.pushed chunk ∷ []) f n output h

  attach_times-Holds :
      (k : ℕ) (f : Fanout c) (n : ℕ) (output : List ℕ)
      → Holds c f n output
      → Holds c (attach_times c k f) n output
  unfolding attach_times run_calls
  attach_times-Holds zero f n output h = h
  attach_times-Holds (suc k) f n output h = attach_times-Holds k (Fanout.attach c f).2 n output (
      subst (Holds c (Fanout.attach c f).2 n) (append-nil output)
        (run_calls-Holds c (Call.attached ∷ []) f n output h))

module _ {c : BroadcastCrate} {s : SignalCrate} where
  -- The chunks read from the pty.
  unfoldable pub output_of : List (PtyCall c s) → List (List ℕ)
  output_of [] = []
  output_of (gave d ∷ calls) = d ∷ output_of calls
  output_of (_ ∷ calls) = output_of calls

  pub output_of-append :
      (xs ys : List (PtyCall c s)) → output_of (xs ++ ys) ≡ output_of xs ++ output_of ys
  unfolding output_of
  output_of-append [] ys = refl
  output_of-append (gave d ∷ xs) ys = ap (λ l. d ∷ l) (output_of-append xs ys)
  output_of-append (resized _ _ ∷ xs) ys = output_of-append xs ys
  output_of-append (signalled _ ∷ xs) ys = output_of-append xs ys
  output_of-append (took _ _ ∷ xs) ys = output_of-append xs ys

  -- The ring holds the end of what was read, and the log was sent all of it.
  pub record Mirrors (logging : Bool) (n : ℕ) (d : Daemon c s) : Type 0 where
    pub held : Holds c d.fanout n (concat (output_of d.pty))
    pub logged : d.log ≡ (if logging then some (output_of d.pty) else none)

  -- A call that is no read changes neither side.
  Mirrors-other :
      (logging : Bool) (n : ℕ) (d d' : Daemon c s) (call : PtyCall c s)
      → output_of (call ∷ []) ≡ []
      → d'.fanout ≡ d.fanout
      → d'.log ≡ d.log
      → d'.pty ≡ d.pty ++ (call ∷ [])
      → Mirrors logging n d
      → Mirrors logging n d'
  Mirrors-other logging n d d' call quiet same_fanout same_log more h =
      let same : output_of d'.pty ≡ output_of d.pty =
        rw (more, output_of-append, quiet, append-nil) in
      record { held = rw (same_fanout, same) h.held; logged = rw (same_log, same) h.logged }

  Mirrors-output :
      (logging : Bool) (n : ℕ) (d : Daemon c s) (chunk : List ℕ)
      → Mirrors logging n d
      → Mirrors logging n (on_output c s chunk d)
  unfolding output_of
  Mirrors-output logging n d chunk h = record {
    held =
        rw (output_of-append, concat-append)
          (Holds-push d.fanout n (concat (output_of d.pty)) chunk h.held);
    logged = rw (h.logged, output_of-append) (sent logging);
  }
    where
      sent :
          (b : Bool)
          → Option.map (λ l. l ++ (chunk ∷ [])) (if b then some (output_of d.pty) else none)
            ≡ (if b then some (output_of d.pty ++ (chunk ∷ [])) else none)
      sent true = refl
      sent false = refl

  pub Step-Mirrors :
      {reason : Option ShutdownReason} {r : Ready c s} {d d' : Daemon c s} (logging : Bool) (n : ℕ)
      → Step c s r d reason d'
      → Mirrors logging n d
      → Mirrors logging n d'
  unfolding output_of
  Step-Mirrors {d = d} logging n (Step.control (resize rows cols) rest e) h =
      Mirrors-other logging n d _ (resized rows cols) refl refl refl refl h
  Step-Mirrors {d = d} logging n (Step.control (signal sig) rest e) h =
      Mirrors-other logging n d _ (signalled sig) refl refl refl refl h
  Step-Mirrors {d = d} logging n (Step.output chunk e) h = Mirrors-output logging n d chunk h
  Step-Mirrors logging n (Step.exit answer e e' ended) h = h
  Step-Mirrors logging n (Step.accept true e e') h = record { held = h.held; logged = h.logged }
  Step-Mirrors logging n (Step.accept false e e') h = h
  Step-Mirrors {r = r} {d = d} logging n (Step.push chunk rest e e' e'') h =
      Mirrors-other logging n d _ (took chunk r.cut_short) refl refl refl refl h
  Step-Mirrors logging n (Step.signals e e' e'') h = h

  arrive-Mirrors :
      (logging : Bool) (n : ℕ) (r : Ready c s) (d : Daemon c s)
      → Mirrors logging n d
      → Mirrors logging n (arrive c s r d)
  arrive-Mirrors logging n r d h = record {
    held = attach_times-Holds r.attaches d.fanout n _ h.held;
    logged = h.logged;
  }

  loop-Mirrors :
      (rs : List (Ready c s)) (d : Daemon c s) (logging : Bool) (n : ℕ)
      → Mirrors logging n d
      → Mirrors logging n (loop c s rs d).1
  unfolding loop
  loop-Mirrors [] d logging n h = h
  loop-Mirrors (r ∷ rs) d logging n h =
      let h' =
        Step-Mirrors logging n (round-Step c s r (arrive c s r d))
          (arrive-Mirrors logging n r d h) in
      elim (Option-cases (round c s r (arrive c s r d)).0) [
        | inl e ↦
            subst (λ o. Mirrors logging n o.1) (sym (loop_on c s r rs d e))
              (loop-Mirrors rs _ logging n h')
        | inr (why, e) ↦ subst (λ o. Mirrors logging n o.1) (sym (loop_stop c s r rs d why e)) h'
      ]

  -- A client's `Attach` only adds a receiver.
  pub attach-Mirrors :
      (logging : Bool) (n : ℕ) (d d' : Daemon c s)
      → d'.fanout ≡ (Fanout.attach c d.fanout).2
      → d'.log ≡ d.log
      → d'.pty ≡ d.pty
      → Mirrors logging n d
      → Mirrors logging n d'
  unfolding attach_times
  attach-Mirrors logging n d d' joined same_log same h = record {
    held = rw (joined, same) (attach_times-Holds 1 d.fanout n _ h.held);
    logged = rw (same_log, same) h.logged;
  }

  start_made :
      (logging : Bool) (n : ℕ) (d : Daemon c s)
      → start c s logging n ≡ some d
      → (Fanout.new c n 1024 ≡ some d.fanout)
        × (d.pty ≡ [])
        × (d.log ≡ (if logging then some [] else none))
  unfolding start
  start_made logging n d e = ground arith

  pub start_empty :
      (logging : Bool) (n : ℕ) (d : Daemon c s)
      → start c s logging n ≡ some d
      → (d.controls ≡ []) × (d.pushes ≡ []) × (d.pty ≡ [])
  unfolding start
  start_empty logging n d e = ground arith

  pub start-Mirrors :
      (logging : Bool) (n : ℕ) (d : Daemon c s)
      → n < 2 ^ 64
      → start c s logging n ≡ some d
      → Mirrors logging n d
  unfolding output_of
  start-Mirrors logging n d small e =
      let (made, quiet, empty) = start_made logging n d e in
      let none_yet : output_of d.pty ≡ [] = rw quiet in
      record {
        held = rw none_yet (new-Holds c n 1024 d.fanout small made).0;
        logged = rw none_yet empty;
      }

module _ (c : BroadcastCrate) (s : SignalCrate) where
  -- However the rounds go that a new daemon runs, its scrollback holds the last `n` bytes of what was
  -- read from the pty, and its log, if it has one, was sent every chunk read, in order.
  pub loop-output :
      (rs : List (Ready c s)) (logging : Bool) (n : ℕ) (d : Daemon c s)
      → n < 2 ^ 64
      → start c s logging n ≡ some d
      → let d' = (loop c s rs d).1 in
        (Ring.snapshot d'.fanout.ring ≡ last n (concat (output_of d'.pty)))
        × (d'.log ≡ (if logging then some (output_of d'.pty) else none))
  loop-output rs logging n d small e =
      let h = loop-Mirrors rs d logging n (start-Mirrors logging n d small e) in
      (h.held.content, h.logged)

  -- A daemon with a log, from its start to its shutdown after `secs` seconds: if every call on the
  -- log's file is granted, the file ends up as an end of what it held before, the session's output and
  -- the end marker: all of them if they are within the limit, and never more than 64 bytes above it.
  pub log-shutdown :
      (rs : List (Ready c s)) (n : ℕ) (d : Daemon c s) (secs : ℕ) (content : List ℕ) (max_size : ℕ)
      → n < 2 ^ 64
      → start c s true n ≡ some d
      → let d' = (loop c s rs d).1 in
        (log : SessionLog) × (sent : List (List ℕ)) × (open_log all_granted true content max_size
          ≡ ok log)
        × ((shutdown c s secs d').log ≡ some sent)
        × Synced
            (log_writer log (map granted_chunk sent))
            (content ++ (concat (output_of d'.pty) ++ end_marker c s secs))
        × ((log_writer log (map granted_chunk sent)).max_size ≡ max_size)
  unfolding shutdown
  log-shutdown rs n d secs content max_size small e =
      let h = loop-Mirrors rs d true n (start-Mirrors true n d small e) in
      let sent = output_of (loop c s rs d).1.pty ++ (end_marker c s secs ∷ []) in
      let (log, opened, kept, same) = log_keeps content max_size sent in
      let all : concat sent ≡ concat (output_of (loop c s rs d).1.pty) ++ end_marker c s secs =
        concat-append (output_of (loop c s rs d).1.pty) (end_marker c s secs ∷ [])
        ∙ ap (λ l. concat (output_of (loop c s rs d).1.pty) ++ l)
            (append-nil (end_marker c s secs)) in
      (
        log,
        sent,
        opened,
        ap (Option.map (λ l. l ++ (end_marker c s secs ∷ []))) h.logged,
        subst (λ l. Synced (log_writer log (map granted_chunk sent)) (content ++ l)) all kept,
        same,
      )
