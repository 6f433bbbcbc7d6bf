-- ===== src/Daemon/System/Queues.antt =====
-- What all connections together send to the loop, on its way to the pty: input and commands.
use hytch.Common.{
  ℕ, ◌≡◌, refl, sym, ap, ◌∙◌, List, [], ◌++◌, some, Bool, append-nil, append_assoc, length,
}
use hytch.Common.Tagged.{Interleaves, Interleaves-none, Interleaves-same, Interleaves-append}
use hytch.Common.Results.{ok, err}
use hytch.Fanout.Broadcast.{BroadcastCrate}
use hytch.Daemon.Signals.{SignalCrate}
use hytch.Daemon.Client.{ControlCommand, next, item, Reaction, handle_event}
use hytch.Daemon.Client.Reactions.{
  offered, asked, handle_event-quiet, handle_event-pushes, handle_event-controls,
}
use hytch.Daemon.Loop.{Daemon, start}
use hytch.Daemon.Loop.Step.{round-Step}
use hytch.Daemon.Loop.Output.{start_empty}
use hytch.Daemon.Loop.Order.{input_of, commands_of, all_pushes, all_controls, Step-Keeps}
use hytch.Daemon.System.{Handler, System, output, note, remember, react, reacting, Step, Reach}
use hytch.Daemon.System.Serves.{update-same, update-other, remember-sent}

module _ {c : BroadcastCrate} {s : SignalCrate} where
  abbrev Queues : System c s → Type 0
  Queues t =
      Interleaves (all_pushes t.daemon) (λ i. (t.handlers i).pushed)
      × Interleaves (all_controls t.daemon) (λ i. (t.handlers i).commanded)

  -- A task's reaction, which has sent `chunks` and `commands`.
  reacting-Queues :
      (t : System c s) (i : ℕ) (h : Handler c s) (r : Reaction c s) (chunks : List (List ℕ))
      (commands : List (ControlCommand c s))
      → (r.pushes ≡ chunks) × (r.controls ≡ commands)
      → h.pushed ≡ (t.handlers i).pushed ++ chunks
      → h.commanded ≡ (t.handlers i).commanded ++ commands
      → Queues t
      → Queues (reacting c s t i h r)
  reacting-Queues t i h r chunks commands (es, ks) own own' (v, w) =
      let new = react c s r h in
      (
        Interleaves-append i chunks
            (ap (λ l. input_of t.daemon.pty ++ (t.daemon.pushes ++ l)) es
              ∙ sym (append_assoc (input_of t.daemon.pty) t.daemon.pushes chunks))
            (ap (λ k. k.pushed) (update-same t.handlers i new) ∙ own)
            (λ j e. ap (λ k. k.pushed) (update-other t.handlers i new j e)) v,
        Interleaves-append i commands
            (ap (λ l. commands_of t.daemon.pty ++ (t.daemon.controls ++ l)) ks
              ∙ sym (append_assoc (commands_of t.daemon.pty) t.daemon.controls commands))
            (ap (λ k. k.commanded) (update-same t.handlers i new) ∙ own')
            (λ j e. ap (λ k. k.commanded) (update-other t.handlers i new j e)) w,
      )

  -- A reaction that sends nothing.
  quiet-Queues :
      (t : System c s) (i : ℕ) (r : Reaction c s)
      → (r.pushes ≡ []) × (r.controls ≡ [])
      → Queues t
      → Queues (reacting c s t i (t.handlers i) r)
  quiet-Queues t i r quiet v =
      reacting-Queues t i (t.handlers i) r [] [] quiet (sym (append-nil (t.handlers i).pushed))
        (sym (append-nil (t.handlers i).commanded)) v

  Step-Queues : {t u : System c s} → Step c s t u → Queues t → Queues u
  Step-Queues {t} (Step.loops r) (v, w) =
      let (commands, chunks) = Step-Keeps (round-Step c s r t.daemon) in
      (
        Interleaves-same {own' = λ i. (t.handlers i).pushed} chunks (λ i. refl) v,
        Interleaves-same {own' = λ i. (t.handlers i).commanded} commands (λ i. refl) w,
      )
  Step-Queues {t} (Step.takes i sent o a known had fits) v =
      let h = remember c s o (length (output c s t.daemon)) (t.handlers i) in
      let (pushed, commanded) = remember-sent o (length (output c s t.daemon)) (t.handlers i) in
      reacting-Queues t i (note c s (offered sent o) (asked c s sent o) h)
        (handle_event c s sent (next o) a t.daemon.fanout) (offered sent o) (asked c s sent o)
        (
          handle_event-pushes c s sent o a t.daemon.fanout,
          handle_event-controls c s sent o a t.daemon.fanout,
        )
        (ap (λ l. l ++ offered sent o) pushed) (ap (λ l. l ++ asked c s sent o) commanded) v
  Step-Queues {t} (Step.gives i sent rx d ds known had has) v =
      let (bytes, rx') = c.recv t.daemon.fanout.tx rx in
      quiet-Queues t i (handle_event c s sent (item (ok bytes)) (some rx') t.daemon.fanout)
        (handle_event-quiet c s sent (ok bytes) (some rx') t.daemon.fanout) v
  Step-Queues {t} (Step.fails i sent rx e known had) v =
      quiet-Queues t i (handle_event c s sent (item (err e)) (some rx) t.daemon.fanout)
        (handle_event-quiet c s sent (err e) (some rx) t.daemon.fanout) v

  Reach-Queues :
      {d : Daemon c s} {t : System c s} (logging : Bool) (n : ℕ)
      → Reach c s d t
      → start c s logging n ≡ some d
      → Queues t
  unfolding input_of commands_of
  Reach-Queues {d} logging n Reach.here e =
      let (no_commands, no_chunks, quiet) = start_empty logging n d e in
      let none_new : all_pushes d ≡ [] = rw (no_chunks, quiet) refl in
      let none_asked : all_controls d ≡ [] = rw (no_commands, quiet) refl in
      (
        Interleaves-same {own' = λ i. []} none_new (λ i. refl)
            (Interleaves-none (λ i. []) (λ i. refl)),
        Interleaves-same {own' = λ i. []} none_asked (λ i. refl)
            (Interleaves-none (λ i. []) (λ i. refl)),
      )
  Reach-Queues logging n (Reach.later r st) e = Step-Queues st (Reach-Queues logging n r e)

module _ (c : BroadcastCrate) (s : SignalCrate) where
  -- Whatever the loop and the connections' tasks did since the daemon started, in any order: the
  -- chunks of which a write to the pty was begun, whatever it took of them, and then those that wait are
  -- an interleaving of what the tasks were granted to push, each task's whole and in order, and nothing
  -- else; and so are the commands that the loop carried out on the pty and then those that wait, window
  -- sizes and signals, one of what the tasks were granted to ask for.
  pub queues-in_order :
      {d : Daemon c s} {t : System c s} (logging : Bool) (n : ℕ)
      → Reach c s d t
      → start c s logging n ≡ some d
      → Interleaves (input_of t.daemon.pty ++ t.daemon.pushes) (λ i. (t.handlers i).pushed)
        × Interleaves
            (commands_of t.daemon.pty ++ t.daemon.controls)
            (λ i. (t.handlers i).commanded)
  queues-in_order logging n r e = Reach-Queues logging n r e
