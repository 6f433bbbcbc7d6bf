-- ===== src/Daemon/Loop/Order.antt =====
-- The two queues of the loop: what is carried out, in which order, and what comes first.
use hytch.Common.{
  ℕ, ◌≡◌, refl, sym, ap, ◌∙◌, subst, ◌⊎◌, inl, inr, Option, none, some, List, [], ◌∷◌, ◌++◌, true,
  false, Option-cases, append-nil, append_assoc,
}
use hytch.Fanout.Broadcast.{BroadcastCrate}
use hytch.Daemon.Signals.{SignalCrate}
use hytch.Daemon.Client.{ControlCommand, resize, signal}
use hytch.Daemon.Loop.{
  ShutdownReason, PtyCall, resized, signalled, gave, took, Daemon, Ready, arrive, on_control,
  on_output, on_push, round, loop,
}
use hytch.Daemon.Loop.Step.{Step, round-Step, loop_on, loop_stop}

module _ {c : BroadcastCrate} {s : SignalCrate} where
  -- The control commands carried out on the pty.
  unfoldable pub commands_of : List (PtyCall c s) → List (ControlCommand c s)
  commands_of [] = []
  commands_of (resized rows cols ∷ calls) = resize rows cols ∷ commands_of calls
  commands_of (signalled sig ∷ calls) = signal sig ∷ commands_of calls
  commands_of (_ ∷ calls) = commands_of calls

  -- The chunks that were taken from their queue and written to the pty, whatever it took of each.
  unfoldable pub input_of : List (PtyCall c s) → List (List ℕ)
  input_of [] = []
  input_of (took chunk cut_short ∷ calls) = chunk ∷ input_of calls
  input_of (_ ∷ calls) = input_of calls

  commands_of-append :
      (xs ys : List (PtyCall c s)) → commands_of (xs ++ ys) ≡ commands_of xs ++ commands_of ys
  unfolding commands_of
  commands_of-append [] ys = refl
  commands_of-append (gave _ ∷ xs) ys = commands_of-append xs ys
  commands_of-append (resized rows cols ∷ xs) ys =
      ap (λ l. resize rows cols ∷ l) (commands_of-append xs ys)
  commands_of-append (signalled sig ∷ xs) ys = ap (λ l. signal sig ∷ l) (commands_of-append xs ys)
  commands_of-append (took _ _ ∷ xs) ys = commands_of-append xs ys

  input_of-append : (xs ys : List (PtyCall c s)) → input_of (xs ++ ys) ≡ input_of xs ++ input_of ys
  unfolding input_of
  input_of-append [] ys = refl
  input_of-append (gave _ ∷ xs) ys = input_of-append xs ys
  input_of-append (resized _ _ ∷ xs) ys = input_of-append xs ys
  input_of-append (signalled _ ∷ xs) ys = input_of-append xs ys
  input_of-append (took chunk _ ∷ xs) ys = ap (λ l. chunk ∷ l) (input_of-append xs ys)

  -- Everything that was ever in a queue: what is carried out, then what waits.
  abbrev pub all_controls : Daemon c s → List (ControlCommand c s)
  all_controls d = commands_of d.pty ++ d.controls

  abbrev pub all_pushes : Daemon c s → List (List ℕ)
  all_pushes d = input_of d.pty ++ d.pushes

  abbrev pub Keeps : Daemon c s → Daemon c s → Type 0
  Keeps d d' = (all_controls d' ≡ all_controls d) × (all_pushes d' ≡ all_pushes d)

  Keeps-call :
      (d d' : Daemon c s) (call : PtyCall c s)
      → d'.pty ≡ d.pty ++ (call ∷ [])
      → commands_of (call ∷ []) ++ d'.controls ≡ d.controls
      → input_of (call ∷ []) ++ d'.pushes ≡ d.pushes
      → Keeps d d'
  Keeps-call d d' call more same_controls same_pushes = (
    ap (λ l. commands_of l ++ d'.controls) more
        ∙ ap (λ l. l ++ d'.controls) (commands_of-append d.pty (call ∷ []))
        ∙ append_assoc (commands_of d.pty) _ d'.controls
        ∙ ap (λ l. commands_of d.pty ++ l) same_controls,
    ap (λ l. input_of l ++ d'.pushes) more
        ∙ ap (λ l. l ++ d'.pushes) (input_of-append d.pty (call ∷ []))
        ∙ append_assoc (input_of d.pty) _ d'.pushes
        ∙ ap (λ l. input_of d.pty ++ l) same_pushes,
  )

  pub Step-Keeps :
      {reason : Option ShutdownReason} {r : Ready c s} {d d' : Daemon c s}
      → Step c s r d reason d'
      → Keeps d d'
  unfolding commands_of input_of
  Step-Keeps {d = d} (Step.control (resize rows cols) rest e) =
      Keeps-call d (on_control c s (resize rows cols) (record d { controls = rest }))
        (resized rows cols) refl (sym e) refl
  Step-Keeps {d = d} (Step.control (signal sig) rest e) =
      Keeps-call d (on_control c s (signal sig) (record d { controls = rest })) (signalled sig) refl
        (sym e) refl
  Step-Keeps {d = d} (Step.output chunk e) =
      Keeps-call d (on_output c s chunk d) (gave chunk) refl refl refl
  Step-Keeps (Step.exit answer e e' ended) = (refl, refl)
  Step-Keeps (Step.accept true e e') = (refl, refl)
  Step-Keeps (Step.accept false e e') = (refl, refl)
  Step-Keeps {r = r} {d = d} (Step.push chunk rest e e' e'') =
      Keeps-call d (on_push c s chunk r.cut_short (record d { pushes = rest }))
        (took chunk r.cut_short) refl refl (sym e'')
  Step-Keeps (Step.signals e e' e'') = (refl, refl)

  -- What rounds bring to the queues.
  abbrev pub sent_controls : List (Ready c s) → List (ControlCommand c s)
  sent_controls [] = []
  sent_controls (r ∷ rs) = r.new_controls ++ sent_controls rs

  abbrev pub sent_pushes : List (Ready c s) → List (List ℕ)
  sent_pushes [] = []
  sent_pushes (r ∷ rs) = r.new_pushes ++ sent_pushes rs

  -- The rounds `used` are those that took place before there was a reason to stop.
  pub record Kept (rs : List (Ready c s)) (d : Daemon c s)
      (out : Option ShutdownReason × Daemon c s) : Type 0 where
    pub used : List (Ready c s)
    pub unused : List (Ready c s)
    pub split : rs ≡ used ++ unused
    pub all_used : (unused ≡ []) ⊎ ((why : ShutdownReason) × (out.0 ≡ some why))
    pub controls : all_controls out.1 ≡ all_controls d ++ sent_controls used
    pub pushes : all_pushes out.1 ≡ all_pushes d ++ sent_pushes used

  -- The first round is used.
  Kept-cons :
      (r : Ready c s) (rs : List (Ready c s)) (d d' : Daemon c s)
      (out : Option ShutdownReason × Daemon c s)
      → Keeps (arrive c s r d) d'
      → Kept rs d' out
      → Kept (r ∷ rs) d out
  Kept-cons r rs d d' out (ec, ep) k = record {
    used = r ∷ k.used;
    unused = k.unused;
    split = ap (λ l. r ∷ l) k.split;
    all_used = k.all_used;
    controls =
        k.controls
        ∙ ap (λ l. l ++ sent_controls k.used)
            (ec ∙ sym (append_assoc (commands_of d.pty) d.controls r.new_controls))
        ∙ append_assoc (all_controls d) r.new_controls (sent_controls k.used);
    pushes =
        k.pushes
        ∙ ap (λ l. l ++ sent_pushes k.used)
            (ep ∙ sym (append_assoc (input_of d.pty) d.pushes r.new_pushes))
        ∙ append_assoc (all_pushes d) r.new_pushes (sent_pushes k.used);
  }

  Kept-end :
      (rs : List (Ready c s)) (d : Daemon c s) (reason : Option ShutdownReason)
      → (rs ≡ []) ⊎ ((why : ShutdownReason) × (reason ≡ some why))
      → Kept rs d (reason, d)
  Kept-end rs d reason h = record {
    used = [];
    unused = rs;
    split = refl;
    all_used = h;
    controls = sym (append-nil (all_controls d));
    pushes = sym (append-nil (all_pushes d));
  }

module _ (c : BroadcastCrate) (s : SignalCrate) where
  -- Whatever the rounds bring, the loop loses, repeats and reorders nothing of its two queues: the control
  -- commands carried out, followed by those that wait, are all that were sent, in the order in which
  -- they were sent, and so are the chunks of which a write to the pty was begun, followed by those that
  -- wait. How much of a chunk the pty takes, when a write fails or is not done in time, is left open:
  -- the rest of it is dropped. What counts as sent is what came up to the round in which the loop stopped.
  pub loop-Kept : (rs : List (Ready c s)) (d : Daemon c s) → Kept rs d (loop c s rs d)
  unfolding loop
  loop-Kept [] d = Kept-end [] d none (inl refl)
  loop-Kept (r ∷ rs) d =
      let kept = Step-Keeps (round-Step c s r (arrive c s r d)) in
      elim (Option-cases (round c s r (arrive c s r d)).0) [
        | inl e ↦
            subst (Kept (r ∷ rs) d) (sym (loop_on c s r rs d e))
              (Kept-cons r rs d _ _ kept (loop-Kept rs (round c s r (arrive c s r d)).1))
        | inr (why, e) ↦
            subst (Kept (r ∷ rs) d) (sym (loop_stop c s r rs d why e))
              (Kept-cons r rs d _ _ kept (Kept-end rs _ (some why) (inr (why, refl))))
      ]

  -- A loop that has not stopped has used all the rounds.
  all_rounds :
      (rs : List (Ready c s)) (d : Daemon c s)
      → (loop c s rs d).0 ≡ none
      → (k : Kept rs d (loop c s rs d)) → k.used ≡ rs
  all_rounds rs d on k = elim k.all_used [
    | inl e ↦ sym (k.split ∙ ap (λ l. k.used ++ l) e ∙ append-nil k.used)
    | inr (why, e) ↦ absurd (let x : none ≡ some why = sym on ∙ e in cc)
  ]

  pub all_used-controls :
      (rs : List (Ready c s)) (d : Daemon c s)
      → (loop c s rs d).0 ≡ none
      → all_controls (loop c s rs d).1 ≡ all_controls d ++ sent_controls rs
  all_used-controls rs d on =
      let k = loop-Kept rs d in
      k.controls ∙ ap (λ l. all_controls d ++ sent_controls l) (all_rounds rs d on k)
