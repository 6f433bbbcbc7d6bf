-- ===== src/Daemon/Loop/Step.antt =====
-- One round of the loop as a step relation: which branch was taken, and why.
use hytch.Common.{
  ℕ, ◌≡◌, refl, sym, subst, Option, none, some, List, [], ◌∷◌, Bool, ◌||◌, if◌then◌else◌, arith,
}
use hytch.Common.Results.{Result, ok, err}
use hytch.Fanout.Broadcast.{BroadcastCrate}
use hytch.Daemon.Signals.{SignalCrate}
use hytch.Daemon.Client.{ControlCommand}
use hytch.Daemon.Loop.{
  ShutdownReason, child_exited, daemon_signaled, Daemon, Ready, arrive, on_control, on_output,
  on_read, exit_code, on_accepted, on_push, late_branches, round, loop,
}

-- The end of the child's output: nothing read, or an error.
pub data Ended : Result (Unit {0}) (List ℕ) → Type 0 where
  at_end : Ended (ok [])
  read_failed : (e : Unit) → Ended (err e)

module _ (c : BroadcastCrate) (s : SignalCrate) (r : Ready c s) (d : Daemon c s) where
  pub data Step : Option ShutdownReason → Daemon c s → Type 0 where
    control :
        (command : ControlCommand c s) (rest : List (ControlCommand c s))
        → d.controls ≡ command ∷ rest
        → Step none (on_control c s command (record d { controls = rest }))
    output : (chunk : List ℕ) → d.controls ≡ [] → Step none (on_output c s chunk d)
    exit :
        (answer : Result (Unit {0}) (List ℕ))
        → d.controls ≡ []
        → r.read ≡ some answer
        → Ended answer
        → Step (some (child_exited (exit_code c s r.exit))) d
    accept : (came : Bool) → d.controls ≡ [] → r.read ≡ none → Step none (on_accepted c s came d)
    push :
        (chunk : List ℕ) (rest : List (List ℕ))
        → d.controls ≡ []
        → r.read ≡ none
        → d.pushes ≡ chunk ∷ rest
        → Step none (on_push c s chunk r.cut_short (record d { pushes = rest }))
    signals :
        d.controls ≡ []
        → r.read ≡ none
        → d.pushes ≡ []
        → Step (if r.sigterm || r.sigint then some daemon_signaled else none) d

  abbrev StepsTo : Option ShutdownReason × Daemon c s → Type 0
  StepsTo out = Step out.0 out.1

  step_push :
      (pushes : List (List ℕ))
      → d.pushes ≡ pushes
      → d.controls ≡ []
      → r.read ≡ none
      → r.accepted ≡ none
      → StepsTo (late_branches c s r d)
  unfolding late_branches
  step_push [] e free quiet e' =
      let eq : late_branches c s r d
          ≡ (if r.sigterm || r.sigint then some daemon_signaled else none, d) =
        ground arith in
      subst StepsTo (sym eq) (signals free quiet e)
  step_push (chunk ∷ rest) e free quiet e' =
      let eq : late_branches c s r d
          ≡ (none, on_push c s chunk r.cut_short (record d { pushes = rest })) =
        ground arith in
      subst StepsTo (sym eq) (push chunk rest free quiet e)

  step_accept :
      (accepted : Option Bool)
      → r.accepted ≡ accepted
      → d.controls ≡ []
      → r.read ≡ none
      → StepsTo (late_branches c s r d)
  unfolding late_branches
  step_accept none e free quiet = step_push d.pushes refl free quiet e
  step_accept (some came) e free quiet =
      let eq : late_branches c s r d ≡ (none, on_accepted c s came d) = ground arith in
      subst StepsTo (sym eq) (accept came free quiet)

  step_read :
      (answer : Result (Unit {0}) (List ℕ))
      → d.controls ≡ []
      → r.read ≡ some answer
      → StepsTo (on_read c s answer r.exit d)
  step_read (ok []) free e = exit (ok []) free e at_end
  step_read (ok (b ∷ bs)) free e = output (b ∷ bs) free
  step_read (err x) free e = exit (err x) free e (read_failed x)

  step_free :
      (read : Option (Result (Unit {0}) (List ℕ)))
      → r.read ≡ read
      → d.controls ≡ []
      → StepsTo (round c s r d)
  unfolding round
  step_free none e free =
      let eq : round c s r d ≡ late_branches c s r d = ground arith in
      subst StepsTo (sym eq) (step_accept r.accepted refl free e)
  step_free (some answer) e free =
      let eq : round c s r d ≡ on_read c s answer r.exit d = ground arith in
      subst StepsTo (sym eq) (step_read answer free e)

  step_control : (cs : List (ControlCommand c s)) → d.controls ≡ cs → StepsTo (round c s r d)
  unfolding round
  step_control [] e = step_free r.read refl e
  step_control (command ∷ rest) e =
      let eq : round c s r d ≡ (none, on_control c s command (record d { controls = rest })) =
        ground arith in
      subst StepsTo (sym eq) (control command rest e)

  pub round-Step : Step (round c s r d).0 (round c s r d).1
  round-Step = step_control d.controls refl

module _ (c : BroadcastCrate) (s : SignalCrate) (r : Ready c s) (rs : List (Ready c s))
    (d : Daemon c s) where
  pub loop_on :
      (round c s r (arrive c s r d)).0 ≡ none
      → loop c s (r ∷ rs) d ≡ loop c s rs (round c s r (arrive c s r d)).1
  unfolding loop
  loop_on e = ground arith

  pub loop_stop :
      (why : ShutdownReason)
      → (round c s r (arrive c s r d)).0 ≡ some why
      → loop c s (r ∷ rs) d ≡ (some why, (round c s r (arrive c s r d)).1)
  unfolding loop
  loop_stop why e = ground arith
