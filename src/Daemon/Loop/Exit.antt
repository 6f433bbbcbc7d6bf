-- ===== src/Daemon/Loop/Exit.antt =====
-- How the loop ends once the child has.
use hytch.Common.{
  ℕ, ◌<◌, ◌≡◌, refl, sym, ap, ◌∙◌, subst, map, Option, none, some, List, [], ◌∷◌, ◌++◌, length,
  append-nil, append_assoc, arith,
}
use hytch.Common.Results.{Result}
use hytch.Fanout.Broadcast.{BroadcastCrate}
use hytch.Daemon.Signals.{SignalCrate}
use hytch.Daemon.Client.{ControlCommand}
use hytch.Daemon.Loop.{
  ShutdownReason, child_exited, Daemon, Ready, arrive, call_of, on_control, exit_code, round, loop,
}
use hytch.Daemon.Loop.Step.{Ended, at_end, read_failed, loop_on, loop_stop}

module _ (c : BroadcastCrate) (s : SignalCrate) where
  round_control :
      (r : Ready c s) (d : Daemon c s) (command : ControlCommand c s)
      (rest : List (ControlCommand c s))
      → d.controls ≡ command ∷ rest
      → round c s r d ≡ (none, on_control c s command (record d { controls = rest }))
  unfolding round
  round_control r d command rest e = ground arith

  round_exit :
      (r : Ready c s) (d : Daemon c s) (answer : Result (Unit {0}) (List ℕ))
      → d.controls ≡ []
      → r.read ≡ some answer
      → Ended answer
      → round c s r d ≡ (some (child_exited (exit_code c s r.exit)), d)
  unfolding round
  round_exit r d _ free e at_end = ground arith
  round_exit r d _ free e (read_failed x) = ground arith

  -- In each round a read of the pty would end or fail, the child's status is the same, and no control
  -- command arrives.
  abbrev pub ChildGone : Option (Option ℕ) → List (Ready c s) → Type 0
  ChildGone status [] = Unit
  ChildGone status (r ∷ rs) =
      (answer : Result (Unit {0}) (List ℕ)) × (r.read ≡ some answer)
      × Ended answer
      × (r.exit ≡ status)
      × (r.new_controls ≡ [])
      × ChildGone status rs

  -- The loop has ended with the child's exit code, and done nothing but what was asked for.
  abbrev Over :
      Option (Option ℕ)
      → Daemon c s
      → List (ControlCommand c s)
      → Option ShutdownReason × Daemon c s
      → Type 0
  Over status d commands out =
      (out.0 ≡ some (child_exited (exit_code c s status)))
      × (out.1.pty ≡ d.pty ++ map (call_of c s) commands)

  loop-Over :
      (rs : List (Ready c s)) (d : Daemon c s) (status : Option (Option ℕ))
      (commands : List (ControlCommand c s))
      → d.controls ≡ commands
      → length commands < length rs
      → ChildGone status rs
      → Over status d commands (loop c s rs d)
  loop-Over [] d status commands e more gone = absurd (omega arith)
  loop-Over (r ∷ rs) d status [] e more (answer, reads, ended, same, no_more, gone) =
      let left : (arrive c s r d).controls ≡ [] = rw (e, no_more) in
      let over = round_exit r (arrive c s r d) answer left reads ended in
      subst (Over status d []) (sym (loop_stop c s r rs d _ (ap (λ o. o.0) over))) (
        ap (λ x. some (child_exited (exit_code c s x))) same,
        ap (λ o. o.1.pty) over ∙ sym (append-nil d.pty),
      )
  loop-Over (r ∷ rs) d status (command ∷ rest) e more (answer, reads, ended, same, no_more, gone) =
      let left : (arrive c s r d).controls ≡ command ∷ rest = rw (e, no_more, append-nil) in
      let on = round_control r (arrive c s r d) command rest left in
      let d' = (round c s r (arrive c s r d)).1 in
      let (why, calls) =
        loop-Over rs d' status rest (ap (λ o. o.1.controls) on) (omega arith) gone in
      subst (Over status d (command ∷ rest)) (sym (loop_on c s r rs d (ap (λ o. o.0) on))) (
        why,
        calls
            ∙ ap (λ o. o.1.pty ++ map (call_of c s) rest) on
            ∙ append_assoc d.pty (call_of c s command ∷ []) (map (call_of c s) rest),
      )

  -- A child that has gone ends the loop, however much input is queued for it: when reads of the pty
  -- end or fail and no more control commands come, the loop carries out the control commands that wait
  -- and then stops with the child's exit code, within one round more than there are commands, and
  -- writes nothing to the pty.
  pub loop-exits :
      (rs : List (Ready c s)) (d : Daemon c s) (status : Option (Option ℕ))
      → length d.controls < length rs
      → ChildGone status rs
      → ((loop c s rs d).0 ≡ some (child_exited (exit_code c s status)))
        × ((loop c s rs d).1.pty ≡ d.pty ++ map (call_of c s) d.controls)
  loop-exits rs d status more gone = loop-Over rs d status d.controls refl more gone
