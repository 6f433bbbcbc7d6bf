-- ===== src/Daemon/Loop/Queue.antt =====
-- How soon the loop carries out what waits in its queue of commands.
use hytch.Common.{
  ◌≡◌, refl, sym, ap, ◌∙◌, map, map-append, none, List, [], ◌∷◌, ◌++◌, length, length-append,
  append-nil, append_assoc, arith,
}
use hytch.Fanout.Broadcast.{BroadcastCrate}
use hytch.Daemon.Signals.{SignalCrate}
use hytch.Daemon.Client.{ControlCommand}
use hytch.Daemon.Loop.{Daemon, Ready, arrive, call_of, round, loop}
use hytch.Daemon.Loop.Step.{loop_on}

module _ (c : BroadcastCrate) (s : SignalCrate) where
  -- What the first of the rounds brings.
  abbrev first_controls : List (Ready c s) → List (ControlCommand c s)
  first_controls [] = []
  first_controls (r ∷ rs) = r.new_controls

  -- A round that finds a command carries out that one and stops for nothing.
  round-first :
      (r : Ready c s) (d : Daemon c s) (x : ControlCommand c s) (rest : List (ControlCommand c s))
      → d.controls ≡ x ∷ rest
      → ((round c s r d).0 ≡ none)
        × ((round c s r d).1.pty ≡ d.pty ++ (call_of c s x ∷ []))
        × ((round c s r d).1.controls ≡ rest)
  unfolding round
  round-first r d x rest e = (rw e refl, rw e refl, rw e refl)

  -- As many rounds as there are commands carry them out, whatever else is ready.
  loop-carries :
      (rs : List (Ready c s)) (d : Daemon c s) (cs more : List (ControlCommand c s))
      → length rs ≡ length cs
      → d.controls ++ first_controls rs ≡ cs ++ more
      → ((loop c s rs d).0 ≡ none) × ((loop c s rs d).1.pty ≡ d.pty ++ map (call_of c s) cs)
  unfolding loop
  loop-carries [] d [] more same e = (refl, sym (append-nil d.pty))
  loop-carries [] d (x ∷ cs) more same e = absurd (omega arith)
  loop-carries (r ∷ rs) d [] more same e = absurd (omega arith)
  loop-carries (r ∷ rs) d (x ∷ cs) more same e =
      let (on, call, left) = round-first r (arrive c s r d) x (cs ++ more) e in
      let d' = (round c s r (arrive c s r d)).1 in
      let (end, calls) =
        loop-carries rs d' cs (more ++ first_controls rs) (omega arith)
          (ap (λ l. l ++ first_controls rs) left ∙ append_assoc cs more (first_controls rs)) in
      rw (loop_on c s r rs d on) (
        end,
        calls
            ∙ ap (λ l. l ++ map (call_of c s) cs) call
            ∙ append_assoc d.pty (call_of c s x ∷ []) (map (call_of c s) cs),
      )

  -- A command that has come is carried out in as many rounds as there were before it in the queue and one
  -- more, after those.
  pub loop-reaches :
      (r : Ready c s) (rs : List (Ready c s)) (d : Daemon c s) (command : ControlCommand c s)
      (more : List (ControlCommand c s))
      → r.new_controls ≡ command ∷ more
      → length rs ≡ length d.controls
      → ((loop c s (r ∷ rs) d).0 ≡ none)
        × ((loop c s (r ∷ rs) d).1.pty
            ≡ d.pty ++ (map (call_of c s) d.controls ++ (call_of c s command ∷ [])))
  loop-reaches r rs d command more sent same =
      let (end, calls) =
        loop-carries (r ∷ rs) d (d.controls ++ (command ∷ [])) more
          (omega (arith, length-append d.controls (command ∷ [])))
          (ap (λ l. d.controls ++ l) sent ∙ sym (append_assoc d.controls (command ∷ []) more)) in
      (end, calls ∙ ap (λ l. d.pty ++ l) (map-append (call_of c s) d.controls (command ∷ [])))
