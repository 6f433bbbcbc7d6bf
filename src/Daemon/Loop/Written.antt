-- ===== src/Daemon/Loop/Written.antt =====
-- The bytes that the pty takes: a chunk of which it does not take all, because the write to it fails or
-- is not done in time, loses the rest.
use hytch.Common.{
  ℕ, ◌≡◌, refl, sym, ap, ◌∙◌, Option, none, some, List, [], ◌∷◌, ◌++◌, take, concat, true, false,
  inl, inr, concat-append, Option-cases, append-nil, append_assoc,
}
use hytch.Fanout.Broadcast.{BroadcastCrate}
use hytch.Daemon.Signals.{SignalCrate}
use hytch.Daemon.Client.{resize, signal}
use hytch.Daemon.Loop.{
  ShutdownReason, PtyCall, resized, signalled, gave, took, Daemon, Ready, arrive, round, loop,
}
use hytch.Daemon.Loop.Step.{Step, round-Step, loop_on, loop_stop}
use hytch.Daemon.Loop.Order.{sent_pushes}

abbrev pub taken_of : List ℕ → Option ℕ → List ℕ
taken_of chunk none = chunk
taken_of chunk (some k) = take k chunk

module _ {c : BroadcastCrate} {s : SignalCrate} where
  unfoldable pub written_of : List (PtyCall c s) → List ℕ
  written_of [] = []
  written_of (took chunk cut_short ∷ calls) = taken_of chunk cut_short ++ written_of calls
  written_of (_ ∷ calls) = written_of calls

  written_of-append :
      (xs ys : List (PtyCall c s)) → written_of (xs ++ ys) ≡ written_of xs ++ written_of ys
  unfolding written_of
  written_of-append [] ys = refl
  written_of-append (gave _ ∷ xs) ys = written_of-append xs ys
  written_of-append (resized _ _ ∷ xs) ys = written_of-append xs ys
  written_of-append (signalled _ ∷ xs) ys = written_of-append xs ys
  written_of-append (took chunk cut_short ∷ xs) ys =
      ap (λ l. taken_of chunk cut_short ++ l) (written_of-append xs ys)
      ∙ sym (append_assoc (taken_of chunk cut_short) (written_of xs) (written_of ys))

  -- All the input so far, as bytes: what the pty took, and what waits.
  abbrev pub input_bytes : Daemon c s → List ℕ
  input_bytes d = written_of d.pty ++ concat d.pushes

  -- The pty takes all of every chunk, in time.
  abbrev pub AllTaken : List (Ready c s) → Type 0
  AllTaken [] = Unit
  AllTaken (r ∷ rs) = (r.cut_short ≡ none) × AllTaken rs

  -- A call that is no write.
  no_write :
      (d : Daemon c s) (call : PtyCall c s)
      → written_of (call ∷ []) ≡ []
      → written_of (d.pty ++ (call ∷ [])) ≡ written_of d.pty
  no_write d call e =
      written_of-append d.pty (call ∷ [])
      ∙ ap (λ l. written_of d.pty ++ l) e
      ∙ append-nil (written_of d.pty)

  Step-input :
      {reason : Option ShutdownReason} {r : Ready c s} {d d' : Daemon c s}
      → r.cut_short ≡ none
      → Step c s r d reason d'
      → input_bytes d' ≡ input_bytes d
  unfolding written_of
  Step-input {d = d} whole (Step.control (resize rows cols) rest e) =
      ap (λ l. l ++ concat d.pushes) (no_write d (resized rows cols) refl)
  Step-input {d = d} whole (Step.control (signal sig) rest e) =
      ap (λ l. l ++ concat d.pushes) (no_write d (signalled sig) refl)
  Step-input {d = d} whole (Step.output chunk e) =
      ap (λ l. l ++ concat d.pushes) (no_write d (gave chunk) refl)
  Step-input whole (Step.exit answer e e' ended) = refl
  Step-input whole (Step.accept true e e') = refl
  Step-input whole (Step.accept false e e') = refl
  Step-input {r = r} {d = d} whole (Step.push chunk rest e e' e'') =
      ap (λ o. written_of (d.pty ++ (took chunk o ∷ [])) ++ concat rest) whole
      ∙ ap (λ l. l ++ concat rest)
          (written_of-append d.pty (took chunk none ∷ [])
            ∙ ap (λ l. written_of d.pty ++ l) (append-nil chunk))
      ∙ append_assoc (written_of d.pty) chunk (concat rest)
      ∙ ap (λ l. written_of d.pty ++ concat l) (sym e'')
  Step-input whole (Step.signals e e' e'') = refl

module _ (c : BroadcastCrate) (s : SignalCrate) where
  -- Rounds in which the pty takes all that it is given add what they bring.
  pub loop-input_bytes :
      (rs : List (Ready c s)) (d : Daemon c s)
      → AllTaken rs
      → (loop c s rs d).0 ≡ none
      → input_bytes (loop c s rs d).1 ≡ input_bytes d ++ concat (sent_pushes rs)
  unfolding loop
  loop-input_bytes [] d whole on = sym (append-nil (input_bytes d))
  loop-input_bytes (r ∷ rs) d (whole, more) on =
      let d' = (round c s r (arrive c s r d)).1 in
      let kept = Step-input whole (round-Step c s r (arrive c s r d)) in
      elim (Option-cases (round c s r (arrive c s r d)).0) [
        | inl e ↦
            let same = loop_on c s r rs d e in
            ap (λ o. input_bytes o.1) same
            ∙ loop-input_bytes rs d' more (sym (ap (λ o. o.0) same) ∙ on)
            ∙ ap (λ l. l ++ concat (sent_pushes rs))
                (kept
                  ∙ ap (λ l. written_of d.pty ++ l) (concat-append d.pushes r.new_pushes)
                  ∙ sym (append_assoc (written_of d.pty) (concat d.pushes) (concat r.new_pushes)))
            ∙ append_assoc (input_bytes d) (concat r.new_pushes) (concat (sent_pushes rs))
            ∙ ap (λ l. input_bytes d ++ l) (sym (concat-append r.new_pushes (sent_pushes rs)))
        | inr (why, e) ↦
            absurd (
              let x : some why ≡ none = sym (ap (λ o. o.0) (loop_stop c s r rs d why e)) ∙ on in cc)
      ]
