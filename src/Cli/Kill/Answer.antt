-- ===== src/Cli/Kill/Answer.antt =====
-- How long `kill` takes, and what its exit code says.
use hytch.Common.{
  ℕ, ◌+◌, ◌*◌, ◌<◌, ◌≤◌, ◌≡◌, refl, ◌∙◌, ◌⊎◌, inl, inr, Option, some, List, [], ◌∷◌, Bool, true,
  false, Bool-cases, length, if◌then◌else◌, arith,
}
use hytch.Cli.Kill.{Poll, wait_gone, escalate, kill}
use native.Mathlib.Decide.{dec_lt}

-- The polls are at least 100 milliseconds apart, which is what the wait sleeps, the first not before `t`.
abbrev pub Spaced : ℕ → List Poll → Type 0
Spaced t [] = Unit
Spaced t (p ∷ ps) = (t ≤ p.now) × Spaced (p.now + 100) ps

-- Some poll finds the file gone, the first that does so or that comes when the time is over.
pub data SeenGone (timeout : ℕ) : List Poll → Type 0 where
  here : {p : Poll} {ps : List Poll} → p.there ≡ false → SeenGone timeout (p ∷ ps)
  later :
      {p : Poll} {ps : List Poll}
      → p.now < timeout
      → p.there ≡ true
      → SeenGone timeout ps
      → SeenGone timeout (p ∷ ps)

-- The first poll when the time is over finds it there, and so does every one before it.
pub data StillThere (timeout : ℕ) : List Poll → Type 0 where
  here :
      {p : Poll} {ps : List Poll} → timeout ≤ p.now → p.there ≡ true → StillThere timeout (p ∷ ps)
  later :
      {p : Poll} {ps : List Poll}
      → p.now < timeout
      → p.there ≡ true
      → StillThere timeout ps
      → StillThere timeout (p ∷ ps)

abbrev Waited : ℕ → List Poll → Type 0
Waited timeout ps =
    ((wait_gone timeout ps ≡ some true) × SeenGone timeout ps)
    ⊎ ((wait_gone timeout ps ≡ some false) × StillThere timeout ps)

-- Enough polls end the wait.
wait_gone-Waited :
    (timeout t : ℕ) (ps : List Poll)
    → Spaced t ps
    → timeout + 100 ≤ t + 100 * length ps
    → t < timeout + 100
    → Waited timeout ps
unfolding wait_gone
wait_gone-Waited timeout t [] spaced enough early = absurd (omega arith)
wait_gone-Waited timeout t (p ∷ ps) (after, spaced) enough early = elim (dec_lt p.now timeout) [
  | no late ↦ elim (Bool-cases p.there) [
    | inl e ↦ inr (ground arith, StillThere.here (omega arith) e)
    | inr e ↦ inl (ground arith, SeenGone.here e)
  ]
  | yes soon ↦ elim (Bool-cases p.there) [
    | inl e ↦
        let same : wait_gone timeout (p ∷ ps) ≡ wait_gone timeout ps = ground arith in
        elim (wait_gone-Waited timeout (p.now + 100) ps spaced (omega arith) (omega arith)) [
          | inl (gone, seen) ↦ inl (same ∙ gone, SeenGone.later soon e seen)
          | inr (there, seen) ↦ inr (same ∙ there, StillThere.later soon e seen)
        ]
    | inr e ↦ inl (ground arith, SeenGone.here e)
  ]
]

-- Why the command ended with its exit code.
pub data Ended (force sent_again : Bool) (polls more_polls : List Poll)
    : Option ℕ × List ℕ → Type 0 where
  stopped :
      SeenGone (if force then 2000 else 5000) polls
      → Ended force sent_again polls more_polls (some 0, (if force then 9 else 15) ∷ [])
  survived :
      force ≡ true
      → StillThere 2000 polls
      → Ended force sent_again polls more_polls (some 1, 9 ∷ [])
  killed :
      force ≡ false
      → StillThere 5000 polls
      → SeenGone 2000 more_polls
      → Ended force sent_again polls more_polls
          (some 0, if sent_again then 15 ∷ 9 ∷ [] else 15 ∷ [])
  not_killed :
      force ≡ false
      → StillThere 5000 polls
      → StillThere 2000 more_polls
      → Ended force sent_again polls more_polls
          (some 1, if sent_again then 15 ∷ 9 ∷ [] else 15 ∷ [])

escalate-Ended :
    (polls more_polls : List Poll) (sent : Bool)
    → StillThere 5000 polls
    → Spaced 0 more_polls
    → 20 < length more_polls
    → Ended false sent polls more_polls (escalate sent more_polls)
unfolding escalate
escalate-Ended polls more_polls sent there spaced enough =
    elim (wait_gone-Waited 2000 0 more_polls spaced (omega arith) (omega arith)) [
      | inl (e, gone) ↦ rw (escalate, e) (killed refl there gone)
      | inr (e, still) ↦ rw (escalate, e) (not_killed refl there still)
    ]

-- `kill` ends once it could send its first signal, after at most 51 polls, or 21 if forced, and 21 more
-- if it escalates. It ends with exit code 0 at the first poll that finds the session's socket gone, and
-- with 1 only when every poll up to the first one after 2 seconds found it there, if forced, or else
-- every one up to 5 seconds and then up to 2 more. It sends `SIGKILL` if forced, else `SIGTERM`, and a
-- `SIGKILL` after that, if it can, only if the socket was there after the 5 seconds. The polls are at
-- least 100 milliseconds apart.
pub kill-Ended :
    (force sent_again : Bool) (polls more_polls : List Poll)
    → Spaced 0 polls
    → (if force then 20 else 50) < length polls
    → Spaced 0 more_polls
    → 20 < length more_polls
    → Ended force sent_again polls more_polls (kill force true polls sent_again more_polls)
unfolding kill
kill-Ended true sent_again polls more_polls spaced enough spaced' enough' =
    elim (wait_gone-Waited 2000 0 polls spaced (omega arith) (omega arith)) [
      | inl (e, gone) ↦ rw (kill, e) (stopped gone)
      | inr (e, still) ↦ rw (kill, e) (survived refl still)
    ]
kill-Ended false sent_again polls more_polls spaced enough spaced' enough' =
    elim (wait_gone-Waited 5000 0 polls spaced (omega arith) (omega arith)) [
      | inl (e, gone) ↦ rw (kill, e) (stopped gone)
      | inr (e, still) ↦
          rw (kill, e) (escalate-Ended polls more_polls sent_again still spaced' enough')
    ]
