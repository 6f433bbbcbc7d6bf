-- ===== src/Cli/Spawn/Wait.antt =====
-- When a detached spawn ends, and what its answer says.
use hytch.Common.{ℕ, ◌+◌, ◌<◌, ◌≤◌, ◌≡◌, Option, none, some, List, [], ◌∷◌, true, false, length}
use hytch.Common.Results.{Result, ok, err}
use hytch.Cli.Spawn.{Look, is_socket, Answers, SpawnError, exited_immediately, no_status, not_ready}

-- The looks are at least 20 milliseconds apart, which is what the wait sleeps, the first not before `t`.
abbrev pub Spaced : ℕ → List Look → Type 0
Spaced t [] = Unit
Spaced t (p ∷ ps) = (t ≤ p.now) × Spaced (p.now + 20) ps

-- No look finds a socket.
pub data Unseen : List Look → Type 0 where
  nil : Unseen []
  cons : {p : Look} {ps : List Look} → is_socket p.found ≡ false → Unseen ps → Unseen (p ∷ ps)

-- Some look finds a socket, the first that does so or that comes when the time is over.
pub data Found (timeout : ℕ) : List Look → Type 0 where
  here : {p : Look} {ps : List Look} → is_socket p.found ≡ true → Found timeout (p ∷ ps)
  later :
      {p : Look} {ps : List Look}
      → p.now < timeout
      → is_socket p.found ≡ false
      → Found timeout ps
      → Found timeout (p ∷ ps)

-- The first look when the time is over finds none, and neither does any before it.
pub data Late (timeout : ℕ) : List Look → Type 0 where
  here :
      {p : Look} {ps : List Look}
      → timeout ≤ p.now
      → is_socket p.found ≡ false
      → Late timeout (p ∷ ps)
  later :
      {p : Look} {ps : List Look}
      → p.now < timeout
      → is_socket p.found ≡ false
      → Late timeout ps
      → Late timeout (p ∷ ps)

-- What a spawn answers, and why.
pub data Verdict (a : Answers) : Option (Result SpawnError (Unit {0})) → Type 0 where
  ready : Found 3000 a.looks → Verdict a (some (ok tt))
  timed_out : Late 3000 a.looks → Verdict a (some (err not_ready))
  exited : Unseen a.looks → a.ended ≡ some true → Verdict a (some (err exited_immediately))
  lost : Unseen a.looks → a.ended ≡ some false → Verdict a (some (err no_status))
  unfinished : Unseen a.looks → a.ended ≡ none → length a.looks ≤ 150 → Verdict a none
