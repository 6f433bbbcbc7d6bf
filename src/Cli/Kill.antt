-- ===== src/Cli/Kill.antt =====
-- `kill`, `send_control` and `wait_gone` of crates/cli/src/commands.rs: a session is asked to stop, and waited for.
pub mod Answer
pub mod Signalled
mod Tests
use hytch.Common.{
  ℕ, ◌*◌, Option, none, some, List, [], ◌∷◌, Bool, true, false, not, ltb, take, if◌then◌else◌,
}
use hytch.Common.Results.{Result, ok, err}
use hytch.Proto.Buffer.{BytesCrate}
use hytch.Proto.Message.{Message}
use hytch.Proto.Codec.{encode}

-- A round of the wait: the milliseconds since it began, and whether the socket's file is there.
pub record Poll : Type 0 where
  pub now : ℕ
  pub there : Bool

-- Whether the file is gone; `none` if it is still waited for after all the polls.
pub wait_gone : ℕ → List Poll → Option Bool
wait_gone timeout [] = none
wait_gone timeout (p ∷ ps) =
    let rest = wait_gone timeout ps in
    if ltb p.now timeout then if p.there then rest else some true else some (not p.there)

-- The exit code, if the command has ended, and the signals that it sent.
abbrev pub verdict : Option Bool → List ℕ → Option ℕ × List ℕ
verdict none signals = (none, signals)
verdict (some true) signals = (some 0, signals)
verdict (some false) signals = (some 1, signals)

abbrev pub max_wait : Bool → ℕ
max_wait true = 2000
max_wait false = 5000

-- The second attempt, with `SIGKILL`, whether or not it can be sent.
unfoldable pub escalate : Bool → List Poll → Option ℕ × List ℕ
escalate sent polls = verdict (wait_gone 2000 polls) (if sent then 15 ∷ 9 ∷ [] else 15 ∷ [])

unfoldable pub kill : Bool → Bool → List Poll → Bool → List Poll → Option ℕ × List ℕ
kill force sent polls sent_again more_polls =
    let signals = (if force then 9 else 15) ∷ [] in
    if not sent then (some 1, []) else elim (wait_gone (max_wait force) polls) [
      | none ↦ (none, signals)
      | some true ↦ (some 0, signals)
      | some false ↦ if force then (some 1, signals) else escalate sent_again more_polls
    ]

-- Whether the message is sent, and the bytes sent: some of it, if the write fails.
pub send_control : BytesCrate → Bool → Message → Option ℕ → Bool × List ℕ
send_control b connected msg writing =
    let (encoded, buf) = encode b msg [] in
    if connected
    then elim encoded [
      | err e ↦ (false, [])
      | ok u ↦ elim writing [ some k ↦ (false, take k buf) | none ↦ (true, buf) ]
    ]
    else (false, [])
