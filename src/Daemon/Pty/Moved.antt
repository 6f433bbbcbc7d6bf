-- ===== src/Daemon/Pty/Moved.antt =====
-- Reading from the pty and writing to it: no byte is lost or doubled, however often a call blocks.
use hytch.Common.{
  ℕ, ◌≡◌, refl, sym, none, some, List, [], ◌∷◌, ◌++◌, take, take-append-drop, append-nil,
}
use hytch.Common.Results.{ok, err}
use hytch.Daemon.Pty.{
  Turn, pending, ready_failed, blocked, failed, moved, Poll, poll_read, poll_write,
}

-- The bytes that a poll answers with.
abbrev pub answered : Poll (List ℕ) → List ℕ
answered none = []
answered (some (ok bytes)) = bytes
answered (some (err e)) = []

abbrev pub counted : Poll ℕ → ℕ
counted none = 0
counted (some (ok n)) = n
counted (some (err e)) = 0

-- A read answers with the front of what is in the pty and leaves the rest there: all of it when the
-- answer is an error or that there is nothing yet. A write puts as much of its bytes into the pty as it
-- answers with, behind what is there. Both hold for any number of calls that block after all.
pub poll-moved :
    (turns : List Turn) (source bytes sink : List ℕ)
    → let (read, left) = poll_read turns source in
      let (written, grown) = poll_write turns bytes sink in
      (answered read ++ left ≡ source) × (grown ≡ sink ++ take (counted written) bytes)
unfolding poll_read poll_write
poll-moved [] source bytes sink = (refl, sym (append-nil sink))
poll-moved (pending ∷ turns) source bytes sink = (refl, sym (append-nil sink))
poll-moved (ready_failed ∷ turns) source bytes sink = (refl, sym (append-nil sink))
poll-moved (blocked ∷ turns) source bytes sink = poll-moved turns source bytes sink
poll-moved (failed ∷ turns) source bytes sink = (refl, sym (append-nil sink))
poll-moved (moved n ∷ turns) source bytes sink = (take-append-drop n source, refl)
