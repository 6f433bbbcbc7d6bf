-- ===== src/Client/Resize/Tests.antt =====
-- A terminal whose size is had once of two times.
use hytch.Common.{◌≡◌, refl, List, [], ◌∷◌, true, false, some}
use hytch.Common.Results.{ok, err}
use hytch.Client.Resize.{Winsize, WindowChange, watch, spawn_watcher}

abbrev thirty : Winsize
thirty = record { ws_row = 30; ws_col = 100; ws_xpixel = 0; ws_ypixel = 0 }

abbrev pub changes : List WindowChange
changes =
    record { answer = ok thirty; received = true }
    ∷ record { answer = err tt; received = true }
    ∷ []

sent_once : spawn_watcher true changes ≡ some ((30, 100) ∷ [], true)
unfolding watch
sent_once = refl

-- The attach loop has ended: the task does so at the next size.
ends :
    watch (
      record { answer = err tt; received = false }
      ∷ record { answer = ok thirty; received = false }
      ∷ changes)
    ≡ ([], false)
unfolding watch
ends = refl
