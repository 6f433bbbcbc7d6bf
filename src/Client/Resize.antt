-- ===== src/Client/Resize.antt =====
-- crates/client/src/resize.rs: the terminal's size, and the task that tells of its changes. A call takes
-- the terminal's answer.
pub mod Tests
use hytch.Common.{
  ℕ, Option, none, some, List, [], ◌∷◌, Bool, true, false, if◌then◌else◌, ◌≡◌, refl, inl, inr, ap,
  ◌∙◌,
}
use hytch.Common.Results.{Result, ok, err, map_ok, Result-cases}

-- `rustix::termios::Winsize`.
pub record Winsize : Type 0 where
  pub ws_row : ℕ
  pub ws_col : ℕ
  pub ws_xpixel : ℕ
  pub ws_ypixel : ℕ

abbrev pub current_size : Result (Unit {0}) Winsize → Result (Unit {0}) (ℕ × ℕ)
current_size ws = map_ok (λ w. (w.ws_row, w.ws_col)) ws

-- A `SIGWINCH`: what the terminal then answers, and whether the receiver is still there for what is sent.
pub record WindowChange : Type 0 where
  pub answer : Result (Unit {0}) Winsize
  pub received : Bool

-- The task, for as many signals as come: the sizes sent, and whether it waits for the next signal.
unfoldable pub watch : List WindowChange → List (ℕ × ℕ) × Bool
watch [] = ([], true)
watch (w ∷ ws) =
    let (later, waits) = watch ws in
    elim (current_size w.answer) [
      | ok size ↦ if w.received then (size ∷ later, waits) else ([], false)
      | err e ↦ (later, waits)
    ]

-- `none` if the signal's handler is refused; else what comes through the channel.
abbrev pub spawn_watcher : Bool → List WindowChange → Option (List (ℕ × ℕ) × Bool)
spawn_watcher registered ws = if registered then some (watch ws) else none

-- The sizes that were had.
abbrev pub sizes_had : List WindowChange → List (ℕ × ℕ)
sizes_had [] = []
sizes_had (w ∷ ws) = elim w.answer [
  | ok size ↦ (size.ws_row, size.ws_col) ∷ sizes_had ws
  | err e ↦ sizes_had ws
]

abbrev pub AllReceived : List WindowChange → Type 0
AllReceived [] = Unit
AllReceived (w ∷ ws) = (w.received ≡ true) × AllReceived ws

-- While the receiver is there, every size that could be had is sent, in order, and the task goes on.
pub watch-sizes_had : (ws : List WindowChange) → AllReceived ws → watch ws ≡ (sizes_had ws, true)
unfolding watch
watch-sizes_had [] h = refl
watch-sizes_had (w ∷ ws) (here, h) = elim (Result-cases w.answer) [
  | inl (size, e) ↦ rw (e, here, watch-sizes_had ws h) refl
  | inr (x, e) ↦ rw (e, watch-sizes_had ws h) refl
]
