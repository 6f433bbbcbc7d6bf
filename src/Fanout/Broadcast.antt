-- ===== src/Fanout/Broadcast.antt =====
-- What the daemon uses of `tokio::sync::broadcast`, which is not part of the repository. `backlog` is
-- what a receiver has still to be given, oldest first; it is defined while the receiver is live and
-- has not fallen more than the channel's capacity behind.
use hytch.Common.{ℕ, ◌≤◌, ◌<◌, ◌≡◌, List, [], ◌∷◌, ◌++◌, length}

pub record BroadcastCrate : Type 1 where
  pub Sender : Type 0
  pub Receiver : Type 0
  pub channel : ℕ → Sender
  pub send : Sender → List ℕ → Sender
  pub subscribe : Sender → Sender × Receiver
  pub room : Sender → ℕ
  pub Live : Sender → Receiver → Type 0
  pub backlog : Sender → Receiver → List (List ℕ)
  pub channel-room : (n : ℕ) → n ≤ room (channel n)
  pub send-room : (tx : Sender) (d : List ℕ) → room (send tx d) ≡ room tx
  pub subscribe-room : (tx : Sender) → room (subscribe tx).0 ≡ room tx
  -- A new receiver has nothing of what was sent before.
  pub subscribe-Live : (tx : Sender) → Live (subscribe tx).0 (subscribe tx).1
  pub subscribe-backlog : (tx : Sender) → backlog (subscribe tx).0 (subscribe tx).1 ≡ []
  -- A send reaches every live receiver that has room; other subscriptions change nothing.
  pub send-Live : (tx : Sender) (rx : Receiver) (d : List ℕ) → Live tx rx → Live (send tx d) rx
  pub send-backlog :
      (tx : Sender) (rx : Receiver) (d : List ℕ)
      → Live tx rx
      → length (backlog tx rx) < room tx
      → backlog (send tx d) rx ≡ backlog tx rx ++ (d ∷ [])
  pub keep-Live : (tx : Sender) (rx : Receiver) → Live tx rx → Live (subscribe tx).0 rx
  pub keep-backlog :
      (tx : Sender) (rx : Receiver) → Live tx rx → backlog (subscribe tx).0 rx ≡ backlog tx rx
  -- `recv` with something to give: the oldest chunk, and the receiver that has moved on.
  pub recv : Sender → Receiver → List ℕ × Receiver
  pub recv_lem :
      (tx : Sender) (rx : Receiver) (d : List ℕ) (ds : List (List ℕ))
      → Live tx rx
      → backlog tx rx ≡ d ∷ ds
      → ((recv tx rx).0 ≡ d) × Live tx (recv tx rx).1 × (backlog tx (recv tx rx).1 ≡ ds)
