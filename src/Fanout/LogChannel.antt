-- ===== src/Fanout/LogChannel.antt =====
-- A broadcast channel that keeps all it was sent: the interface's laws can be met.
use hytch.Common.{
  ℕ, zero, suc, ◌≤◌, ◌≡◌, refl, List, [], ◌∷◌, ◌++◌, length, drop, get_or, arith, drop-length_le,
  drop-append_le, length-append,
}
use hytch.Fanout.Broadcast.{BroadcastCrate}

pub record Sent : Type 0 where
  pub room : ℕ
  pub chunks : List (List ℕ)

-- The chunk at a place that is not the end.
pub recv_at :
    (chunks : List (List ℕ)) (rx : ℕ) (d : List ℕ) (ds : List (List ℕ))
    → rx ≤ length chunks
    → drop rx chunks ≡ d ∷ ds
    → (get_or chunks rx [] ≡ d) × (suc rx ≤ length chunks) × (drop (suc rx) chunks ≡ ds)
recv_at [] zero d ds live e = cc
recv_at [] (suc rx) d ds live e = absurd (omega arith)
recv_at (x ∷ xs) zero d ds live e = (cc, omega arith, cc)
recv_at (x ∷ xs) (suc rx) d ds live e =
    let (p, q, r) = recv_at xs rx d ds (omega arith) e in (p, omega arith, r)

-- A receiver is the place in the sequence where it joined.
abbrev pub log_channel : BroadcastCrate
log_channel = record {
  Sender = Sent;
  Receiver = ℕ;
  channel = λ n. record { room = n; chunks = [] };
  send = λ tx d. record { room = tx.room; chunks = tx.chunks ++ (d ∷ []) };
  subscribe = λ tx. (tx, length tx.chunks);
  room = λ tx. tx.room;
  Live = λ tx rx. rx ≤ length tx.chunks;
  backlog = λ tx rx. drop rx tx.chunks;
  channel-room = λ n. omega arith;
  send-room = λ tx d. refl;
  subscribe-room = λ tx. refl;
  subscribe-Live = λ tx. omega arith;
  subscribe-backlog = λ tx. drop-length_le (length tx.chunks) tx.chunks (omega arith);
  send-Live = λ tx rx d live. omega (arith, length-append tx.chunks (d ∷ []));
  send-backlog = λ tx rx d live room. drop-append_le rx tx.chunks (d ∷ []) live;
  keep-Live = λ tx rx live. live;
  keep-backlog = λ tx rx live. refl;
  recv = λ tx rx. (get_or tx.chunks rx [], suc rx);
  recv_lem = λ tx rx d ds live e. recv_at tx.chunks rx d ds live e;
}
