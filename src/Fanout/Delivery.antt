-- ===== src/Fanout/Delivery.antt =====
-- No gap and no duplicate: what an attaching client is given, against all that was pushed.
use hytch.Common.{
  ℕ, ◌+◌, ◌≤◌, ◌<◌, ◌≡◌, refl, sym, ap, ap₂, ◌∙◌, subst, List, [], ◌∷◌, ◌++◌, length, last, concat,
  arith, append-nil, append_assoc, length-append, last-append_last, last_extend, ◌^◌, ◌-◌, some,
  drop-nil,
}
use hytch.Ring.{capacity}
use hytch.Ring
use hytch.Ring.Bounds.{IsValid, new-IsValid, append-IsValid-capacity}
use hytch.Ring.Contents.{snapshot-append}
use hytch.Fanout.{Fanout, new, push, attach}
use hytch.Ring.Bytes.{length-snapshot}
use hytch.Fanout.Broadcast.{BroadcastCrate}

-- The calls on a fanout, in the order in which they take the lock.
pub data Call : Type 0 where
  pushed : List ℕ → Call
  attached : Call

-- The chunks pushed by a sequence of calls.
abbrev pub chunks_of : List Call → List (List ℕ)
chunks_of [] = []
chunks_of (pushed d ∷ calls) = d ∷ chunks_of calls
chunks_of (attached ∷ calls) = chunks_of calls

length_zero : (xs : List ℕ) → length xs ≡ 0 → xs ≡ []
length_zero [] e = refl
length_zero (x ∷ xs) e = absurd (omega arith)

module _ (c : BroadcastCrate) where
  unfoldable pub run_calls : Fanout c → List Call → Fanout c
  run_calls f [] = f
  run_calls f (pushed d ∷ calls) = run_calls (push c f d) calls
  run_calls f (attached ∷ calls) = let (snapshot, rx, f') = attach c f in run_calls f' calls

  -- The ring is valid and holds the end of the output so far.
  pub record Holds (f : Fanout c) (cap : ℕ) (output : List ℕ) : Type 0 where
    pub valid : IsValid f.ring
    pub size : capacity f.ring ≡ cap
    pub content : Ring.snapshot f.ring ≡ last cap output

  Holds-push :
      (f : Fanout c) (cap : ℕ) (output d : List ℕ)
      → Holds f cap output
      → Holds (push c f d) cap (output ++ d)
  unfolding push
  Holds-push f cap output d h =
      let (v, e) = append-IsValid-capacity f.ring d h.valid in
      record {
        valid = v;
        size = e ∙ h.size;
        content =
            snapshot-append f.ring d h.valid
            ∙ ap₂ (λ n l. last n (l ++ d)) h.size h.content
            ∙ last-append_last cap output d;
      }

  -- Any calls leave the ring with the end of the output, whoever attached in between.
  pub run_calls-Holds :
      (calls : List Call) (f : Fanout c) (cap : ℕ) (output : List ℕ)
      → Holds f cap output
      → Holds (run_calls f calls) cap (output ++ concat (chunks_of calls))
  unfolding run_calls attach
  run_calls-Holds [] f cap output h = rw append-nil h
  run_calls-Holds (pushed d ∷ calls) f cap output h =
      subst (Holds (run_calls (push c f d) calls) cap) (append_assoc output d _)
        (run_calls-Holds calls (push c f d) cap (output ++ d) (Holds-push f cap output d h))
  run_calls-Holds (attached ∷ calls) f cap output h =
      run_calls-Holds calls _ cap output
        (record { valid = h.valid; size = h.size; content = h.content })

  -- A live receiver's backlog grows by exactly the chunks pushed, in order.
  run_calls-backlog :
      (calls : List Call) (f : Fanout c) (rx : c.Receiver)
      → c.Live f.tx rx
      → length (c.backlog f.tx rx) + length (chunks_of calls) ≤ c.room f.tx
      → c.backlog (run_calls f calls).tx rx ≡ c.backlog f.tx rx ++ chunks_of calls
  unfolding run_calls push attach
  run_calls-backlog [] f rx live room = sym (append-nil (c.backlog f.tx rx))
  run_calls-backlog (pushed d ∷ calls) f rx live room =
      let sent = c.send-backlog f.tx rx d live (omega arith) in
      run_calls-backlog calls (push c f d) rx (c.send-Live f.tx rx d live) (
        omega
          (arith, ap length sent, length-append (c.backlog f.tx rx) (d ∷ []), c.send-room f.tx d))
      ∙ ap (λ l. l ++ chunks_of calls) sent
      ∙ append_assoc (c.backlog f.tx rx) (d ∷ []) (chunks_of calls)
  run_calls-backlog (attached ∷ calls) f rx live room =
      let kept = c.keep-backlog f.tx rx live in
      run_calls-backlog calls _ rx (c.keep-Live f.tx rx live)
        (omega (arith, ap length kept, c.subscribe-room f.tx))
      ∙ ap (λ l. l ++ chunks_of calls) kept

  run_calls-room : (calls : List Call) (f : Fanout c) → c.room (run_calls f calls).tx ≡ c.room f.tx
  unfolding run_calls push attach
  run_calls-room [] f = refl
  run_calls-room (pushed d ∷ calls) f = run_calls-room calls (push c f d) ∙ c.send-room f.tx d
  run_calls-room (attached ∷ calls) f = run_calls-room calls _ ∙ c.subscribe-room f.tx

  new_made :
      (n m : ℕ) (f : Fanout c)
      → new c n m ≡ some f
      → (Ring.new n ≡ some f.ring) × (c.channel m ≡ f.tx)
  unfolding new
  new_made n m f e = ground arith

  -- A new fanout holds nothing, and its channel has the room asked for.
  pub new-Holds :
      (n m : ℕ) (f : Fanout c) → n < 2 ^ 64 → new c n m ≡ some f → Holds f n [] × (m ≤ c.room f.tx)
  new-Holds n m f small e =
      let (ring, tx) = new_made n m f e in
      let (v, size, empty) = new-IsValid n small ring in
      (
        record {
          valid = v;
          size = size;
          content =
              length_zero (Ring.snapshot f.ring) (length-snapshot f.ring ∙ empty)
              ∙ sym (drop-nil (0 - n));
        },
        subst (λ s. m ≤ c.room s) tx (c.channel-room m),
      )

  -- What a client is given on attaching, followed by what it is sent from then on, is the end of the
  -- output of the pty: `n` bytes of history and all later output, each byte once and in order. The
  -- fanout was made with a scrollback of `n` bytes, `before` and `after` are any calls by the daemon
  -- and by clients, and the client lags by no more chunks than the channel holds.
  pub attach_delivers :
      (n m : ℕ) (f : Fanout c) (before after : List Call)
      → n < 2 ^ 64
      → new c n m ≡ some f
      → length (chunks_of after) ≤ m
      → let (snapshot, rx, f') = attach c (run_calls f before) in
        snapshot ++ concat (c.backlog (run_calls f' after).tx rx)
        ≡ last
            (n + length (concat (chunks_of after)))
            (concat (chunks_of before) ++ concat (chunks_of after))
  unfolding attach
  attach_delivers n m f before after small made room =
      let (start, big) = new-Holds n m f small made in
      let held = run_calls-Holds before f n [] start in
      let g = run_calls f before in
      let (tx, rx) = c.subscribe g.tx in
      let live =
        run_calls-backlog after (record g { tx = tx }) rx (c.subscribe-Live g.tx)
          (omega (
            arith,
            ap length (c.subscribe-backlog g.tx),
            c.subscribe-room g.tx,
            run_calls-room before f,
          )) in
      ap₂ (λ s l. s ++ concat l) held.content
        (live ∙ ap (λ l. l ++ chunks_of after) (c.subscribe-backlog g.tx))
      ∙ last_extend n (concat (chunks_of before)) (concat (chunks_of after))
