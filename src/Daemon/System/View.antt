-- ===== src/Daemon/System/View.antt =====
-- What one connection has been given, against all output.
use hytch.Common.{
  ℕ, ◌<◌, ◌≤◌, ◌≡◌, sym, ap, ap₂, ◌∙◌, Option, List, [], ◌∷◌, ◌++◌, Bool, length, concat, take,
  drop, last, append-nil, append_assoc, take-append_le, drop-append_le, take-length_le,
  drop-length_le, if◌then◌else◌, arith, length-append,
}
use hytch.Fanout.Broadcast.{BroadcastCrate}
use hytch.Daemon.Signals.{SignalCrate}
use hytch.Daemon.System.{Handler}

-- What a client is to see that came when there were `at` bytes of output: the `n` bytes before, unless
-- it skips them, and all since.
abbrev pub view : ℕ → Bool → ℕ → List ℕ → List ℕ
view n skip at out = (if skip then [] else last n (take at out)) ++ drop at out

view-append :
    (n : ℕ) (skip : Bool) (at : ℕ) (out chunk : List ℕ)
    → at ≤ length out
    → view n skip at (out ++ chunk) ≡ view n skip at out ++ chunk
view-append n skip at out chunk h =
    rw (take-append_le at out chunk h, drop-append_le at out chunk h)
      (sym (append_assoc (if skip then [] else last n (take at out)) (drop at out) chunk))

view-now :
    (n : ℕ) (skip : Bool) (out : List ℕ)
    → view n skip (length out) out ≡ (if skip then [] else last n out)
view-now n skip out =
    rw
      (take-length_le (length out) out (omega arith), drop-length_le (length out) out (omega arith))
      (append-nil (if skip then [] else last n out))

module _ (c : BroadcastCrate) (s : SignalCrate) where
  -- The receiver is live, and what it still holds completes the view.
  pub record Sees (n : ℕ) (out : List ℕ) (tx : c.Sender) (h : Handler c s) (rx : c.Receiver)
      : Type 0 where
    pub live : c.Live tx rx
    pub past : h.joined ≤ length out
    pub complete : h.wrote ++ concat (c.backlog tx rx) ≡ h.earlier ++ view n h.skipped h.joined out

  concat-snoc : (xs : List (List ℕ)) (d : List ℕ) → concat (xs ++ (d ∷ [])) ≡ concat xs ++ d
  concat-snoc [] d = append-nil d
  concat-snoc (x ∷ xs) d = ap (λ l. x ++ l) (concat-snoc xs d) ∙ sym (append_assoc x (concat xs) d)

  -- New output goes to the receiver.
  pub Sees-send :
      (n : ℕ) (out : List ℕ) (tx : c.Sender) (h : Handler c s) (rx : c.Receiver) (chunk : List ℕ)
      → Sees n out tx h rx
      → length (c.backlog tx rx) < c.room tx
      → Sees n (out ++ chunk) (c.send tx chunk) h rx
  Sees-send n out tx h rx chunk v room = record {
    live = c.send-Live tx rx chunk v.live;
    past = omega (arith, v.past, length-append out chunk);
    complete =
        ap (λ l. h.wrote ++ concat l) (c.send-backlog tx rx chunk v.live room)
        ∙ ap (λ l. h.wrote ++ l) (concat-snoc (c.backlog tx rx) chunk)
        ∙ sym (append_assoc h.wrote _ chunk)
        ∙ ap (λ l. l ++ chunk) v.complete
        ∙ append_assoc h.earlier _ chunk
        ∙ ap (λ l. h.earlier ++ l) (sym (view-append n h.skipped h.joined out chunk v.past));
  }

  -- Another client's `Attach` changes nothing.
  pub Sees-subscribe :
      (n : ℕ) (out : List ℕ) (tx : c.Sender) (h : Handler c s) (rx : c.Receiver)
      → Sees n out tx h rx
      → Sees n out (c.subscribe tx).0 h rx
  Sees-subscribe n out tx h rx v = record {
    live = c.keep-Live tx rx v.live;
    past = v.past;
    complete = ap (λ l. h.wrote ++ concat l) (c.keep-backlog tx rx v.live) ∙ v.complete;
  }

  -- A chunk moves from the receiver to the connection.
  pub Sees-recv :
      (n : ℕ) (out : List ℕ) (tx : c.Sender) (h : Handler c s) (rx : c.Receiver) (d : List ℕ)
      (ds : List (List ℕ)) (a : Option (Option c.Receiver))
      → Sees n out tx h rx
      → c.backlog tx rx ≡ d ∷ ds
      → Sees n out tx
          (record h { attached = a; wrote = h.wrote ++ (c.recv tx rx).0 })
          (c.recv tx rx).1
  Sees-recv n out tx h rx d ds a v has =
      let (got, live, rest) = c.recv_lem tx rx d ds v.live has in
      record {
        live = live;
        past = v.past;
        complete =
            ap₂ (λ x l. (h.wrote ++ x) ++ concat l) got rest
            ∙ append_assoc h.wrote d (concat ds)
            ∙ ap (λ l. h.wrote ++ concat l) (sym has)
            ∙ v.complete;
      }

  -- The view of a client that has just come.
  pub Sees-new :
      (n : ℕ) (out : List ℕ) (tx : c.Sender) (h : Handler c s) (snapshot : List ℕ) (skip : Bool)
      (a : Option (Option c.Receiver))
      → snapshot ≡ last n out
      → Sees n out
          (c.subscribe tx).0
          (record h {
            attached = a;
            wrote = h.wrote ++ (if skip then [] else snapshot);
            earlier = h.wrote;
            joined = length out;
            skipped = skip;
          })
          (c.subscribe tx).1
  Sees-new n out tx h snapshot skip a e = record {
    live = c.subscribe-Live tx;
    past = omega arith;
    complete =
        ap (λ l. (h.wrote ++ (if skip then [] else snapshot)) ++ concat l) (c.subscribe-backlog tx)
        ∙ append-nil (h.wrote ++ (if skip then [] else snapshot))
        ∙ ap (λ l. h.wrote ++ (if skip then [] else l)) e
        ∙ ap (λ l. h.wrote ++ l) (sym (view-now n skip out));
  }
