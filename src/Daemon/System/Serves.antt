-- ===== src/Daemon/System/Serves.antt =====
-- What the client of one task sees, after a message, a chunk or an error.
use hytch.Common.{
  false, true, arith, ℕ, ◌≡◌, ◌≢◌, refl, sym, ◌∙◌, subst, ◌⊎◌, inl, inr, Option, none, some, List,
  [], Bool, ◌==◌, length, last, append-nil, Bool-cases,
}
use hytch.Common.Results.{Result, ok, err}
use hytch.Proto.Message.{Message}
use hytch.Proto.Codec.{InvalidData}
use hytch.Ring
use hytch.Fanout
use hytch.Fanout.{Fanout}
use hytch.Fanout.Broadcast.{BroadcastCrate}
use hytch.Daemon.Signals.{SignalCrate}
use hytch.Daemon.Client.{ControlCommand, Reaction}
use hytch.Daemon.Client.Reactions.{Reacts, attaching, other, Keeps}
use hytch.Daemon.System.{note, Handler, update, remember, react}
use hytch.Daemon.System.View.{Sees, Sees-new}

module _ {c : BroadcastCrate} {s : SignalCrate} where
  update_cases :
      (hs : ℕ → Handler c s) (i : ℕ) (h : Handler c s) (j : ℕ)
      → (i ≡ j) × (update c s hs i h j ≡ h) ⊎ (update c s hs i h j ≡ hs j)
  unfolding update
  update_cases hs i h j = elim (Bool-cases (i == j)) [
    | inl e ↦ inl (ground arith, rw e refl)
    | inr e ↦ inr (rw e refl)
  ]

  pub update-same : (hs : ℕ → Handler c s) (i : ℕ) (h : Handler c s) → update c s hs i h i ≡ h
  unfolding update
  update-same hs i h = let same : (i == i) ≡ true = ground arith in rw same refl

  pub update-other :
      (hs : ℕ → Handler c s) (i : ℕ) (h : Handler c s) (j : ℕ)
      → (i == j) ≡ false
      → update c s hs i h j ≡ hs j
  unfolding update
  update-other hs i h j e = rw e refl

  -- What the client of a task sees, if it is attached.
  abbrev pub Serves : ℕ → List ℕ → c.Sender → Handler c s → Type 0
  Serves n out tx h = (rx : c.Receiver) → h.attached ≡ some (some rx) → Sees c s n out tx h rx

  pub Serves-update :
      (n : ℕ) (out : List ℕ) (tx : c.Sender) (hs : ℕ → Handler c s) (i : ℕ) (h : Handler c s)
      (j : ℕ)
      → (i ≡ j → Serves n out tx h)
      → Serves n out tx (hs j)
      → Serves n out tx (update c s hs i h j)
  Serves-update n out tx hs i h j new old = elim (update_cases hs i h j) [
    | inl (same, e) ↦ subst (Serves n out tx) (sym e) (new same)
    | inr e ↦ subst (Serves n out tx) (sym e) old
  ]

  pub no_receiver :
      {n : ℕ} {out : List ℕ} {tx : c.Sender} (h : Handler c s)
      → ((rx : c.Receiver) → h.attached ≢ some (some rx))
      → Serves n out tx h
  no_receiver h gone rx e = absurd (gone rx e)

  remember_other :
      (o : Option (Result InvalidData Message)) (k : ℕ) (h : Handler c s)
      → ((skip_ring : Bool) → o ≢ some (ok (Message.attach skip_ring)))
      → remember c s o k h ≡ h
  remember_other none k h ne = refl
  remember_other (some (err x)) k h ne = refl
  remember_other (some (ok (Message.attach b))) k h ne = absurd (ne b refl)
  remember_other (some (ok Message.detach)) k h ne = refl
  remember_other (some (ok (Message.push bytes))) k h ne = refl
  remember_other (some (ok (Message.winch rows cols))) k h ne = refl
  remember_other (some (ok (Message.redraw m rows cols))) k h ne = refl
  remember_other (some (ok (Message.kill k'))) k h ne = refl

  Serves-quiet :
      (n : ℕ) (out : List ℕ) (tx : c.Sender) (h : Handler c s) (a : Option c.Receiver)
      (r : Reaction c s)
      → h.attached ≡ some a
      → r.wrote ≡ []
      → Keeps c s a r
      → Serves n out tx h
      → Serves n out tx (react c s r h)
  Serves-quiet n out tx h a r had quiet (inr gone) v rx e = absurd (gone rx e)
  Serves-quiet n out tx h a r had quiet (inl same) v rx e =
      let old = v rx (had ∙ sym same ∙ e) in
      record { live = old.live; past = old.past; complete = rw (quiet, append-nil) old.complete }

  pub remember-sent :
      (o : Option (Result InvalidData Message)) (k : ℕ) (h : Handler c s)
      → ((remember c s o k h).pushed ≡ h.pushed) × ((remember c s o k h).commanded ≡ h.commanded)
  remember-sent none k h = (refl, refl)
  remember-sent (some (err x)) k h = (refl, refl)
  remember-sent (some (ok (Message.attach b))) k h = (refl, refl)
  remember-sent (some (ok Message.detach)) k h = (refl, refl)
  remember-sent (some (ok (Message.push bytes))) k h = (refl, refl)
  remember-sent (some (ok (Message.winch rows cols))) k h = (refl, refl)
  remember-sent (some (ok (Message.redraw m rows cols))) k h = (refl, refl)
  remember-sent (some (ok (Message.kill n))) k h = (refl, refl)

  pub Serves-note :
      (n : ℕ) (out : List ℕ) (tx : c.Sender) (h : Handler c s) (r : Reaction c s)
      (chunks : List (List ℕ)) (commands : List (ControlCommand c s))
      → Serves n out tx (react c s r h)
      → Serves n out tx (react c s r (note c s chunks commands h))
  Serves-note n out tx h r chunks commands v rx e =
      let seen = v rx e in record { live = seen.live; past = seen.past; complete = seen.complete }

  -- The task that took a message: a new client sees the last of the ring, any other what it saw.
  pub Reacts-Serves :
      {o : Option (Result InvalidData Message)} {a : Option c.Receiver} {f : Fanout c}
      {r : Reaction c s} (n : ℕ) (out : List ℕ) (h : Handler c s)
      → Ring.snapshot f.ring ≡ last n out
      → h.attached ≡ some a
      → Reacts c s o a f r
      → Serves n out f.tx h
      → Serves n out r.fanout.tx (react c s r (remember c s o (length out) h))
  unfolding Fanout.attach
  Reacts-Serves {r = r} n out h ring had (attaching skip e joined (inl gone)) v rx e' =
      absurd (let x : none ≡ some (some rx) = sym gone ∙ e' in cc)
  Reacts-Serves {o} {f = f} {r = r} n out h ring had (attaching skip e joined (inr (got, wrote))) v
        rx e' =
      let same : (Fanout.attach c f).1 ≡ rx = cc in
      subst (λ x. Sees c s n out r.fanout.tx (react c s r (remember c s o (length out) h)) x) same
        (rw (e, joined, wrote)
          (Sees-new c s n out f.tx h (Ring.snapshot f.ring) skip r.attached ring))
  Reacts-Serves {o} {a} {f} {r} n out h ring had (other ne same quiet keeps) v rx e =
      rw (same, remember_other o (length out) h ne)
        (Serves-quiet n out f.tx h a r had quiet keeps v rx e)
