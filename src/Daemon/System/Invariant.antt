-- ===== src/Daemon/System/Invariant.antt =====
-- Every task's client, at every point of every interleaving.
use hytch.Common.{
  sym, ℕ, ◌<◌, ◌≤◌, ◌^◌, ◌≡◌, refl, ap, ◌∙◌, subst, Option, some, List, ◌∷◌, ◌++◌, Bool, true,
  false, length, concat, drop, take, last, last_extend, take-append-drop, ◌+◌, if◌then◌else◌,
}
use hytch.Common.Results.{Result}
use hytch.Proto.Message.{Message}
use hytch.Proto.Codec.{InvalidData}
use hytch.Fanout.Broadcast.{BroadcastCrate}
use hytch.Daemon.Signals.{SignalCrate}
use hytch.Daemon.Client.{next, going_on, returned, Reaction, handle_event}
use hytch.Daemon.Client.Reactions.{
  Reacts, attaching, other, handle_event-Reacts, handle_event-item, handle_event-lost,
}
use hytch.Daemon.Loop.{Daemon, Ready, start, round}
use hytch.Daemon.Loop.Step.{round-Step}
use hytch.Daemon.Loop.Output.{Mirrors, Step-Mirrors, attach-Mirrors, start-Mirrors}
use hytch.Daemon.System.{
  remember, Handler, System, output, react, reacting, taken, given, Step, Reach,
}
use hytch.Daemon.System.View.{Sees, Sees-recv, view}
use hytch.Daemon.System.Heard.{Step-Sees, Reacts-Sees}
use hytch.Daemon.System.Lagging.{HasRoom, InTime, NeverLags}
use hytch.Daemon.System.Serves.{Serves, Serves-update, no_receiver, Serves-note, Reacts-Serves}

extended :
    (n : ℕ) (skip : Bool) (at : ℕ) (out : List ℕ)
    → view n skip at out ≡ (if skip then drop at out else last (n + length (drop at out)) out)
extended n true at out = refl
extended n false at out =
    last_extend n (take at out) (drop at out)
    ∙ ap (last (n + length (drop at out))) (take-append-drop at out)

module _ {c : BroadcastCrate} {s : SignalCrate} where
  -- The ring and the log mirror the output, and the client of the task `j` sees it.
  pub record Inv (logging : Bool) (n j : ℕ) (t : System c s) : Type 0 where
    pub mirrors : Mirrors logging n t.daemon
    pub serves : Serves n (output c s t.daemon) t.daemon.fanout.tx (t.handlers j)

  Reacts-Mirrors :
      {o : Option (Result InvalidData Message)} {a : Option c.Receiver} {r : Reaction c s}
      (logging : Bool) (n : ℕ) (d d' : Daemon c s)
      → Reacts c s o a d.fanout r
      → d'.fanout ≡ r.fanout
      → d'.log ≡ d.log
      → d'.pty ≡ d.pty
      → Mirrors logging n d
      → Mirrors logging n d'
  Reacts-Mirrors logging n d d' (attaching skip e joined how) same log pty h =
      attach-Mirrors logging n d d' (same ∙ joined) log pty h
  Reacts-Mirrors logging n d d' (other ne same' quiet keeps) same log pty h = record {
    held = rw (same, same', pty) h.held;
    logged = rw (log, pty) h.logged;
  }

  own_Serves :
      {n : ℕ} {out : List ℕ} {tx : c.Sender} {j : ℕ} (t : System c s) (i : ℕ)
      → i ≡ j
      → Serves n out tx (t.handlers j)
      → Serves n out tx (t.handlers i)
  own_Serves {n} {out} {tx} t i e v = subst (λ k. Serves n out tx (t.handlers k)) (sym e) v

  given-Serves :
      (n : ℕ) (t : System c s) (i : ℕ) (rx : c.Receiver) (d : List ℕ) (ds : List (List ℕ))
      → c.backlog t.daemon.fanout.tx rx ≡ d ∷ ds
      → Sees c s n (output c s t.daemon) t.daemon.fanout.tx (t.handlers i) rx
      → let (bytes, rx') = c.recv t.daemon.fanout.tx rx in
        Serves n (output c s t.daemon) t.daemon.fanout.tx (
          react c s
            (record (going_on c s (some rx') t.daemon.fanout) { wrote = bytes })
            (t.handlers i))
  given-Serves n t i rx d ds has v rx'' e =
      let (bytes, rx') = c.recv t.daemon.fanout.tx rx in
      let r = record (going_on c s (some rx') t.daemon.fanout) { wrote = bytes } in
      let out = output c s t.daemon in
      let same : rx' ≡ rx'' = cc in
      subst (λ x. Sees c s n out t.daemon.fanout.tx (react c s r (t.handlers i)) x) same
        (Sees-recv c s n out t.daemon.fanout.tx (t.handlers i) rx d ds r.attached v has)

  loops-Inv :
      (logging : Bool) (n j : ℕ) (t : System c s) (r : Ready c s)
      → HasRoom c s j t
      → Inv logging n j t
      → Inv logging n j (record t { daemon = (round c s r t.daemon).1 })
  loops-Inv logging n j t r room v =
      let st = round-Step c s r t.daemon in
      record {
        mirrors = Step-Mirrors logging n st v.mirrors;
        serves = λ rx e. Step-Sees n (t.handlers j) rx st (room rx e) (v.serves rx e);
      }

  takes-Inv :
      (logging : Bool) (n j : ℕ) (t : System c s) (i : ℕ) (sent : Bool)
      (o : Option (Result InvalidData Message)) (a : Option c.Receiver)
      → (t.handlers i).attached ≡ some a
      → Inv logging n j t
      → Inv logging n j (taken c s t i sent o a)
  takes-Inv logging n j t i sent o a had v =
      let how = handle_event-Reacts c s sent o a t.daemon.fanout in
      let out = output c s t.daemon in
      let r = handle_event c s sent (next o) a t.daemon.fanout in
      record {
        mirrors = Reacts-Mirrors logging n t.daemon _ how refl refl refl v.mirrors;
        serves =
            Serves-update n out r.fanout.tx t.handlers i _ j
              (λ e.
                Serves-note n out r.fanout.tx (remember c s o (length out) (t.handlers i)) r _ _ (
                  Reacts-Serves n out (t.handlers i) v.mirrors.held.content had how
                    (own_Serves t i e v.serves)))
              (λ rx e. Reacts-Sees n out (t.handlers j) rx how (v.serves rx e));
      }

  returned-Inv :
      (logging : Bool) (n j : ℕ) (t : System c s) (i : ℕ) (h : Handler c s)
      → Inv logging n j t
      → Inv logging n j (reacting c s t i h (returned c s t.daemon.fanout))
  returned-Inv logging n j t i h v = record {
    mirrors = record { held = v.mirrors.held; logged = v.mirrors.logged };
    serves =
        Serves-update n _ t.daemon.fanout.tx t.handlers i _ j (λ same. no_receiver _ (λ rx e. cc))
          v.serves;
  }

  gives-Inv :
      (logging : Bool) (n j : ℕ) (t : System c s) (i : ℕ) (sent : Bool) (rx : c.Receiver)
      (d : List ℕ) (ds : List (List ℕ))
      → (t.handlers i).attached ≡ some (some rx)
      → c.backlog t.daemon.fanout.tx rx ≡ d ∷ ds
      → Inv logging n j t
      → Inv logging n j (given c s t i sent rx)
  gives-Inv logging n j t i false rx d ds had has v =
      let (bytes, rx') = c.recv t.daemon.fanout.tx rx in
      rw ((handle_event-item c s bytes (some rx') t.daemon.fanout).1)
        (returned-Inv logging n j t i (t.handlers i) v)
  gives-Inv logging n j t i true rx d ds had has v =
      let (bytes, rx') = c.recv t.daemon.fanout.tx rx in
      rw ((handle_event-item c s bytes (some rx') t.daemon.fanout).0) (record {
        mirrors = record { held = v.mirrors.held; logged = v.mirrors.logged };
        serves =
            Serves-update n _ t.daemon.fanout.tx t.handlers i _ j
              (λ e. given-Serves n t i rx d ds has (own_Serves t i e v.serves rx had)) v.serves;
      })

  Step-Inv :
      {t u : System c s} (logging : Bool) (n j : ℕ) (st : Step c s t u)
      → InTime j st
      → Inv logging n j t
      → Inv logging n j u
  unfolding InTime
  Step-Inv {t} logging n j (Step.loops r) room v = loops-Inv logging n j t r room v
  Step-Inv {t} logging n j (Step.takes i sent o a known had fits) _ v =
      takes-Inv logging n j t i sent o a had v
  Step-Inv {t} logging n j (Step.gives i sent rx d ds known had has) _ v =
      gives-Inv logging n j t i sent rx d ds had has v
  Step-Inv {t} logging n j (Step.fails i sent rx e known had) _ v =
      rw (handle_event-lost c s sent e (some rx) t.daemon.fanout)
        (returned-Inv logging n j t i (t.handlers i) v)

  pub Reach-Inv :
      {d : Daemon c s} {t : System c s} (logging : Bool) (n j : ℕ) (r : Reach c s d t)
      → NeverLags j r
      → n < 2 ^ 64
      → start c s logging n ≡ some d
      → Inv logging n j t
  unfolding NeverLags
  Reach-Inv {d} logging n j Reach.here _ small e = record {
    mirrors = start-Mirrors logging n d small e;
    serves = λ rx none_yet. cc;
  }
  Reach-Inv logging n j (Reach.later r st) (before, now) small e =
      Step-Inv logging n j st now (Reach-Inv logging n j r before small e)

module _ (c : BroadcastCrate) (s : SignalCrate) where
  -- Whatever the loop and the connections' tasks did so far, in any order, since the daemon started
  -- with a scrollback of `n` bytes: if an attached client never lagged, whether others did or not,
  -- then what it has been written, followed by what its receiver still holds, is what it was written
  -- before its last `Attach`, and then the pty's output since that `Attach`, preceded by the up to `n`
  -- bytes before it unless the client asked to skip them: each byte once and in order.
  pub attached-view :
      {d : Daemon c s} {t : System c s} (logging : Bool) (n : ℕ) (r : Reach c s d t) (i : ℕ)
      (rx : c.Receiver)
      → NeverLags i r
      → n < 2 ^ 64
      → start c s logging n ≡ some d
      → (t.handlers i).attached ≡ some (some rx)
      → let h = t.handlers i in
        let out = output c s t.daemon in
        let since = drop h.joined out in
        (h.joined ≤ length out)
        × (h.wrote ++ concat (c.backlog t.daemon.fanout.tx rx)
            ≡ h.earlier ++ (if h.skipped then since else last (n + length since) out))
  attached-view {t = t} logging n r i rx keeping small e had =
      let v = (Reach-Inv logging n i r keeping small e).serves rx had in
      let h = t.handlers i in
      (
        v.past,
        v.complete ∙ ap (λ l. h.earlier ++ l) (extended n h.skipped h.joined (output c s t.daemon)),
      )
