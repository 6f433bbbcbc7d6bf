-- ===== src/Daemon/System/Heard.antt =====
-- What a round of the loop, and a round of another connection's task, leave of one client's view.
use hytch.Common.{
  ℕ, ◌<◌, ◌≡◌, refl, sym, ap, ◌∙◌, subst, Option, List, [], ◌∷◌, ◌++◌, true, false, length, concat,
  concat-append, append-nil,
}
use hytch.Common.Results.{Result}
use hytch.Proto.Message.{Message}
use hytch.Proto.Codec.{InvalidData}
use hytch.Fanout
use hytch.Fanout.{Fanout}
use hytch.Fanout.Broadcast.{BroadcastCrate}
use hytch.Daemon.Signals.{SignalCrate}
use hytch.Daemon.Client.{resize, signal, Reaction}
use hytch.Daemon.Client.Reactions.{Reacts, attaching, other}
use hytch.Daemon.Loop.{ShutdownReason, PtyCall, resized, signalled, gave, took, Daemon, Ready}
use hytch.Daemon.Loop.Step.{Step}
use hytch.Daemon.Loop.Output.{output_of, output_of-append}
use hytch.Daemon.System.{Handler, output}
use hytch.Daemon.System.View.{Sees, Sees-send, Sees-subscribe}

module _ {c : BroadcastCrate} {s : SignalCrate} where
  output-call :
      (calls : List (PtyCall c s)) (call : PtyCall c s)
      → concat (output_of (calls ++ (call ∷ [])))
        ≡ concat (output_of calls) ++ concat (output_of (call ∷ []))
  output-call calls call =
      ap concat (output_of-append calls (call ∷ []))
      ∙ concat-append (output_of calls) (output_of (call ∷ []))

  -- A call that is no read is not heard.
  quiet_call :
      (n : ℕ) (calls : List (PtyCall c s)) (call : PtyCall c s) (tx : c.Sender) (h : Handler c s)
      (rx : c.Receiver)
      → output_of (call ∷ []) ≡ []
      → Sees c s n (concat (output_of calls)) tx h rx
      → Sees c s n (concat (output_of (calls ++ (call ∷ [])))) tx h rx
  quiet_call n calls call tx h rx quiet v =
      subst (λ out. Sees c s n out tx h rx)
        (sym (
          output-call calls call
          ∙ ap (λ l. concat (output_of calls) ++ concat l) quiet
          ∙ append-nil _))
        v

  pub Step-Sees :
      {reason : Option ShutdownReason} {r : Ready c s} {d d' : Daemon c s} (n : ℕ) (h : Handler c s)
      (rx : c.Receiver)
      → Step c s r d reason d'
      → length (c.backlog d.fanout.tx rx) < c.room d.fanout.tx
      → Sees c s n (output c s d) d.fanout.tx h rx
      → Sees c s n (output c s d') d'.fanout.tx h rx
  unfolding output_of Fanout.push
  Step-Sees {d = d} n h rx (Step.control (resize rows cols) rest e) room v =
      quiet_call n d.pty (resized rows cols) d.fanout.tx h rx refl v
  Step-Sees {d = d} n h rx (Step.control (signal sig) rest e) room v =
      quiet_call n d.pty (signalled sig) d.fanout.tx h rx refl v
  Step-Sees {d = d} n h rx (Step.output chunk e) room v =
      subst (λ out. Sees c s n out (c.send d.fanout.tx chunk) h rx)
        (sym (
          output-call d.pty (gave chunk)
          ∙ ap (λ l. concat (output_of d.pty) ++ l) (append-nil chunk)))
        (Sees-send c s n _ d.fanout.tx h rx chunk v room)
  Step-Sees n h rx (Step.exit answer e e' ended) room v = v
  Step-Sees n h rx (Step.accept true e e') room v = v
  Step-Sees n h rx (Step.accept false e e') room v = v
  Step-Sees {r = r} {d = d} n h rx (Step.push chunk rest e e' e'') room v =
      quiet_call n d.pty (took chunk r.cut_short) d.fanout.tx h rx refl v
  Step-Sees n h rx (Step.signals e e' e'') room v = v

  -- A message to one connection's task leaves the view of every other.
  pub Reacts-Sees :
      {o : Option (Result InvalidData Message)} {a : Option c.Receiver} {f : Fanout c}
      {r : Reaction c s} (n : ℕ) (out : List ℕ) (h : Handler c s) (rx : c.Receiver)
      → Reacts c s o a f r
      → Sees c s n out f.tx h rx
      → Sees c s n out r.fanout.tx h rx
  unfolding Fanout.attach
  Reacts-Sees {f = f} n out h rx (attaching skip e joined how) v =
      rw joined (Sees-subscribe c s n out f.tx h rx v)
  Reacts-Sees n out h rx (other e same wrote how) v = rw same v
