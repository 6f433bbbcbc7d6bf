-- ===== src/Client/Attach/Messages.antt =====
-- Lists of messages put together: their frames, and what they ask for.
use hytch.Common.{ℕ, ◌≡◌, refl, sym, ap, ◌∙◌, List, [], ◌∷◌, ◌++◌, append_assoc}
use hytch.Proto.Message.{RedrawMethod, Message}
use hytch.Proto.Codec.Frame.{frame}
use hytch.Proto.Codec.Stream.{frames, AllFit}
use hytch.Client.Attach.Happening.{pushes_of, asked_of}

pub frames-append : (xs ys : List Message) → frames (xs ++ ys) ≡ frames xs ++ frames ys
unfolding frames
frames-append [] ys = refl
frames-append (x ∷ xs) ys =
    ap (λ l. frame x ++ l) (frames-append xs ys)
    ∙ sym (append_assoc (frame x) (frames xs) (frames ys))

pub pushes_of-append : (xs ys : List Message) → pushes_of (xs ++ ys) ≡ pushes_of xs ++ pushes_of ys
pushes_of-append [] ys = refl
pushes_of-append (Message.push p ∷ xs) ys =
    ap (λ l. p ++ l) (pushes_of-append xs ys) ∙ sym (append_assoc p (pushes_of xs) (pushes_of ys))
pushes_of-append (Message.attach _ ∷ xs) ys = pushes_of-append xs ys
pushes_of-append (Message.detach ∷ xs) ys = pushes_of-append xs ys
pushes_of-append (Message.winch _ _ ∷ xs) ys = pushes_of-append xs ys
pushes_of-append (Message.redraw _ _ _ ∷ xs) ys = pushes_of-append xs ys
pushes_of-append (Message.kill _ ∷ xs) ys = pushes_of-append xs ys

pub asked_of-append : (xs ys : List Message) → asked_of (xs ++ ys) ≡ asked_of xs ++ asked_of ys
asked_of-append [] ys = refl
asked_of-append (Message.winch rows cols ∷ xs) ys =
    ap (λ l. Message.winch rows cols ∷ l) (asked_of-append xs ys)
asked_of-append (Message.kill signal ∷ xs) ys =
    ap (λ l. Message.kill signal ∷ l) (asked_of-append xs ys)
asked_of-append (Message.redraw RedrawMethod.none rows cols ∷ xs) ys = asked_of-append xs ys
asked_of-append (Message.redraw RedrawMethod.unspecified rows cols ∷ xs) ys =
    ap (λ l. Message.winch rows cols ∷ l) (asked_of-append xs ys)
asked_of-append (Message.redraw RedrawMethod.ctrl_l rows cols ∷ xs) ys =
    ap (λ l. Message.winch rows cols ∷ l) (asked_of-append xs ys)
asked_of-append (Message.redraw RedrawMethod.winch rows cols ∷ xs) ys =
    ap (λ l. Message.winch rows cols ∷ l) (asked_of-append xs ys)
asked_of-append (Message.push payload ∷ xs) ys = asked_of-append xs ys
asked_of-append (Message.attach skip_ring ∷ xs) ys = asked_of-append xs ys
asked_of-append (Message.detach ∷ xs) ys = asked_of-append xs ys

pub AllFit-append :
    (max : ℕ) (xs ys : List Message) → AllFit max xs → AllFit max ys → AllFit max (xs ++ ys)
AllFit-append max [] ys p q = q
AllFit-append max (x ∷ xs) ys (m, fits, p) q = (m, fits, AllFit-append max xs ys p q)
