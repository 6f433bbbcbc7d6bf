-- ===== src/Client/Attach/Sent.antt =====
-- What an attached client's loop sends in all, against what is typed and sized.
use hytch.Common.{
  ℕ, ◌≡◌, ◌≢◌, refl, sym, ap, ap₂, ◌∙◌, subst, ◌⊎◌, inr, Option, none, List, [], ◌∷◌, ◌++◌,
  append-nil, append_assoc, arith,
}
use hytch.Common.Results.{Result, ok}
use hytch.Proto.Buffer.{BytesCrate}
use hytch.Proto.Message.{Message}
use hytch.Proto.Codec.Stream.{frames, AllFit}
use hytch.Client.Attach.{AttachOptions, AttachOutcome, IoError, Link}
use hytch.Client.Attach.Special.{
  first_special, before_special, before_special-whole, first_special-append,
}
use hytch.Client.Attach.Happening.{
  Happening, typed_of, shown_of, pushes_of, asked_of, sized_of, Ending, running, hung_up, ran_dry,
  by_key, after,
}
use hytch.Client.Attach.Messages.{frames-append, pushes_of-append, asked_of-append, AllFit-append}
use hytch.Client.Attach.Reply.{Reply}

abbrev pub typed_all : List Happening → List ℕ
typed_all [] = []
typed_all (h ∷ hs) = typed_of h ++ typed_all hs

abbrev pub shown_all : List Happening → List ℕ
shown_all [] = []
shown_all (h ∷ hs) = shown_of h ++ shown_all hs

abbrev pub sized_all : List Happening → List Message
sized_all [] = []
sized_all (h ∷ hs) = sized_of h ++ sized_all hs

-- The loop, having taken `used`, has sent `messages` and shown the output; the pushes are what was
-- typed before the first special character.
pub record Sent (opts : AttachOptions) (hs : List Happening) (link : Link)
    (out : Result IoError (Option AttachOutcome) × Link) : Type 0 where
  pub used : List Happening
  pub unused : List Happening
  pub split : hs ≡ used ++ unused
  pub outcome : Option AttachOutcome
  pub messages : List Message
  pub is_ok : out ≡ (ok outcome, after link messages (shown_all used))
  pub fit : AllFit 4096 messages
  pub ending : Ending opts (typed_all used) outcome
  pub all_used : (unused ≡ []) ⊎ (outcome ≢ none)
  pub pushes :
      pushes_of messages ≡ before_special opts.detach_char opts.suspend_char (typed_all used)
  pub sizes : asked_of messages ≡ sized_all used

still_running :
    (opts : AttachOptions) (keys : List ℕ) (o : Option AttachOutcome)
    → Ending opts keys o
    → o ≡ none
    → first_special opts.detach_char opts.suspend_char keys ≡ none
still_running opts keys _ (running p) e = p
still_running opts keys _ (hung_up p) e = p
still_running opts keys _ (ran_dry p) e = p
still_running opts keys _ (by_key o p) e = absurd (ground arith)

Ending-append :
    (opts : AttachOptions) (keys more : List ℕ) (o : Option AttachOutcome)
    → first_special opts.detach_char opts.suspend_char keys ≡ none
    → Ending opts more o
    → Ending opts (keys ++ more) o
Ending-append opts keys more o quiet end = go end
  where
    same :
        first_special opts.detach_char opts.suspend_char (keys ++ more)
        ≡ first_special opts.detach_char opts.suspend_char more
    same = (first_special-append opts.detach_char opts.suspend_char keys more quiet).0

    go : {o : Option AttachOutcome} → Ending opts more o → Ending opts (keys ++ more) o
    go (running p) = running (same ∙ p)
    go (hung_up p) = hung_up (same ∙ p)
    go (ran_dry p) = ran_dry (same ∙ p)
    go (by_key o p) = by_key o (same ∙ p)

module _ (b : BytesCrate) (opts : AttachOptions) where
  pub Sent-stop :
      (h : Happening) (hs : List Happening) (link : Link)
      (out : Result IoError (Option AttachOutcome) × Link) (r : Reply b opts h link)
      → out ≡ (ok r.outcome, after link r.messages (shown_of h))
      → r.outcome ≢ none
      → Sent opts (h ∷ hs) link out
  Sent-stop h hs link out r e stopped = record {
    used = h ∷ [];
    unused = hs;
    split = refl;
    outcome = r.outcome;
    messages = r.messages;
    is_ok = e ∙ ap (λ l. (ok r.outcome, after link r.messages l)) (sym (append-nil (shown_of h)));
    fit = r.fit;
    ending = subst (λ l. Ending opts l r.outcome) (sym (append-nil (typed_of h))) r.ending;
    all_used = inr stopped;
    pushes =
        r.pushes
        ∙ ap (before_special opts.detach_char opts.suspend_char) (sym (append-nil (typed_of h)));
    sizes = r.sizes ∙ sym (append-nil (sized_of h));
  }

  pub Sent-cons :
      (h : Happening) (hs : List Happening) (link : Link)
      (out : Result IoError (Option AttachOutcome) × Link) (r : Reply b opts h link)
      → r.outcome ≡ none
      → Sent opts hs (after link r.messages (shown_of h)) out
      → Sent opts (h ∷ hs) link out
  Sent-cons h hs link out r on rest =
      let quiet = still_running opts (typed_of h) r.outcome r.ending on in
      record {
        used = h ∷ rest.used;
        unused = rest.unused;
        split = ap (λ l. h ∷ l) rest.split;
        outcome = rest.outcome;
        messages = r.messages ++ rest.messages;
        is_ok =
            rest.is_ok
            ∙ ap₂ (λ w t. (ok rest.outcome, record { wire = w; screen = t }))
                (append_assoc link.wire (frames r.messages) (frames rest.messages)
                  ∙ ap (λ l. link.wire ++ l) (sym (frames-append r.messages rest.messages)))
                (append_assoc link.screen (shown_of h) (shown_all rest.used));
        fit = AllFit-append 4096 r.messages rest.messages r.fit rest.fit;
        ending =
            Ending-append opts (typed_of h) (typed_all rest.used) rest.outcome quiet rest.ending;
        all_used = rest.all_used;
        pushes =
            pushes_of-append r.messages rest.messages
            ∙ ap₂ ◌++◌
                (r.pushes
                  ∙ before_special-whole opts.detach_char opts.suspend_char (typed_of h) quiet)
                rest.pushes
            ∙ sym
                (first_special-append opts.detach_char opts.suspend_char (typed_of h)
                  (typed_all rest.used) quiet).1;
        sizes = asked_of-append r.messages rest.messages ∙ ap₂ ◌++◌ r.sizes rest.sizes;
      }
