-- ===== src/Client/Attach/Reply.antt =====
-- What the attach loop answers to one event: which messages it sends, and whether it returns.
use hytch.Common.{
  ℕ, zero, suc, ◌<◌, ◌≤◌, ◌^◌, ◌≡◌, ◌≢◌, refl, sym, ap, ap₂, ◌∙◌, inl, inr, Option, none, some,
  List, [], ◌∷◌, ◌++◌, Bool, true, false, if◌then◌else◌, Option-cases, length, length-take, take,
  ltb, append-nil, append_assoc, arith,
}
use hytch.Common.Results.{ok}
use hytch.Proto.Buffer.{BytesCrate}
use hytch.Proto.Message.{Message, IsMessage}
use hytch.Proto.Codec.Frame.{frame, payload_of, encode-frame}
use hytch.Proto.Codec.Stream.{frames, AllFit}
use hytch.Client.Attach.{
  AttachOptions, AttachOutcome, session_ended, input_closed, Link, >>=-ok, ◌>>◌, done,
  find_special_char, send, send_if, is_suspended, on_special, on_chunk, on_event,
}
use hytch.Client.Attach.Special.{first_special, before_special, find_from-none, find_from-some}
use hytch.Client.Attach.Happening.{
  Happening, typed, shown, size, event_of, typed_of, shown_of, pushes_of, asked_of, sized_of,
  InRange, Ending, running, hung_up, ran_dry, by_key, after,
}
use hytch.Client.Attach.Messages.{frames-append, AllFit-append}

only_if : Bool → Message → List Message
only_if flag m = if flag then m ∷ [] else []

module _ (b : BytesCrate) where
  pub send_lem :
      (m : Message) (link : Link)
      → IsMessage m
      → send b none m link ≡ (ok tt, record link { wire = link.wire ++ frame m })
  unfolding send
  send_lem m link h = let e = encode-frame b m [] h in rw (send, ap (λ o. o.0) e, ap (λ o. o.1) e)

  -- The answer to one happening.
  pub record Reply (opts : AttachOptions) (h : Happening) (link : Link) : Type 0 where
    pub outcome : Option AttachOutcome
    pub messages : List Message
    pub is_ok : on_event b opts (event_of h) link ≡ (ok outcome, after link messages (shown_of h))
    pub fit : AllFit 4096 messages
    pub ending : Ending opts (typed_of h) outcome
    pub pushes : pushes_of messages ≡ before_special opts.detach_char opts.suspend_char (typed_of h)
    pub sizes : asked_of messages ≡ sized_of h

  send_if_lem :
      (flag : Bool) (m : Message) (link : Link)
      → IsMessage m
      → send_if b flag none m link ≡ (ok tt, after link (only_if flag m) [])
  unfolding only_if frames
  send_if_lem true m link h =
      send_lem m link h
      ∙ ap₂ (λ w t. (ok tt, record { wire = link.wire ++ w; screen = t }))
          (sym (append-nil (frame m))) (sym (append-nil link.screen))
  send_if_lem false m link h =
      ap₂ (λ w t. (ok tt, record { wire = w; screen = t })) (sym (append-nil link.wire))
        (sym (append-nil link.screen))

  -- The messages of a chunk with a special character.
  last_messages : List ℕ → ℕ → AttachOutcome → List Message
  last_messages chunk pos outcome =
      only_if (ltb 0 pos) (Message.push (take pos chunk))
      ++ only_if (is_suspended b outcome) Message.detach

  on_special_lem :
      (chunk : List ℕ) (pos : ℕ) (outcome : AttachOutcome) (link : Link)
      → length (take pos chunk) < 2 ^ 32
      → on_special b none none chunk pos outcome link
        ≡ (ok (some outcome), after link (last_messages chunk pos outcome) [])
  unfolding on_special last_messages
  on_special_lem chunk pos outcome link h =
      let first = only_if (ltb 0 pos) (Message.push (take pos chunk)) in
      let second = only_if (is_suspended b outcome) Message.detach in
      >>=-ok (send_if b (ltb 0 pos) none (Message.push (take pos chunk)))
        (λ _. send_if b (is_suspended b outcome) none Message.detach >> done (some outcome)) link
        (after link first []) tt (send_if_lem (ltb 0 pos) (Message.push (take pos chunk)) link h)
      ∙ >>=-ok (send_if b (is_suspended b outcome) none Message.detach) (λ _. done (some outcome))
          (after link first []) (after (after link first []) second []) tt
          (send_if_lem (is_suspended b outcome) Message.detach (after link first []) tt)
      ∙ ap₂ (λ w t. (ok (some outcome), record { wire = w; screen = t }))
          (append_assoc link.wire (frames first) (frames second)
            ∙ ap (λ l. link.wire ++ l) (sym (frames-append first second)))
          (append-nil (link.screen ++ []))

  only_if-AllFit :
      (flag : Bool) (m : Message)
      → IsMessage m
      → length (payload_of m) ≤ 4096
      → AllFit 4096 (only_if flag m)
  unfolding only_if
  only_if-AllFit true m h fits = (h, fits, tt)
  only_if-AllFit false m h fits = tt

  last_messages-AllFit :
      (chunk : List ℕ) (pos : ℕ) (outcome : AttachOutcome)
      → length (take pos chunk) ≤ 4096
      → AllFit 4096 (last_messages chunk pos outcome)
  unfolding last_messages payload_of
  last_messages-AllFit chunk pos outcome h =
      AllFit-append 4096 (only_if (ltb 0 pos) (Message.push (take pos chunk)))
        (only_if (is_suspended b outcome) Message.detach)
        (only_if-AllFit (ltb 0 pos) _ (omega arith) h)
        (only_if-AllFit (is_suspended b outcome) Message.detach tt (omega arith))

  quiet_detach : (flag : Bool) → pushes_of (only_if flag Message.detach) ≡ []
  unfolding only_if
  quiet_detach true = refl
  quiet_detach false = refl

  pushes_of-last_messages :
      (chunk : List ℕ) (pos : ℕ) (outcome : AttachOutcome)
      → pushes_of (last_messages chunk pos outcome) ≡ take pos chunk
  unfolding last_messages only_if
  pushes_of-last_messages chunk zero outcome = quiet_detach (is_suspended b outcome)
  pushes_of-last_messages chunk (suc n) outcome =
      let positive : ltb 0 (suc n) ≡ true = ground arith in
      ap
        (λ x. pushes_of (
          only_if x (Message.push (take (suc n) chunk))
          ++ only_if (is_suspended b outcome) Message.detach))
        positive
      ∙ ap (λ l. take (suc n) chunk ++ l) (quiet_detach (is_suspended b outcome))
      ∙ append-nil (take (suc n) chunk)

  asked_of-last_messages :
      (chunk : List ℕ) (pos : ℕ) (outcome : AttachOutcome)
      → asked_of (last_messages chunk pos outcome) ≡ []
  unfolding last_messages only_if
  asked_of-last_messages chunk pos outcome = go (ltb 0 pos) (is_suspended b outcome)
    where
      go :
          (x y : Bool)
          → asked_of (only_if x (Message.push (take pos chunk)) ++ only_if y Message.detach) ≡ []
      go true true = refl
      go true false = refl
      go false true = refl
      go false false = refl

  -- What one chunk of input leads to.
  Reply-special :
      (opts : AttachOptions) (chunk : List ℕ) (link : Link) (pos : ℕ) (outcome : AttachOutcome)
      → length chunk ≤ 4096
      → chunk ≢ []
      → find_special_char chunk opts.detach_char opts.suspend_char ≡ some (pos, outcome)
      → Reply opts (typed chunk) link
  unfolding on_event on_chunk
  Reply-special opts [] link pos outcome small some_key e = absurd (some_key refl)
  Reply-special opts (c ∷ cs) link pos outcome small some_key e =
      let (j, same, inside, key, keys) =
        find_from-some opts.detach_char opts.suspend_char 0 (c ∷ cs) pos outcome e in
      let at_pos : j ≡ pos = omega arith in
      let fits : length (take pos (c ∷ cs)) ≤ 4096 = omega (arith, length-take pos (c ∷ cs)) in
      record {
        outcome = some outcome;
        messages = last_messages (c ∷ cs) pos outcome;
        is_ok =
            let answer = on_special_lem (c ∷ cs) pos outcome link (omega arith) in
            let to_special : on_chunk b opts none none (c ∷ cs) link
                ≡ on_special b none none (c ∷ cs) pos outcome link =
              ground arith in
            to_special ∙ answer;
        fit = last_messages-AllFit (c ∷ cs) pos outcome fits;
        ending = by_key outcome key;
        pushes =
            pushes_of-last_messages (c ∷ cs) pos outcome
            ∙ ap (λ k. take k (c ∷ cs)) (sym at_pos)
            ∙ sym keys;
        sizes = asked_of-last_messages (c ∷ cs) pos outcome;
      }

  Reply-plain :
      (opts : AttachOptions) (chunk : List ℕ) (link : Link)
      → length chunk ≤ 4096
      → chunk ≢ []
      → find_special_char chunk opts.detach_char opts.suspend_char ≡ none
      → Reply opts (typed chunk) link
  unfolding on_event on_chunk frames payload_of frame only_if
  Reply-plain opts [] link small some_key e = absurd (some_key refl)
  Reply-plain opts (c ∷ cs) link small some_key e =
      let (none_here, keys) = find_from-none opts.detach_char opts.suspend_char 0 (c ∷ cs) e in
      record {
        outcome = none;
        messages = Message.push (c ∷ cs) ∷ [];
        is_ok =
            let to_send : on_chunk b opts none none (c ∷ cs) link
                ≡ (send b none (Message.push (c ∷ cs)) >> done none) link =
              ground arith in
            to_send
            ∙ >>=-ok (send b none (Message.push (c ∷ cs))) (λ _. done none) link _ tt
                (send_if_lem true (Message.push (c ∷ cs)) link (omega arith));
        fit = (omega arith, small, tt);
        ending = running none_here;
        pushes = append-nil (c ∷ cs) ∙ sym keys;
        sizes = refl;
      }

  pub on_event-Reply :
      (opts : AttachOptions) (h : Happening) (link : Link) → InRange h → Reply opts h link
  unfolding on_event frames payload_of frame only_if first_special before_special
  on_event-Reply opts (typed []) link h = record {
    outcome = some input_closed;
    messages = [];
    is_ok =
        ap₂ (λ w t. (ok (some input_closed), record { wire = w; screen = t }))
          (sym (append-nil link.wire)) (sym (append-nil link.screen));
    fit = tt;
    ending = ran_dry refl;
    pushes = refl;
    sizes = refl;
  }
  on_event-Reply opts (typed (c ∷ cs)) link h =
      elim (Option-cases (find_special_char (c ∷ cs) opts.detach_char opts.suspend_char)) [
        | inl e ↦ Reply-plain opts (c ∷ cs) link h (λ x. cc) e
        | inr ((pos, outcome), e) ↦ Reply-special opts (c ∷ cs) link pos outcome h (λ x. cc) e
      ]
  on_event-Reply opts (shown []) link h = record {
    outcome = some session_ended;
    messages = [];
    is_ok =
        ap₂ (λ w t. (ok (some session_ended), record { wire = w; screen = t }))
          (sym (append-nil link.wire)) (sym (append-nil link.screen));
    fit = tt;
    ending = hung_up refl;
    pushes = refl;
    sizes = refl;
  }
  on_event-Reply opts (shown (c ∷ cs)) link h = record {
    outcome = none;
    messages = [];
    is_ok =
        ap (λ w. (ok none, record { wire = w; screen = link.screen ++ (c ∷ cs) }))
          (sym (append-nil link.wire));
    fit = tt;
    ending = running refl;
    pushes = refl;
    sizes = refl;
  }
  on_event-Reply opts (size rows cols) link h = record {
    outcome = none;
    messages = Message.winch rows cols ∷ [];
    is_ok =
        >>=-ok (send b none (Message.winch rows cols)) (λ _. done none) link _ tt
          (send_if_lem true (Message.winch rows cols) link h);
    fit = (h, omega arith, tt);
    ending = running refl;
    pushes = refl;
    sizes = refl;
  }
