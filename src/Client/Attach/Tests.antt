-- ===== src/Client/Attach/Tests.antt =====
-- An attach with the default detach character, over buffers that are lists.
use hytch.Common.{
  ◌≡◌, refl, ap, ◌∙◌, some, none, Option, ◌⊎◌, List, [], ◌∷◌, ◌++◌, false, append-nil, map, arith,
}
use hytch.Common.Results.{ok}
use hytch.Proto.ListBytes.{list_bytes}
use hytch.Proto.Message.{RedrawMethod, Message}
use hytch.Proto.Codec.{default_max_frame_len}
use hytch.Proto.Codec.Stream.{receive}
use hytch.Client.Attach.{
  AttachOptions, AttachOutcome, session_ended, input_closed, detached, find_special_char, find_from,
  special, is_char, run, run_loop, on_event, send, done, if_running, >>=-ok,
}
use hytch.Client.Attach.Happening.{
  Happening, pushes_of, typed, shown, size, event_of, after, handshake, new_link,
}
use hytch.Client.Attach.Sent.{Sent, typed_all}
use hytch.Client.Attach.Special.{UpTo}
use hytch.Client.Attach.Reply.{send_lem}
use hytch.Client.Attach.Received.{attach_received, run_lem}

abbrev pub options : AttachOptions
options = record {
  detach_char = some 0x1c;
  suspend_char = none;
  redraw_method = RedrawMethod.winch;
  rows = 24;
  cols = 80;
  skip_ring = false;
}

found : find_special_char (b'l' ∷ b's' ∷ 0x1c ∷ 0x1c ∷ []) (some 0x1c) none ≡ some (2, detached)
unfolding find_from special is_char
found = refl

-- `ls` is typed, its output is shown, and then an `x` and the detach character are typed.
abbrev happenings : List Happening
happenings =
    typed (b'l' ∷ b's' ∷ [])
    ∷ shown (b'a' ∷ b'b' ∷ [])
    ∷ size 30 100
    ∷ typed (b'x' ∷ 0x1c ∷ b'y' ∷ [])
    ∷ typed (b'z' ∷ [])
    ∷ []

attach_received_example :
    (sent : Sent options happenings
      (after new_link (handshake options) [])
      (run list_bytes options none none (map event_of happenings) new_link))
    × (receive list_bytes default_max_frame_len []
          ((run list_bytes options none none (map event_of happenings) new_link).1.wire ∷ [])
        ≡ (handshake options ++ sent.messages, none, []))
    × (key : Option AttachOutcome) × UpTo options.detach_char options.suspend_char
        (typed_all sent.used)
        (pushes_of sent.messages)
        key
    × ((sent.outcome ≡ key)
        ⊎ ((key ≡ none)
            × ((sent.outcome ≡ some session_ended) ⊎ (sent.outcome ≡ some input_closed))))
attach_received_example =
    attach_received list_bytes options happenings
      ((run list_bytes options none none (map event_of happenings) new_link).1.wire ∷ [])
      (omega arith, omega arith)
      (omega arith, (tt, ((omega arith, omega arith), (omega arith, (omega arith, tt)))))
      (append-nil _)

-- A client that has read two bytes goes on.
abbrev pub read_so_far : List Happening
read_so_far = shown (2 ∷ 3 ∷ []) ∷ []

pub read-goes_on :
    (run list_bytes options none none (map event_of read_so_far) new_link).0 ≡ ok none
unfolding run_loop on_event
read-goes_on =
    ap (λ o. o.0) (run_lem list_bytes options (map event_of read_so_far) (omega arith, omega arith))

-- And one that is told of a new size.
abbrev pub sized_once : List Happening
sized_once = size 30 100 ∷ []

pub size-goes_on : (run list_bytes options none none (map event_of sized_once) new_link).0 ≡ ok none
unfolding run_loop on_event
size-goes_on =
    let start = after new_link (handshake options) [] in
    let told = send_lem list_bytes (Message.winch 30 100) start (omega arith, omega arith) in
    ap (λ o. o.0) (run_lem list_bytes options (map event_of sized_once) (omega arith, omega arith))
    ∙ ap (λ o. o.0)
        (>>=-ok (on_event list_bytes options (event_of (size 30 100)))
          (λ o. if_running list_bytes o (run_loop list_bytes options [])) start _ none
          (>>=-ok (send list_bytes none (Message.winch 30 100)) (λ _. done none) start _ tt told))
