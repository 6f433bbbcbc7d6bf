-- ===== src/Client/Attach/Happening.antt =====
-- What can happen to an attached client, and why its loop ends.
use hytch.Common.{ℕ, ◌<◌, ◌≤◌, ◌^◌, ◌≡◌, Option, none, some, List, [], ◌∷◌, ◌++◌, true, length}
use hytch.Common.Results.{ok}
use hytch.Proto.Message.{RedrawMethod, Message}
use hytch.Proto.Codec.Stream.{frames}
use hytch.Client.Attach.{
  AttachOptions, AttachOutcome, session_ended, input_closed, Link, AttachEvent, input, output,
  resized,
}
use hytch.Client.Attach.Special.{first_special}

-- What happens to an attached client, when no call fails.
pub data Happening : Type 0 where
  typed : List ℕ → Happening
  shown : List ℕ → Happening
  size : ℕ → ℕ → Happening

abbrev pub event_of : Happening → AttachEvent
event_of (typed chunk) = input (ok chunk) none none
event_of (shown chunk) = output (ok chunk) none true
event_of (size rows cols) = resized (some (rows, cols)) none

abbrev pub typed_of : Happening → List ℕ
typed_of (typed chunk) = chunk
typed_of _ = []

abbrev pub shown_of : Happening → List ℕ
shown_of (shown chunk) = chunk
shown_of _ = []

-- The bytes that a client hands on to the child.
abbrev pub pushes_of : List Message → List ℕ
pushes_of [] = []
pushes_of (Message.push payload ∷ ms) = payload ++ pushes_of ms
pushes_of (_ ∷ ms) = pushes_of ms

-- What a client asks of the daemon besides: sizes for the pty, and signals for the child.
abbrev pub asked_of : List Message → List Message
asked_of [] = []
asked_of (Message.winch rows cols ∷ ms) = Message.winch rows cols ∷ asked_of ms
asked_of (Message.redraw RedrawMethod.none rows cols ∷ ms) = asked_of ms
asked_of (Message.redraw _ rows cols ∷ ms) = Message.winch rows cols ∷ asked_of ms
asked_of (Message.kill signal ∷ ms) = Message.kill signal ∷ asked_of ms
asked_of (_ ∷ ms) = asked_of ms

abbrev pub sized_of : Happening → List Message
sized_of (size rows cols) = Message.winch rows cols ∷ []
sized_of _ = []

-- A read gives at most the 4096 bytes of its buffer; a size is two 16-bit numbers.
abbrev pub InRange : Happening → Type 0
InRange (typed chunk) = length chunk ≤ 4096
InRange (shown chunk) = Unit
InRange (size rows cols) = (rows < 2 ^ 16) × (cols < 2 ^ 16)

abbrev pub AllInRange : List Happening → Type 0
AllInRange [] = Unit
AllInRange (h ∷ hs) = InRange h × AllInRange hs

-- Why the loop ended, given what was typed: it has not, the connection or the input ended, or a
-- special character was typed.
pub data Ending (opts : AttachOptions) (keys : List ℕ) : Option AttachOutcome → Type 0 where
  running : first_special opts.detach_char opts.suspend_char keys ≡ none → Ending opts keys none
  hung_up :
      first_special opts.detach_char opts.suspend_char keys ≡ none
      → Ending opts keys (some session_ended)
  ran_dry :
      first_special opts.detach_char opts.suspend_char keys ≡ none
      → Ending opts keys (some input_closed)
  by_key :
      (o : AttachOutcome)
      → first_special opts.detach_char opts.suspend_char keys ≡ some o
      → Ending opts keys (some o)

-- The link after the messages `ms` and the output `bytes`.
abbrev pub after : Link → List Message → List ℕ → Link
after link ms bytes = record { wire = link.wire ++ frames ms; screen = link.screen ++ bytes }

-- The connection's first messages.
abbrev pub handshake : AttachOptions → List Message
handshake opts =
    Message.attach opts.skip_ring ∷ Message.redraw opts.redraw_method opts.rows opts.cols ∷ []

abbrev pub new_link : Link
new_link = record { wire = []; screen = [] }
