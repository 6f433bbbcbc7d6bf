-- ===== src/Client/Attach.antt =====
-- crates/client/src/attach.rs: the attach loop, from the terminal's input and the connection's output.
pub mod Special
pub mod Happening
pub mod Messages
pub mod Reply
pub mod Sent
pub mod Received
pub mod Tests
use hytch.Common.{
  ℕ, ◌+◌, ◌≡◌, arith, Option, none, some, List, [], ◌∷◌, ◌++◌, Bool, true, false, take, ltb, ◌==◌,
  if◌then◌else◌,
}
use hytch.Common.Results.{Result, ok, err}
use hytch.Proto.Buffer.{BytesCrate}
use hytch.Proto.Message.{RedrawMethod, Message}
use hytch.Proto.Codec.{InvalidData, encode}

pub record AttachOptions : Type 0 where
  pub detach_char : Option ℕ
  pub suspend_char : Option ℕ
  pub redraw_method : RedrawMethod
  pub rows : ℕ
  pub cols : ℕ
  pub skip_ring : Bool

pub data AttachOutcome : Type 0 where
  detached suspended session_ended input_closed : AttachOutcome

-- `Some(b) == c`.
pub is_char : ℕ → Option ℕ → Bool
is_char b none = false
is_char b (some x) = b == x

pub special : Option ℕ → Option ℕ → ℕ → Option AttachOutcome
special detach_char suspend_char b =
    if is_char b suspend_char
    then some suspended
    else if is_char b detach_char
    then some detached
    else none

-- `find_map` over the bytes, of which the first stands at place `i`.
pub find_from : Option ℕ → Option ℕ → ℕ → List ℕ → Option (ℕ × AttachOutcome)
find_from detach_char suspend_char i [] = none
find_from detach_char suspend_char i (b ∷ bs) = elim (special detach_char suspend_char b) [
  | some outcome ↦ some (i, outcome)
  | none ↦ find_from detach_char suspend_char (i + 1) bs
]

abbrev pub find_special_char : List ℕ → Option ℕ → Option ℕ → Option (ℕ × AttachOutcome)
find_special_char chunk detach_char suspend_char = find_from detach_char suspend_char 0 chunk

pub data IoError : Type 0 where
  invalid_data : InvalidData → IoError
  failed : IoError

-- What the daemon was sent, and what was written to the terminal.
pub record Link : Type 0 where
  pub wire : List ℕ
  pub screen : List ℕ

abbrev pub M : Type 0 → Type 0
M A = Link → Result IoError A × Link

infixl 5 ◌>>=◌ ◌>>◌
abbrev pub ◌>>=◌ : {A B : Type 0} → M A → (A → M B) → M B
◌>>=◌ m f link = let (r, link') = m link in elim r [ ok a ↦ f a link' | err e ↦ (err e, link') ]

abbrev pub ◌>>◌ : {B : Type 0} → M (Unit {0}) → M B → M B
m >> k = m >>= λ _. k

-- A call that succeeds hands its result and its link to the next one.
pub >>=-ok :
    {A B : Type 0} (m : M A) (k : A → M B) (link link' : Link) (a : A)
    → m link ≡ (ok a, link')
    → (m >>= k) link ≡ k a link'
>>=-ok m k link link' a e = ground arith

abbrev pub fault : {A : Type 0} → IoError → M A
fault e link = (err e, link)

abbrev pub done : {A : Type 0} → A → M A
done a link = (ok a, link)

-- `write_all`: `none` if all is written, else how much is before the error.
abbrev pub write_wire : Option ℕ → List ℕ → M (Unit {0})
write_wire none bytes link = (ok tt, record link { wire = link.wire ++ bytes })
write_wire (some k) bytes link = (err failed, record link { wire = link.wire ++ take k bytes })

abbrev pub write_screen : Option ℕ → List ℕ → M (Unit {0})
write_screen none bytes link = (ok tt, record link { screen = link.screen ++ bytes })
write_screen (some k) bytes link =
    (err failed, record link { screen = link.screen ++ take k bytes })

abbrev pub flush : Bool → M (Unit {0})
flush true = done tt
flush false = fault failed

-- What a branch of the loop's `select!` delivers, with what the writes that answer it give.
pub data AttachEvent : Type 0 where
  input : Result IoError (List ℕ) → Option ℕ → Option ℕ → AttachEvent
  output : Result IoError (List ℕ) → Option ℕ → Bool → AttachEvent
  resized : Option (ℕ × ℕ) → Option ℕ → AttachEvent

module _ (b : BytesCrate) where
  pub send : Option ℕ → Message → M (Unit {0})
  send writing msg link =
      let (r, buf) = encode b msg [] in
      elim r [ ok u ↦ write_wire writing buf link | err e ↦ (err (invalid_data e), link) ]

  abbrev pub send_if : Bool → Option ℕ → Message → M (Unit {0})
  send_if true writing msg = send writing msg
  send_if false writing msg = done tt

  abbrev pub is_suspended : AttachOutcome → Bool
  is_suspended suspended = true
  is_suspended _ = false

  pub on_special : Option ℕ → Option ℕ → List ℕ → ℕ → AttachOutcome → M (Option AttachOutcome)
  on_special first second chunk pos outcome = do
    send_if (ltb 0 pos) first (Message.push (take pos chunk))
    send_if (is_suspended outcome) second Message.detach
    done (some outcome)

  pub on_chunk : AttachOptions → Option ℕ → Option ℕ → List ℕ → M (Option AttachOutcome)
  on_chunk opts first second chunk =
      elim (find_special_char chunk opts.detach_char opts.suspend_char) [
        | some (pos, outcome) ↦ on_special first second chunk pos outcome
        | none ↦ do send first (Message.push chunk); done none
      ]

  -- One round of the loop, with the outcome if it returns.
  pub on_event : AttachOptions → AttachEvent → M (Option AttachOutcome)
  on_event opts (input (err e) first second) = fault e
  on_event opts (input (ok []) first second) = done (some input_closed)
  on_event opts (input (ok (c ∷ cs)) first second) = on_chunk opts first second (c ∷ cs)
  on_event opts (output (err e) writing flushed) = fault e
  on_event opts (output (ok []) writing flushed) = done (some session_ended)
  on_event opts (output (ok (c ∷ cs)) writing flushed) = do
    write_screen writing (c ∷ cs)
    flush flushed
    done none
  on_event opts (resized (some (rows, cols)) writing) = do
    send writing (Message.winch rows cols)
    done none
  on_event opts (resized none writing) = done none

  abbrev pub if_running : Option AttachOutcome → M (Option AttachOutcome) → M (Option AttachOutcome)
  if_running (some outcome) rest = done (some outcome)
  if_running none rest = rest

  -- The loop, for as many events as are given.
  pub run_loop : AttachOptions → List AttachEvent → M (Option AttachOutcome)
  run_loop opts [] = done none
  run_loop opts (e ∷ es) = do r ← on_event opts e; if_running r (run_loop opts es)

  pub run : AttachOptions → Option ℕ → Option ℕ → List AttachEvent → M (Option AttachOutcome)
  run opts first second es = do
    send first (Message.attach opts.skip_ring)
    send second (Message.redraw opts.redraw_method opts.rows opts.cols)
    run_loop opts es
