-- ===== src/Proto/Codec/Stream.antt =====
-- A connection's byte stream, in whatever pieces it arrives: after each read, messages are decoded
-- from the buffer until `decode` asks for more or fails, which is how a framed reader drives it.
use hytch.Common.{
  ℕ, zero, suc, ◌≤◌, ◌<◌, ◌≡◌, refl, ◌∙◌, ap, sym, ◌≢◌, ◌⊎◌, inl, inr, Option, none, some, List, [],
  ◌∷◌, ◌++◌, length, arith, append_assoc, append-nil, concat,
}
use hytch.Common.Results.{ok, err}
use hytch.Proto.Buffer.{BytesCrate}
use hytch.Proto.Message.{Message, IsMessage}
use hytch.Proto.Codec.{InvalidData, decode}
use hytch.Proto.Codec.Frame.{payload_of, frame}
use hytch.Proto.Codec.RoundTrip.{decode-frame}
use hytch.Proto.Codec.Framing.{decode-prefix, decode_takes, decode_short}

-- The messages so far, the error that ended the stream, and the buffer.
abbrev pub Received : Type 0
Received = List Message × Option InvalidData × List ℕ

abbrev pub prepend : Message → Received → Received
prepend m (ms, e, buffer) = (m ∷ ms, e, buffer)

abbrev pub prepend_all : List Message → Received → Received
prepend_all ms (ms', e, buffer) = (ms ++ ms', e, buffer)

-- The bytes that a client sends for a list of messages.
unfoldable pub frames : List Message → List ℕ
frames [] = []
frames (m ∷ ms) = frame m ++ frames ms

-- Every message is one that the codec's limit admits.
abbrev pub AllFit : ℕ → List Message → Type 0
AllFit max [] = Unit
AllFit max (m ∷ ms) = IsMessage m × (length (payload_of m) ≤ max) × AllFit max ms

cons-ne-nil {ℓ} : {A : Type ℓ} {x : A} {xs : List A} → x ∷ xs ≢ []
cons-ne-nil e = cc

-- Two splits of one list: the second cut lies in the first part, or behind it.
append_split {ℓ} :
    {A : Type ℓ} (xs ys zs ws : List A)
    → xs ++ ys ≡ zs ++ ws
    → ((t : List A) × (xs ≡ zs ++ t) × (t ++ ys ≡ ws))
      ⊎ ((y : A) × (t : List A) × (zs ≡ xs ++ (y ∷ t)))
append_split xs ys [] ws e = inl (xs, refl, e)
append_split [] ys (z ∷ zs) ws e = inr (z, zs, refl)
append_split (x ∷ xs) ys (z ∷ zs) ws e = elim (append_split xs ys zs ws (cc)) [
  | inl (t, p, q) ↦ inl (t, cc, q)
  | inr (y, t, p) ↦ inr (y, t, cc)
]

module _ (b : BytesCrate) (max : ℕ) where
  -- Decoding as far as the buffer goes. Each message takes bytes, so `length buffer` rounds do.
  pub drain : ℕ → List ℕ → Received
  drain zero buffer = ([], none, buffer)
  drain (suc fuel) buffer =
      let (r, rest) = decode b max buffer in
      elim r [
        | ok none ↦ ([], none, rest)
        | ok (some m) ↦ prepend m (drain fuel rest)
        | err e ↦ ([], some e, rest)
      ]

  -- One read after the other: each adds a chunk to the buffer.
  pub receive : List ℕ → List (List ℕ) → Received
  receive buffer [] = ([], none, buffer)
  receive buffer (c ∷ cs) =
      let (ms, e, rest) = drain (suc (length (buffer ++ c))) (buffer ++ c) in
      elim e [ none ↦ prepend_all ms (receive rest cs) | some x ↦ (ms, some x, rest) ]

  -- What draining a buffer has done that starts the frames of `ms`, with `more` still to come.
  record Drained (ms : List Message) (more : List ℕ) (out : Received) : Type 0 where
    left : List Message
    split : ms ≡ out.0 ++ left
    no_error : out.1 ≡ none
    rest_frames : out.2 ++ more ≡ frames left
    fit : AllFit max left
    waits : decode b max out.2 ≡ (ok none, out.2)

  Drained-prepend :
      (m : Message) (ms : List Message) (more : List ℕ) (out : Received)
      → Drained ms more out
      → Drained (m ∷ ms) more (prepend m out)
  Drained-prepend m ms more out d = record {
    left = d.left;
    split = ap (λ l. m ∷ l) d.split;
    no_error = d.no_error;
    rest_frames = d.rest_frames;
    fit = d.fit;
    waits = d.waits;
  }

  drain_none :
      (fuel : ℕ) (buffer rest : List ℕ)
      → decode b max buffer ≡ (ok none, rest)
      → drain (suc fuel) buffer ≡ ([], none, rest)
  unfolding drain
  drain_none fuel buffer rest w = ground arith

  drain_waits :
      (fuel : ℕ) (buffer more : List ℕ) (ms : List Message)
      → AllFit max ms
      → buffer ++ more ≡ frames ms
      → decode b max buffer ≡ (ok none, buffer)
      → Drained ms more (drain (suc fuel) buffer)
  drain_waits fuel buffer more ms fit e w =
      rw (drain_none fuel buffer buffer w)
        (record { left = ms; split = refl; no_error = refl; rest_frames = e; fit = fit; waits = w })

  drain_step :
      (fuel : ℕ) (buffer rest : List ℕ) (m : Message)
      → decode b max buffer ≡ (ok (some m), rest)
      → drain (suc fuel) buffer ≡ prepend m (drain fuel rest)
  unfolding drain
  drain_step fuel buffer rest m e = ground arith

  drain-frames :
      (fuel : ℕ) (buffer more : List ℕ) (ms : List Message)
      → length buffer < fuel
      → AllFit max ms
      → buffer ++ more ≡ frames ms
      → Drained ms more (drain fuel buffer)
  unfolding frames
  drain-frames zero buffer more ms lt fit e = absurd (omega arith)
  drain-frames (suc fuel) [] more ms lt fit e =
      drain_waits fuel [] more ms fit e (decode_short b max [] (omega arith))
  drain-frames (suc fuel) (x ∷ xs) more [] lt fit e = absurd (cons-ne-nil e)
  drain-frames (suc fuel) (x ∷ xs) more (m ∷ ms) lt fit e =
      elim (append_split (x ∷ xs) more (frame m) (frames ms) e) [
        | inl (rest, buf, e') ↦
            let got : decode b max (x ∷ xs) ≡ (ok (some m), rest) =
              rw buf (decode-frame b max m rest fit.0 fit.1) in
            rw (drain_step fuel (x ∷ xs) rest m got) (
              Drained-prepend m ms more (drain fuel rest) (
                drain-frames fuel rest more ms
                  (omega (arith, decode_takes b max (x ∷ xs) rest m got)) fit.2 e'))
        | inr (y, back, e') ↦
            drain_waits fuel (x ∷ xs) more (m ∷ ms) fit e
              (decode-prefix b max m (x ∷ xs) back y fit.0 fit.1 e')
      ]

  nothing_left :
      (buffer : List ℕ) (ms : List Message)
      → AllFit max ms
      → buffer ≡ frames ms
      → decode b max buffer ≡ (ok none, buffer)
      → (ms ≡ []) × (buffer ≡ [])
  unfolding frames
  nothing_left buffer [] fit e w = (refl, e)
  nothing_left buffer (m ∷ ms) fit e w = cc (w, decode-frame b max m (frames ms) fit.0 fit.1)

  receive_from :
      (chunks : List (List ℕ)) (buffer : List ℕ) (ms : List Message)
      → AllFit max ms
      → buffer ++ concat chunks ≡ frames ms
      → decode b max buffer ≡ (ok none, buffer)
      → receive buffer chunks ≡ (ms, none, [])
  unfolding receive
  receive_from [] buffer ms fit e w =
      let (no_ms, no_bytes) = nothing_left buffer ms fit (sym (append-nil buffer) ∙ e) w in
      cc (no_ms, no_bytes)
  receive_from (c ∷ cs) buffer ms fit e w =
      let d =
        drain-frames (suc (length (buffer ++ c))) (buffer ++ c) (concat cs) ms (omega arith) fit
          (append_assoc buffer c (concat cs) ∙ e) in
      rw (receive, d.no_error, receive_from cs _ d.left d.fit d.rest_frames d.waits)
        (ap (λ l. (l, none, [])) (sym d.split))

  -- However the bytes of a list of messages are cut into reads, the messages that come out are those
  -- that were sent, in order, with no error and nothing left in the buffer. Every message's fields
  -- are in range and its payload is within the codec's limit.
  pub receive-frames :
      (chunks : List (List ℕ)) (ms : List Message)
      → AllFit max ms
      → concat chunks ≡ frames ms
      → receive [] chunks ≡ (ms, none, [])
  receive-frames chunks ms fit e =
      receive_from chunks [] ms fit e (decode_short b max [] (omega arith))
