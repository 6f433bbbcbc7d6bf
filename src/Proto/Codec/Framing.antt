-- ===== src/Proto/Codec/Framing.antt =====
-- Short reads and hostile lengths: `decode` on a buffer that holds less or more than a frame.
use hytch.Common.{
  ℕ, suc, ◌+◌, ◌≤◌, ◌<◌, ◌≡◌, ◌≢◌, refl, ◌∙◌, ap, sym, ◌⊎◌, inl, inr, append-nil, Option, none,
  some, List, [], ◌∷◌, ◌++◌, length, take, drop, ltb, if◌then◌else◌, arith, length-append,
  length-drop, take-append_le, drop-append_le,
}
use hytch.Common.Results.{Result, ok, err, map_ok}
use hytch.Proto.Buffer.{BytesCrate}
use hytch.Proto.Message.{Message, IsMessage}
use hytch.Proto.Codec.{
  InvalidData, header_len, frame_too_long, decode, decode_payload, from_be_bytes,
}
use hytch.Proto.Codec.Frame.{payload_of, frame}
use hytch.Proto.Codec.RoundTrip.{decode-frame}

module _ (b : BytesCrate) (max : ℕ) where
  -- What `decode` does with the bytes `body` behind a header that states the length `n`.
  abbrev pub decode_body : List ℕ → ℕ → ℕ → List ℕ → Result InvalidData (Option Message) × List ℕ
  decode_body src ty n body =
      if ltb max n
      then (err (frame_too_long n max), src)
      else if ltb (length body) n
      then (ok none, src)
      else (map_ok some (decode_payload b ty (take n body)), drop n body)

  five_more : (n : ℕ) → 5 + n ≡ suc (suc (suc (suc (suc n))))
  five_more n = omega arith

  split_behind :
      (ty c d e f n : ℕ) (body : List ℕ)
      → n ≤ length body
      → b.split_to (ty ∷ c ∷ d ∷ e ∷ f ∷ body) (5 + n)
        ≡ (ty ∷ c ∷ d ∷ e ∷ f ∷ take n body, drop n body)
  split_behind ty c d e f n body h =
      rw (b.split_to_lem (ty ∷ c ∷ d ∷ e ∷ f ∷ body) (5 + n) (omega arith), five_more)

  pub decode-cons :
      (ty c d e f : ℕ) (body : List ℕ)
      → let n = from_be_bytes c d e f in
        decode b max (ty ∷ c ∷ d ∷ e ∷ f ∷ body) ≡ decode_body (ty ∷ c ∷ d ∷ e ∷ f ∷ body) ty n body
  unfolding decode
  decode-cons ty c d e f body =
      let n = from_be_bytes c d e f in
      ground (
        arith,
        split_behind ty c d e f n body,
        b.advance_lem (ty ∷ c ∷ d ∷ e ∷ f ∷ take n body) 5 (omega arith),
      )

  pub decode_short : (src : List ℕ) → length src < 5 → decode b max src ≡ (ok none, src)
  unfolding decode
  decode_short src h = ground arith

  -- A buffer holds less than a header, or a header and a body.
  pub header_cases :
      (src : List ℕ)
      → (length src < 5)
        ⊎ ((ty : ℕ) × (c : ℕ) × (d : ℕ) × (e : ℕ) × (f : ℕ) × (body : List ℕ) × (src
              ≡ ty ∷ c ∷ d ∷ e ∷ f ∷ body))
  header_cases (ty ∷ c ∷ d ∷ e ∷ f ∷ body) = inr (ty, c, d, e, f, body, refl)
  header_cases [] = inl (omega arith)
  header_cases (x ∷ []) = inl (omega arith)
  header_cases (x ∷ y ∷ []) = inl (omega arith)
  header_cases (x ∷ y ∷ z ∷ []) = inl (omega arith)
  header_cases (x ∷ y ∷ z ∷ w ∷ []) = inl (omega arith)

  decode_body-append :
      (ty c d e f n : ℕ) (body more : List ℕ) (r : Result InvalidData (Option Message))
      (rest : List ℕ)
      → decode_body (ty ∷ c ∷ d ∷ e ∷ f ∷ body) ty n body ≡ (r, rest)
      → r ≢ ok none
      → decode_body (ty ∷ c ∷ d ∷ e ∷ f ∷ (body ++ more)) ty n (body ++ more) ≡ (r, rest ++ more)
  decode_body-append ty c d e f n body more r rest h ne =
      ground
        (arith, take-append_le n body more, drop-append_le n body more, length-append body more)

  -- A decoded message or an error stands, whatever arrives later: later bytes join what is left.
  pub decode-append :
      (src more : List ℕ) (r : Result InvalidData (Option Message)) (rest : List ℕ)
      → decode b max src ≡ (r, rest)
      → r ≢ ok none
      → decode b max (src ++ more) ≡ (r, rest ++ more)
  decode-append src more r rest h ne = elim (header_cases src) [
    | inl short ↦ absurd (ne (ap (λ p. p.0) (sym h ∙ decode_short src short)))
    | inr (ty, c, d, e, f, body, eq) ↦
        ap (λ s. decode b max (s ++ more)) eq
        ∙ decode-cons ty c d e f (body ++ more)
        ∙ decode_body-append ty c d e f (from_be_bytes c d e f) body more r rest
            (sym (decode-cons ty c d e f body) ∙ ap (decode b max) (sym eq) ∙ h) ne
  ]

  decode_body_waits :
      (src body rest : List ℕ) (ty n : ℕ)
      → decode_body src ty n body ≡ (ok none, rest)
      → (rest ≡ src) × (length body < max)
  decode_body_waits src body rest ty n h = ground arith

  -- `decode` asks for more bytes only with the buffer unchanged and fewer bytes in it than a header
  -- and the longest payload that the codec allows.
  pub decode_waits :
      (src rest : List ℕ)
      → decode b max src ≡ (ok none, rest)
      → (rest ≡ src) × (length src < header_len + max)
  decode_waits src rest h = elim (header_cases src) [
    | inl short ↦ (ap (λ p. p.1) (sym h ∙ decode_short src short), omega arith)
    | inr (ty, c, d, e, f, body, eq) ↦
        let (same, few) =
          decode_body_waits (ty ∷ c ∷ d ∷ e ∷ f ∷ body) body rest ty (from_be_bytes c d e f)
            (sym (decode-cons ty c d e f body) ∙ ap (decode b max) (sym eq) ∙ h) in
        (same ∙ sym eq, rw eq (omega arith))
  ]

  decode_body_takes :
      (src body rest : List ℕ) (ty n : ℕ) (m : Message)
      → decode_body src ty n body ≡ (ok (some m), rest)
      → length rest ≤ length body
  decode_body_takes src body rest ty n m h = ground (arith, length-drop n body)

  -- A decoded message takes at least a header's bytes from the buffer.
  pub decode_takes :
      (src rest : List ℕ) (m : Message)
      → decode b max src ≡ (ok (some m), rest)
      → length rest + header_len ≤ length src
  decode_takes src rest m h = elim (header_cases src) [
    | inl short ↦ cc (decode_short src short, h)
    | inr (ty, c, d, e, f, body, eq) ↦
        let fewer =
          decode_body_takes (ty ∷ c ∷ d ∷ e ∷ f ∷ body) body rest ty (from_be_bytes c d e f) m
            (sym (decode-cons ty c d e f body) ∙ ap (decode b max) (sym eq) ∙ h) in
        rw eq (omega arith)
  ]

  append-cons-ne-nil : (xs ys : List ℕ) (y : ℕ) → [] ≢ xs ++ (y ∷ ys)
  append-cons-ne-nil [] ys y e = cc
  append-cons-ne-nil (x ∷ xs) ys y e = cc

  -- A strict prefix of a frame is not an error and not a message: `decode` waits for the rest. The
  -- message's fields are in range, and its payload is within the codec's limit.
  pub decode-prefix :
      (m : Message) (front back : List ℕ) (y : ℕ)
      → IsMessage m
      → length (payload_of m) ≤ max
      → frame m ≡ front ++ (y ∷ back)
      → decode b max front ≡ (ok none, front)
  decode-prefix m front back y h fits e = go (decode b max front).0 (decode b max front).1 refl
    where
      whole : decode b max (front ++ (y ∷ back)) ≡ (ok (some m), [])
      whole =
          ap (decode b max) (sym e ∙ sym (append-nil (frame m))) ∙ decode-frame b max m [] h fits

      go :
          (r : Result InvalidData (Option Message)) (rest : List ℕ)
          → decode b max front ≡ (r, rest)
          → decode b max front ≡ (ok none, front)
      go (ok none) rest p = p ∙ ap (λ s. (ok none, s)) (decode_waits front rest p).0
      go (ok (some m')) rest p = absurd (
          append-cons-ne-nil rest back y
            (ap (λ q. q.1) (sym whole ∙ decode-append front (y ∷ back) _ rest p (λ q. cc))))
      go (err x) rest p = absurd (
          append-cons-ne-nil rest back y
            (ap (λ q. q.1) (sym whole ∙ decode-append front (y ∷ back) _ rest p (λ q. cc))))
