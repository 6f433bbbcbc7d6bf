-- ===== src/Proto/Codec/RoundTrip.antt =====
-- `decode` after `encode`: the message that was sent, and the bytes behind it.
use hytch.Common.{
  ℕ, ◌+◌, ◌*◌, ◌/◌, ◌%◌, ◌^◌, ◌≤◌, ◌<◌, ◌≡◌, refl, ◌∙◌, ap, some, List, [], ◌++◌, true, false,
  length, arith,
}
use hytch.Common.Results.{ok, map_ok}
use hytch.Proto.Buffer.{BytesCrate}
use hytch.Proto.Message.{Message, push, attach, detach, redraw, kill, IsMessage, from_u8-to_u8}
use hytch.Proto.Codec.{
  encode, decode, decode_payload, decode_winch, decode_redraw, known_method, require_len,
  from_be_bytes,
}
use hytch.Proto.Codec.Frame.{type_of, payload_of, frame, payload_of-lt, encode-frame, decode-whole}

be32_sum :
    (n : ℕ)
    → n < 2 ^ 32
    → from_be_bytes (n / 2 ^ 24) (n / 2 ^ 16 % 256) (n / 2 ^ 8 % 256) (n % 256) ≡ n
be32_sum n h = omega arith

be16_sum : (n : ℕ) → n / 256 * 256 + n % 256 ≡ n
be16_sum n = omega arith

module _ (b : BytesCrate) where
  decode_payload-payload_of :
      (m : Message) → IsMessage m → decode_payload b (type_of m) (payload_of m) ≡ ok m
  unfolding decode_payload decode_winch decode_redraw require_len payload_of known_method
  decode_payload-payload_of (push payload) h = refl
  decode_payload-payload_of (attach true) h = refl
  decode_payload-payload_of (attach false) h = refl
  decode_payload-payload_of detach h = refl
  decode_payload-payload_of (Message.winch rows cols) h =
      rw (b.get_u16_lem, b.get_u16_lem, be16_sum rows, be16_sum cols)
  decode_payload-payload_of (redraw method rows cols) h = rw (
    b.get_u8_lem,
    known_method,
    from_u8-to_u8 method,
    b.get_u16_lem,
    b.get_u16_lem,
    be16_sum rows,
    be16_sum cols,
  )
  decode_payload-payload_of (kill signal) h = refl

  -- A frame is decoded to its message, whatever follows it.
  pub decode-frame :
      (max : ℕ) (m : Message) (rest : List ℕ)
      → IsMessage m
      → length (payload_of m) ≤ max
      → decode b max (frame m ++ rest) ≡ (ok (some m), rest)
  unfolding frame
  decode-frame max m rest h fits =
      decode-whole b max (type_of m) _ _ _ _ (payload_of m) rest
        (be32_sum (length (payload_of m)) (payload_of-lt m h)) fits
      ∙ ap (λ r. (map_ok some r, rest)) (decode_payload-payload_of m h)

  -- The bytes that `encode` adds to an empty buffer decode to the message that was encoded, whatever
  -- follows them, and exactly those bytes are consumed. The message's fields are in the ranges of
  -- their types, and its payload is within the codec's limit.
  pub decode-encode :
      (max : ℕ) (m : Message) (rest : List ℕ)
      → IsMessage m
      → length (payload_of m) ≤ max
      → decode b max ((encode b m []).1 ++ rest) ≡ (ok (some m), rest)
  decode-encode max m rest h fits = rw (encode-frame b m [] h) (decode-frame max m rest h fits)
