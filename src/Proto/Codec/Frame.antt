-- ===== src/Proto/Codec/Frame.antt =====
-- The wire format that the codec is held to: what a message looks like as bytes, and what one call
-- of `encode` or `decode` does on a whole frame.
use hytch.Common.{
  ℕ, suc, ◌+◌, ◌/◌, ◌%◌, ◌^◌, ◌≤◌, ◌<◌, ◌≡◌, refl, some, List, [], ◌∷◌, ◌++◌, length, arith,
  append_assoc, length-append, take-append_self, drop-append_self,
}
use hytch.Common.Results.{ok, map_ok}
use hytch.Proto.Buffer.{BytesCrate}
use hytch.Proto.Message.{Message, push, attach, detach, redraw, kill, to_u8, IsMessage}
use hytch.Proto.Codec.{write_header, encode, decode, decode_payload, from_be_bytes, bool_byte}

abbrev pub type_of : Message → ℕ
type_of (push payload) = 0
type_of (attach skip_ring) = 1
type_of detach = 2
type_of (Message.winch rows cols) = 3
type_of (redraw method rows cols) = 4
type_of (kill signal) = 5

abbrev pub be16 : ℕ → List ℕ
be16 n = n / 256 ∷ n % 256 ∷ []

unfoldable pub payload_of : Message → List ℕ
payload_of (push payload) = payload
payload_of (attach skip_ring) = bool_byte skip_ring ∷ []
payload_of detach = []
payload_of (Message.winch rows cols) = be16 rows ++ be16 cols
payload_of (redraw method rows cols) = to_u8 method ∷ (be16 rows ++ be16 cols)
payload_of (kill signal) = signal ∷ []

abbrev pub header : ℕ → ℕ → List ℕ
header ty n = ty ∷ n / 2 ^ 24 ∷ n / 2 ^ 16 % 256 ∷ n / 2 ^ 8 % 256 ∷ n % 256 ∷ []

unfoldable pub frame : Message → List ℕ
frame m = header (type_of m) (length (payload_of m)) ++ payload_of m

pub length-frame : (m : Message) → length (frame m) ≡ 5 + length (payload_of m)
unfolding frame
length-frame m = omega arith

pub payload_of-lt : (m : Message) → IsMessage m → length (payload_of m) < 2 ^ 32
unfolding payload_of
payload_of-lt (push payload) h = h
payload_of-lt _ h = omega arith

module _ (b : BytesCrate) where
  write_header_lem :
      (dst : List ℕ) (ty n : ℕ) → n < 2 ^ 32 → write_header b dst ty n ≡ dst ++ header ty n
  unfolding write_header
  write_header_lem dst ty n h =
      let fits : n % 2 ^ 32 ≡ n = omega arith in
      rw
        (write_header, fits, b.put_u32_lem (b.put_u8 dst ty) n h, b.put_u8_lem dst ty, append_assoc)

  -- `encode` keeps the buffer and adds the message's frame.
  pub encode-frame :
      (m : Message) (dst : List ℕ) → IsMessage m → encode b m dst ≡ (ok tt, dst ++ frame m)
  unfolding encode frame payload_of
  encode-frame (push payload) dst h =
      rw (write_header_lem dst 0 _ h, b.extend_from_slice_lem, append_assoc)
  encode-frame (attach skip_ring) dst h =
      rw (write_header_lem dst 1 1 (omega arith), b.put_u8_lem, append_assoc)
  encode-frame detach dst h = rw (write_header_lem dst 2 0 (omega arith))
  encode-frame (Message.winch rows cols) dst h =
      rw
        (write_header_lem dst 3 4 (omega arith), b.put_u16_lem _ cols h.1, b.put_u16_lem _ rows h.0)
        (simp append_assoc)
  encode-frame (redraw method rows cols) dst h =
      rw
        (
          write_header_lem dst 4 5 (omega arith),
          b.put_u16_lem _ cols h.1,
          b.put_u16_lem _ rows h.0,
          b.put_u8_lem,
        )
        (simp append_assoc)
  encode-frame (kill signal) dst h =
      rw (write_header_lem dst 5 1 (omega arith), b.put_u8_lem, append_assoc)

  five_more : (n : ℕ) → 5 + n ≡ suc (suc (suc (suc (suc n))))
  five_more n = omega arith

  split_frame :
      (ty c d e f : ℕ) (payload rest : List ℕ)
      → b.split_to (ty ∷ c ∷ d ∷ e ∷ f ∷ (payload ++ rest)) (5 + length payload)
        ≡ (ty ∷ c ∷ d ∷ e ∷ f ∷ payload, rest)
  split_frame ty c d e f payload rest =
      rw
        (
          b.split_to_lem (ty ∷ c ∷ d ∷ e ∷ f ∷ (payload ++ rest)) (5 + length payload)
              (omega (arith, length-append payload rest)),
          five_more,
          take-append_self,
          drop-append_self,
        )
        refl

  -- `decode` on a whole frame, whatever follows it: the payload's decoding, and what follows.
  pub decode-whole :
      (max ty c d e f : ℕ) (payload rest : List ℕ)
      → from_be_bytes c d e f ≡ length payload
      → length payload ≤ max
      → decode b max (ty ∷ c ∷ d ∷ e ∷ f ∷ (payload ++ rest))
        ≡ (map_ok some (decode_payload b ty payload), rest)
  unfolding decode
  decode-whole max ty c d e f payload rest p fits =
      rw
        (
          p,
          split_frame ty c d e f payload rest,
          b.advance_lem (ty ∷ c ∷ d ∷ e ∷ f ∷ payload) 5 (omega arith),
        )
        (ground (arith, length-append payload rest))
