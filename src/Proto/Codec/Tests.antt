-- ===== src/Proto/Codec/Tests.antt =====
-- Frames at concrete messages, and the codec's theorems at concrete inputs.
use hytch.Common.{ℕ, ◌≡◌, refl, true, none, some, List, [], ◌∷◌, ◌++◌, ◌≤◌, length, arith}
use hytch.Common.Results.{ok, err}
use hytch.Proto.ListBytes.{list_bytes}
use hytch.Proto.Message.{Message, attach, detach, kill}
use hytch.Proto.Codec.{
  frame_too_long, unknown_message_type, header_len, encode, write_header, decode, decode_payload,
  default_max_frame_len,
}
use hytch.Proto.Codec.RoundTrip.{decode-encode}
use hytch.Proto.Codec.Accepts.{Carries, decode-IsMessage}
use hytch.Proto.Codec.Stream.{receive, receive-frames, frames}
use hytch.Proto.Codec.Frame.{header, frame}

-- A window size, as on the wire.
abbrev resize : Message
resize = Message.winch 24 80

encode-resize : encode list_bytes resize [] ≡ (ok tt, 3 ∷ 0 ∷ 0 ∷ 0 ∷ 4 ∷ 0 ∷ 24 ∷ 0 ∷ 80 ∷ [])
unfolding encode write_header
encode-resize = refl

decode_unknown :
    decode list_bytes 10 (9 ∷ 0 ∷ 0 ∷ 0 ∷ 0 ∷ 7 ∷ []) ≡ (err (unknown_message_type 9), 7 ∷ [])
unfolding decode decode_payload
decode_unknown = refl

decode_hostile :
    decode list_bytes 10 (0 ∷ 255 ∷ 255 ∷ 255 ∷ 255 ∷ [])
    ≡ (err (frame_too_long 4294967295 10), 0 ∷ 255 ∷ 255 ∷ 255 ∷ 255 ∷ [])
unfolding decode
decode_hostile = refl

abbrev half_frame : List ℕ
half_frame = 0 ∷ 0 ∷ 0 ∷ 0 ∷ 2 ∷ 65 ∷ []

decode_half : decode list_bytes 10 half_frame ≡ (ok none, half_frame)
unfolding decode
decode_half = refl

decode_detach : decode list_bytes 10 (2 ∷ 0 ∷ 0 ∷ 0 ∷ 0 ∷ []) ≡ (ok (some detach), [])
unfolding decode decode_payload
decode_detach = unfold hytch.Proto.Codec.require_len in refl

decode-encode_example :
    decode list_bytes default_max_frame_len ((encode list_bytes resize []).1 ++ (1 ∷ []))
    ≡ (ok (some resize), 1 ∷ [])
decode-encode_example =
    decode-encode list_bytes default_max_frame_len resize (1 ∷ []) (omega arith)
      (unfold hytch.Proto.Codec.Frame.payload_of in omega arith)

-- A flag that is sent as 7.
abbrev set_flag : List ℕ
set_flag = 1 ∷ 0 ∷ 0 ∷ 0 ∷ 1 ∷ 7 ∷ 9 ∷ []

decode_set : decode list_bytes 10 set_flag ≡ (ok (some (attach true)), 9 ∷ [])
unfolding decode decode_payload
decode_set = unfold hytch.Proto.Codec.require_len in refl

decode-IsMessage_example :
    (payload : List ℕ) × Unit {0}
    × (length payload ≤ 10)
    × (set_flag ≡ header 1 (length payload) ++ (payload ++ (9 ∷ [])))
    × Carries (attach true) payload
decode-IsMessage_example =
    decode-IsMessage list_bytes 10 set_flag (9 ∷ []) (attach true) (omega arith) (omega arith)
      decode_set

-- Two messages in three reads.
receive-frames_example :
    receive list_bytes 10 [] ((2 ∷ 0 ∷ []) ∷ (0 ∷ 0 ∷ 0 ∷ 5 ∷ 0 ∷ 0 ∷ []) ∷ (0 ∷ 1 ∷ 9 ∷ []) ∷ [])
    ≡ (detach ∷ kill 9 ∷ [], none, [])
receive-frames_example =
    receive-frames list_bytes 10 _ (detach ∷ kill 9 ∷ [])
      (unfold hytch.Proto.Codec.Frame.payload_of in omega arith)
      (unfold frames frame hytch.Proto.Codec.Frame.payload_of in refl)
