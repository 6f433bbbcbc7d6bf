-- ===== src/Cli/Push/Received.antt =====
-- What the daemon makes of pushed input.
use hytch.Common.{
  ℕ, ◌<◌, ◌≤◌, ◌≡◌, sym, ap, ◌∙◌, map, none, some, List, [], ◌∷◌, ◌++◌, true, length, concat, arith,
  append-nil, append_assoc,
}
use hytch.Common.Results.{ok}
use hytch.Proto.Buffer.{BytesCrate}
use hytch.Proto.Message.{Message}
use hytch.Proto.Codec.{default_max_frame_len}
use hytch.Proto.Codec.Frame.{frame, payload_of, encode-frame}
use hytch.Proto.Codec.Stream.{frames, AllFit, receive, receive-frames}
use hytch.Cli.Push.{Round, push_chunk_size, push_loop, push}

-- A read that gives bytes, and a frame that is written.
abbrev pub granted : List ℕ → Round
granted bytes = record { read = ok bytes; writing = none }

abbrev pub end_of_input : Round
end_of_input = record { read = ok []; writing = none }

abbrev pub rounds_of : List (List ℕ) → List Round
rounds_of [] = end_of_input ∷ []
rounds_of (c ∷ cs) = granted c ∷ rounds_of cs

-- Reads that give at least one byte, and no more than the buffer takes.
abbrev pub AllReads : List (List ℕ) → Type 0
AllReads [] = Unit
AllReads (c ∷ cs) = (0 < length c) × (length c ≤ push_chunk_size) × AllReads cs

AllReads-AllFit :
    (input : List (List ℕ)) → AllReads input → AllFit default_max_frame_len (map Message.push input)
unfolding payload_of
AllReads-AllFit [] h = tt
AllReads-AllFit (c ∷ cs) (some_byte, small, h) = (omega arith, omega arith, AllReads-AllFit cs h)

module _ (b : BytesCrate) where
  push_round :
      (c : List ℕ) (rs : List Round) (wire : List ℕ)
      → 0 < length c
      → length c ≤ push_chunk_size
      → push_loop b (granted c ∷ rs) wire ≡ push_loop b rs (wire ++ frame (Message.push c))
  unfolding push_loop
  push_round [] rs wire some_byte small = absurd (omega arith)
  push_round (c ∷ cs) rs wire some_byte small =
      let e = encode-frame b (Message.push (c ∷ cs)) [] (omega arith) in
      let written = ap (λ o. o.1) e in let done = ap (λ o. o.0) e in rw (push_loop, done, written)

  push_loop-frames :
      (input : List (List ℕ)) (wire : List ℕ)
      → AllReads input
      → push_loop b (rounds_of input) wire ≡ (some 0, wire ++ frames (map Message.push input))
  unfolding frames push_loop
  push_loop-frames [] wire h = ap (λ w. (some 0, w)) (sym (append-nil wire))
  push_loop-frames (c ∷ cs) wire (some_byte, small, h) =
      push_round c (rounds_of cs) wire some_byte small
      ∙ push_loop-frames cs (wire ++ frame (Message.push c)) h
      ∙ ap (λ w. (some 0, w)) (append_assoc wire (frame (Message.push c)) _)

  -- Standard input of any length is pushed whole: with a connection and no failing call, the command
  -- ends with exit code 0, and however the daemon's reads cut what was sent, it decodes one `Push` for
  -- each read of the input, in order, with the bytes of that read, and no frame is too long for it.
  -- Each read gives at least a byte and at most the buffer's size.
  pub push-received :
      (input chunks : List (List ℕ))
      → AllReads input
      → concat chunks ≡ (push b true (rounds_of input)).1
      → ((push b true (rounds_of input)).0 ≡ some 0)
        × (receive b default_max_frame_len [] chunks ≡ (map Message.push input, none, []))
  unfolding push
  push-received input chunks h e =
      let sent = push_loop-frames input [] h in
      (
        ap (λ o. o.0) sent,
        receive-frames b default_max_frame_len chunks (map Message.push input)
            (AllReads-AllFit input h) (e ∙ ap (λ o. o.1) sent),
      )
