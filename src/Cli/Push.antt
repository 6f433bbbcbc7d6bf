-- ===== src/Cli/Push.antt =====
-- `push` of crates/cli/src/commands.rs: standard input goes to a session, cut into frames.
pub mod Received
use hytch.Common.{ℕ, ◌*◌, Option, none, some, List, [], ◌∷◌, ◌++◌, Bool, take, if◌then◌else◌}
use hytch.Common.Results.{Result, ok, err}
use hytch.Proto.Buffer.{BytesCrate}
use hytch.Proto.Message.{Message}
use hytch.Proto.Codec.{encode}

abbrev pub push_chunk_size : ℕ
push_chunk_size = 32768

-- What a read of standard input gives, and the write of its frame: `none` if all is written.
pub record Round : Type 0 where
  pub read : Result (Unit {0}) (List ℕ)
  pub writing : Option ℕ

module _ (b : BytesCrate) where
  -- The exit code, when the loop has ended, and the bytes sent.
  unfoldable pub push_loop : List Round → List ℕ → Option ℕ × List ℕ
  push_loop [] wire = (none, wire)
  push_loop (r ∷ rs) wire = elim r.read [
    | err e ↦ (some 1, wire)
    | ok [] ↦ (some 0, wire)
    | ok (c ∷ cs) ↦
        let (encoded, buf) = encode b (Message.push (c ∷ cs)) [] in
        elim encoded [
          | err e ↦ (some 1, wire)
          | ok u ↦ elim r.writing [
            | some k ↦ (some 1, wire ++ take k buf)
            | none ↦ push_loop rs (wire ++ buf)
          ]
        ]
  ]

  unfoldable pub push : Bool → List Round → Option ℕ × List ℕ
  push connected rounds = if connected then push_loop rounds [] else (some 1, [])
