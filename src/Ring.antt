-- ===== src/Ring.antt =====
-- crates/daemon/src/ring_buffer.rs: the scrollback ring buffer, indexed by a mask.
pub mod Bounds
pub mod Bytes
pub mod Contents
mod Tests
use hytch.Common.{
  ℕ, zero, suc, ◌+◌, ◌-◌, Option, none, some, List, [], ◌∷◌, ◌++◌, Bool, length, get_or, take, drop,
  last, replicate, min, bit_and, ltb, leb, ◌==◌, if◌then◌else◌,
}
use hytch.Common.Bits.{is_power_of_two}

pub record RingBuffer : Type 0 where
  pub buf : List ℕ
  pub head : ℕ
  pub len : ℕ

-- `none` is the panic of the assertion on the capacity.
unfoldable pub new : ℕ → Option RingBuffer
new capacity =
    if is_power_of_two capacity
    then some (record { buf = replicate capacity 0; head = 0; len = 0 })
    else none

abbrev pub capacity : RingBuffer → ℕ
capacity r = length r.buf

pub is_empty : RingBuffer → Bool
is_empty r = r.len == 0

-- `buf[pos..pos + data.len()].copy_from_slice(data)`.
abbrev pub copy_at : List ℕ → ℕ → List ℕ → List ℕ
copy_at buf pos bytes = take pos buf ++ (bytes ++ drop (pos + length bytes) buf)

-- What is kept of the bytes given to `append`: the most recent `cap` of them.
abbrev pub kept : ℕ → List ℕ → List ℕ
kept cap bytes = if leb cap (length bytes) then last cap bytes else bytes

abbrev pub write_pos : RingBuffer → ℕ
write_pos r = bit_and (r.head + r.len) (capacity r - 1)

-- The bytes that fit before the end of the buffer.
abbrev pub first_len : RingBuffer → List ℕ → ℕ
first_len r bytes = min (capacity r - write_pos r) (length bytes)

-- `copy_from_slice`, in one piece or in two where the bytes go round the end.
pub write_bytes : RingBuffer → List ℕ → List ℕ
write_bytes r bytes =
    let n = first_len r bytes in
    let first = copy_at r.buf (write_pos r) (take n bytes) in
    if ltb n (length bytes) then copy_at first 0 (drop n bytes) else first

-- `append` once the bytes are cut to the capacity.
pub append_kept : RingBuffer → List ℕ → RingBuffer
append_kept r bytes =
    let cap = capacity r in
    let new_total = r.len + length bytes in
    if ltb cap new_total
    then record {
      buf = write_bytes r bytes;
      head = bit_and (write_pos r + length bytes) (cap - 1);
      len = cap;
    }
    else record { buf = write_bytes r bytes; head = r.head; len = new_total }

pub append : RingBuffer → List ℕ → RingBuffer
append r [] = r
append r (x ∷ xs) = append_kept r (kept (capacity r) (x ∷ xs))

-- The loop of `snapshot`: `n` bytes from logical index `i` on.
pub snapshot_loop : RingBuffer → ℕ → ℕ → List ℕ
snapshot_loop r i zero = []
snapshot_loop r i (suc n) =
    get_or r.buf (bit_and (r.head + i) (capacity r - 1)) 0 ∷ snapshot_loop r (i + 1) n

pub snapshot : RingBuffer → List ℕ
snapshot r = snapshot_loop r 0 r.len
