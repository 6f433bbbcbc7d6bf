-- ===== src/Ring/Bytes.antt =====
-- Which byte stands where: at each logical index of a ring, and at each place after a write.
use hytch.Common.{
  ℕ, zero, suc, ◌+◌, ◌-◌, ◌%◌, ◌≤◌, ◌<◌, ◌≡◌, refl, sym, ap, ◌∙◌, List, ◌++◌, ◌⊎◌, inl, inr, length,
  get_or, take, drop, arith, ltb, leb, if◌then◌else◌, length-take, length-drop, get_or-append,
  get_or-append_ge, get_or-drop, get_or-take, ◌&&◌,
}
use hytch.Ring.{
  RingBuffer, capacity, copy_at, kept, write_pos, first_len, write_bytes, snapshot_loop, snapshot,
}
use hytch.Ring.Bounds.{IsValid, mask-mod, mask-lt, length-copy_at}
use native.Mathlib.Decide.{dec_lt}
use native.Mathlib.Nat.{mod-eq_of_lt, mod-eq-sub-mod, mod-add-mod}

pub mod_cases : (x c : ℕ) → x < c + c → ((x < c) × (x % c ≡ x)) ⊎ ((c ≤ x) × (x % c + c ≡ x))
mod_cases x c h = elim (dec_lt x c) [
  | yes p ↦ inl (p, mod-eq_of_lt p)
  | no p ↦ inr (
    omega arith,
    omega (
      arith,
      mod-eq-sub-mod {n = x} {m = c} (omega arith),
      mod-eq_of_lt {n = x - c} {m = c} (omega arith),
    ),
  )
]

pub length-snapshot_loop : (r : RingBuffer) (i n : ℕ) → length (snapshot_loop r i n) ≡ n
unfolding snapshot_loop
length-snapshot_loop r i zero = refl
length-snapshot_loop r i (suc n) = ap suc (length-snapshot_loop r (i + 1) n)

pub length-snapshot : (r : RingBuffer) → length (snapshot r) ≡ r.len
unfolding snapshot
length-snapshot r = length-snapshot_loop r 0 r.len

-- The byte at logical index `k`.
abbrev pub byte_at : RingBuffer → ℕ → ℕ
byte_at r k = get_or r.buf ((r.head + k) % capacity r) 0

get_or-snapshot_loop :
    (r : RingBuffer) (i n k : ℕ)
    → IsValid r
    → k < n
    → get_or (snapshot_loop r i n) k 0 ≡ byte_at r (i + k)
unfolding snapshot_loop
get_or-snapshot_loop r i zero k v h = absurd (omega arith)
get_or-snapshot_loop r i (suc n) zero v h =
    ap (λ j. get_or r.buf j 0) (mask-mod (r.head + i) v) ∙ ap (byte_at r) (omega arith)
get_or-snapshot_loop r i (suc n) (suc k) v h =
    get_or-snapshot_loop r (i + 1) n k v (omega arith) ∙ ap (byte_at r) (omega arith)

pub get_or-snapshot :
    (r : RingBuffer) (k : ℕ) → IsValid r → k < r.len → get_or (snapshot r) k 0 ≡ byte_at r k
unfolding snapshot
get_or-snapshot r k v h = get_or-snapshot_loop r 0 r.len k v h ∙ ap (byte_at r) (omega arith)

get_or-copy_at :
    (buf bytes : List ℕ) (pos j : ℕ)
    → pos + length bytes ≤ length buf
    → get_or (copy_at buf pos bytes) j 0 ≡ (
        if ltb j pos
        then get_or buf j 0
        else if ltb j (pos + length bytes)
        then get_or bytes (j - pos) 0
        else get_or buf j 0)
get_or-copy_at buf bytes pos j h =
    let tail = drop (pos + length bytes) buf in
    ground (
      arith,
      length-take pos buf,
      get_or-append (take pos buf) (bytes ++ tail) j 0,
      get_or-append_ge (take pos buf) (bytes ++ tail) j 0,
      get_or-take pos j buf 0,
      get_or-append bytes tail (j - pos) 0,
      get_or-append_ge bytes tail (j - pos) 0,
      get_or-drop (pos + length bytes) (j - pos - length bytes) buf 0,
    )

-- Where each byte of the buffer comes from after the write: from `bytes`, laid from `write_pos` on and
-- round the end, or from before.
get_or-write_bytes :
    (r : RingBuffer) (bytes : List ℕ) (j : ℕ)
    → IsValid r
    → length bytes ≤ capacity r
    → j < capacity r
    → let w = write_pos r in
      get_or (write_bytes r bytes) j 0 ≡ (
        if leb w j && ltb j (w + length bytes)
        then get_or bytes (j - w) 0
        else if ltb (j + capacity r) (w + length bytes)
        then get_or bytes (j + capacity r - w) 0
        else get_or r.buf j 0)
unfolding write_bytes
get_or-write_bytes r bytes j v h hj =
    let n = first_len r bytes in
    let w = write_pos r in
    let first = copy_at r.buf w (take n bytes) in
    ground (
      arith,
      mask-lt (r.head + r.len) v,
      length-take n bytes,
      length-drop n bytes,
      length-copy_at r.buf w (take n bytes),
      get_or-copy_at r.buf (take n bytes) w j,
      get_or-copy_at first (drop n bytes) 0 j,
      get_or-take n (j - w) bytes 0,
      get_or-drop n (j - 0) bytes 0,
    )

-- A logical index that survives the write still reads its byte.
written_old :
    (r : RingBuffer) (bytes : List ℕ) (t : ℕ)
    → IsValid r
    → length bytes ≤ capacity r
    → t < r.len
    → r.len + length bytes ≤ t + capacity r
    → get_or (write_bytes r bytes) ((r.head + t) % capacity r) 0 ≡ byte_at r t
written_old r bytes t v h old kept = ground (
  arith,
  mask-mod (r.head + r.len) v,
  mod_cases (r.head + r.len) (capacity r) (omega (arith, v.head_in, v.len_in)),
  mod_cases (r.head + t) (capacity r) (omega (arith, v.head_in, v.len_in)),
  get_or-write_bytes r bytes ((r.head + t) % capacity r) v h,
  v.head_in,
  v.len_in,
)

-- A logical index behind the old bytes reads the new ones.
written_new :
    (r : RingBuffer) (bytes : List ℕ) (s : ℕ)
    → IsValid r
    → length bytes ≤ capacity r
    → s < length bytes
    → get_or (write_bytes r bytes) ((r.head + (r.len + s)) % capacity r) 0 ≡ get_or bytes s 0
written_new r bytes s v h new = ground (
  arith,
  mask-lt (r.head + r.len) v,
  mod_cases (write_pos r + s) (capacity r),
  at_pos,
  get_or-write_bytes r bytes ((r.head + (r.len + s)) % capacity r) v h,
)
  where
    at_pos : (r.head + (r.len + s)) % capacity r ≡ (write_pos r + s) % capacity r
    at_pos =
        ap (λ i. i % capacity r) (omega arith)
        ∙ sym (mod-add-mod (r.head + r.len) (capacity r) s)
        ∙ ap (λ i. (i + s) % capacity r) (sym (mask-mod (r.head + r.len) v))

-- The bytes held and the bytes written, one behind the other, at any index that survives.
pub written :
    (r : RingBuffer) (bytes : List ℕ) (t : ℕ)
    → IsValid r
    → length bytes ≤ capacity r
    → t < r.len + length bytes
    → r.len + length bytes ≤ t + capacity r
    → get_or (write_bytes r bytes) ((r.head + t) % capacity r) 0 ≡ get_or (snapshot r ++ bytes) t 0
written r bytes t v h lt kept = elim (dec_lt t r.len) [
  | yes old ↦
      written_old r bytes t v h old kept
      ∙ sym (get_or-snapshot r t v old)
      ∙ sym (get_or-append (snapshot r) bytes t 0 (rw length-snapshot old))
  | no new ↦
      ap (λ i. get_or (write_bytes r bytes) ((r.head + i) % capacity r) 0) (omega arith)
      ∙ written_new r bytes (t - r.len) v h (omega arith)
      ∙ ap (λ n. get_or bytes (t - n) 0) (sym (length-snapshot r))
      ∙ sym (get_or-append_ge (snapshot r) bytes t 0 (rw length-snapshot (omega arith)))
]
