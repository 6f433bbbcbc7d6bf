-- ===== src/Ring/Bounds.antt =====
-- The ring buffer's invariant, its preservation, and the bounds of every index.
use hytch.Common.{
  ℕ, ◌+◌, ◌-◌, ◌%◌, ◌^◌, ◌≤◌, ◌<◌, ◌≡◌, refl, ◌∙◌, subst, some, List, [], ◌∷◌, ◌++◌, true, length,
  take, drop, min, bit_and, arith, length-append, length-take, length-drop, replicate,
  length-replicate, Bool-cases, inl, inr, ltb,
}
use hytch.Common.Bits.{bit_and-mask, is_power_of_two, is_power_of_two_sound}
use hytch.Ring.{
  RingBuffer, new, capacity, copy_at, kept, write_pos, first_len, write_bytes, append_kept, append,
}
use native.Mathlib.Nat.{one-le-pow, mod-lt}

-- The capacity is a power of two, `head` is an index, and `len` is at most the capacity.
pub record IsValid (r : RingBuffer) : Type 0 where
  pub shift : ℕ
  pub power : capacity r ≡ 2 ^ shift
  pub head_in : r.head < capacity r
  pub len_in : r.len ≤ capacity r

-- The mask of a valid ring takes the remainder by its capacity.
pub mask-mod : {r : RingBuffer} (i : ℕ) → IsValid r → bit_and i (capacity r - 1) ≡ i % capacity r
mask-mod i v = rw v.power (bit_and-mask i v.shift)

pub capacity_pos : {r : RingBuffer} → IsValid r → 0 < capacity r
capacity_pos v = rw v.power (omega (arith, one-le-pow v.shift 2))

pub mask-lt : {r : RingBuffer} (i : ℕ) → IsValid r → bit_and i (capacity r - 1) < capacity r
mask-lt i v = rw (mask-mod i v) (mod-lt i (capacity_pos v))

pub length-copy_at :
    (buf : List ℕ) (pos : ℕ) (bytes : List ℕ)
    → pos + length bytes ≤ length buf
    → length (copy_at buf pos bytes) ≡ length buf
length-copy_at buf pos bytes h = omega (
  arith,
  length-append (take pos buf) (bytes ++ drop (pos + length bytes) buf),
  length-append bytes (drop (pos + length bytes) buf),
  length-take pos buf,
  length-drop (pos + length bytes) buf,
)

-- Both copies of `append` stay inside the buffer, and neither changes its size.
pub length-write_bytes :
    (r : RingBuffer) (bytes : List ℕ)
    → IsValid r
    → length bytes ≤ capacity r
    → length (write_bytes r bytes) ≡ capacity r
unfolding write_bytes
length-write_bytes r bytes v h = ground (
  arith,
  mask-lt (r.head + r.len) v,
  length-take (first_len r bytes) bytes,
  length-drop (first_len r bytes) bytes,
  length-copy_at r.buf (write_pos r) (take (first_len r bytes) bytes),
  length-copy_at (copy_at r.buf (write_pos r) (take (first_len r bytes) bytes)) 0
      (drop (first_len r bytes) bytes),
)

pub length-kept : (cap : ℕ) (bytes : List ℕ) → length (kept cap bytes) ≡ min cap (length bytes)
length-kept cap bytes = ground (arith, length-drop (length bytes - cap) bytes)

pub append_kept-IsValid :
    (r : RingBuffer) (bytes : List ℕ)
    → IsValid r
    → length bytes ≤ capacity r
    → IsValid (append_kept r bytes) × (capacity (append_kept r bytes) ≡ capacity r)
unfolding append_kept
append_kept-IsValid r bytes v h =
    let same = length-write_bytes r bytes v h in
    elim (Bool-cases (ltb (capacity r) (r.len + length bytes))) [
      | inl wraps ↦ rw wraps (
        record {
          shift = v.shift;
          power = same ∙ v.power;
          head_in = rw same (mask-lt (write_pos r + length bytes) v);
          len_in = rw same (omega arith);
        },
        same,
      )
      | inr fits ↦ rw fits (
        record {
          shift = v.shift;
          power = same ∙ v.power;
          head_in = rw same v.head_in;
          len_in = rw same (ground arith);
        },
        same,
      )
    ]

-- `append` on a valid ring gives a valid ring of the same capacity: `head` is a place in the buffer,
-- `len` is at most the capacity, and the capacity is the same power of two.
pub append-IsValid-capacity :
    (r : RingBuffer) (bytes : List ℕ)
    → IsValid r
    → IsValid (append r bytes) × (capacity (append r bytes) ≡ capacity r)
unfolding append
append-IsValid-capacity r [] v = (v, refl)
append-IsValid-capacity r (x ∷ xs) v =
    append_kept-IsValid r (kept (capacity r) (x ∷ xs)) v
      (omega (arith, length-kept (capacity r) (x ∷ xs)))

abbrev fresh : ℕ → RingBuffer
fresh n = record { buf = replicate n 0; head = 0; len = 0 }

new_made : (n : ℕ) {r : RingBuffer} → new n ≡ some r → (is_power_of_two n ≡ true) × (fresh n ≡ r)
unfolding new
new_made n e = ground arith

-- `new` gives a valid and empty ring of the capacity asked for, whenever it does not panic.
pub new-IsValid :
    (n : ℕ) {r : RingBuffer}
    → n < 2 ^ 64
    → new n ≡ some r
    → IsValid r × (capacity r ≡ n) × (r.len ≡ 0)
new-IsValid n h e =
    let (p, made) = new_made n e in
    let (k, q) = is_power_of_two_sound n h p in
    subst (λ s. IsValid s × (capacity s ≡ n) × (s.len ≡ 0)) made
      (
        record {
          shift = k;
          power = length-replicate {A = ℕ} n 0 ∙ q;
          head_in = rw (length-replicate {A = ℕ} n 0, q) (omega (arith, one-le-pow k 2));
          len_in = omega arith;
        },
        length-replicate {A = ℕ} n 0,
        refl,
      )
