-- ===== src/Ring/Contents.antt =====
-- What a ring buffer holds: `append` is "keep the last `capacity` bytes" on the snapshot.
use hytch.Common.{
  ℕ, ◌+◌, ◌-◌, ◌%◌, ◌≤◌, ◌<◌, ◌≡◌, refl, sym, ap, subst, ◌∙◌, List, [], ◌∷◌, ◌++◌, length, get_or,
  last, min, bit_and, arith, length-append, length-drop, length-last, last-length_le,
  last-append_ge, last-append_last, concat, ap₂, append_assoc, get_or-drop, list_ext, append-nil,
}
use hytch.Ring.{RingBuffer, capacity, kept, write_pos, write_bytes, append_kept, append, snapshot}
use hytch.Ring.Bounds.{
  IsValid, append-IsValid-capacity, append_kept-IsValid, mask-mod, length-write_bytes, length-kept,
}
use hytch.Ring.Bytes.{byte_at, length-snapshot, get_or-snapshot, written}
use native.Mathlib.Decide.{dec_lt}
use native.Mathlib.Nat.{mod-add-mod, add-mod_right}

-- The new head is the old one moved on by the bytes that are overwritten.
new_head :
    (r : RingBuffer) (m k : ℕ)
    → IsValid r
    → capacity r ≤ r.len + m
    → (bit_and (write_pos r + m) (capacity r - 1) + k) % capacity r
      ≡ (r.head + (r.len + m - capacity r + k)) % capacity r
new_head r m k v wraps =
    let c = capacity r in
    ap (λ i. (i + k) % c) (mask-mod (write_pos r + m) v)
    ∙ mod-add-mod (write_pos r + m) c k
    ∙ ap (λ i. (i + m + k) % c) (mask-mod (r.head + r.len) v)
    ∙ ap (λ i. i % c) (omega arith)
    ∙ mod-add-mod (r.head + r.len) c (m + k)
    ∙ ap (λ i. i % c) (omega arith)
    ∙ add-mod_right (r.head + (r.len + m - c + k)) c

append_kept_wraps :
    (r : RingBuffer) (bytes : List ℕ)
    → capacity r < r.len + length bytes
    → append_kept r bytes ≡ record {
      buf = write_bytes r bytes;
      head = bit_and (write_pos r + length bytes) (capacity r - 1);
      len = capacity r;
    }
unfolding append_kept
append_kept_wraps r bytes h = ground arith

append_kept_fits :
    (r : RingBuffer) (bytes : List ℕ)
    → r.len + length bytes ≤ capacity r
    → append_kept r bytes
      ≡ record { buf = write_bytes r bytes; head = r.head; len = r.len + length bytes }
unfolding append_kept
append_kept_fits r bytes h = ground arith

-- The byte at a logical index of the new ring is the byte at an index of the two lists in a row.
append_kept-byte :
    (r : RingBuffer) (bytes : List ℕ) (k : ℕ)
    → IsValid r
    → length bytes ≤ capacity r
    → k < (append_kept r bytes).len
    → byte_at (append_kept r bytes) k
      ≡ get_or (snapshot r ++ bytes) (r.len + length bytes - capacity r + k) 0
append_kept-byte r bytes k v h lt = elim (dec_lt (capacity r) (r.len + length bytes)) [
  | yes wraps ↦
      let e = append_kept_wraps r bytes wraps in
      let lt' : k < capacity r = subst (λ s. k < s.len) e lt in
      rw (e, length-write_bytes r bytes v h, new_head r (length bytes) k v (omega arith))
        (written r bytes (r.len + length bytes - capacity r + k) v h (omega arith) (omega arith))
  | no room ↦
      let e = append_kept_fits r bytes (omega arith) in
      let lt' : k < r.len + length bytes = subst (λ s. k < s.len) e lt in
      let none_lost : r.len + length bytes - capacity r + k ≡ k = omega arith in
      rw (e, length-write_bytes r bytes v h, none_lost) (written r bytes k v h lt' (omega arith))
]

len-append_kept :
    (r : RingBuffer) (bytes : List ℕ)
    → (append_kept r bytes).len ≡ min (capacity r) (r.len + length bytes)
unfolding append_kept
len-append_kept r bytes = ground arith

snapshot-append_kept :
    (r : RingBuffer) (bytes : List ℕ)
    → IsValid r
    → length bytes ≤ capacity r
    → snapshot (append_kept r bytes) ≡ last (capacity r) (snapshot r ++ bytes)
snapshot-append_kept r bytes v h =
    list_ext (snapshot (append_kept r bytes)) (last (capacity r) both) 0 same_length same_byte
  where
    both : List ℕ
    both = snapshot r ++ bytes

    length-both : length both ≡ r.len + length bytes
    length-both = length-append (snapshot r) bytes ∙ ap (λ n. n + length bytes) (length-snapshot r)

    same_length : length (snapshot (append_kept r bytes)) ≡ length (last (capacity r) both)
    same_length = omega (
      arith,
      length-snapshot (append_kept r bytes),
      len-append_kept r bytes,
      length-drop (length both - capacity r) both,
      length-both,
    )

    same_byte :
        (i : ℕ)
        → i < length (snapshot (append_kept r bytes))
        → get_or (snapshot (append_kept r bytes)) i 0 ≡ get_or (last (capacity r) both) i 0
    same_byte i lt =
        let lt' = subst (λ n. i < n) (length-snapshot (append_kept r bytes)) lt in
        get_or-snapshot (append_kept r bytes) i (append_kept-IsValid r bytes v h).0 lt'
        ∙ append_kept-byte r bytes i v h lt'
        ∙ ap (λ n. get_or both (n - capacity r + i) 0) (sym length-both)
        ∙ sym (get_or-drop (length both - capacity r) i both 0)

kept_short : (cap : ℕ) (bytes : List ℕ) → length bytes < cap → kept cap bytes ≡ bytes
kept_short cap bytes h = ground arith

kept_long : (cap : ℕ) (bytes : List ℕ) → cap ≤ length bytes → kept cap bytes ≡ last cap bytes
kept_long cap bytes h = ground arith

-- Cutting the bytes to the capacity first changes nothing.
last-kept : (cap : ℕ) (xs bytes : List ℕ) → last cap (xs ++ kept cap bytes) ≡ last cap (xs ++ bytes)
last-kept cap xs bytes = elim (dec_lt (length bytes) cap) [
  | yes short ↦ ap (λ l. last cap (xs ++ l)) (kept_short cap bytes short)
  | no long ↦
      ap (λ l. last cap (xs ++ l)) (kept_long cap bytes (omega arith))
      ∙ last-append_ge cap xs (last cap bytes) (omega (arith, length-last cap bytes))
      ∙ last-length_le cap (last cap bytes) (omega (arith, length-last cap bytes))
      ∙ sym (last-append_ge cap xs bytes (omega arith))
]

-- `append` keeps the last `capacity` bytes of what was held and what is added: the snapshot after it
-- is the end of the old snapshot followed by the bytes, oldest first. The ring is a valid one.
pub snapshot-append :
    (r : RingBuffer) (bytes : List ℕ)
    → IsValid r
    → snapshot (append r bytes) ≡ last (capacity r) (snapshot r ++ bytes)
unfolding append
snapshot-append r [] v = sym (
    ap (last (capacity r)) (append-nil (snapshot r))
    ∙ last-length_le (capacity r) (snapshot r) (omega (arith, length-snapshot r, v.len_in)))
snapshot-append r (x ∷ xs) v =
    snapshot-append_kept r (kept (capacity r) (x ∷ xs)) v
      (omega (arith, length-kept (capacity r) (x ∷ xs)))
    ∙ last-kept (capacity r) (snapshot r) (x ∷ xs)

-- Any sequence of appends.
pub append_all : RingBuffer → List (List ℕ) → RingBuffer
append_all r [] = r
append_all r (c ∷ cs) = append_all (append r c) cs

pub append_all-IsValid :
    (chunks : List (List ℕ)) (r : RingBuffer)
    → IsValid r
    → IsValid (append_all r chunks) × (capacity (append_all r chunks) ≡ capacity r)
unfolding append_all
append_all-IsValid [] r v = (v, refl)
append_all-IsValid (c ∷ cs) r v =
    let (v', e) = append-IsValid-capacity r c v in
    let (w, e') = append_all-IsValid cs (append r c) v' in (w, e' ∙ e)

-- After any sequence of appends a valid ring holds the last `capacity` bytes of all that it held and
-- was given, in order.
pub snapshot-append_all :
    (chunks : List (List ℕ)) (r : RingBuffer)
    → IsValid r
    → snapshot (append_all r chunks) ≡ last (capacity r) (snapshot r ++ concat chunks)
unfolding append_all
snapshot-append_all [] r v = sym (
    ap (last (capacity r)) (append-nil (snapshot r))
    ∙ last-length_le (capacity r) (snapshot r) (omega (arith, length-snapshot r, v.len_in)))
snapshot-append_all (c ∷ cs) r v =
    let (v', e) = append-IsValid-capacity r c v in
    snapshot-append_all cs (append r c) v'
    ∙ ap₂ (λ n l. last n (l ++ concat cs)) e (snapshot-append r c v)
    ∙ last-append_last (capacity r) (snapshot r ++ c) (concat cs)
    ∙ ap (last (capacity r)) (append_assoc (snapshot r) c (concat cs))
