-- ===== src/Ring/Tests.antt =====
-- Runs of the ring buffer, and its theorems at concrete rings.
use hytch.Common.{◌≡◌, refl, none, some, [], ◌∷◌, ◌++◌, last, arith}
use hytch.Common.Bits.{is_power_of_two}
use hytch.Ring.{
  RingBuffer, new, capacity, append, append_kept, write_bytes, snapshot, snapshot_loop,
}
use hytch.Ring.Bounds.{IsValid, append-IsValid-capacity}
use hytch.Ring.Contents.{snapshot-append}

-- 8 and 9 at the end of the storage, then 7.
abbrev wrapped : RingBuffer
wrapped = record { buf = 7 ∷ 0 ∷ 8 ∷ 9 ∷ []; head = 2; len = 3 }

abbrev zeroed : RingBuffer
zeroed = record { buf = 0 ∷ 0 ∷ 0 ∷ 0 ∷ []; head = 0; len = 0 }

wrapped-IsValid : IsValid wrapped
wrapped-IsValid = record { shift = 2; power = refl; head_in = omega arith; len_in = omega arith }

new_three : new 3 ≡ none
unfolding new is_power_of_two
new_three = refl

new_four : new 4 ≡ some zeroed
unfolding new is_power_of_two
new_four = refl

snapshot-wrapped : snapshot wrapped ≡ 8 ∷ 9 ∷ 7 ∷ []
unfolding snapshot snapshot_loop
snapshot-wrapped = refl

append_overwrites :
    append wrapped (1 ∷ 2 ∷ 3 ∷ []) ≡ record { buf = 7 ∷ 1 ∷ 2 ∷ 3 ∷ []; head = 0; len = 4 }
unfolding append append_kept write_bytes
append_overwrites = refl

append_long : snapshot (append wrapped (1 ∷ 2 ∷ 3 ∷ 4 ∷ 5 ∷ 6 ∷ [])) ≡ 3 ∷ 4 ∷ 5 ∷ 6 ∷ []
unfolding append append_kept write_bytes snapshot snapshot_loop
append_long = refl

append-IsValid-capacity_example :
    IsValid (append wrapped (1 ∷ 2 ∷ [])) × (capacity (append wrapped (1 ∷ 2 ∷ [])) ≡ 4)
append-IsValid-capacity_example = append-IsValid-capacity wrapped (1 ∷ 2 ∷ []) wrapped-IsValid

snapshot-append_example :
    snapshot (append wrapped (1 ∷ 2 ∷ [])) ≡ last 4 (snapshot wrapped ++ (1 ∷ 2 ∷ []))
snapshot-append_example = snapshot-append wrapped (1 ∷ 2 ∷ []) wrapped-IsValid
