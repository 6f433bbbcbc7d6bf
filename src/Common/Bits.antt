-- ===== src/Common/Bits.antt =====
-- Masks and powers of two on machine words.
use Prim.Native.Nat.{ℕ, zero, suc, ◌+◌, ◌-◌, ◌*◌, ◌/◌, ◌%◌, ◌^◌, ◌≤◌, ◌<◌, min, bit_and}
use Prim.Native.Nat.{digits, bit_and-bitwise}
use mathlib.Core.Path.{◌≡◌, ap, ◌∙◌, ◌≡⟨◌⟩◌, ◌∎}
use mathlib.Core.Bool.{Bool, true}
use native.Mathlib.Nat.{
  mod-eq_of_lt, mod-lt, div-add-mod, pow-succ', one-le-pow, mul-add-mod_self_left,
}
use native.Mathlib.Decide.{dec_lt}
use native.Mathlib.Omega.{arith}
use hytch.Common.Tests.{◌==◌, ==_iff}

-- Halving a number halves its remainder by a power of two.
half-mod : (p x : ℕ) → 0 < p → x % (2 * p) ≡ x / 2 % p * 2 + x % 2
half-mod p x h =
    x % (2 * p)
    ≡⟨ ap (λ t. t % (2 * p)) regroup ⟩ (2 * p * (x / 2 / p) + (x / 2 % p * 2 + x % 2)) % (2 * p)
    ≡⟨ mul-add-mod_self_left _ _ _ ⟩ (x / 2 % p * 2 + x % 2) % (2 * p)
    ≡⟨ mod-eq_of_lt (omega (arith, mod-lt (x / 2) h)) ⟩ x / 2 % p * 2 + x % 2 ∎
  where
    regroup : x ≡ 2 * p * (x / 2 / p) + (x / 2 % p * 2 + x % 2)
    regroup = omega (arith, div-add-mod (x / 2) p)

half-mod_pow : (k x : ℕ) → x % 2 ^ suc k ≡ x / 2 % 2 ^ k * 2 + x % 2
half-mod_pow k x = rw (pow-succ' 2 k) (half-mod (2 ^ k) x (omega (arith, one-le-pow k 2)))

half_mask : (k : ℕ) → (2 ^ suc k - 1) / 2 ≡ 2 ^ k - 1
half_mask k = omega (arith, pow-succ' 2 k, one-le-pow k 2)

odd_mask : (k : ℕ) → (2 ^ suc k - 1) % 2 ≡ 1
odd_mask k = omega (arith, pow-succ' 2 k, one-le-pow k 2)

-- The binary digits of `a & (2 ^ k - 1)`, for any count of digits that covers `a`.
digits-mask : (n a k : ℕ) → a ≤ n → digits (λ b. 0) min n a (2 ^ k - 1) ≡ a % 2 ^ k
digits-mask zero zero k h = omega (arith, one-le-pow k 2)
digits-mask zero (suc a) k h = absurd (omega arith)
digits-mask (suc n) zero k h = omega (arith, one-le-pow k 2)
digits-mask (suc n) (suc a) zero h = omega (arith, digits-mask n (suc a / 2) 0 (omega arith))
digits-mask (suc n) (suc a) (suc k) h =
    let lower = rw (← half_mask k) at (digits-mask n (suc a / 2) k (omega arith)) in
    omega (arith, lower, odd_mask k, half-mod_pow k (suc a))

-- A mask of ones is the remainder by a power of two.
pub bit_and-mask : (a k : ℕ) → bit_and a (2 ^ k - 1) ≡ a % 2 ^ k
bit_and-mask a k = bit_and-bitwise a (2 ^ k - 1) ∙ digits-mask a a k (omega arith)

-- `usize::count_ones` over the lowest `w` bits.
pub count_ones : ℕ → ℕ → ℕ
count_ones zero n = 0
count_ones (suc w) n = n % 2 + count_ones w (n / 2)

-- `usize::is_power_of_two`: exactly one bit is set.
unfoldable pub is_power_of_two : ℕ → Bool
unfolding count_ones
is_power_of_two n = count_ones 64 n == 1

count_ones_zero : (w n : ℕ) → n < 2 ^ w → count_ones w n ≡ 0 → n ≡ 0
unfolding count_ones
count_ones_zero zero n h e = omega arith
count_ones_zero (suc w) n h e =
    omega
      (arith, pow-succ' 2 w, count_ones_zero w (n / 2) (omega (arith, pow-succ' 2 w)) (omega arith))

count_ones_one : (w n : ℕ) → n < 2 ^ w → count_ones w n ≡ 1 → (k : ℕ) × (n ≡ 2 ^ k)
unfolding count_ones
count_ones_one zero n h e = absurd (omega arith)
count_ones_one (suc w) n h e = elim (dec_lt (n % 2) 1) [
  | yes even ↦
      let (k, p) = count_ones_one w (n / 2) (omega (arith, pow-succ' 2 w)) (omega arith) in
      (suc k, omega (arith, pow-succ' 2 k))
  | no odd ↦
      (0, omega (arith, count_ones_zero w (n / 2) (omega (arith, pow-succ' 2 w)) (omega arith)))
]

-- A word that passes the test is a power of two.
pub is_power_of_two_sound : (n : ℕ) → n < 2 ^ 64 → is_power_of_two n ≡ true → (k : ℕ) × (n ≡ 2 ^ k)
unfolding is_power_of_two
is_power_of_two_sound n h e = count_ones_one 64 n h ((==_iff _ 1).0 e)
