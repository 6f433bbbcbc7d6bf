-- ===== src/Common/Decimal.antt =====
-- Numbers as decimal text: `format!`, and `str::parse` to an unsigned type.
use hytch.Common.Tests.{ltb, leb, ◌==◌, if◌then◌else◌}
use Prim.Native.Nat.{ℕ, zero, suc, ◌+◌, ◌-◌, ◌*◌, ◌/◌, ◌%◌, ◌≤◌, ◌<◌}
use mathlib.Core.Bool.{◌&&◌}
use mathlib.Core.List.{List, [], ◌∷◌, ◌++◌}
use mathlib.Core.Option.{Option, none, some}
use mathlib.Core.Path.{◌≡◌, sym, ap, ◌∙◌}
use native.Mathlib.Decide.{dec_lt}
use native.Mathlib.Omega.{arith}

-- The decimal digits of `n`; `n + 1` rounds are enough.
unfoldable pub digits : ℕ → ℕ → List ℕ
digits zero n = []
digits (suc fuel) n =
    let rest = digits fuel (n / 10) in
    if ltb n 10 then (b'0' + n) ∷ [] else rest ++ ((b'0' + n % 10) ∷ [])

abbrev pub decimal : ℕ → List ℕ
decimal n = digits (suc n) n

-- The digits after those that gave `n`; `none` for another character, or a number above `max`.
pub scan : ℕ → List ℕ → ℕ → Option ℕ
scan max [] n = some n
scan max (c ∷ s) n =
    let m = n * 10 + (c - b'0') in
    let rest = scan max s m in if leb b'0' c && leb c b'9' && leb m max then rest else none

-- A sign may stand in front, and there must be a digit.
pub parse_digits : ℕ → List ℕ → Option ℕ
parse_digits max [] = none
parse_digits max (c ∷ s) = scan max (c ∷ s) 0

pub parse_uint : ℕ → List ℕ → Option ℕ
parse_uint max [] = none
parse_uint max (c ∷ s) = if c == b'+' then parse_digits max s else parse_digits max (c ∷ s)

scan-append :
    (max : ℕ) (s : List ℕ) (c n m : ℕ)
    → scan max s n ≡ some m
    → scan max (s ++ (c ∷ [])) n ≡ scan max (c ∷ []) m
unfolding scan
scan-append max [] c n m e = ground arith
scan-append max (x ∷ s) c n m e = ground (arith, scan-append max s c (n * 10 + (x - b'0')) m)

scan-digits : (max fuel n : ℕ) → n < fuel → n ≤ max → scan max (digits fuel n) 0 ≡ some n
unfolding digits scan
scan-digits max zero n h small = absurd (omega arith)
scan-digits max (suc fuel) n h small = elim (dec_lt n 10) [
  | yes one ↦ ground arith
  | no more ↦
      let ih = scan-digits max fuel (n / 10) (omega arith) (omega arith) in
      let last = scan-append max (digits fuel (n / 10)) (b'0' + n % 10) 0 (n / 10) ih in
      let fits : n / 10 * 10 + (b'0' + n % 10 - b'0') ≡ n = omega arith in ground arith
]

-- The first character of a number is a digit.
digits-cons :
    (fuel n : ℕ) → n < fuel → (c : ℕ) × (s : List ℕ) × (digits fuel n ≡ c ∷ s) × (b'0' ≤ c)
unfolding digits
digits-cons zero n h = absurd (omega arith)
digits-cons (suc fuel) n h = elim (dec_lt n 10) [
  | yes one ↦ (b'0' + n, [], ground arith, omega arith)
  | no more ↦
      let (c, s, e, is_digit) = digits-cons fuel (n / 10) (omega arith) in
      (c, s ++ ((b'0' + n % 10) ∷ []), ground arith, is_digit)
]

-- A number that fits is read back from its text.
pub parse_uint-decimal : (max n : ℕ) → n ≤ max → parse_uint max (decimal n) ≡ some n
unfolding parse_uint parse_digits
parse_uint-decimal max n small =
    let (c, s, e, is_digit) = digits-cons (suc n) n (omega arith) in
    let whole = sym (ap (λ l. scan max l 0) e) ∙ scan-digits max (suc n) n (omega arith) small in
    ap (parse_uint max) e ∙ ground arith
