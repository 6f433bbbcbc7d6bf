-- ===== src/Cli/Options/LogCap.antt =====
-- What the options mean: a log cap with a suffix, and a control character.
use hytch.Common.{
  ℕ, ◌+◌, ◌-◌, ◌*◌, ◌^◌, ◌%◌, ◌<◌, ◌≡◌, refl, ap, ◌∙◌, none, some, List, [], ◌∷◌, ◌++◌, arith,
  bit_and,
}
use hytch.Common.Bits.{bit_and-mask}
use hytch.Common.Decimal.{decimal, parse_uint, parse_uint-decimal}
use hytch.Cli.Options.{last_char, but_last, multiplier, parse_log_cap, parse_char_spec}

last_char-append : (s : List ℕ) (c : ℕ) → last_char (s ++ (c ∷ [])) ≡ some c
last_char-append [] c = refl
last_char-append (x ∷ []) c = refl
last_char-append (x ∷ y ∷ s) c = last_char-append (y ∷ s) c

but_last-append : (s : List ℕ) (c : ℕ) → but_last (s ++ (c ∷ [])) ≡ s
but_last-append [] c = refl
but_last-append (x ∷ []) c = refl
but_last-append (x ∷ y ∷ s) c = ap (λ l. x ∷ l) (but_last-append (y ∷ s) c)

suffixed :
    (n c mult : ℕ)
    → n < 2 ^ 64
    → multiplier c ≡ some mult
    → parse_log_cap (some (decimal n ++ (c ∷ []))) ≡ n * mult % 2 ^ 64
unfolding parse_log_cap
suffixed n c mult small e =
    let read = parse_uint-decimal (2 ^ 64 - 1) n (omega arith) in
    let factor =
      ap (λ o. elim o [ some x ↦ multiplier x | none ↦ none ]) (last_char-append (decimal n) c)
      ∙ e in
    let digits = ap (parse_uint (2 ^ 64 - 1)) (but_last-append (decimal n) c) ∙ read in ground arith

-- A number below 2 ^ 64 with the suffix `k` or `K` is a cap of that many KiB, of 1024 bytes each, and
-- with `m` or `M` of that many MiB, of 1024 * 1024 bytes each, modulo 2 ^ 64: a product that is too
-- large for 64 bits wraps around.
pub parse_log_cap-suffix :
    (n : ℕ)
    → n < 2 ^ 64
    → (parse_log_cap (some (decimal n ++ (b'k' ∷ []))) ≡ n * 1024 % 2 ^ 64)
      × (parse_log_cap (some (decimal n ++ (b'K' ∷ []))) ≡ n * 1024 % 2 ^ 64)
      × (parse_log_cap (some (decimal n ++ (b'm' ∷ []))) ≡ n * (1024 * 1024) % 2 ^ 64)
      × (parse_log_cap (some (decimal n ++ (b'M' ∷ []))) ≡ n * (1024 * 1024) % 2 ^ 64)
parse_log_cap-suffix n small = (
  suffixed n b'k' 1024 small refl,
  suffixed n b'K' 1024 small refl,
  suffixed n b'm' (1024 * 1024) small refl,
  suffixed n b'M' (1024 * 1024) small refl,
)

-- `^` with the letter in place `k` of the alphabet, in either case, is the control character `k + 1`.
pub parse_char_spec-letter :
    (k : ℕ)
    → k < 26
    → (parse_char_spec (b'^' ∷ (b'A' + k) ∷ []) ≡ some (k + 1))
      × (parse_char_spec (b'^' ∷ (b'a' + k) ∷ []) ≡ some (k + 1))
unfolding parse_char_spec
parse_char_spec-letter k h =
    let masked = bit_and-mask (b'A' + k) 5 in
    let lowered : b'a' + k - 32 ≡ b'A' + k = omega arith in
    let control : bit_and (b'A' + k) 31 ≡ k + 1 = omega (arith, masked) in
    (ground arith, ground arith)
