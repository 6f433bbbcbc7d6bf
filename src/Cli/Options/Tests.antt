-- ===== src/Cli/Options/Tests.antt =====
-- Options on concrete text.
use hytch.Common.{ℕ, ◌*◌, ◌^◌, ◌%◌, ◌≡◌, refl, some, [], ◌∷◌, ◌++◌, arith}
use hytch.Common.Decimal.{decimal}
use hytch.Cli.Options.{parse_log_cap}
use hytch.Cli.Options.LogCap.{parse_log_cap-suffix}

-- Sixteen exbibytes wrap around to a cap of nothing.
wrapped : 18014398509481984 * 1024 % 2 ^ 64 ≡ 0
wrapped = refl

parse_log_cap-suffix_example :
    let n : ℕ = 18014398509481984 in
    (parse_log_cap (some (decimal n ++ (b'k' ∷ []))) ≡ n * 1024 % 2 ^ 64)
    × (parse_log_cap (some (decimal n ++ (b'K' ∷ []))) ≡ n * 1024 % 2 ^ 64)
    × (parse_log_cap (some (decimal n ++ (b'm' ∷ []))) ≡ n * (1024 * 1024) % 2 ^ 64)
    × (parse_log_cap (some (decimal n ++ (b'M' ∷ []))) ≡ n * (1024 * 1024) % 2 ^ 64)
parse_log_cap-suffix_example = parse_log_cap-suffix 18014398509481984 (omega arith)
