-- ===== src/Cli/Options.antt =====
-- The options of crates/cli/src/main.rs and `parse_char_spec` of crates/cli/src/commands.rs.
pub mod LogCap
mod Tests
use hytch.Common.{
  ℕ, ◌+◌, ◌-◌, ◌*◌, ◌^◌, ◌%◌, Option, none, some, List, [], ◌∷◌, Bool, true, false, ◌&&◌, ◌||◌,
  ◌==◌, ltb, leb, bit_and, if◌then◌else◌,
}
use hytch.Common.Decimal.{parse_uint}
use hytch.Client.Attach.{AttachOutcome, session_ended}

abbrev pub default_log_max_size : ℕ
default_log_max_size = 1048576

abbrev pub last_char : List ℕ → Option ℕ
last_char [] = none
last_char (c ∷ []) = some c
last_char (c ∷ d ∷ s) = last_char (d ∷ s)

abbrev pub but_last : List ℕ → List ℕ
but_last [] = []
but_last (c ∷ []) = []
but_last (c ∷ d ∷ s) = c ∷ but_last (d ∷ s)

-- The factor of a suffix.
abbrev pub multiplier : ℕ → Option ℕ
multiplier c =
    if c == b'k' || c == b'K'
    then some 1024
    else if c == b'm' || c == b'M'
    then some 1048576
    else none

-- `digits.parse::<u64>().map(|n| n * mult).unwrap_or(..)`, where the product wraps.
abbrev pub scaled : List ℕ → ℕ → ℕ
scaled digits mult = elim (parse_uint (2 ^ 64 - 1) digits) [
  | some n ↦ n * mult % 2 ^ 64
  | none ↦ default_log_max_size
]

abbrev pub factor_of : List ℕ → Option ℕ
factor_of spec = elim (last_char spec) [ some c ↦ multiplier c | none ↦ none ]

pub parse_log_cap : Option (List ℕ) → ℕ
parse_log_cap none = default_log_max_size
parse_log_cap (some spec) = elim (factor_of spec) [
  | some mult ↦ scaled (but_last spec) mult
  | none ↦ scaled spec 1
]

abbrev pub to_ascii_uppercase : ℕ → ℕ
to_ascii_uppercase c = if leb b'a' c && leb c b'z' then c - 32 else c

-- The byte behind a `^`, if it names a control character.
abbrev pub control_of : ℕ → Option ℕ
control_of b =
    let c = to_ascii_uppercase b in
    if c == b'?'
    then some 0x7f
    else if (leb b'A' c && leb c b'Z') || c == b'@' || (leb b'[' c && leb c b'_')
    then some (bit_and c 0x1f)
    else none

pub parse_char_spec : List ℕ → Option ℕ
parse_char_spec [] = none
parse_char_spec (x ∷ []) = some x
parse_char_spec (x ∷ y ∷ []) =
    if x == b'^' then elim (control_of y) [ some c ↦ some c | none ↦ some x ] else some x
parse_char_spec (x ∷ y ∷ z ∷ s) = some x

-- The detach character of the command line.
pub detach_char : Bool → Option (List ℕ) → Option ℕ
detach_char true spec = none
detach_char false none = some 0x1c
detach_char false (some spec) = elim (parse_char_spec spec) [ some c ↦ some c | none ↦ some 0x1c ]

abbrev pub exit_session_ended : ℕ
exit_session_ended = 90

abbrev pub exit_code_for_outcome : AttachOutcome → ℕ
exit_code_for_outcome session_ended = exit_session_ended
exit_code_for_outcome _ = 0
