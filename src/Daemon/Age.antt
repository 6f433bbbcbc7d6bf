-- ===== src/Daemon/Age.antt =====
-- crates/daemon/src/age.rs: the age of a session, as text.
pub mod Reading
mod Tests
use hytch.Common.{ℕ, ◌/◌, ◌%◌, List, [], ◌∷◌, ◌++◌, ltb, if◌then◌else◌}
use hytch.Common.Decimal.{decimal}

-- A number with the letter of its unit.
abbrev pub unit : ℕ → ℕ → List ℕ
unit n letter = decimal n ++ (letter ∷ [])

pub format_age : ℕ → List ℕ
format_age total_secs =
    let d = total_secs / 86400 in
    let h = (total_secs % 86400) / 3600 in
    let m = (total_secs % 3600) / 60 in
    let s = total_secs % 60 in
    if ltb 0 d
    then unit d b'd' ++ (b' ' ∷ unit h b'h') ++ (b' ' ∷ unit m b'm') ++ (b' ' ∷ unit s b's')
    else if ltb 0 h
    then unit h b'h' ++ (b' ' ∷ unit m b'm') ++ (b' ' ∷ unit s b's')
    else if ltb 0 m
    then unit m b'm' ++ (b' ' ∷ unit s b's')
    else unit s b's'
