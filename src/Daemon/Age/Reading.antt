-- ===== src/Daemon/Age/Reading.antt =====
-- An age as text, read back.
use hytch.Common.{
  ℕ, zero, suc, ◌+◌, ◌-◌, ◌*◌, ◌/◌, ◌%◌, ◌<◌, ◌≡◌, refl, ap, ◌∙◌, List, [], ◌∷◌, ◌++◌, ◌&&◌, leb,
  ◌==◌, if◌then◌else◌, arith,
}
use hytch.Common.Decimal.{digits, decimal}
use hytch.Daemon.Age.{unit, format_age}
use native.Mathlib.Decide.{dec_lt}

-- The seconds of a unit; no other character counts.
abbrev pub seconds_of : ℕ → ℕ
seconds_of c =
    if c == b'd'
    then 86400
    else if c == b'h'
    then 3600
    else if c == b'm'
    then 60
    else if c == b's'
    then 1
    else 0

-- A digit joins the number before it; after any other character a new number begins.
abbrev pub number_with : ℕ → ℕ → ℕ
number_with n c = if leb b'0' c && leb c b'9' then n * 10 + (c - b'0') else 0

-- The seconds so far, and the number that is being read.
unfoldable pub read : ℕ × ℕ → List ℕ → ℕ × ℕ
read state [] = state
read (total, n) (c ∷ text) = read (total + n * seconds_of c, number_with n c) text

abbrev pub read_age : List ℕ → ℕ
read_age text = (read (0, 0) text).0

read-append : (xs ys : List ℕ) (state : ℕ × ℕ) → read state (xs ++ ys) ≡ read (read state xs) ys
unfolding read
read-append [] ys state = refl
read-append (c ∷ xs) ys (total, n) = read-append xs ys (total + n * seconds_of c, number_with n c)

read-digit : (total n k : ℕ) → k < 10 → read (total, n) ((b'0' + k) ∷ []) ≡ (total, n * 10 + k)
unfolding read
read-digit total n k h =
    let no_unit : seconds_of (b'0' + k) ≡ 0 = ground arith in
    let joined : number_with n (b'0' + k) ≡ n * 10 + k = ground arith in
    rw (no_unit, joined) (ap (λ t. (t, n * 10 + k)) (omega arith))

read-digits : (fuel n total : ℕ) → n < fuel → read (total, 0) (digits fuel n) ≡ (total, n)
unfolding digits
read-digits zero n total h = absurd (omega arith)
read-digits (suc fuel) n total h = elim (dec_lt n 10) [
  | yes one ↦
      let text : digits (suc fuel) n ≡ (b'0' + n) ∷ [] = ground arith in
      ap (read (total, 0)) text ∙ read-digit total 0 n one ∙ ap (λ k. (total, k)) (omega arith)
  | no more ↦
      let text : digits (suc fuel) n ≡ digits fuel (n / 10) ++ ((b'0' + n % 10) ∷ []) =
        ground arith in
      ap (read (total, 0)) text
      ∙ read-append (digits fuel (n / 10)) ((b'0' + n % 10) ∷ []) (total, 0)
      ∙ ap (λ st. read st ((b'0' + n % 10) ∷ [])) (read-digits fuel (n / 10) total (omega arith))
      ∙ read-digit total (n / 10) (n % 10) (omega arith)
      ∙ ap (λ k. (total, k)) (omega arith)
]

read-unit :
    (total n letter factor : ℕ)
    → seconds_of letter ≡ factor
    → number_with n letter ≡ 0
    → read (total, 0) (unit n letter) ≡ (total + n * factor, 0)
unfolding read
read-unit total n letter factor e e' =
    read-append (decimal n) (letter ∷ []) (total, 0)
    ∙ ap (λ st. read st (letter ∷ [])) (read-digits (suc n) n total (omega arith))
    ∙ rw (e, e') refl

read-more :
    (text : List ℕ) (total n letter factor : ℕ)
    → seconds_of letter ≡ factor
    → number_with n letter ≡ 0
    → read (0, 0) text ≡ (total, 0)
    → read (0, 0) (text ++ (b' ' ∷ unit n letter)) ≡ (total + n * factor, 0)
unfolding read
read-more text total n letter factor e e' before =
    let still : total + 0 * 0 ≡ total = omega arith in
    read-append text (b' ' ∷ unit n letter) (0, 0)
    ∙ ap (λ st. read st (b' ' ∷ unit n letter)) before
    ∙ ap (λ k. read (k, 0) (unit n letter)) still
    ∙ read-unit total n letter factor e e'

-- The text of an age, read as days, hours, minutes and seconds, is the number of seconds that it was
-- made from.
pub read-format_age : (secs : ℕ) → read_age (format_age secs) ≡ secs
unfolding format_age
read-format_age secs =
    let d = secs / 86400 in
    let h = (secs % 86400) / 3600 in
    let m = (secs % 3600) / 60 in
    let s = secs % 60 in
    let seconds = read-unit 0 s b's' 1 refl refl in
    let minutes = read-more (unit m b'm') _ s b's' 1 refl refl (read-unit 0 m b'm' 60 refl refl) in
    let hours =
      read-more (unit h b'h' ++ (b' ' ∷ unit m b'm')) _ s b's' 1 refl refl
        (read-more (unit h b'h') _ m b'm' 60 refl refl (read-unit 0 h b'h' 3600 refl refl)) in
    let days =
      read-more (unit d b'd' ++ (b' ' ∷ unit h b'h') ++ (b' ' ∷ unit m b'm')) _ s b's' 1 refl refl (
        read-more (unit d b'd' ++ (b' ' ∷ unit h b'h')) _ m b'm' 60 refl refl
          (read-more (unit d b'd') _ h b'h' 3600 refl refl (read-unit 0 d b'd' 86400 refl refl))) in
    let from =
      λ (text : List ℕ) (st : ℕ × ℕ) (e : format_age secs ≡ text) (r : read (0, 0) text ≡ st).
        ap (λ l. (read (0, 0) l).0) e ∙ ap (λ x. x.0) r in
    elim (dec_lt 0 d) [
      | yes some_days ↦ from _ _ (ground arith) days ∙ omega arith
      | no no_days ↦ elim (dec_lt 0 h) [
        | yes some_hours ↦ from _ _ (ground arith) hours ∙ omega arith
        | no no_hours ↦ elim (dec_lt 0 m) [
          | yes some_minutes ↦ from _ _ (ground arith) minutes ∙ omega arith
          | no no_minutes ↦ from _ _ (ground arith) seconds ∙ omega arith
        ]
      ]
    ]
