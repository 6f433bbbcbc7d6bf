-- ===== src/SessionLog/Sequence.antt =====
-- Where a log is cut, told from its bytes: control sequences as `ESC`, `[`, parameters and a final byte,
-- the short escapes of two bytes, and the bytes that continue a character of UTF-8.
use hytch.Common.{
  ℕ, zero, suc, ◌+◌, ◌≤◌, ◌<◌, ◌≡◌, ◌≢◌, refl, subst, ◌⊎◌, inl, inr, Bool, true, false, not, ◌&&◌,
  List, [], ◌∷◌, length, get_or, ltb, leb, ◌==◌, if◌then◌else◌, arith, Bool-cases,
}
use native.Mathlib.Decide.{dec_lt}
use hytch.SessionLog.{is_final_byte, any_final, escape_sequence_terminated, is_continuation}

-- The bytes from `@` to `~`, and those of which the two upper bits are `10`.
abbrev pub IsFinal : ℕ → Type 0
IsFinal b = (64 ≤ b) × (b ≤ 126)

abbrev pub Continues : ℕ → Type 0
Continues b = (128 ≤ b) × (b < 192)

-- The escape at `i` is not over at `cut`: only its `ESC` is before it, or it is a control sequence of
-- which the final byte is not.
abbrev pub IsSplit : List ℕ → ℕ → ℕ → Type 0
IsSplit buf cut i =
    (i + 1 ≡ cut)
    ⊎ ((get_or buf (i + 1) 0 ≡ b'[') × ((j : ℕ) → i + 2 ≤ j → j < cut → ¬ IsFinal (get_or buf j 0)))

-- It is over: it is no control sequence, or its final byte is before `cut`.
abbrev pub IsWhole : List ℕ → ℕ → ℕ → Type 0
IsWhole buf cut i =
    (i + 1 < cut)
    × ((get_or buf (i + 1) 0 ≢ b'[')
        ⊎ ((j : ℕ) × (i + 2 ≤ j) × (j < cut) × IsFinal (get_or buf j 0)))

-- `s` is the place of an `ESC`, at most 64 bytes before the cut, which splits its sequence.
pub record BeforeSequence (buf : List ℕ) (cut s : ℕ) : Type 0 where
  pub near : cut ≤ s + 64
  pub before : s < cut
  pub is_esc : get_or buf s 0 ≡ 0x1b
  pub is_split : IsSplit buf cut s

-- `s` is the first place from the cut on where no byte continues a character, and the last `ESC` of the
-- 64 bytes before the cut, if there is one, begins a sequence that the cut does not split.
pub record BeforeCharacter (buf : List ℕ) (cut s : ℕ) : Type 0 where
  pub behind : cut ≤ s
  pub inside : s ≤ length buf
  pub skipped : (i : ℕ) → cut ≤ i → i < s → Continues (get_or buf i 0)
  pub starts : (s ≡ length buf) ⊎ (¬ Continues (get_or buf s 0))
  pub is_whole :
      (i : ℕ)
      → cut ≤ i + 64
      → i < cut
      → get_or buf i 0 ≡ 0x1b
      → ((j : ℕ) → i < j → j < cut → get_or buf j 0 ≢ 0x1b)
      → IsWhole buf cut i

-- A test that holds of all bytes.
all_below : (ℕ → Bool) → ℕ → Bool
all_below f zero = true
all_below f (suc n) = if f n then all_below f n else false

all_below_lem : (f : ℕ → Bool) (n i : ℕ) → all_below f n ≡ true → i < n → f i ≡ true
unfolding all_below
all_below_lem f zero i e h = absurd (omega arith)
all_below_lem f (suc n) i e h = elim (Bool-cases (f n)) [
  | inr e' ↦ absurd (ground arith)
  | inl e' ↦ elim (dec_lt i n) [
    | yes p ↦ all_below_lem f n i (ground arith) p
    | no p ↦ let same : n ≡ i = omega arith in subst (λ k. f k ≡ true) same e'
  ]
]

abbrev upper_bits : ℕ → Bool
upper_bits b = if leb 128 b && ltb b 192 then is_continuation b else not (is_continuation b)

all_upper_bits : all_below upper_bits 256 ≡ true
unfolding all_below
all_upper_bits = refl

pub continues :
    (b : ℕ)
    → b < 256
    → ((is_continuation b ≡ true) × Continues b) ⊎ ((is_continuation b ≡ false) × ¬ Continues b)
continues b h =
    let e = all_below_lem upper_bits 256 b all_upper_bits h in
    elim (dec_lt b 128) [
      | yes p ↦ inr (ground arith, λ q. omega arith)
      | no p ↦ elim (dec_lt b 192) [
        | yes q ↦ inl (ground arith, (omega arith, omega arith))
        | no q ↦ inr (ground arith, λ q'. omega arith)
      ]
    ]

-- The code's test for the final byte.
abbrev HasFinal : List ℕ → Type 0
HasFinal bytes = (j : ℕ) × (j < length bytes) × IsFinal (get_or bytes j 0)

abbrev HasNone : List ℕ → Type 0
HasNone bytes = (j : ℕ) → j < length bytes → ¬ IsFinal (get_or bytes j 0)

HasNone-cons : (b : ℕ) (bs : List ℕ) → ¬ IsFinal b → HasNone bs → HasNone (b ∷ bs)
HasNone-cons b bs p q zero h = p
HasNone-cons b bs p q (suc j) h = q j (omega arith)

is_final_byte_lem :
    (b : ℕ) → ((is_final_byte b ≡ true) × IsFinal b) ⊎ ((is_final_byte b ≡ false) × ¬ IsFinal b)
is_final_byte_lem b = elim (dec_lt b 64) [
  | yes p ↦ inr (ground arith, λ q. omega arith)
  | no p ↦ elim (dec_lt 126 b) [
    | yes q ↦ inr (ground arith, λ q'. omega arith)
    | no q ↦ inl (ground arith, (omega arith, omega arith))
  ]
]

any_final_lem :
    (bytes : List ℕ)
    → ((any_final bytes ≡ true) × HasFinal bytes) ⊎ ((any_final bytes ≡ false) × HasNone bytes)
unfolding any_final
any_final_lem [] = inr (refl, λ j h q. omega arith)
any_final_lem (b ∷ bs) = elim (is_final_byte_lem b) [
  | inl (e, p) ↦ inl (ground arith, (0, omega arith, p))
  | inr (e, p) ↦ elim (any_final_lem bs) [
    | inl (e', (j, h, q)) ↦ inl (ground arith, (suc j, omega arith, q))
    | inr (e', q) ↦ inr (ground arith, HasNone-cons b bs p q)
  ]
]

-- The code's test for the end of an escape, of which `seq` has at least the `ESC`.
pub terminated_lem :
    (e : ℕ) (seq : List ℕ)
    → ((escape_sequence_terminated (e ∷ seq) ≡ true) × IsWhole (e ∷ seq) (length (e ∷ seq)) 0)
      ⊎ ((escape_sequence_terminated (e ∷ seq) ≡ false) × IsSplit (e ∷ seq) (length (e ∷ seq)) 0)
unfolding escape_sequence_terminated
terminated_lem e [] = inr (refl, inl refl)
terminated_lem e (b ∷ rest) = elim (Bool-cases (b == b'[')) [
  | inr p ↦ inl (ground arith, (omega arith, inl (λ q. ground arith)))
  | inl p ↦ elim (any_final_lem rest) [
    | inl (f, (j, h, q)) ↦
        inl (ground arith, (omega arith, inr (suc (suc j), omega arith, omega arith, q)))
    | inr (f, q) ↦ inr (ground arith, inr (ground arith, none_final q))
  ]
]
  where
    none_final :
        HasNone rest
        → (j : ℕ) → 2 ≤ j
        → j < length (e ∷ b ∷ rest)
        → ¬ IsFinal (get_or (e ∷ b ∷ rest) j 0)
    none_final q zero lo hi = absurd (omega arith)
    none_final q (suc zero) lo hi = absurd (omega arith)
    none_final q (suc (suc j)) lo hi = q j (omega arith)
