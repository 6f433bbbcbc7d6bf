-- ===== src/Proto/Codec/Accepts.antt =====
-- Which bytes `decode` takes for a message: what can stand in a frame.
use hytch.Common.{
  AreBytes, ℕ, zero, suc, ◌+◌, ◌*◌, ◌/◌, ◌%◌, ◌^◌, ◌≤◌, ◌<◌, ◌≡◌, ◌≢◌, refl, sym, ap, ap₂, ◌∙◌,
  subst, ◌⊎◌, inl, inr, some, List, [], ◌∷◌, ◌++◌, true, not, ◌==◌, length, take, drop, arith,
  Option-cases, take-append-drop, length-take,
}
use hytch.Common.Results.{Result, ok, err, map_ok}
use hytch.Proto.Buffer.{BytesCrate}
use hytch.Proto.Message.{
  RedrawMethod, Message, push, attach, detach, redraw, kill, from_u8, to_u8, to_u8-from_u8,
  IsMessage,
}
use hytch.Proto.Codec.{
  InvalidData, decode, decode_payload, decode_winch, decode_redraw, known_method, require_len,
  from_be_bytes,
}
use hytch.Proto.Codec.Frame.{type_of, be16, payload_of, header}
use hytch.Proto.Codec.Framing.{decode_body, decode-cons, decode_short, header_cases}

-- The payload is the one that the message is sent with, or another byte for a flag that is set.
pub data Carries (m : Message) (payload : List ℕ) : Type 0 where
  exact : payload ≡ payload_of m → Carries m payload
  flagged : (x : ℕ) → x ≢ 0 → m ≡ attach true → payload ≡ x ∷ [] → Carries m payload

record Accepted (ty : ℕ) (payload : List ℕ) (m : Message) : Type 0 where
  in_range : IsMessage m
  same_type : ty ≡ type_of m
  carries : Carries m payload

be16_of : (x y : ℕ) → y < 256 → be16 (x * 256 + y) ≡ x ∷ y ∷ []
be16_of x y h =
    let p : (x * 256 + y) / 256 ≡ x = omega arith in
    let q : (x * 256 + y) % 256 ≡ y = omega arith in rw (p, q) refl

accept_flag : (x : ℕ) → Accepted 1 (x ∷ []) (attach (not (x == 0)))
unfolding payload_of
accept_flag zero = record { in_range = tt; same_type = refl; carries = exact refl }
accept_flag (suc x) = record {
  in_range = tt;
  same_type = refl;
  carries = flagged (suc x) (omega arith) (ground arith) refl;
}

module _ (b : BytesCrate) where
  accept_winch :
      (payload : List ℕ) (m : Message)
      → AreBytes payload
      → decode_winch b payload ≡ ok m
      → Accepted 3 payload m
  unfolding decode_winch require_len payload_of
  accept_winch (x ∷ y ∷ z ∷ w ∷ []) m (p, (q, (r, (t, _)))) e =
      let same : Message.winch (x * 256 + y) (z * 256 + w) ≡ m =
        let e' : ok (Message.winch (x * 256 + y) (z * 256 + w)) ≡ ok m =
          sym (rw (b.get_u16_lem, b.get_u16_lem) refl) ∙ e in
        cc in
      subst (Accepted 3 (x ∷ y ∷ z ∷ w ∷ [])) same (record {
        in_range = (omega arith, omega arith);
        same_type = refl;
        carries = exact (sym (ap₂ ◌++◌ (be16_of x y q) (be16_of z w t)));
      })
  accept_winch [] m h e = cc
  accept_winch (x ∷ []) m h e = cc
  accept_winch (x ∷ y ∷ []) m h e = cc
  accept_winch (x ∷ y ∷ z ∷ []) m h e = cc
  accept_winch (x ∷ y ∷ z ∷ w ∷ v ∷ rest) m h e = absurd (ground arith)

  method_of : (byte : ℕ) (m : RedrawMethod) → known_method byte ≡ ok m → to_u8 m ≡ byte
  unfolding known_method
  method_of byte m e = elim (Option-cases (from_u8 byte)) [
    | inl none_such ↦ cc
    | inr (m', is) ↦ let same : m' ≡ m = cc in to_u8-from_u8 byte (is ∙ ap some same)
  ]

  known_cases :
      (byte : ℕ)
      → ((m : RedrawMethod) × (known_method byte ≡ ok m))
        ⊎ ((e : InvalidData) × (known_method byte ≡ err e))
  known_cases byte = go (known_method byte) refl
    where
      go :
          (r : Result InvalidData RedrawMethod)
          → known_method byte ≡ r
          → ((m : RedrawMethod) × (known_method byte ≡ ok m))
            ⊎ ((e : InvalidData) × (known_method byte ≡ err e))
      go (ok m) e = inl (m, e)
      go (err x) e = inr (x, e)

  accept_redraw :
      (payload : List ℕ) (m : Message)
      → AreBytes payload
      → decode_redraw b payload ≡ ok m
      → Accepted 4 payload m
  unfolding decode_redraw require_len payload_of
  accept_redraw (k ∷ x ∷ y ∷ z ∷ w ∷ []) m (o, (p, (q, (r, (t, _))))) e = elim (known_cases k) [
    | inr (x', failed) ↦
        absurd (let e' : err x' ≡ ok m = sym (rw (b.get_u8_lem, failed) refl) ∙ e in cc)
    | inl (method, known) ↦
        let same : redraw method (x * 256 + y) (z * 256 + w) ≡ m =
          let e' : ok (redraw method (x * 256 + y) (z * 256 + w)) ≡ ok m =
            sym (rw (b.get_u8_lem, known, b.get_u16_lem, b.get_u16_lem) refl) ∙ e in
          cc in
        subst (Accepted 4 (k ∷ x ∷ y ∷ z ∷ w ∷ [])) same (record {
          in_range = (omega arith, omega arith);
          same_type = refl;
          carries = exact (
              sym (
                ap₂ (λ a l. a ∷ l) (method_of k method known)
                  (ap₂ ◌++◌ (be16_of x y q) (be16_of z w t))));
        })
  ]
  accept_redraw [] m h e = cc
  accept_redraw (k ∷ []) m h e = cc
  accept_redraw (k ∷ x ∷ []) m h e = cc
  accept_redraw (k ∷ x ∷ y ∷ []) m h e = cc
  accept_redraw (k ∷ x ∷ y ∷ z ∷ []) m h e = cc
  accept_redraw (k ∷ x ∷ y ∷ z ∷ w ∷ v ∷ rest) m h e = absurd (ground arith)

  -- What each type byte accepts.
  accept_payload :
      (ty : ℕ) (payload : List ℕ) (m : Message)
      → AreBytes payload
      → length payload < 2 ^ 32
      → decode_payload b ty payload ≡ ok m
      → Accepted ty payload m
  unfolding decode_payload require_len payload_of
  accept_payload zero payload m h small e =
      let same : push payload ≡ m = cc in
      subst (Accepted 0 payload) same
        (record { in_range = small; same_type = refl; carries = exact refl })
  accept_payload (suc zero) (x ∷ []) m h small e =
      let same : attach (not (x == 0)) ≡ m = cc in subst (Accepted 1 (x ∷ [])) same (accept_flag x)
  accept_payload (suc zero) [] m h small e = cc
  accept_payload (suc zero) (x ∷ y ∷ xs) m h small e = absurd (ground arith)
  accept_payload (suc (suc zero)) [] m h small e =
      let same : detach ≡ m = cc in
      subst (Accepted 2 []) same (record { in_range = tt; same_type = refl; carries = exact refl })
  accept_payload (suc (suc zero)) (x ∷ xs) m h small e = absurd (ground arith)
  accept_payload (suc (suc (suc zero))) payload m h small e = accept_winch payload m h e
  accept_payload (suc (suc (suc (suc zero)))) payload m h small e = accept_redraw payload m h e
  accept_payload (suc (suc (suc (suc (suc zero))))) (x ∷ []) m (p, _) small e =
      let same : kill x ≡ m = cc in
      subst (Accepted 5 (x ∷ [])) same
        (record { in_range = p; same_type = refl; carries = exact refl })
  accept_payload (suc (suc (suc (suc (suc zero))))) [] m h small e = cc
  accept_payload (suc (suc (suc (suc (suc zero))))) (x ∷ y ∷ xs) m h small e = absurd (ground arith)
  accept_payload (suc (suc (suc (suc (suc (suc ty)))))) payload m h small e = absurd (ground arith)

AreBytes-take : (n : ℕ) (xs : List ℕ) → AreBytes xs → AreBytes (take n xs)
AreBytes-take zero xs h = tt
AreBytes-take (suc n) [] h = tt
AreBytes-take (suc n) (x ∷ xs) (p, h) = (p, AreBytes-take n xs h)

-- A header is the one way to write its length.
header_of :
    (ty c d e f : ℕ)
    → c < 256
    → d < 256
    → e < 256
    → f < 256
    → header ty (from_be_bytes c d e f) ≡ ty ∷ c ∷ d ∷ e ∷ f ∷ []
header_of ty c d e f p q r s =
    let n = from_be_bytes c d e f in
    let p' : n / 2 ^ 24 ≡ c = omega arith in
    let q' : n / 2 ^ 16 % 256 ≡ d = omega arith in
    let r' : n / 2 ^ 8 % 256 ≡ e = omega arith in
    let s' : n % 256 ≡ f = omega arith in
    ap₂ (λ x l. ty ∷ x ∷ l) p' (ap₂ (λ x l. x ∷ l) q' (ap₂ (λ x y. x ∷ y ∷ []) r' s'))

map_ok-some :
    (r : Result InvalidData Message) (m : Message) → map_ok some r ≡ ok (some m) → r ≡ ok m
map_ok-some (ok m') m e = cc
map_ok-some (err x) m e = cc

module _ (b : BytesCrate) (max : ℕ) where
  decode_body-some :
      (src body rest : List ℕ) (ty n : ℕ) (m : Message)
      → decode_body b max src ty n body ≡ (ok (some m), rest)
      → (n ≤ max)
        × (n ≤ length body)
        × (map_ok some (decode_payload b ty (take n body)) ≡ ok (some m))
        × (rest ≡ drop n body)
  decode_body-some src body rest ty n m h = ground arith

  -- What `decode` takes from a buffer of bytes as a message is a message, its fields in the ranges of
  -- their types and its payload within the codec's limit, and the bytes taken are its frame: its type
  -- byte, the payload's length, and the payload that it is sent with, except that a flag that is set may be
  -- any byte but 0. The limit is below 2 ^ 32.
  pub decode-IsMessage :
      (src rest : List ℕ) (m : Message)
      → AreBytes src
      → max < 2 ^ 32
      → decode b max src ≡ (ok (some m), rest)
      → (payload : List ℕ) × IsMessage m
        × (length payload ≤ max)
        × (src ≡ header (type_of m) (length payload) ++ (payload ++ rest))
        × Carries m payload
  decode-IsMessage src rest m bytes small h = elim (header_cases b max src) [
    | inl short ↦ cc (decode_short b max src short, h)
    | inr (ty, c, d, e, f, body, eq) ↦
        let n = from_be_bytes c d e f in
        let (low, whole, is, left) =
          decode_body-some (ty ∷ c ∷ d ∷ e ∷ f ∷ body) body rest ty n m
            (sym (decode-cons b max ty c d e f body) ∙ ap (decode b max) (sym eq) ∙ h) in
        let (p, (q, (r, (s, (t, more))))) = subst AreBytes eq bytes in
        let size : length (take n body) ≡ n = omega (arith, length-take n body) in
        let a =
          accept_payload b ty (take n body) m (AreBytes-take n body more) (omega arith)
            (map_ok-some _ m is) in
        (
          take n body,
          a.in_range,
          omega arith,
          eq
              ∙ ap (λ l. ty ∷ c ∷ d ∷ e ∷ f ∷ l)
                  (sym (take-append-drop n body) ∙ ap (λ l. take n body ++ l) (sym left))
              ∙ ap (λ l. l ++ (take n body ++ rest)) (sym (header_of ty c d e f q r s t))
              ∙ ap₂ (λ k l. header k l ++ (take n body ++ rest)) a.same_type (sym size),
          a.carries,
        )
  ]
