-- ===== src/Proto/Buffer.antt =====
-- What the codec uses of the `bytes` crate, which is not part of the repository: the operations of
-- `Buf`, `BufMut` and `BytesMut` on the bytes that a buffer holds, with their documented effect.
use hytch.Common.{
  ℕ, ◌+◌, ◌*◌, ◌/◌, ◌%◌, ◌^◌, ◌≤◌, ◌<◌, ◌≡◌, List, [], ◌∷◌, ◌++◌, length, take, drop,
}

pub record BytesCrate : Type 0 where
  -- `BufMut`: each operation appends to the buffer.
  pub put_u8 : List ℕ → ℕ → List ℕ
  pub put_u16 : List ℕ → ℕ → List ℕ
  pub put_u32 : List ℕ → ℕ → List ℕ
  pub extend_from_slice : List ℕ → List ℕ → List ℕ
  -- `BytesMut::split_to` returns the front and keeps the rest; `advance` drops the front.
  pub split_to : List ℕ → ℕ → List ℕ × List ℕ
  pub advance : List ℕ → ℕ → List ℕ
  -- `Buf`: a number from the front, and what is left.
  pub get_u8 : List ℕ → ℕ × List ℕ
  pub get_u16 : List ℕ → ℕ × List ℕ
  -- Numbers are written and read big-endian.
  pub put_u8_lem : (dst : List ℕ) (n : ℕ) → put_u8 dst n ≡ dst ++ (n ∷ [])
  pub put_u16_lem :
      (dst : List ℕ) (n : ℕ) → n < 2 ^ 16 → put_u16 dst n ≡ dst ++ (n / 256 ∷ n % 256 ∷ [])
  pub put_u32_lem :
      (dst : List ℕ) (n : ℕ)
      → n < 2 ^ 32
      → put_u32 dst n ≡ dst ++ (n / 2 ^ 24 ∷ n / 2 ^ 16 % 256 ∷ n / 2 ^ 8 % 256 ∷ n % 256 ∷ [])
  pub extend_from_slice_lem : (dst xs : List ℕ) → extend_from_slice dst xs ≡ dst ++ xs
  pub split_to_lem :
      (src : List ℕ) (n : ℕ) → n ≤ length src → split_to src n ≡ (take n src, drop n src)
  pub advance_lem : (src : List ℕ) (n : ℕ) → n ≤ length src → advance src n ≡ drop n src
  pub get_u8_lem : (x : ℕ) (xs : List ℕ) → get_u8 (x ∷ xs) ≡ (x, xs)
  pub get_u16_lem : (x y : ℕ) (xs : List ℕ) → get_u16 (x ∷ y ∷ xs) ≡ (x * 256 + y, xs)
