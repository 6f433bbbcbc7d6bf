-- ===== src/Proto/ListBytes.antt =====
-- Buffers as plain lists: the `bytes` operations can be had with their documented effect.
use hytch.Common.{ℕ, ◌+◌, ◌*◌, ◌/◌, ◌%◌, ◌^◌, refl, List, [], ◌∷◌, ◌++◌, take, drop}
use hytch.Proto.Buffer.{BytesCrate}

abbrev get_byte : List ℕ → ℕ × List ℕ
get_byte [] = (0, [])
get_byte (x ∷ xs) = (x, xs)

abbrev get_pair : List ℕ → ℕ × List ℕ
get_pair (x ∷ y ∷ xs) = (x * 256 + y, xs)
get_pair _ = (0, [])

abbrev pub list_bytes : BytesCrate
list_bytes = record {
  put_u8 = λ dst n. dst ++ (n ∷ []);
  put_u16 = λ dst n. dst ++ (n / 256 ∷ n % 256 ∷ []);
  put_u32 = λ dst n. dst ++ (n / 2 ^ 24 ∷ n / 2 ^ 16 % 256 ∷ n / 2 ^ 8 % 256 ∷ n % 256 ∷ []);
  extend_from_slice = λ dst xs. dst ++ xs;
  split_to = λ src n. (take n src, drop n src);
  advance = λ src n. drop n src;
  get_u8 = get_byte;
  get_u16 = get_pair;
  put_u8_lem = λ dst n. refl;
  put_u16_lem = λ dst n h. refl;
  put_u32_lem = λ dst n h. refl;
  extend_from_slice_lem = λ dst xs. refl;
  split_to_lem = λ src n h. refl;
  advance_lem = λ src n h. refl;
  get_u8_lem = λ x xs. refl;
  get_u16_lem = λ x y xs. refl;
}
