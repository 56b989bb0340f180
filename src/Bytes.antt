-- ===== src/Bytes.antt =====
-- The memory of buffers: bytes, sizes of 64 bits, and values in network byte order.
pub mod Laws
pub mod Network
use casual.Base.{
  ℕ, zero, suc, ◌+◌, ◌-◌, ◌%◌, ◌^◌, ◌<◌, ◌≡◌, Option, none, some, List, [], ◌∷◌, length,
}

-- What `htobe16` and its like write for the bits of a value of a width, in bytes, and what their
-- inverses read back.
pub record ByteOrder : Type 0 where
  pub encode : ℕ → ℕ → List ℕ
  pub decode : ℕ → List ℕ → ℕ

-- What the code relies on: an encoding has the width, and the decoding is its inverse.
pub record IsByteOrder (order : ByteOrder) : Type 0 where
  pub length-encode : (width bits : ℕ) → length (order.encode width bits) ≡ width
  pub decode-encode :
      (width bits : ℕ) → bits < 256 ^ width → order.decode width (order.encode width bits) ≡ bits

-- `size_type` has 64 bits.
abbrev pub word : ℕ
word = 18446744073709551616

abbrev pub plus : ℕ → ℕ → ℕ
plus a b = (a + b) % word

abbrev pub minus : ℕ → ℕ → ℕ
minus a b = (a + word - b) % word

-- `byteorder::bytes<long>()`.
abbrev pub bytes_long : ℕ
bytes_long = 8

-- The largest `long`, plus one: a vector of bytes has a capacity below it.
abbrev pub half : ℕ
half = 9223372036854775808

-- The string at a pointer, if its null is within the memory.
unfoldable pub c_string : List ℕ → Option (List ℕ)
c_string [] = none
c_string (zero ∷ bytes) = some []
c_string (suc b ∷ bytes) = elim (c_string bytes) [ none ↦ none | some s ↦ some (suc b ∷ s) ]
