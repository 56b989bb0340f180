-- ===== src/Bytes/Network.antt =====
-- Network byte order: the most significant byte is first.
use Prim.Native.Nat.{◌/◌}
use casual.Base.{
  ℕ, zero, suc, ◌+◌, ◌*◌, ◌%◌, ◌^◌, ◌<◌, ◌≡◌, refl, List, [], ◌∷◌, ◌++◌, arith, length,
  length-append,
}
use casual.Bytes.{ByteOrder, IsByteOrder}

unfoldable pub big_endian : ℕ → ℕ → List ℕ
big_endian zero bits = []
big_endian (suc width) bits = big_endian width (bits / 256) ++ bits % 256 ∷ []

unfoldable pub from_big_endian : ℕ → List ℕ → ℕ
from_big_endian read [] = read
from_big_endian read (b ∷ bytes) = from_big_endian (read * 256 + b) bytes

abbrev pub network : ByteOrder
network = record { encode = big_endian; decode = λ width bytes. from_big_endian 0 bytes }

length-big_endian : (width bits : ℕ) → length (big_endian width bits) ≡ width
unfolding big_endian
length-big_endian zero bits = refl
length-big_endian (suc width) bits =
    let rest = length-big_endian width (bits / 256) in
    let all = length-append (big_endian width (bits / 256)) (bits % 256 ∷ []) in omega arith

from_big_endian-append :
    (read b : ℕ) (bytes : List ℕ)
    → from_big_endian read (bytes ++ b ∷ []) ≡ from_big_endian read bytes * 256 + b
unfolding from_big_endian
from_big_endian-append read b [] = refl
from_big_endian-append read b (c ∷ bytes) = from_big_endian-append (read * 256 + c) b bytes

from_big_endian-big_endian :
    (width bits : ℕ) → bits < 256 ^ width → from_big_endian 0 (big_endian width bits) ≡ bits
unfolding from_big_endian big_endian
from_big_endian-big_endian zero bits h = omega arith
from_big_endian-big_endian (suc width) bits h =
    let rest = from_big_endian-big_endian width (bits / 256) (omega arith) in
    let all = from_big_endian-append 0 (bits % 256) (big_endian width (bits / 256)) in omega arith

pub network-IsByteOrder : IsByteOrder network
network-IsByteOrder = record {
  length-encode = length-big_endian;
  decode-encode = from_big_endian-big_endian;
}
