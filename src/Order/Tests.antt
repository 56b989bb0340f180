-- ===== src/Order/Tests.antt =====
-- A buffer of forty bytes, and the theorems at such inputs.
use casual.Bytes.Network.{big_endian, from_big_endian, network, network-IsByteOrder}
use casual.Base.{◌≤◌, ◌≡◌, refl, true, List, [], ◌∷◌, arith, length, All, some, map, take, drop}
use casual.Order.Buffer
use casual.Order.Pool
use casual.Order.Pool.Valid.{AllValid, operations-AllValid}
use casual.Order.Append.{append-written}
use casual.Order.Select.{move_to}
use casual.Order.Bounds.{IsMoved, select-IsMoved, select_binary-negative}
use casual.Order.Roundtrip.{append_all, select_all, encodings, select_all-append_all}
use casual.Order.Buffer.{append, select, select_binary, Buffer, Value, number, string, binary, Kind}
use casual.Order.Format.{IsValid, IsValue, kind_of}

-- A short, a string, a binary and another string.
abbrev values : List Value
values = number 2 513 ∷ string (65 ∷ 66 ∷ []) ∷ binary 3 (0 ∷ 1 ∷ 2 ∷ []) ∷ string [] ∷ []

values-IsValue : All IsValue values
values-IsValue = (
  (omega arith, omega arith),
  (
    (omega arith, ((λ e. ground arith), ((λ e. ground arith), tt))),
    ((refl, omega arith), ((omega arith, tt), tt)),
  ),
)

abbrev forty : Buffer
forty = record { capacity = 40; memory = 7 ∷ 8 ∷ 9 ∷ []; selector = 1 }

forty-IsValid : IsValid forty
forty-IsValid = record { within = omega arith; fits = omega arith; bounded = omega arith }

fit : length (encodings network values) ≤ forty.capacity
unfolding big_endian
fit = omega arith

select_all-append_all_example :
    (b' : Buffer) × (append_all network values (Buffer.clear forty) ≡ some b')
    × (select_all network (map kind_of values) (Buffer.reset b')
        ≡ (some values, move_to (length b'.memory) b'))
select_all-append_all_example =
    select_all-append_all network values forty network-IsByteOrder forty-IsValid values-IsValue fit

append-written_example :
    append network (string (65 ∷ 66 ∷ [])) forty
    ≡ (true, record { capacity = 40; memory = 7 ∷ 8 ∷ 9 ∷ 65 ∷ 66 ∷ 0 ∷ []; selector = 1 })
append-written_example =
    append-written network network-IsByteOrder forty forty-IsValid (string (65 ∷ 66 ∷ []))
      values-IsValue.1.0

select-IsMoved_example : IsMoved forty (select network Kind.a_string forty)
select-IsMoved_example = select-IsMoved network forty forty-IsValid Kind.a_string

-- The size -9 after a byte, and the selector at the size.
abbrev backwards : Buffer
backwards = record {
  capacity = 40;
  memory = 5 ∷ 255 ∷ 255 ∷ 255 ∷ 255 ∷ 255 ∷ 255 ∷ 255 ∷ 247 ∷ [];
  selector = 1;
}

backwards-IsValid : IsValid backwards
backwards-IsValid = record { within = omega arith; fits = omega arith; bounded = omega arith }

minus_nine :
    network.decode 8 (take 8 (drop backwards.selector backwards.memory)) ≡ 18446744073709551607
unfolding from_big_endian take drop
minus_nine = refl

select_binary-negative_example : select_binary network backwards ≡ (
  some (18446744073709551607, take 18446744073709551607 (drop 9 backwards.memory)),
  move_to 0 backwards,
)
select_binary-negative_example =
    select_binary-negative network backwards backwards-IsValid 18446744073709551607 (omega arith)
      minus_nine (omega arith) (omega arith) (omega arith)

abbrev two_buffers : Pool.Pool
two_buffers =
    record { handle = 100; buffer = forty } ∷ record { handle = 200; buffer = backwards } ∷ []

operations-AllValid_example :
    AllValid (Pool.add network 200 (number 2 513) two_buffers).1
    × (AllValid (Pool.get network 200 Kind.a_string two_buffers).1
        × (AllValid (Pool.copy 200 100 two_buffers).1
            × (AllValid (Pool.clear 200 two_buffers).1 × AllValid (Pool.reset 200 two_buffers).1)))
operations-AllValid_example =
    operations-AllValid network 200 100 (number 2 513) Kind.a_string two_buffers network-IsByteOrder
      values-IsValue.0 (forty-IsValid, (backwards-IsValid, tt))
