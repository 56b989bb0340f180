-- ===== src/Order/Format.antt =====
-- What the memory of an order buffer holds, as the comment at the top of buffer/source/order.cpp
-- tells it, and the states in which a buffer can be.
use casual.Bytes.{ByteOrder, bytes_long, half}
use casual.Base.{ℕ, ◌+◌, ◌^◌, ◌≤◌, ◌<◌, ◌≡◌, ◌≢◌, List, [], ◌∷◌, ◌++◌, length, All}
use casual.Order.Buffer.{Buffer, Value, number, string, binary, Kind, a_number, a_string, a_binary}

-- The selector is within the memory, and the memory within its capacity.
pub record IsValid (b : Buffer) : Type 0 where
  pub within : b.selector ≤ length b.memory
  pub fits : length b.memory ≤ b.capacity
  pub bounded : b.capacity < half

-- A number has one of the widths and fits, a string is shorter than a vector can be and has no null
-- within it, and a size is that of its bytes.
abbrev pub IsValue : Value → Type 0
IsValue (number width bits) = (width ≤ 8) × (bits < 256 ^ width)
IsValue (string s) = (length s + 1 < half) × All (λ b. b ≢ 0) s
IsValue (binary size bytes) = (length bytes ≡ size) × (size + 8 < half)

-- A number in network byte order, a string with its null, bytes after their size.
abbrev pub encoding : ByteOrder → Value → List ℕ
encoding order (number width bits) = order.encode width bits
encoding order (string s) = s ++ 0 ∷ []
encoding order (binary size bytes) = order.encode bytes_long size ++ bytes

abbrev pub kind_of : Value → Kind
kind_of (number width bits) = a_number width
kind_of (string s) = a_string
kind_of (binary size bytes) = a_binary
