-- ===== src/Order/Buffer.antt =====
-- `class Buffer` of buffer/source/order.cpp.
use casual.Bytes.{ByteOrder, plus, minus, bytes_long, c_string}
use casual.Base.{
  ℕ, ◌+◌, Bool, true, false, Option, none, some, List, [], ◌∷◌, ◌++◌, length, take, drop, ltb,
  if◌then◌else◌,
}

-- `payload.memory` with its capacity, and `m_selector`. A byte is a number.
pub record Buffer : Type 0 where
  pub capacity : ℕ
  pub memory : List ℕ
  pub selector : ℕ

-- What is written and read: the bits of a number and its width in bytes, a string without the null
-- at its end, and a size with the bytes that it counts. A size is the bits of a `long`.
pub data Value : Type 0 where
  number : ℕ → ℕ → Value
  string : List ℕ → Value
  binary : ℕ → List ℕ → Value

-- Which overload of `select` is called.
pub data Kind : Type 0 where
  a_number : ℕ → Kind
  a_string : Kind
  a_binary : Kind

abbrev pub reserved : Buffer → ℕ
reserved b = b.capacity

abbrev pub utilized : Buffer → ℕ
utilized b = length b.memory

abbrev pub consumed : Buffer → ℕ
consumed b = b.selector

unfoldable pub clear : Buffer → Buffer
clear b = record b { memory = []; selector = 0 }

unfoldable pub reset : Buffer → Buffer
reset b = record b { selector = 0 }

-- `payload.memory.insert( payload.memory.end(), ...)`.
abbrev pub insert : List ℕ → Buffer → Buffer
insert bytes b = record b { memory = b.memory ++ bytes }

-- `Buffer::copy`: the target gets the memory in its own capacity, if that is enough.
unfoldable pub copy : Buffer → Buffer → Bool × Buffer
copy target source =
    if ltb (reserved target) (utilized source)
    then (false, target)
    else (true, record target { memory = source.memory; selector = 0 })

-- What follows the two searches for an end: a count that is there is consumed.
unfoldable pub advance : {A : Type 0} → ℕ → A → Buffer → Option A × Buffer
advance count value b =
    if ltb (minus (utilized b) (consumed b)) count
    then (none, b)
    else (some value, record b { selector = plus b.selector count })

unfoldable pub as_value : {A : Type 0} → (A → Value) → Option A × Buffer → Option Value × Buffer
as_value f (none, b) = (none, b)
as_value f (some a, b) = (some (f a), b)

-- `append( const char*)`.
unfoldable pub append_string : List ℕ → Buffer → Bool × Buffer
append_string s b =
    if ltb (minus (reserved b) (utilized b)) (length s + 1)
    then (false, b)
    else (true, insert (s ++ 0 ∷ []) b)

-- What follows `strlen`, which finds the string up to its null.
unfoldable pub select_terminated : Option (List ℕ) → Buffer → Option (List ℕ) × Buffer
select_terminated none b = (none, b)
select_terminated (some s) b = advance (length s + 1) s b

-- `select( const char*&)`. If there is no null in the memory, `strlen` runs past its end, and
-- what it returns is too large whatever is there.
unfoldable pub select_string : Buffer → Option (List ℕ) × Buffer
select_string b = select_terminated (c_string (drop b.selector b.memory)) b

-- `select( const_data_type&, long&)`, once the size is there or not.
unfoldable pub select_data : Option ℕ × Buffer → Option (ℕ × List ℕ) × Buffer
select_data (none, b) = (none, b)
select_data (some size, b) =
    if ltb (utilized b) (plus (consumed b) size)
    then (none, record b { selector = minus b.selector bytes_long })
    else (
      some (size, take size (drop b.selector b.memory)),
      record b { selector = plus b.selector size },
    )

module _ (order : ByteOrder) where
  -- `append( const T)`.
  unfoldable pub append_number : ℕ → ℕ → Buffer → Bool × Buffer
  append_number width bits b =
      if ltb (minus (reserved b) (utilized b)) width
      then (false, b)
      else (true, insert (order.encode width bits) b)

  -- `append( const_data_type, long)`. The result of the `append` of the size is not looked at.
  unfoldable pub append_binary : ℕ → List ℕ → Buffer → Bool × Buffer
  append_binary size bytes b =
      if ltb (minus (reserved b) (utilized b)) (plus bytes_long size)
      then (false, b)
      else (true, insert (take size bytes) (append_number bytes_long size b).1)

  unfoldable pub append : Value → Buffer → Bool × Buffer
  append (number width bits) = append_number width bits
  append (string s) = append_string s
  append (binary size bytes) = append_binary size bytes

  -- `select( T&)`. The source reads the bytes before it looks whether they are there.
  unfoldable pub select_number : ℕ → Buffer → Option ℕ × Buffer
  select_number width b =
      advance width (order.decode width (take width (drop b.selector b.memory))) b

  unfoldable pub select_binary : Buffer → Option (ℕ × List ℕ) × Buffer
  select_binary b = select_data (select_number bytes_long b)

  unfoldable pub select : Kind → Buffer → Option Value × Buffer
  select (a_number width) b = as_value (number width) (select_number width b)
  select a_string b = as_value string (select_string b)
  select a_binary b = as_value (λ (size, bytes). binary size bytes) (select_binary b)
