-- ===== src/Field/Buffer.antt =====
-- `class Buffer` of buffer/source/field.cpp. A `long` is its 64 bits, also an id and an offset.
use casual.Base.{
  ℕ, zero, suc, ◌+◌, Bool, true, false, Option, none, some, List, [], ◌∷◌, ◌++◌, length, take, drop,
  ltb, ◌==◌, if◌then◌else◌,
}
use casual.Bytes.{ByteOrder, plus, minus, bytes_long, c_string}

-- `payload.memory` with its capacity, and `m_index`: the id and the offset of each item.
pub record Buffer : Type 0 where
  pub capacity : ℕ
  pub memory : List ℕ
  pub index : List (ℕ × ℕ)

-- An item is |id|size|value.
abbrev pub size_offset : ℕ
size_offset = 8

abbrev pub data_offset : ℕ
data_offset = 16

abbrev pub reserved : Buffer → ℕ
reserved b = b.capacity

abbrev pub utilized : Buffer → ℕ
utilized b = length b.memory

-- `index( id, occurrence)`: the offset of an occurrence of an id, counted from 0.
unfoldable pub find_index : ℕ → ℕ → List (ℕ × ℕ) → Option ℕ
find_index id n [] = none
find_index id zero ((j, at) ∷ entries) = if j == id then some at else find_index id zero entries
find_index id (suc n) ((j, at) ∷ entries) = find_index id (if j == id then n else suc n) entries

-- `update_second`, over entries.
unfoldable pub shift : ℕ → List (ℕ × ℕ) → List (ℕ × ℕ)
shift amount [] = []
shift amount ((j, at) ∷ entries) = (j, plus at amount) ∷ shift amount entries

-- The entries beyond the one that `find_index` finds are moved.
unfoldable pub shift_after : ℕ → ℕ → ℕ → List (ℕ × ℕ) → List (ℕ × ℕ)
shift_after id n amount [] = []
shift_after id zero amount ((j, at) ∷ entries) =
    (j, at) ∷ (if j == id then shift amount entries else shift_after id zero amount entries)
shift_after id (suc n) amount ((j, at) ∷ entries) =
    (j, at) ∷ shift_after id (if j == id then n else suc n) amount entries

-- `m_index.erase`, and the entries beyond are moved.
unfoldable pub erase_entry : ℕ → ℕ → ℕ → List (ℕ × ℕ) → List (ℕ × ℕ)
erase_entry id n amount [] = []
erase_entry id zero amount ((j, at) ∷ entries) =
    if j == id then shift amount entries else (j, at) ∷ erase_entry id zero amount entries
erase_entry id (suc n) amount ((j, at) ∷ entries) =
    (j, at) ∷ erase_entry id (if j == id then n else suc n) amount entries

-- `std::copy` of bytes over those at an offset.
unfoldable pub write : ℕ → List ℕ → List ℕ → List ℕ
write at bytes memory = take at memory ++ (bytes ++ drop (at + length bytes) memory)

-- `erase` of a number of bytes at an offset.
unfoldable pub erase : ℕ → ℕ → List ℕ → List ℕ
erase at count memory = take at memory ++ drop (at + count) memory

-- `insert` of bytes at an offset.
unfoldable pub insert : ℕ → List ℕ → List ℕ → List ℕ
insert at bytes memory = take at memory ++ (bytes ++ drop at memory)

unfoldable pub reset : Buffer → Buffer
reset b = record b { memory = []; index = [] }

-- `copy( const Buffer&)`.
unfoldable pub copy : Buffer → Buffer → Bool × Buffer
copy target source =
    if ltb (reserved target) (utilized source)
    then (false, target)
    else (true, record target { memory = source.memory; index = source.index })

unfoldable pub count : Buffer → ℕ
count b = length b.index

unfoldable pub count_entries : ℕ → List (ℕ × ℕ) → ℕ
count_entries id [] = 0
count_entries id ((j, at) ∷ entries) = (if j == id then 1 else 0) + count_entries id entries

-- `count( id)`.
unfoldable pub count_id : ℕ → Buffer → ℕ
unfolding count_entries
count_id id b = count_entries id b.index

-- `select( id, occurrence, value)` of a string: what the pointer points to.
unfoldable pub select_string_found : Option ℕ → Buffer → Option (Option (List ℕ))
select_string_found none b = none
select_string_found (some at) b = some (c_string (drop (at + data_offset) b.memory))

unfoldable pub select_string : ℕ → ℕ → Buffer → Option (Option (List ℕ))
select_string id n b = select_string_found (find_index id n b.index) b

-- What `remove` does to the item at an offset, whose size is known.
unfoldable pub remove_at : ℕ → ℕ → ℕ → ℕ → Buffer → Buffer
remove_at id n at size b = record b {
  memory = erase at (data_offset + size) b.memory;
  index = erase_entry id n (minus (minus 0 data_offset) size) b.index;
}

unfoldable pub indexed_by : ℕ → ℕ → Option (List (ℕ × ℕ)) → Option (List (ℕ × ℕ))
indexed_by id at none = none
indexed_by id at (some entries) = some ((id, at) ∷ entries)

unfoldable pub with_index : Buffer → Option (List (ℕ × ℕ)) → Option Buffer
with_index b none = none
with_index b (some entries) = some (record b { index = entries })

module _ (order : ByteOrder) where
  -- `decode<long>` of the bytes at an offset.
  unfoldable pub decode_long : ℕ → List ℕ → ℕ
  decode_long at memory = order.decode bytes_long (take bytes_long (drop at memory))

  -- `append( id, value, count)`, for a value of `count` bytes.
  unfoldable pub append : ℕ → List ℕ → Buffer → Bool × Buffer
  append id bytes b =
      if ltb (reserved b) (plus (plus (utilized b) data_offset) (length bytes))
      then (false, b)
      else (
        true,
        record b {
          memory =
              b.memory
              ++ (order.encode bytes_long id ++ (order.encode bytes_long (length bytes) ++ bytes));
          index = b.index ++ (id, utilized b) ∷ [];
        },
      )

  -- `append( id, value)` of a string and of a number, of which the width in bytes is given.
  unfoldable pub append_string : ℕ → List ℕ → Buffer → Bool × Buffer
  append_string id s = append id (s ++ 0 ∷ [])

  unfoldable pub append_number : ℕ → ℕ → ℕ → Buffer → Bool × Buffer
  append_number id width bits = append id (order.encode width bits)

  -- `select( id, occurrence, value, count)`: the size, and the bytes from the pointer on.
  unfoldable pub select_found : Option ℕ → Buffer → Option (ℕ × List ℕ)
  select_found none b = none
  select_found (some at) b =
      some (decode_long (at + size_offset) b.memory, drop (at + data_offset) b.memory)

  unfoldable pub select : ℕ → ℕ → Buffer → Option (ℕ × List ℕ)
  select id n b = select_found (find_index id n b.index) b

  unfoldable pub select_number_found : ℕ → Option ℕ → Buffer → Option ℕ
  select_number_found width none b = none
  select_number_found width (some at) b =
      some (order.decode width (take width (drop (at + data_offset) b.memory)))

  unfoldable pub select_number : ℕ → ℕ → ℕ → Buffer → Option ℕ
  select_number width id n b = select_number_found width (find_index id n b.index) b

  -- `length( id, index, count)`.
  unfoldable pub length_of_found : Option ℕ → Buffer → Option ℕ
  length_of_found none b = none
  length_of_found (some at) b = some (decode_long (at + size_offset) b.memory)

  unfoldable pub length_of : ℕ → ℕ → Buffer → Option ℕ
  length_of id n b = length_of_found (find_index id n b.index) b

  -- What `update( id, occurrence, data, size)` does to the item at an offset, whose size is known.
  unfoldable pub replace : ℕ → ℕ → List ℕ → ℕ → ℕ → Buffer → Bool × Buffer
  replace id n bytes at size b =
      if ltb (reserved b) (plus (minus (utilized b) size) (length bytes)) then (false, b) else (
        true,
        record b {
          memory = insert (at + data_offset) bytes (
              erase (at + data_offset) size
                (write (at + size_offset) (order.encode bytes_long (length bytes)) b.memory));
          index = shift_after id n (minus (length bytes) size) b.index;
        },
      )

  unfoldable pub update_found : ℕ → ℕ → List ℕ → Option ℕ → Buffer → Bool × Buffer
  update_found id n bytes none b = (false, b)
  update_found id n bytes (some at) b =
      replace id n bytes at (decode_long (at + size_offset) b.memory) b

  unfoldable pub update : ℕ → ℕ → List ℕ → Buffer → Bool × Buffer
  update id n bytes b = update_found id n bytes (find_index id n b.index) b

  -- `update( id, occurrence, value)` of a number: its bytes are written over the old ones.
  unfoldable pub update_number_found : ℕ → ℕ → Option ℕ → Buffer → Bool × Buffer
  update_number_found width bits none b = (false, b)
  update_number_found width bits (some at) b =
      (true, record b { memory = write (at + data_offset) (order.encode width bits) b.memory })

  unfoldable pub update_number : ℕ → ℕ → ℕ → ℕ → Buffer → Bool × Buffer
  update_number width id n bits b = update_number_found width bits (find_index id n b.index) b

  unfoldable pub remove_found : ℕ → ℕ → Option ℕ → Buffer → Bool × Buffer
  remove_found id n none b = (false, b)
  remove_found id n (some at) b =
      (true, remove_at id n at (decode_long (at + size_offset) b.memory) b)

  unfoldable pub remove : ℕ → ℕ → Buffer → Bool × Buffer
  remove id n b = remove_found id n (find_index id n b.index) b

  -- The loop of `update_index`, from a cursor that is an offset, with fuel for its rounds: what is
  -- appended to the index, or nothing if the fuel runs out.
  unfoldable pub index_from : ℕ → ℕ → List ℕ → Option (List (ℕ × ℕ))
  index_from zero cursor memory = none
  index_from (suc fuel) cursor memory =
      let rest =
        index_from fuel (plus cursor (plus data_offset (decode_long (cursor + size_offset) memory)))
          memory in
      if ltb cursor (length memory)
      then indexed_by (decode_long cursor memory) cursor rest
      else some []

  -- `update_index`. A round needs a byte at least, unless a size is negative.
  unfoldable pub update_index : Buffer → Option Buffer
  update_index b = with_index b (index_from (suc (length b.memory)) 0 b.memory)
