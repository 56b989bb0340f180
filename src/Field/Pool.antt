-- ===== src/Field/Pool.antt =====
-- The interface of buffer/source/field.cpp: operations on the buffer that a handle names.
use casual.Base.{
  ℕ, zero, suc, Bool, true, false, not, ◌&&◌, Option, none, some, List, [], ◌∷◌, ◌++◌, ◌==◌, ltb,
  if◌then◌else◌,
}
use Prim.Native.Nat.{◌/◌}
use casual.Bytes.{ByteOrder, half}
use casual.Pool.{Entry, find, store}
use casual.Field.Buffer.{
  Buffer, find_index, count_entries, count_id, reserved, utilized, append, select, update,
  update_number, remove, length_of,
}
use casual.Field.Buffer

-- The codes of buffer/field.h that the interface returns.
pub data Code : Type 0 where
  success no_space no_occurrence invalid_buffer invalid_id : Code

abbrev pub Pool : Type 0
Pool = List (Entry Buffer)

-- `CASUAL_FIELD_TYPE_BASE`.
abbrev pub type_base : ℕ
type_base = 33554432

-- `type == id / CASUAL_FIELD_TYPE_BASE`, for a type from 1 to 7: the quotient of a negative id is
-- negative or 0, and that of its 64 bits is more than 7.
unfoldable pub has_type : ℕ → ℕ → Bool
has_type id type = type == (id / type_base)

-- `Allocator::allocate`, for the address that the memory gets.
unfoldable pub allocate : ℕ → ℕ → Pool → Pool
allocate address size pool =
    pool
    ++ record {
      handle = address;
      buffer = record { capacity = if size == 0 then 1 else size; memory = []; index = [] };
    }
      ∷ []

unfoldable pub changed : Code → ℕ → Bool × Buffer → Pool → Code × Pool
changed failure h (true, b) pool = (success, store h b pool)
changed failure h (false, b) pool = (failure, store h b pool)

-- `id > CASUAL_FIELD_NO_ID`, of a long.
unfoldable pub is_id : ℕ → Bool
is_id id = ltb 0 id && ltb id half

unfoldable pub behind :
    ℕ × ℕ → Option (List (ℕ × ℕ) × List (ℕ × ℕ)) → Option (List (ℕ × ℕ) × List (ℕ × ℕ))
behind entry none = none
behind entry (some (through, rest)) = some (entry ∷ through, rest)

-- The entries up to an occurrence of an id, and those after it.
unfoldable pub split_after : ℕ → ℕ → List (ℕ × ℕ) → Option (List (ℕ × ℕ) × List (ℕ × ℕ))
unfolding behind
split_after id n [] = none
split_after id zero ((j, at) ∷ entries) =
    let rest = split_after id zero entries in
    if j == id then some ((j, at) ∷ [], entries) else behind (j, at) rest
split_after id (suc n) ((j, at) ∷ entries) =
    behind (j, at) (split_after id (if j == id then n else suc n) entries)

-- The entry after those up to the current one: its id, and which of the id's occurrences it is.
unfoldable pub adjacent : Option (List (ℕ × ℕ) × List (ℕ × ℕ)) → Code × Option (ℕ × ℕ)
adjacent none = (invalid_id, none)
adjacent (some (through, [])) = (no_occurrence, none)
adjacent (some (through, (j, at) ∷ rest)) = (success, some (j, count_entries j through))

unfoldable pub next_found : ℕ → ℕ → Option (Entry Buffer) → Code × Option (ℕ × ℕ)
unfolding split_after adjacent
next_found id n none = (invalid_buffer, none)
next_found id n (some e) = adjacent (split_after id n e.buffer.index)

-- `next`: the id and the occurrence that follow.
unfoldable pub next : ℕ → ℕ → ℕ → Pool → Code × Option (ℕ × ℕ)
unfolding next_found
next h id n pool = next_found id n (find h pool)

unfoldable pub first_of : List (ℕ × ℕ) → Code × Option (ℕ × ℕ)
first_of [] = (no_occurrence, none)
first_of ((id, at) ∷ entries) = (success, some (id, 0))

-- `first`.
unfoldable pub first : ℕ → Pool → Code × Option (ℕ × ℕ)
unfolding first_of
first h pool = elim (find h pool) [
  | none ↦ (invalid_buffer, none)
  | some e ↦ first_of e.buffer.index
]

-- `exist`, and `count` of an id and of all.
unfoldable pub exist : ℕ → ℕ → ℕ → Pool → Code
exist h id n pool = elim (find h pool) [
  | none ↦ invalid_buffer
  | some e ↦ elim (find_index id n e.buffer.index) [ none ↦ no_occurrence | some at ↦ success ]
]

unfoldable pub count_of : ℕ → ℕ → Pool → Code × Option ℕ
count_of h id pool = elim (find h pool) [
  | none ↦ (invalid_buffer, none)
  | some e ↦ (success, some (count_id id e.buffer))
]

unfoldable pub count : ℕ → Pool → Code × Option ℕ
count h pool = elim (find h pool) [
  | none ↦ (invalid_buffer, none)
  | some e ↦ (success, some (Buffer.count e.buffer))
]

unfoldable pub reset : ℕ → Pool → Code × Pool
reset h pool = elim (find h pool) [
  | none ↦ (invalid_buffer, pool)
  | some e ↦ (success, store h (Buffer.reset e.buffer) pool)
]

-- The size and what is used of it.
unfoldable pub explore : ℕ → Pool → Code × Option (ℕ × ℕ)
explore h pool = elim (find h pool) [
  | none ↦ (invalid_buffer, none)
  | some e ↦ (success, some (reserved e.buffer, utilized e.buffer))
]

unfoldable pub copy_found : ℕ → Option (Entry Buffer) → Option (Entry Buffer) → Pool → Code × Pool
unfolding changed
copy_found h (some target) (some source) pool =
    changed no_space h (Buffer.copy target.buffer source.buffer) pool
copy_found h _ _ pool = (invalid_buffer, pool)

unfoldable pub copy : ℕ → ℕ → Pool → Code × Pool
unfolding copy_found
copy target source pool = copy_found target (find target pool) (find source pool) pool

-- What an update takes: a character or number, of a width in bytes, or the bytes of a string, with
-- its terminator, or of binary data.
pub data Value : Type 0 where
  number : ℕ → ℕ → Value
  text : List ℕ → Value

-- Why an update failed.
unfoldable pub failure : Option ℕ → Code
failure none = no_occurrence
failure (some at) = no_space

module _ (order : ByteOrder) where
  -- `add`, of a value's bytes.
  unfoldable pub add : ℕ → ℕ → ℕ → List ℕ → Pool → Code × Pool
  unfolding has_type changed
  add h id type bytes pool =
      if not (has_type id type) then (invalid_id, pool) else elim (find h pool) [
        | none ↦ (invalid_buffer, pool)
        | some e ↦ changed no_space h (append order id bytes e.buffer) pool
      ]

  -- `get`: the size, and the bytes from the pointer on.
  unfoldable pub get : ℕ → ℕ → ℕ → ℕ → Pool → Code × Option (ℕ × List ℕ)
  unfolding has_type
  get h id n type pool = if not (has_type id type) then (invalid_id, none) else elim (find h pool) [
    | none ↦ (invalid_buffer, none)
    | some e ↦ elim (select order id n e.buffer) [
      | none ↦ (no_occurrence, none)
      | some v ↦ (success, some v)
    ]
  ]

  -- The overload of `Buffer::update` that the value chooses.
  unfoldable pub update_value : ℕ → ℕ → Value → Buffer → Bool × Buffer
  update_value id n (number width bits) = update_number order width id n bits
  update_value id n (text bytes) = update order id n bytes

  unfoldable pub change_found : ℕ → ℕ → ℕ → Value → Option (Entry Buffer) → Pool → Code × Pool
  unfolding changed failure update_value
  change_found h id n value none pool = (invalid_buffer, pool)
  change_found h id n value (some e) pool =
      let result = update_value id n value e.buffer in
      changed (failure (find_index id n result.1.index)) h result pool

  -- `update`: if it fails, whether the occurrence is there tells why.
  unfoldable pub change : ℕ → ℕ → ℕ → ℕ → Value → Pool → Code × Pool
  unfolding has_type change_found
  change h id n type value pool =
      if not (has_type id type)
      then (invalid_id, pool)
      else change_found h id n value (find h pool) pool

  -- `remove`.
  unfoldable pub discard : ℕ → ℕ → ℕ → Pool → Code × Pool
  unfolding is_id changed
  discard h id n pool = if not (is_id id) then (invalid_id, pool) else elim (find h pool) [
    | none ↦ (invalid_buffer, pool)
    | some e ↦ changed no_occurrence h (remove order id n e.buffer) pool
  ]

  -- `length`.
  unfoldable pub length_at : ℕ → ℕ → ℕ → Pool → Code × Option ℕ
  length_at h id n pool = elim (find h pool) [
    | none ↦ (invalid_buffer, none)
    | some e ↦ elim (length_of order id n e.buffer) [
      | none ↦ (no_occurrence, none)
      | some size ↦ (success, some size)
    ]
  ]
