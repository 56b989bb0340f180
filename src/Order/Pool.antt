-- ===== src/Order/Pool.antt =====
-- The interface of buffer/source/order.cpp: operations on the buffer that a handle names, in the
-- pool of common/include/common/buffer/pool.h.
pub mod Valid
use casual.Bytes.{ByteOrder}
use casual.Base.{
  ℕ, zero, suc, ◌≡◌, Bool, true, false, Option, none, some, List, [], ◌∷◌, ◌++◌, length, take,
  find_if, update_first, erase_first, ◌==◌, if◌then◌else◌,
}
use casual.Base.Int.{ℤ, pos, negsuc}
use casual.Pool.{Entry, find, store}
use casual.Order.Buffer.{Buffer, Value, binary, Kind, reserved, utilized, append, select}
use casual.Order.Buffer

-- The codes of buffer/order.h.
pub data Code : Type 0 where
  success no_space no_place invalid_buffer invalid_argument : Code

abbrev pub Pool : Type 0
Pool = List (Entry Buffer)

-- `Allocator::allocate`, for the address that the memory gets.
unfoldable pub allocate : ℕ → ℕ → Pool → Pool
allocate address size pool =
    pool
    ++ record {
      handle = address;
      buffer = record { capacity = if size == 0 then 1 else size; memory = []; selector = 0 };
    }
      ∷ []

-- The size and what is used of it.
unfoldable pub explore : ℕ → Pool → Code × Option (ℕ × ℕ)
explore h pool = elim (find h pool) [
  | none ↦ (invalid_buffer, none)
  | some e ↦ (success, some (reserved e.buffer, utilized e.buffer))
]

unfoldable pub copied : ℕ → Bool × Buffer → Pool → Code × Pool
copied h (true, b) pool = (success, store h b pool)
copied h (false, b) pool = (no_space, store h b pool)

unfoldable pub copy_found : ℕ → Option (Entry Buffer) → Option (Entry Buffer) → Pool → Code × Pool
copy_found h (some target) (some source) pool =
    copied h (Buffer.copy target.buffer source.buffer) pool
copy_found h _ _ pool = (invalid_buffer, pool)

unfoldable pub copy : ℕ → ℕ → Pool → Code × Pool
copy target source pool = copy_found target (find target pool) (find source pool) pool

-- `clear` and `reset`.
unfoldable pub change : (Buffer → Buffer) → ℕ → Option (Entry Buffer) → Pool → Code × Pool
change f h none pool = (invalid_buffer, pool)
change f h (some e) pool = (success, store h (f e.buffer) pool)

unfoldable pub clear : ℕ → Pool → Code × Pool
clear h pool = change Buffer.clear h (find h pool) pool

unfoldable pub reset : ℕ → Pool → Code × Pool
reset h pool = change Buffer.reset h (find h pool) pool

unfoldable pub added : ℕ → Bool × Buffer → Pool → Code × Pool
added h (true, b) pool = (success, store h b pool)
added h (false, b) pool = (no_space, store h b pool)

unfoldable pub got : ℕ → Option Value × Buffer → Pool → (Code × Option Value) × Pool
got h (some v, b) pool = ((success, some v), store h b pool)
got h (none, b) pool = ((no_place, none), store h b pool)

module _ (order : ByteOrder) where
  unfoldable pub add_found : ℕ → Value → Option (Entry Buffer) → Pool → Code × Pool
  add_found h v none pool = (invalid_buffer, pool)
  add_found h v (some e) pool = added h (append order v e.buffer) pool

  unfoldable pub add : ℕ → Value → Pool → Code × Pool
  add h v pool = add_found h v (find h pool) pool

  -- `CasualOrderAddBinary`, with the bytes from the pointer on.
  unfoldable pub add_binary : ℕ → List ℕ → ℤ → Pool → Code × Pool
  add_binary h bytes (negsuc n) pool = (invalid_argument, pool)
  add_binary h bytes (pos size) pool = add h (binary size (take size bytes)) pool

  unfoldable pub get_found : ℕ → Kind → Option (Entry Buffer) → Pool → (Code × Option Value) × Pool
  get_found h k none pool = ((invalid_buffer, none), pool)
  get_found h k (some e) pool = got h (select order k e.buffer) pool

  unfoldable pub get : ℕ → Kind → Pool → (Code × Option Value) × Pool
  get h k pool = get_found h k (find h pool) pool
