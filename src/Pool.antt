-- ===== src/Pool.antt =====
-- The pool of common/include/common/buffer/pool.h: buffers of one type under their handles.
use casual.Base.{ℕ, Bool, Option, List, find_if, update_first, erase_first, ◌==◌}

-- A buffer with its handle, the address of its memory.
pub record Entry (B : Type 0) : Type 0 where
  pub handle : ℕ
  pub buffer : B

module _ {B : Type 0} where
  abbrev pub has_handle : ℕ → Entry B → Bool
  has_handle h e = e.handle == h

  -- `find` of a buffer type's interface: the exception of `get` on an unknown handle becomes a null
  -- pointer.
  unfoldable pub find : ℕ → List (Entry B) → Option (Entry B)
  find h = find_if (has_handle h)

  -- A write through the pointer that `find` returned. A buffer that grows within its capacity keeps
  -- its handle.
  unfoldable pub store : ℕ → B → List (Entry B) → List (Entry B)
  store h b = update_first (has_handle h) (λ e. record e { buffer = b })

  -- `basic_pool::deallocate`.
  unfoldable pub deallocate : ℕ → List (Entry B) → List (Entry B)
  deallocate h = erase_first (has_handle h)
