-- ===== src/Order/Pool/Valid.antt =====
-- Every operation of the interface keeps the buffers of the pool valid.
use casual.Bytes.{ByteOrder, IsByteOrder}
use mathlib.Core.Path.{subst}
use casual.Base.{
  sym, ℕ, ◌+◌, Bool, true, false, Bool-cases, inl, inr, Option, none, some, [], ◌∷◌, All, arith,
  length, leb, ltb, ◌==◌, find_if, update_first,
}
use casual.Order.Buffer.{Buffer, Value, Kind, append, select, utilized, reserved}
use casual.Order.Buffer
use casual.Order.Format.{IsValid, IsValue, encoding}
use casual.Order.Append.{append-written}
use casual.Order.Roundtrip.{insert-IsValid}
use casual.Order.Bounds.{select-IsMoved, IsMoved}
use casual.Pool.{Entry, find, store}
use casual.Order.Pool.{
  Pool, copied, copy_found, copy, change, clear, reset, added, got, add_found, add, get_found, get,
}

abbrev pub AllValid : Pool → Type 0
AllValid = All (λ e. IsValid e.buffer)

abbrev ValidIfFound : Option (Entry Buffer) → Type 0
ValidIfFound none = Unit
ValidIfFound (some e) = IsValid e.buffer

find-ValidIfFound : (h : ℕ) (pool : Pool) → AllValid pool → ValidIfFound (find h pool)
unfolding find find_if
find-ValidIfFound h [] all = tt
find-ValidIfFound h (e ∷ pool) all = elim (Bool-cases (e.handle == h)) [
  | inl q ↦ rw q all.0
  | inr q ↦ rw q (find-ValidIfFound h pool all.1)
]

store-AllValid :
    (h : ℕ) (b : Buffer) (pool : Pool) → IsValid b → AllValid pool → AllValid (store h b pool)
unfolding store update_first
store-AllValid h b [] valid all = tt
store-AllValid h b (e ∷ pool) valid all = elim (Bool-cases (e.handle == h)) [
  | inl q ↦ rw q (valid, all.1)
  | inr q ↦ rw q (all.0, store-AllValid h b pool valid all.1)
]

moved-IsValid :
    {A : Type 0} (b : Buffer) (r : Option A × Buffer) → IsMoved b r → IsValid b → IsValid r.1
moved-IsValid b (found, b') (n, h, e) valid =
    subst IsValid (sym e) (record { within = h; fits = valid.fits; bounded = valid.bounded })

append-IsValid :
    (order : ByteOrder) (laws : IsByteOrder order) (v : Value) (b : Buffer)
    → IsValue v
    → IsValid b
    → IsValid (append order v b).1
append-IsValid order laws v b ok valid =
    rw (append-written order laws b valid v ok)
      (elim (Bool-cases (leb (length b.memory + length (encoding order v)) b.capacity)) [
        | inl h ↦ rw h (insert-IsValid (encoding order v) b valid (ground arith))
        | inr h ↦ rw h valid
      ])

clear-IsValid : (b : Buffer) → IsValid b → IsValid (Buffer.clear b)
unfolding Buffer.clear
clear-IsValid b valid =
    let bounded = valid.bounded in
    record { within = omega arith; fits = omega arith; bounded = bounded }

reset-IsValid : (b : Buffer) → IsValid b → IsValid (Buffer.reset b)
unfolding Buffer.reset
reset-IsValid b valid = record { within = omega arith; fits = valid.fits; bounded = valid.bounded }

copy-IsValid :
    (target source : Buffer)
    → IsValid target
    → IsValid source
    → IsValid (Buffer.copy target source).1
unfolding Buffer.copy
copy-IsValid target source t s = elim (Bool-cases (ltb (reserved target) (utilized source))) [
  | inl h ↦ rw h t
  | inr h ↦ rw h (record { within = omega arith; fits = ground arith; bounded = t.bounded })
]

change-AllValid :
    (f : Buffer → Buffer) (h : ℕ) (found : Option (Entry Buffer)) (pool : Pool)
    → ((b : Buffer) → IsValid b → IsValid (f b))
    → ValidIfFound found
    → AllValid pool
    → AllValid (change f h found pool).1
unfolding change
change-AllValid f h none pool k valid all = all
change-AllValid f h (some e) pool k valid all =
    store-AllValid h (f e.buffer) pool (k e.buffer valid) all

added-AllValid :
    (h : ℕ) (r : Bool × Buffer) (pool : Pool)
    → IsValid r.1
    → AllValid pool
    → AllValid (added h r pool).1
unfolding added
added-AllValid h (true, b) pool valid all = store-AllValid h b pool valid all
added-AllValid h (false, b) pool valid all = store-AllValid h b pool valid all

copied-AllValid :
    (h : ℕ) (r : Bool × Buffer) (pool : Pool)
    → IsValid r.1
    → AllValid pool
    → AllValid (copied h r pool).1
unfolding copied
copied-AllValid h (true, b) pool valid all = store-AllValid h b pool valid all
copied-AllValid h (false, b) pool valid all = store-AllValid h b pool valid all

got-AllValid :
    (h : ℕ) (r : Option Value × Buffer) (pool : Pool)
    → IsValid r.1
    → AllValid pool
    → AllValid (got h r pool).1
unfolding got
got-AllValid h (some v, b) pool valid all = store-AllValid h b pool valid all
got-AllValid h (none, b) pool valid all = store-AllValid h b pool valid all

copy_found-AllValid :
    (h : ℕ) (target source : Option (Entry Buffer)) (pool : Pool)
    → ValidIfFound target
    → ValidIfFound source
    → AllValid pool
    → AllValid (copy_found h target source pool).1
unfolding copy_found
copy_found-AllValid h (some t) (some s) pool vt vs all =
    copied-AllValid h (Buffer.copy t.buffer s.buffer) pool (copy-IsValid t.buffer s.buffer vt vs)
      all
copy_found-AllValid h (some t) none pool vt vs all = all
copy_found-AllValid h none s pool vt vs all = all

add_found-AllValid :
    (order : ByteOrder) (laws : IsByteOrder order) (h : ℕ) (v : Value)
    (found : Option (Entry Buffer)) (pool : Pool)
    → IsValue v
    → ValidIfFound found
    → AllValid pool
    → AllValid (add_found order h v found pool).1
unfolding add_found
add_found-AllValid order laws h v none pool ok valid all = all
add_found-AllValid order laws h v (some e) pool ok valid all =
    added-AllValid h (append order v e.buffer) pool (append-IsValid order laws v e.buffer ok valid)
      all

get_found-AllValid :
    (order : ByteOrder) (h : ℕ) (k : Kind) (found : Option (Entry Buffer)) (pool : Pool)
    → ValidIfFound found
    → AllValid pool
    → AllValid (get_found order h k found pool).1
unfolding get_found
get_found-AllValid order h k none pool valid all = all
get_found-AllValid order h k (some e) pool valid all =
    got-AllValid h (select order k e.buffer) pool
      (moved-IsValid e.buffer (select order k e.buffer) (select-IsMoved order e.buffer valid k)
        valid)
      all

-- If every buffer of the pool is valid, then it is so after each of the operations on any handles,
-- whatever their result: add of a value that can be, get of any kind, copy, clear and reset.
pub operations-AllValid :
    (order : ByteOrder) (h other : ℕ) (v : Value) (k : Kind) (pool : Pool)
    → IsByteOrder order
    → IsValue v
    → AllValid pool
    → AllValid (add order h v pool).1
      × (AllValid (get order h k pool).1
          × (AllValid (copy h other pool).1
              × (AllValid (clear h pool).1 × AllValid (reset h pool).1)))
unfolding add get copy clear reset
operations-AllValid order h other v k pool laws ok all =
    let found = find-ValidIfFound h pool all in
    let other_found = find-ValidIfFound other pool all in
    (
      add_found-AllValid order laws h v (find h pool) pool ok found all,
      (
        get_found-AllValid order h k (find h pool) pool found all,
        (
          copy_found-AllValid h (find h pool) (find other pool) pool found other_found all,
          (
            change-AllValid Buffer.clear h (find h pool) pool clear-IsValid found all,
            change-AllValid Buffer.reset h (find h pool) pool reset-IsValid found all,
          ),
        ),
      ),
    )
