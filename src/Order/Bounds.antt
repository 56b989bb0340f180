-- ===== src/Order/Bounds.antt =====
-- Whatever the memory holds and whatever is asked for, the selector stays within the memory.
use casual.Bytes.{ByteOrder, word, plus, minus, half, c_string}
use casual.Base.{
  ◌-◌, ℕ, ◌+◌, ◌≤◌, ◌<◌, ◌≡◌, refl, true, false, Bool-cases, inl, inr, Option, none, some, List,
  arith, length, drop, take, leb, ltb,
}
use casual.Order.Buffer.{
  Buffer, Value, Kind, a_number, a_string, a_binary, advance, select, select_number, select_string,
  select_terminated, select_binary, select_data, as_value,
}
use casual.Order.Format.{IsValid}
use casual.Order.Select.{move_to, advance_lem}

-- The buffer as it was, or with its selector elsewhere in the memory.
abbrev pub IsMoved : {A : Type 0} → Buffer → Option A × Buffer → Type 0
IsMoved b (found, b') = (n : ℕ) × (n ≤ length b.memory) × (b' ≡ move_to n b)

advance-IsMoved :
    {A : Type 0} (count : ℕ) (value : A) (b : Buffer)
    → IsValid b
    → IsMoved b (advance count value b)
advance-IsMoved count value b valid =
    rw (advance_lem count value b valid)
      (elim (Bool-cases (leb (b.selector + count) (length b.memory))) [
        | inl h ↦ rw h (b.selector + count, ground arith, refl)
        | inr h ↦ rw h (b.selector, valid.within, refl)
      ])

as_value-IsMoved :
    {A : Type 0} (f : A → Value) (b : Buffer) (r : Option A × Buffer)
    → IsMoved b r
    → IsMoved b (as_value f r)
unfolding as_value
as_value-IsMoved f b (none, b') moved = moved
as_value-IsMoved f b (some a, b') moved = moved

select_terminated-IsMoved :
    (s : Option (List ℕ)) (b : Buffer) → IsValid b → IsMoved b (select_terminated s b)
unfolding select_terminated
select_terminated-IsMoved none b valid = (b.selector, valid.within, refl)
select_terminated-IsMoved (some s) b valid = advance-IsMoved (length s + 1) s b valid

select_data-IsMoved :
    (size n : ℕ) (b : Buffer)
    → IsValid b
    → 8 ≤ n
    → n ≤ length b.memory
    → IsMoved b (select_data (some size, move_to n b))
unfolding select_data
select_data-IsMoved size n b valid h k =
    let fits = valid.fits in
    let bounded = valid.bounded in
    elim (Bool-cases (ltb (length b.memory) (plus n size))) [
      | inl e ↦ rw e (minus n 8, omega arith, refl)
      | inr e ↦ rw e (plus n size, ground arith, refl)
    ]

module _ (order : ByteOrder) (b : Buffer) (valid : IsValid b) where
  select_binary-IsMoved : IsMoved b (select_binary order b)
  unfolding select_binary select_number select_data
  select_binary-IsMoved =
      let size : ℕ = order.decode 8 (take 8 (drop b.selector b.memory)) in
      rw (advance_lem 8 size b valid) (elim (Bool-cases (leb (b.selector + 8) (length b.memory))) [
        | inl h ↦
            rw h (select_data-IsMoved size (b.selector + 8) b valid (omega arith) (ground arith))
        | inr h ↦ rw h (b.selector, valid.within, refl)
      ])

  -- On a valid buffer, whatever its memory holds and whichever kind is asked for, `select` changes
  -- nothing but the selector, which stays within the memory.
  pub select-IsMoved : (k : Kind) → IsMoved b (select order k b)
  unfolding select select_number select_string
  select-IsMoved (a_number width) =
      as_value-IsMoved _ b _
        (advance-IsMoved width (order.decode width (take width (drop b.selector b.memory))) b valid)
  select-IsMoved a_string =
      as_value-IsMoved _ b _
        (select_terminated-IsMoved (c_string (drop b.selector b.memory)) b valid)
  select-IsMoved a_binary = as_value-IsMoved _ b _ select_binary-IsMoved

  -- If a size is there whose bits are those of a negative `long` that does not reach back beyond
  -- the start of the memory, `select` of a binary succeeds with it and moves the selector back by
  -- its amount.
  pub select_binary-negative :
      (size : ℕ)
      → b.selector + 8 ≤ length b.memory
      → order.decode 8 (take 8 (drop b.selector b.memory)) ≡ size
      → size < word
      → half ≤ size
      → word ≤ b.selector + 8 + size
      → select_binary order b ≡ (
        some (size, take size (drop (b.selector + 8) b.memory)),
        move_to (b.selector + 8 + size - word) b,
      )
  unfolding select_binary select_number select_data
  select_binary-negative size there read bits negative reach =
      let fits = valid.fits in
      let bounded = valid.bounded in
      let size_there : leb (b.selector + 8) (length b.memory) ≡ true = ground arith in
      let back : plus (b.selector + 8) size ≡ b.selector + 8 + size - word = omega arith in
      let room : ltb (length b.memory) (b.selector + 8 + size - word) ≡ false = ground arith in
      rw
        (
          advance_lem 8 (order.decode 8 (take 8 (drop b.selector b.memory))) b valid,
          read,
          size_there,
          back,
          room,
        )
        refl
