-- ===== src/Field/Codes.antt =====
-- What the interface on field buffers answers to an update.
use casual.Base.{
  ◌∙◌, arith, ℕ, ◌<◌, ◌≡◌, refl, Bool, true, false, Bool-cases, Option-cases, inl, inr, Option,
  none, some, List, length, leb, if◌then◌else◌, ◌+◌, ◌-◌,
}
use mathlib.Core.Path.{subst}
use casual.Bytes.{ByteOrder, IsByteOrder, half}
use casual.Pool.{Entry, find}
use casual.Field.Buffer.{Buffer, find_index, update, update_number, update_number_found}
use casual.Field.Items.{Item, locate, Represents, widths}
use casual.Field.Sequence
use casual.Field.Sequence.{change_at, value_at, get, Simulates}
use casual.Field.Found.{missing, found}
use casual.Field.Update.{update-Simulates}
use casual.Field.Pool.{
  Pool, Code, success, no_space, no_occurrence, has_type, changed, failure, change_found, change,
  text, number, update_value,
}

-- The code for whether a change of the sequence was done, and what the sequence had.
abbrev pub expected_code : Bool → Option (List ℕ) → Code
expected_code true v = success
expected_code false none = no_occurrence
expected_code false (some v) = no_space

abbrev pub is_some : {A : Type 0} → Option A → Bool
is_some none = false
is_some (some a) = true

changed_code :
    (c : Code) (h : ℕ) (b : Bool) (result : Bool × Buffer) (pool : Pool)
    → result.0 ≡ b
    → (changed c h result pool).0 ≡ (if b then success else c)
unfolding changed
changed_code c h b (true, buffer) pool e = rw (← e) refl
changed_code c h b (false, buffer) pool e = rw (← e) refl

change_unchanged :
    (capacity id n : ℕ) (bytes : List ℕ) (is : List Item)
    → (Sequence.change capacity id n bytes is).0 ≡ false
    → (Sequence.change capacity id n bytes is).1 ≡ is
unfolding Sequence.change change_at
change_unchanged capacity id n bytes is = elim (Option-cases (locate id n is)) [
  | inl e ↦ rw e (λ h. refl)
  | inr (p, e) ↦ elim (Bool-cases (leb (widths is - length p.value + length bytes) capacity)) [
    | inl d ↦ rw (e, d) (λ h. absurd (ground arith))
    | inr d ↦ rw (e, d) (λ h. refl)
  ]
]

module _ (order : ByteOrder) (laws : IsByteOrder order) (b : Buffer) (is : List Item)
    (r : Represents order b is) (id n : ℕ) (bytes : List ℕ) (small : length bytes < half) where
  -- If the change of the sequence is not done, the index tells why.
  failure_code :
      (done : Bool)
      → (Sequence.change b.capacity id n bytes is).0 ≡ done
      → (if done then success else failure (find_index id n (update order id n bytes b).1.index))
        ≡ expected_code done (get id n is)
  unfolding failure Sequence.change change_at get value_at
  failure_code true e = refl
  failure_code false e =
      let rep : Represents order (update order id n bytes b).1 is =
        subst (Represents order (update order id n bytes b).1)
          (change_unchanged b.capacity id n bytes is e)
          (update-Simulates order laws b is r id n bytes small).holds in
      elim (Option-cases (locate id n is)) [
        | inl none_there ↦
            rw (missing order laws (update order id n bytes b).1 is rep id n none_there, none_there)
              refl
        | inr (p, there) ↦
            let at = (found order laws (update order id n bytes b).1 is rep id n p there).indexed in
            rw (at, there) refl
      ]

  number_code :
      (width bits : ℕ) (h : ℕ) (pool : Pool)
      → (changed
          (failure (find_index id n (update_number order width id n bits b).1.index))
          h
          (update_number order width id n bits b)
          pool).0
        ≡ expected_code (is_some (get id n is)) (get id n is)
  unfolding failure changed update_number update_number_found get value_at
  number_code width bits h pool = elim (Option-cases (locate id n is)) [
    | inl none_there ↦
        rw (missing order laws b is r id n none_there, none_there)
          (rw (missing order laws b is r id n none_there) refl)
    | inr (p, there) ↦ rw ((found order laws b is r id n p there).indexed, there) refl
  ]

-- A buffer of the pool represents a sequence of items, and the id has the type. Then `update`
-- through the handle of a string or of binary data answers success if the change of the sequence is
-- done, and if not, whether the occurrence is missing or the value does not fit; and that of a
-- number answers success exactly if the occurrence is there, and else that it is missing.
pub change_code :
    (order : ByteOrder) (pool : Pool) (h : ℕ) (e : Entry Buffer) (is : List Item) (id n type : ℕ)
    (bytes : List ℕ) (width bits : ℕ)
    → IsByteOrder order
    → find h pool ≡ some e
    → Represents order e.buffer is
    → has_type id type ≡ true
    → length bytes < half
    → ((change order h id n type (text bytes) pool).0
        ≡ expected_code (Sequence.change e.buffer.capacity id n bytes is).0 (get id n is))
      × ((change order h id n type (number width bits) pool).0
          ≡ expected_code (is_some (get id n is)) (get id n is))
unfolding change change_found update_value
change_code order pool h e is id n type bytes width bits laws known r typed small =
    let simulates = update-Simulates order laws e.buffer is r id n bytes small in
    (
      rw (typed, known)
          (changed_code _ h _ (update order id n bytes e.buffer) pool simulates.done
            ∙ failure_code order laws e.buffer is r id n bytes small
                (Sequence.change e.buffer.capacity id n bytes is).0 refl),
      rw (typed, known) (number_code order laws e.buffer is r id n bytes small width bits h pool),
    )
