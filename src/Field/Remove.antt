-- ===== src/Field/Remove.antt =====
-- `remove` and `select` of a field buffer against the sequence of its items.
use mathlib.Core.Path.{subst}
use casual.Base.{
  ◌⊎◌, ◌∙◌, sym, ℕ, ◌+◌, ◌^◌, ◌<◌, ◌≡◌, refl, ap, true, none, some, List, ◌++◌, arith, length,
  length-append, Option-cases, inl, inr,
}
use casual.Bytes.{ByteOrder, IsByteOrder, plus, minus}
use casual.Field.Buffer.{Buffer, shift, select, remove, remove_at}
use casual.Field.Items.{
  Item, widths, memory_of, index_of, Place, locate, Represents, memory_of-append, index_of-append,
  length-memory_of, shift-index_of,
}
use casual.Field.Buffer.{remove_found, select_found, erase, erase_entry}
use casual.Field.Sequence.{get, value_at, delete, delete_at, Simulates}
use casual.Field.Places.{Erased, erase_entry-Erased}
use casual.Field.Memory.{erase_item}
use casual.Field.Found.{All-append, Found, found, missing}

module _ (order : ByteOrder) (laws : IsByteOrder order) (b : Buffer) (is : List Item)
    (r : Represents order b is) where
  module _ (id n : ℕ) (p : Place) (o : Found order b is id n p) where
    removed-Represents :
        Represents order (remove_at id n (widths p.before) (length p.value) b) (p.before ++ p.after)
    unfolding remove_at
    removed-Represents =
        let bounded = r.bounded in
        let amount : ℕ = minus (minus 0 16) (length p.value) in
        let from : ℕ = 0 + widths p.before + (16 + length p.value) in
        let moved : plus from amount ≡ 0 + widths p.before =
          omega (arith, o.all_widths, o.in_capacity) in
        let here : shift amount (index_of from p.after) ≡ index_of (0 + widths p.before) p.after =
          shift-index_of amount from (0 + widths p.before) p.after moved
            (omega (arith, o.all_widths, o.in_capacity))
            (omega (arith, o.all_widths, o.in_capacity)) in
        let entries : erase_entry id n amount (index_of 0 is)
            ≡ index_of 0 p.before ++ shift amount (index_of from p.after) =
          subst (Erased 0 amount (erase_entry id n amount (index_of 0 is))) o.place
            (erase_entry-Erased id n 0 amount is) in
        let bytes : erase (widths p.before) (16 + length p.value) b.memory
            ≡ memory_of order p.before ++ memory_of order p.after =
          rw (o.laid, ← o.start)
            (erase_item order laws (memory_of order p.before) id p.value
              (memory_of order p.after)) in
        let after_all : b.memory ≡ memory_of order is = r.memory in
        record {
          memory = bytes ∙ sym (memory_of-append order p.before p.after);
          index =
              ap (erase_entry id n amount) r.index
              ∙ (entries
                  ∙ (ap (λ l. index_of 0 p.before ++ l) here
                      ∙ sym (index_of-append 0 p.before p.after)));
          ids = All-append (λ i. i.0 < 256 ^ 8) p.before p.after o.ids_parted.0 o.ids_parted.1.1;
          fits =
              let long : length (erase (widths p.before) (16 + length p.value) b.memory)
                  ≡ widths p.before + widths p.after =
                ap length bytes
                ∙ (length-append (memory_of order p.before) (memory_of order p.after)
                    ∙ omega (arith, o.start, length-memory_of order laws p.after)) in
              omega (arith, o.all_widths, o.in_capacity);
          bounded = bounded;
        }

    remove_there : Simulates order b (remove order id n b) (true, p.before ++ p.after)
    unfolding remove remove_found remove_at
    remove_there =
        rw (o.indexed, o.sized)
          (record { done = refl; capacity = refl; holds = removed-Represents })

    select_there : select order id n b ≡ some (length p.value, p.value ++ memory_of order p.after)
    unfolding select select_found
    select_there = rw (o.indexed, o.sized, o.valued) refl

  -- A field buffer that represents a sequence of items does on `remove` what the sequence does when
  -- an occurrence is deleted: it succeeds if the occurrence is there, and represents the result.
  pub remove-Simulates : (id n : ℕ) → Simulates order b (remove order id n b) (delete id n is)
  unfolding remove remove_found delete delete_at
  remove-Simulates id n = elim (Option-cases (locate id n is)) [
    | inl e ↦
        rw (missing order laws b is r id n e, e)
          (record { done = refl; capacity = refl; holds = r })
    | inr (p, e) ↦ rw e (remove_there id n p (found order laws b is r id n p e))
  ]

  -- What `select` finds, against what the sequence has: nothing, or the size of the value and a
  -- pointer at which the value stands.
  pub select-get :
      (id n : ℕ)
      → (get id n is ≡ none) × (select order id n b ≡ none)
        ⊎ ((v rest : List ℕ) × (get id n is ≡ some v)
            × (select order id n b ≡ some (length v, v ++ rest)))
  unfolding get value_at select select_found
  select-get id n = elim (Option-cases (locate id n is)) [
    | inl e ↦ inl (rw e refl, rw (missing order laws b is r id n e) refl)
    | inr (p, e) ↦ inr (
      p.value,
      memory_of order p.after,
      rw e refl,
      select_there id n p (found order laws b is r id n p e),
    )
  ]
