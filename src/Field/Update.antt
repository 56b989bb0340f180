-- ===== src/Field/Update.antt =====
-- `update` of a field buffer against the sequence of its items.
use mathlib.Core.Path.{subst}
use casual.Base.{
  ◌∙◌, sym, ℕ, ◌+◌, ◌-◌, ◌^◌, ◌≤◌, ◌<◌, ◌≡◌, refl, ap, true, false, some, List, ◌∷◌, ◌++◌, arith,
  length, leb, ltb, length-append, Bool-cases, Option-cases, inl, inr,
}
use casual.Bytes.{ByteOrder, IsByteOrder, half, plus, minus}
use casual.Field.Buffer.{Buffer, shift, replace, update}
use casual.Field.Items.{
  Item, widths, item_bytes, memory_of, index_of, Place, locate, Represents, memory_of-append,
  index_of-append, length-item_bytes, length-memory_of, shift-index_of,
}
use casual.Field.Buffer.{update_found, erase, write, insert, shift_after}
use casual.Field.Sequence.{change, change_at, Simulates}
use casual.Field.Places.{Shifted, shift_after-Shifted}
use casual.Field.Memory.{replace_value}
use casual.Field.Found.{All-append, Found, found, missing, length-memory}

module _ (order : ByteOrder) (laws : IsByteOrder order) (b : Buffer) (is : List Item)
    (r : Represents order b is) where
  module _ (id n : ℕ) (p : Place) (o : Found order b is id n p) where
    module _ (bytes : List ℕ) where
      replaced-Represents :
          widths is - length p.value + length bytes ≤ b.capacity
          → Represents order
              (record b {
                memory = insert (widths p.before + 16) bytes (
                    erase
                      (widths p.before + 16)
                      (length p.value)
                      (write (widths p.before + 8) (order.encode 8 (length bytes)) b.memory));
                index = shift_after id n (minus (length bytes) (length p.value)) b.index;
              })
              (p.before ++ (id, bytes) ∷ p.after)
      unfolding memory_of index_of
      replaced-Represents room =
          let bounded = r.bounded in
          let amount : ℕ = minus (length bytes) (length p.value) in
          let from : ℕ = 0 + widths p.before + (16 + length p.value) in
          let to : ℕ = 0 + widths p.before + (16 + length bytes) in
          let moved : plus from amount ≡ to = omega (arith, o.all_widths, o.in_capacity) in
          let here : shift amount (index_of from p.after) ≡ index_of to p.after =
            shift-index_of amount from to p.after moved (omega (arith, o.all_widths, o.in_capacity))
              (omega (arith, o.all_widths, o.in_capacity)) in
          let entries : shift_after id n amount (index_of 0 is)
              ≡ index_of 0 p.before
                ++ (id, 0 + widths p.before) ∷ shift amount (index_of from p.after) =
            subst (Shifted id 0 amount (shift_after id n amount (index_of 0 is))) o.place
              (shift_after-Shifted id n 0 amount is) in
          let laid_anew : insert (widths p.before + 16) bytes (
                erase (widths p.before + 16) (length p.value)
                  (write (widths p.before + 8) (order.encode 8 (length bytes)) b.memory))
              ≡ memory_of order p.before
                ++ (item_bytes order (id, bytes) ++ memory_of order p.after) =
            rw (o.laid, ← o.start)
              (replace_value order laws (memory_of order p.before) id p.value
                (memory_of order p.after) bytes) in
          record {
            memory = laid_anew ∙ sym (memory_of-append order p.before ((id, bytes) ∷ p.after));
            index =
                ap (shift_after id n amount) r.index
                ∙ (entries
                    ∙ (ap (λ l. index_of 0 p.before ++ (id, 0 + widths p.before) ∷ l) here
                        ∙ sym (index_of-append 0 p.before ((id, bytes) ∷ p.after))));
            ids =
                All-append (λ i. i.0 < 256 ^ 8) p.before ((id, bytes) ∷ p.after) o.ids_parted.0
                  (o.ids_parted.1.0, o.ids_parted.1.1);
            fits =
                let long =
                  ap length laid_anew
                  ∙ (length-append (memory_of order p.before)
                      (item_bytes order (id, bytes) ++ memory_of order p.after)) in
                let rest = length-append (item_bytes order (id, bytes)) (memory_of order p.after) in
                omega (
                  arith,
                  o.all_widths,
                  o.in_capacity,
                  o.start,
                  length-memory_of order laws p.after,
                  length-item_bytes order laws (id, bytes),
                );
            bounded = bounded;
          }

      update_there :
          length bytes < half
          → Simulates order b
              (update order id n bytes b)
              (change_at b.capacity id bytes is (some p))
      unfolding update update_found replace change_at
      update_there small =
          let bounded = r.bounded in
          let fits = r.fits in
          let size = length-memory order laws b is r in
          let total : plus (minus (length b.memory) (length p.value)) (length bytes)
              ≡ widths is - length p.value + length bytes =
            omega (arith, o.all_widths) in
          elim (Bool-cases (leb (widths is - length p.value + length bytes) b.capacity)) [
            | inl e ↦
                let c : ltb b.capacity (widths is - length p.value + length bytes) ≡ false =
                  ground arith in
                rw (o.indexed, o.sized, total, c, e)
                  (record {
                    done = refl;
                    capacity = refl;
                    holds = replaced-Represents (ground arith);
                  })
            | inr e ↦
                let c : ltb b.capacity (widths is - length p.value + length bytes) ≡ true =
                  ground arith in
                rw (o.indexed, o.sized, total, c, e)
                  (record { done = refl; capacity = refl; holds = r })
          ]

  -- A field buffer that represents a sequence of items does on `update` what the sequence does when
  -- an occurrence is changed: it succeeds if the occurrence is there and the value fits, and
  -- represents the result.
  pub update-Simulates :
      (id n : ℕ) (bytes : List ℕ)
      → length bytes < half
      → Simulates order b (update order id n bytes b) (change b.capacity id n bytes is)
  unfolding update update_found change change_at
  update-Simulates id n bytes small = elim (Option-cases (locate id n is)) [
    | inl e ↦
        rw (missing order laws b is r id n e, e)
          (record { done = refl; capacity = refl; holds = r })
    | inr (p, e) ↦ rw e (update_there id n p (found order laws b is r id n p e) bytes small)
  ]
