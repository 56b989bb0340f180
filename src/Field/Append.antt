-- ===== src/Field/Append.antt =====
-- `append` of a field buffer against the sequence of its items.
use casual.Base.{
  ◌∙◌, sym, ℕ, ◌+◌, ◌^◌, ◌≤◌, ◌<◌, ◌≡◌, refl, ap, true, false, List, [], ◌∷◌, ◌++◌, arith, length,
  leb, ltb, length-append, append-nil, Bool-cases, inl, inr,
}
use casual.Bytes.{ByteOrder, IsByteOrder, half, plus}
use casual.Field.Buffer.{Buffer, utilized, append}
use casual.Field.Items.{
  Item, widths, item_bytes, memory_of, index_of, Represents, memory_of-append, index_of-append,
  length-item_bytes,
}
use casual.Field.Sequence.{add, Simulates}
use native.Mathlib.Nat.{zero-add}
use casual.Field.Found.{All-append, length-memory}

module _ (order : ByteOrder) (laws : IsByteOrder order) (b : Buffer) (is : List Item)
    (r : Represents order b is) where
  module _ (id : ℕ) (bytes : List ℕ) where
    -- What `append` leaves when the item fits.
    abbrev appended : Buffer
    appended = record b {
      memory = b.memory ++ item_bytes order (id, bytes);
      index = b.index ++ (id, utilized b) ∷ [];
    }

    appended-Represents :
        id < 256 ^ 8
        → widths is + (16 + length bytes) ≤ b.capacity
        → Represents order appended (is ++ (id, bytes) ∷ [])
    unfolding memory_of index_of
    appended-Represents h room =
        let long = length-append b.memory (item_bytes order (id, bytes)) in
        record {
          memory = rw r.memory (
              sym (
                memory_of-append order is ((id, bytes) ∷ [])
                ∙ ap (λ l. memory_of order is ++ l) (append-nil (item_bytes order (id, bytes)))));
          index =
              rw (r.index, (length-memory order laws b is r))
                (sym (
                  index_of-append 0 is ((id, bytes) ∷ [])
                  ∙ ap (λ n. index_of 0 is ++ (id, n) ∷ []) (zero-add (widths is))));
          ids = All-append (λ i. i.0 < 256 ^ 8) is ((id, bytes) ∷ []) r.ids (h, tt);
          fits =
              omega (
                arith,
                length-item_bytes order laws (id, bytes),
                (length-memory order laws b is r),
              );
          bounded = r.bounded;
        }

    -- A field buffer that represents a sequence of items does on `append` what the sequence does
    -- when an item is added: it succeeds under the same condition, and represents the result.
    pub append-Simulates :
        id < 256 ^ 8
        → length bytes + 16 < half
        → Simulates order b (append order id bytes b) (add b.capacity id bytes is)
    unfolding append add
    append-Simulates h small =
        let fits = r.fits in
        let bounded = r.bounded in
        let size = (length-memory order laws b is r) in
        let total : plus (plus (length b.memory) 16) (length bytes)
            ≡ widths is + (16 + length bytes) =
          omega arith in
        elim (Bool-cases (leb (widths is + (16 + length bytes)) b.capacity)) [
          | inl e ↦
              let c : ltb b.capacity (widths is + (16 + length bytes)) ≡ false = ground arith in
              rw (total, c, e)
                (record {
                  done = refl;
                  capacity = refl;
                  holds = appended-Represents h (ground arith);
                })
          | inr e ↦
              let c : ltb b.capacity (widths is + (16 + length bytes)) ≡ true = ground arith in
              rw (total, c, e) (record { done = refl; capacity = refl; holds = r })
        ]
