-- ===== src/Field/Received.antt =====
-- The index that is made for a memory that was received.
use casual.Base.{
  ◌∙◌, sym, ℕ, zero, suc, ◌+◌, ◌^◌, ◌<◌, ◌≡◌, refl, ap, true, false, some, List, [], ◌∷◌, ◌++◌,
  arith, length, drop, All, ltb, append_assoc,
}
use casual.Bytes.{ByteOrder, IsByteOrder, half, plus}
use casual.Bytes.Laws.{drop-add, drop-length}
use casual.Field.Buffer.{Buffer, decode_long, index_from, update_index, indexed_by, with_index}
use casual.Field.Items.{
  Item, widths, item_bytes, memory_of, index_of, Represents, length-item_bytes, length-memory_of,
}
use casual.Field.Memory.{decode_long-encode, drop_past}

module _ (order : ByteOrder) (laws : IsByteOrder order) (memory : List ℕ) where
  module _ (at id : ℕ) (bytes rest : List ℕ)
      (here : drop at memory ≡ item_bytes order (id, bytes) ++ rest) where
    parted :
        drop at memory ≡ order.encode 8 id ++ (order.encode 8 (length bytes) ++ (bytes ++ rest))
    parted = here ∙ simp append_assoc

    id_read : id < 256 ^ 8 → decode_long order at memory ≡ id
    id_read h = decode_long-encode order laws at id memory _ parted h

    size_read : length bytes < 256 ^ 8 → decode_long order (at + 8) memory ≡ length bytes
    size_read h =
        decode_long-encode order laws (at + 8) (length bytes) memory (bytes ++ rest)
          (sym (drop-add at 8 memory)
            ∙ (ap (drop 8) parted ∙ drop_past 8 (order.encode 8 id) _ (laws.length-encode 8 id)))
          h

    next : drop (at + (16 + length bytes)) memory ≡ rest
    next =
        sym (drop-add at (16 + length bytes) memory)
        ∙ (ap (drop (16 + length bytes)) here
            ∙ drop_past (16 + length bytes) (item_bytes order (id, bytes)) rest
                (length-item_bytes order laws (id, bytes)))

  index_from-memory_of :
      (is : List Item) (fuel at : ℕ)
      → drop at memory ≡ memory_of order is
      → at + widths is ≡ length memory
      → length memory < half
      → widths is < fuel
      → All (λ i. i.0 < 256 ^ 8) is
      → index_from order fuel at memory ≡ some (index_of at is)
  unfolding index_from memory_of index_of indexed_by
  index_from-memory_of is zero at here all small enough ok = absurd (omega arith)
  index_from-memory_of [] (suc fuel) at here all small enough ok =
      let c : ltb at (length memory) ≡ false = ground arith in rw c refl
  index_from-memory_of ((id, bytes) ∷ is) (suc fuel) at here all small enough ok =
      let c : ltb at (length memory) ≡ true = ground arith in
      let size = size_read at id bytes (memory_of order is) here (omega arith) in
      let step : plus at (plus 16 (length bytes)) ≡ at + (16 + length bytes) = omega arith in
      let rest =
        index_from-memory_of is fuel (at + (16 + length bytes))
          (next at id bytes (memory_of order is) here) (omega arith) small (omega arith) ok.1 in
      rw (c, size, step, rest, id_read at id bytes (memory_of order is) here ok.0) refl

-- If a field buffer represents a sequence of items, then its index is what `update_index` makes of
-- its memory, whatever the index was: the fuel suffices, and the receiver of the memory has the
-- buffer of the sender.
pub update_index-Represents :
    (order : ByteOrder) (b : Buffer) (is : List Item) (index : List (ℕ × ℕ))
    → IsByteOrder order
    → Represents order b is
    → update_index order (record b { index = index }) ≡ some b
unfolding update_index with_index
update_index-Represents order b is index laws r =
    let long : length b.memory ≡ widths is = ap length r.memory ∙ length-memory_of order laws is in
    let fits = r.fits in
    let bounded = r.bounded in
    let made : index_from order (suc (length b.memory)) 0 b.memory ≡ some (index_of 0 is) =
      index_from-memory_of order laws b.memory is (suc (length b.memory)) 0
        (drop-length [] b.memory ∙ r.memory) (omega arith) (omega arith) (omega arith) r.ids in
    rw made (ap (λ x. some (record b { index = x })) (sym r.index))
