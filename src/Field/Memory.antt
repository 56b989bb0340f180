-- ===== src/Field/Memory.antt =====
-- What the memory operations of a field buffer do at an item that lies between other bytes.
use mathlib.Core.Path.{subst}
use casual.Base.{
  ◌∙◌, sym, ℕ, ◌+◌, ◌^◌, ◌<◌, ◌≡◌, ap, List, ◌++◌, arith, length, take, drop, length-append,
  append_assoc,
}
use casual.Bytes.{ByteOrder, IsByteOrder}
use casual.Bytes.Laws.{drop-add, drop-length, take-append}
use casual.Field.Buffer.{decode_long, write, erase, insert}
use casual.Field.Items.{item_bytes}

pub drop_past : (n : ℕ) (xs ys : List ℕ) → length xs ≡ n → drop n (xs ++ ys) ≡ ys
drop_past n xs ys e = subst (λ k. drop k (xs ++ ys) ≡ ys) e (drop-length xs ys)

take_upto : (n : ℕ) (xs ys : List ℕ) → length xs ≡ n → take n (xs ++ ys) ≡ xs
take_upto n xs ys e = subst (λ k. take k (xs ++ ys) ≡ xs) e (take-append xs ys)

module _ (order : ByteOrder) (laws : IsByteOrder order) where
  pub decode_long-encode :
      (at bits : ℕ) (memory rest : List ℕ)
      → drop at memory ≡ order.encode 8 bits ++ rest
      → bits < 256 ^ 8
      → decode_long order at memory ≡ bits
  unfolding decode_long
  decode_long-encode at bits memory rest e h =
      ap (λ l. order.decode 8 (take 8 l)) e
      ∙ (ap (order.decode 8) (take_upto 8 (order.encode 8 bits) rest (laws.length-encode 8 bits))
          ∙ laws.decode-encode 8 bits h)

  module _ (before : List ℕ) (id : ℕ) (bytes after : List ℕ) where
    abbrev here : ℕ
    here = length before

    abbrev memory : List ℕ
    memory = before ++ (item_bytes order (id, bytes) ++ after)

    abbrev head : List ℕ
    head = before ++ order.encode 8 id

    length-head : length head ≡ here + 8
    length-head =
        length-append before (order.encode 8 id) ∙ ap (λ n. here + n) (laws.length-encode 8 id)

    -- The memory, parted behind the id.
    split : memory ≡ head ++ (order.encode 8 (length bytes) ++ (bytes ++ after))
    split =
        ap (λ l. before ++ l)
          (append_assoc (order.encode 8 id) (order.encode 8 (length bytes) ++ bytes) after)
        ∙ (sym (
              append_assoc before (order.encode 8 id)
                ((order.encode 8 (length bytes) ++ bytes) ++ after))
            ∙ ap (λ l. head ++ l) (append_assoc (order.encode 8 (length bytes)) bytes after))

    pub drop_id :
        drop here memory ≡ order.encode 8 id ++ (order.encode 8 (length bytes) ++ (bytes ++ after))
    drop_id =
        drop-length before (item_bytes order (id, bytes) ++ after)
        ∙ (append_assoc (order.encode 8 id) (order.encode 8 (length bytes) ++ bytes) after
            ∙ ap (λ l. order.encode 8 id ++ l)
                (append_assoc (order.encode 8 (length bytes)) bytes after))

    pub drop_size : drop (here + 8) memory ≡ order.encode 8 (length bytes) ++ (bytes ++ after)
    drop_size = ap (drop (here + 8)) split ∙ drop_past (here + 8) head _ length-head

    pub drop_value : drop (here + 16) memory ≡ bytes ++ after
    drop_value =
        let e : here + 16 ≡ (here + 8) + 8 = omega arith in
        ap (λ n. drop n memory) e
        ∙ (sym (drop-add (here + 8) 8 memory)
            ∙ (ap (drop 8) drop_size
                ∙ drop_past 8 (order.encode 8 (length bytes)) (bytes ++ after)
                    (laws.length-encode 8 (length bytes))))

    pub drop_item : drop (here + (16 + length bytes)) memory ≡ after
    drop_item =
        let e : here + (16 + length bytes) ≡ (here + 16) + length bytes = omega arith in
        ap (λ n. drop n memory) e
        ∙ (sym (drop-add (here + 16) (length bytes) memory)
            ∙ (ap (drop (length bytes)) drop_value ∙ drop-length bytes after))

    pub erase_item : erase here (16 + length bytes) memory ≡ before ++ after
    unfolding erase
    erase_item =
        ap (λ l. l ++ drop (here + (16 + length bytes)) memory)
          (take-append before (item_bytes order (id, bytes) ++ after))
        ∙ ap (λ l. before ++ l) drop_item

    module _ (new : List ℕ) where
      -- The memory once the new size is written.
      sized :
          write (here + 8) (order.encode 8 (length new)) memory
          ≡ (head ++ order.encode 8 (length new)) ++ (bytes ++ after)
      unfolding write
      sized =
          let wide : length (order.encode 8 (length new)) ≡ 8 = laws.length-encode 8 (length new) in
          let e : here + 8 + length (order.encode 8 (length new)) ≡ here + 16 = omega arith in
          let first : take (here + 8) memory ≡ head =
            ap (take (here + 8)) split ∙ take_upto (here + 8) head _ length-head in
          ap
            (λ l.
              l
              ++ (order.encode 8 (length new)
                  ++ drop (here + 8 + length (order.encode 8 (length new))) memory))
            first
          ∙ (ap (λ n. head ++ (order.encode 8 (length new) ++ drop n memory)) e
              ∙ (ap (λ l. head ++ (order.encode 8 (length new) ++ l)) drop_value
                  ∙ sym (append_assoc head (order.encode 8 (length new)) (bytes ++ after))))

      abbrev front : List ℕ
      front = head ++ order.encode 8 (length new)

      length-front : length front ≡ here + 16
      length-front =
          length-append head (order.encode 8 (length new))
          ∙ omega (arith, length-head, laws.length-encode 8 (length new))

      pub replace_value :
          insert (here + 16) new (
            erase
              (here + 16)
              (length bytes)
              (write (here + 8) (order.encode 8 (length new)) memory))
          ≡ before ++ (item_bytes order (id, new) ++ after)
      unfolding insert erase
      replace_value =
          let first = take_upto (here + 16) front (bytes ++ after) length-front in
          let last : drop (here + 16 + length bytes) (front ++ (bytes ++ after)) ≡ after =
            sym (drop-add (here + 16) (length bytes) (front ++ (bytes ++ after)))
            ∙ (ap (drop (length bytes)) (drop_past (here + 16) front (bytes ++ after) length-front)
                ∙ drop-length bytes after) in
          rw (sized, first, last)
            (rw
              (
                take_upto (here + 16) front after length-front,
                drop_past (here + 16) front after length-front,
              )
              (simp append_assoc))
