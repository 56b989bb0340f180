-- ===== src/Field/Found.antt =====
-- An occurrence of an id in a field buffer that represents a sequence of items.
use mathlib.Core.Path.{subst}
use casual.Base.{
  ◌∙◌, ℕ, ◌+◌, ◌^◌, ◌≤◌, ◌<◌, ◌≡◌, ap, none, some, List, [], ◌∷◌, ◌++◌, arith, length, drop, All,
}
use casual.Bytes.{ByteOrder, IsByteOrder}
use casual.Field.Buffer.{Buffer, find_index, decode_long}
use casual.Field.Items.{
  Item, widths, item_bytes, memory_of, Place, locate, Represents, widths-append, memory_of-append,
  length-memory_of,
}
use native.Mathlib.Nat.{zero-add}
use casual.Field.Places.{Divides, locate-Divides, offset, find_index-index_of}
use casual.Field.Memory.{decode_long-encode, drop_size, drop_value}

pub All-append {ℓ κ} :
    {A : Type ℓ} (P : A → Type κ) (xs ys : List A) → All P xs → All P ys → All P (xs ++ ys)
All-append P [] ys a b = b
All-append P (x ∷ xs) ys a b = (a.0, All-append P xs ys a.1 b)

All-parts {ℓ κ} :
    {A : Type ℓ} (P : A → Type κ) (xs ys : List A) → All P (xs ++ ys) → All P xs × All P ys
All-parts P [] ys a = (tt, a)
All-parts P (x ∷ xs) ys a = let (b, c) = All-parts P xs ys a.1 in ((a.0, b), c)

-- What is known of an occurrence that is there.
pub record Found (order : ByteOrder) (b : Buffer) (is : List Item) (id n : ℕ) (p : Place)
    : Type 0 where
  pub place : locate id n is ≡ some p
  pub divided : is ≡ p.before ++ (id, p.value) ∷ p.after
  pub indexed : find_index id n b.index ≡ some (widths p.before)
  pub start : length (memory_of order p.before) ≡ widths p.before
  pub laid :
      b.memory
      ≡ memory_of order p.before ++ (item_bytes order (id, p.value) ++ memory_of order p.after)
  pub all_widths : widths is ≡ widths p.before + (16 + length p.value + widths p.after)
  pub in_capacity : widths is ≤ b.capacity
  pub ids_parted :
      All (λ i. i.0 < 256 ^ 8) p.before × All (λ i. i.0 < 256 ^ 8) ((id, p.value) ∷ p.after)
  pub sized : decode_long order (widths p.before + 8) b.memory ≡ length p.value
  pub valued : drop (widths p.before + 16) b.memory ≡ p.value ++ memory_of order p.after

module _ (order : ByteOrder) (laws : IsByteOrder order) (b : Buffer) (is : List Item)
    (r : Represents order b is) where
  pub length-memory : length b.memory ≡ widths is
  length-memory = ap length r.memory ∙ length-memory_of order laws is

  module _ (id n : ℕ) (p : Place) (at : locate id n is ≡ some p) where
    divided : is ≡ p.before ++ (id, p.value) ∷ p.after
    divided = subst (Divides id is) at (locate-Divides id n is)

    indexed : find_index id n b.index ≡ some (widths p.before)
    indexed =
        ap (find_index id n) r.index
        ∙ (find_index-index_of id n 0 is
            ∙ (ap (offset 0) at ∙ ap some (zero-add (widths p.before))))

    start : length (memory_of order p.before) ≡ widths p.before
    start = length-memory_of order laws p.before

    laid :
        b.memory
        ≡ memory_of order p.before ++ (item_bytes order (id, p.value) ++ memory_of order p.after)
    unfolding memory_of
    laid =
        r.memory
        ∙ (ap (memory_of order) divided ∙ memory_of-append order p.before ((id, p.value) ∷ p.after))

    all_widths : widths is ≡ widths p.before + (16 + length p.value + widths p.after)
    all_widths = ap widths divided ∙ widths-append p.before ((id, p.value) ∷ p.after)

    in_capacity : widths is ≤ b.capacity
    in_capacity = let fits = r.fits in omega (arith, length-memory)

    ids_parted :
        All (λ i. i.0 < 256 ^ 8) p.before × All (λ i. i.0 < 256 ^ 8) ((id, p.value) ∷ p.after)
    ids_parted =
        All-parts (λ i. i.0 < 256 ^ 8) p.before ((id, p.value) ∷ p.after)
          (subst (All (λ i. i.0 < 256 ^ 8)) divided r.ids)

    sized : decode_long order (widths p.before + 8) b.memory ≡ length p.value
    sized =
        let bounded = r.bounded in
        let small : length p.value < 256 ^ 8 = omega (arith, all_widths, in_capacity) in
        let at_size =
          drop_size order laws (memory_of order p.before) id p.value (memory_of order p.after) in
        decode_long-encode order laws (widths p.before + 8) (length p.value) b.memory
          (p.value ++ memory_of order p.after) (rw (laid, ← start) at_size) small

    valued : drop (widths p.before + 16) b.memory ≡ p.value ++ memory_of order p.after
    valued =
        rw (laid, ← start)
          (drop_value order laws (memory_of order p.before) id p.value (memory_of order p.after))

    pub found : Found order b is id n p
    found = record {
      place = at;
      divided = divided;
      indexed = indexed;
      start = start;
      laid = laid;
      all_widths = all_widths;
      in_capacity = in_capacity;
      ids_parted = ids_parted;
      sized = sized;
      valued = valued;
    }

  -- Facts about an occurrence that is not there.
  pub missing : (id n : ℕ) → locate id n is ≡ none → find_index id n b.index ≡ none
  missing id n at =
      ap (find_index id n) r.index ∙ (find_index-index_of id n 0 is ∙ ap (offset 0) at)
