-- ===== src/Field/Items.antt =====
-- What a field buffer stands for: the sequence of its items, and where each of them lies.
use casual.Base.{
  ◌∙◌, ℕ, zero, suc, ◌+◌, ◌^◌, ◌≤◌, ◌<◌, ◌≡◌, refl, ap, Option, none, some, List, [], ◌∷◌, ◌++◌,
  arith, length, All, if◌then◌else◌, ◌==◌, length-append, append_assoc,
}
use casual.Bytes.{ByteOrder, IsByteOrder, half, plus}
use casual.Field.Buffer.{Buffer, shift}

-- An id and a value.
abbrev pub Item : Type 0
Item = ℕ × List ℕ

-- How many bytes an item takes.
abbrev pub width : Item → ℕ
width (id, bytes) = 16 + length bytes

abbrev pub widths : List Item → ℕ
widths [] = 0
widths (i ∷ is) = width i + widths is

abbrev pub item_bytes : ByteOrder → Item → List ℕ
item_bytes order (id, bytes) = order.encode 8 id ++ (order.encode 8 (length bytes) ++ bytes)

unfoldable pub memory_of : ByteOrder → List Item → List ℕ
memory_of order [] = []
memory_of order (i ∷ is) = item_bytes order i ++ memory_of order is

unfoldable pub index_of : ℕ → List Item → List (ℕ × ℕ)
index_of at [] = []
index_of at ((id, bytes) ∷ is) = (id, at) ∷ index_of (at + (16 + length bytes)) is

-- An occurrence of an id: the items before it, its value, and the items after it.
pub record Place : Type 0 where
  pub before : List Item
  pub value : List ℕ
  pub after : List Item

unfoldable pub beyond : Item → Option Place → Option Place
beyond i none = none
beyond i (some p) = some (record p { before = i ∷ p.before })

unfoldable pub locate : ℕ → ℕ → List Item → Option Place
locate id n [] = none
locate id zero ((j, bytes) ∷ is) =
    if j == id
    then some (record { before = []; value = bytes; after = is })
    else beyond (j, bytes) (locate id zero is)
locate id (suc n) ((j, bytes) ∷ is) =
    beyond (j, bytes) (locate id (if j == id then n else suc n) is)

-- The buffer holds these items, its index tells where, and it is within its capacity.
pub record Represents (order : ByteOrder) (b : Buffer) (is : List Item) : Type 0 where
  pub memory : b.memory ≡ memory_of order is
  pub index : b.index ≡ index_of 0 is
  pub ids : All (λ i. i.0 < 256 ^ 8) is
  pub fits : length b.memory ≤ b.capacity
  pub bounded : b.capacity < half

pub widths-append : (is js : List Item) → widths (is ++ js) ≡ widths is + widths js
widths-append [] js = omega arith
widths-append (i ∷ is) js = omega (arith, widths-append is js)

pub memory_of-append :
    (order : ByteOrder) (is js : List Item)
    → memory_of order (is ++ js) ≡ memory_of order is ++ memory_of order js
unfolding memory_of
memory_of-append order [] js = refl
memory_of-append order (i ∷ is) js =
    ap (λ l. item_bytes order i ++ l) (memory_of-append order is js)
    ∙ rw (append_assoc (item_bytes order i) (memory_of order is) (memory_of order js)) refl

pub index_of-append :
    (at : ℕ) (is js : List Item)
    → index_of at (is ++ js) ≡ index_of at is ++ index_of (at + widths is) js
unfolding index_of
index_of-append at [] js = let e : at ≡ at + 0 = omega arith in ap (λ n. index_of n js) e
index_of-append at ((id, bytes) ∷ is) js =
    let e : at + (16 + length bytes) + widths is ≡ at + (16 + length bytes + widths is) =
      omega arith in
    ap (λ l. (id, at) ∷ l)
      (index_of-append (at + (16 + length bytes)) is js
        ∙ ap (λ n. index_of (at + (16 + length bytes)) is ++ index_of n js) e)

pub length-item_bytes :
    (order : ByteOrder) → IsByteOrder order → (i : Item) → length (item_bytes order i) ≡ width i
length-item_bytes order laws (id, bytes) =
    length-append (order.encode 8 id) (order.encode 8 (length bytes) ++ bytes)
    ∙ omega (
      arith,
      length-append (order.encode 8 (length bytes)) bytes,
      laws.length-encode 8 id,
      laws.length-encode 8 (length bytes),
    )

pub length-memory_of :
    (order : ByteOrder)
    → IsByteOrder order
    → (is : List Item) → length (memory_of order is) ≡ widths is
unfolding memory_of
length-memory_of order laws [] = refl
length-memory_of order laws (i ∷ is) = omega (
  arith,
  length-append (item_bytes order i) (memory_of order is),
  length-item_bytes order laws i,
  length-memory_of order laws is,
)

-- Moving the offsets of items moves the items.
pub shift-index_of :
    (amount at to : ℕ) (is : List Item)
    → plus at amount ≡ to
    → at + widths is < half
    → to + widths is < half
    → shift amount (index_of at is) ≡ index_of to is
unfolding shift index_of
shift-index_of amount at to [] e h k = refl
shift-index_of amount at to ((id, bytes) ∷ is) e h k = rw e (
    ap (λ l. (id, to) ∷ l)
      (shift-index_of amount (at + (16 + length bytes)) (to + (16 + length bytes)) is (omega arith)
        (omega arith) (omega arith)))
