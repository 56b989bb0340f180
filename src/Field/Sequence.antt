-- ===== src/Field/Sequence.antt =====
-- The abstract field buffer: a sequence of items that may take so many bytes, and the operations
-- that its users think of.
use casual.Base.{
  ℕ, ◌+◌, ◌-◌, ◌≡◌, Bool, true, false, Option, none, some, List, [], ◌∷◌, ◌++◌, length, leb,
  if◌then◌else◌,
}
use casual.Bytes.{ByteOrder}
use casual.Field.Buffer.{Buffer}
use casual.Field.Items.{Item, widths, Place, locate, Represents}

-- An item goes to the end, if it fits.
unfoldable pub add : ℕ → ℕ → List ℕ → List Item → Bool × List Item
add capacity id bytes is =
    if leb (widths is + (16 + length bytes)) capacity
    then (true, is ++ (id, bytes) ∷ [])
    else (false, is)

unfoldable pub value_at : Option Place → Option (List ℕ)
value_at none = none
value_at (some p) = some p.value

unfoldable pub get : ℕ → ℕ → List Item → Option (List ℕ)
get id n is = value_at (locate id n is)

unfoldable pub change_at : ℕ → ℕ → List ℕ → List Item → Option Place → Bool × List Item
change_at capacity id bytes is none = (false, is)
change_at capacity id bytes is (some p) =
    if leb (widths is - length p.value + length bytes) capacity
    then (true, p.before ++ (id, bytes) ∷ p.after)
    else (false, is)

-- An occurrence gets another value, in its place, if that fits.
unfoldable pub change : ℕ → ℕ → ℕ → List ℕ → List Item → Bool × List Item
change capacity id n bytes is = change_at capacity id bytes is (locate id n is)

unfoldable pub delete_at : List Item → Option Place → Bool × List Item
delete_at is none = (false, is)
delete_at is (some p) = (true, p.before ++ p.after)

-- An occurrence is taken out.
unfoldable pub delete : ℕ → ℕ → List Item → Bool × List Item
delete id n is = delete_at is (locate id n is)

-- An operation on a buffer does what one on the sequence does, and leaves the capacity.
pub record Simulates (order : ByteOrder) (b : Buffer) (result : Bool × Buffer)
    (expected : Bool × List Item) : Type 0 where
  pub done : result.0 ≡ expected.0
  pub capacity : result.1.capacity ≡ b.capacity
  pub holds : Represents order result.1 expected.1
