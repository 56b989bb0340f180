-- ===== src/Order/Roundtrip.antt =====
-- Values that are appended one after another are selected again, in the order of their kinds.
use casual.Bytes.{ByteOrder, IsByteOrder}
use casual.Bytes.Laws.{drop-length}
use casual.Base.{
  ℕ, ◌+◌, ◌≤◌, ◌≡◌, ◌∙◌, sym, refl, ap, Bool, true, false, Option, none, some, List, [], ◌∷◌, ◌++◌,
  arith, map, length, drop, leb, All, length-append, append_assoc, append-nil,
}
use casual.Order.Buffer.{Buffer, Value, Kind, append, select, insert, clear, reset}
use casual.Order.Format.{IsValid, IsValue, encoding, kind_of}
use casual.Order.Append.{append-written}
use casual.Order.Select.{move_to, select-encoding, drop-encoding, encoding-within}

abbrev pub encodings : ByteOrder → List Value → List ℕ
encodings order [] = []
encodings order (v ∷ vs) = encoding order v ++ encodings order vs

-- The next call, if a value was appended.
unfoldable pub if_added : Bool × Buffer → (Buffer → Option Buffer) → Option Buffer
if_added (false, b) next = none
if_added (true, b) next = next b

unfoldable pub prepend : Value → Option (List Value) × Buffer → Option (List Value) × Buffer
prepend v (none, b) = (none, b)
prepend v (some vs, b) = (some (v ∷ vs), b)

-- The next call, if a value was selected.
unfoldable pub if_found :
    Option Value × Buffer → (Buffer → Option (List Value) × Buffer) → Option (List Value) × Buffer
if_found (none, b) next = (none, b)
if_found (some v, b) next = prepend v (next b)

module _ (order : ByteOrder) where
  -- Calls of `append` in a row, up to one that fails.
  unfoldable pub append_all : List Value → Buffer → Option Buffer
  append_all [] b = some b
  append_all (v ∷ vs) b = if_added (append order v b) (append_all vs)

  -- Calls of `select` in a row, up to one that fails.
  unfoldable pub select_all : List Kind → Buffer → Option (List Value) × Buffer
  select_all [] b = (some [], b)
  select_all (k ∷ ks) b = if_found (select order k b) (select_all ks)

pub insert-IsValid :
    (bytes : List ℕ) (b : Buffer)
    → IsValid b
    → length b.memory + length bytes ≤ b.capacity
    → IsValid (insert bytes b)
insert-IsValid bytes b valid h =
    let within = valid.within in
    let e = length-append b.memory bytes in
    record { within = omega arith; fits = omega arith; bounded = valid.bounded }

module _ (order : ByteOrder) (laws : IsByteOrder order) where
  append_all-encodings :
      (vs : List Value) (b : Buffer)
      → IsValid b
      → All IsValue vs
      → length b.memory + length (encodings order vs) ≤ b.capacity
      → append_all order vs b ≡ some (insert (encodings order vs) b)
  unfolding append_all if_added
  append_all-encodings [] b valid ok h = rw (append-nil b.memory) refl
  append_all-encodings (v ∷ vs) b valid ok h =
      let wide = length-append (encoding order v) (encodings order vs) in
      let room : leb (length b.memory + length (encoding order v)) b.capacity ≡ true =
        ground arith in
      let fits : length b.memory + length (encoding order v) ≤ b.capacity = omega arith in
      let longer = length-append b.memory (encoding order v) in
      rw (append-written order laws b valid v ok.0, room)
        (append_all-encodings vs (insert (encoding order v) b)
            (insert-IsValid (encoding order v) b valid fits) ok.1 (omega arith)
          ∙ rw (append_assoc b.memory (encoding order v) (encodings order vs)) refl)

  select_all-encodings :
      (vs : List Value) (b : Buffer) (post : List ℕ)
      → IsValid b
      → All IsValue vs
      → drop b.selector b.memory ≡ encodings order vs ++ post
      → select_all order (map kind_of vs) b
        ≡ (some vs, move_to (b.selector + length (encodings order vs)) b)
  unfolding select_all if_found prepend
  select_all-encodings [] b post valid ok at =
      let e : b.selector ≡ b.selector + 0 = omega arith in ap (λ n. (some [], move_to n b)) e
  select_all-encodings (v ∷ vs) b post valid ok at =
      let split = at ∙ append_assoc (encoding order v) (encodings order vs) post in
      let here = length (encoding order v) in
      let next =
        select_all-encodings vs (move_to (b.selector + here) b) post
          (encoding-within order laws b valid (encodings order vs ++ post) (encoding order v) split)
          ok.1
          (drop-encoding order laws b valid (encodings order vs ++ post) (encoding order v)
            split) in
      let wide = length-append (encoding order v) (encodings order vs) in
      let end : b.selector + here + length (encodings order vs)
          ≡ b.selector + length (encodings order (v ∷ vs)) =
        omega arith in
      rw (select-encoding order laws b valid (encodings order vs ++ post) v ok.0 split, next, end)
        refl

-- If the encodings of values fit into the capacity of a valid buffer, then after the buffer is
-- cleared all of them can be appended, and after it is reset, calls of `select` for their kinds
-- return these values in their order and leave the selector at the end of what was inserted.
pub select_all-append_all :
    (order : ByteOrder) (vs : List Value) (b : Buffer)
    → IsByteOrder order
    → IsValid b
    → All IsValue vs
    → length (encodings order vs) ≤ b.capacity
    → (b' : Buffer) × (append_all order vs (clear b) ≡ some b')
      × (select_all order (map kind_of vs) (reset b') ≡ (some vs, move_to (length b'.memory) b'))
unfolding clear reset
select_all-append_all order vs b laws valid ok h =
    let bounded = valid.bounded in
    let empty : IsValid (clear b) = record {
      within = omega arith;
      fits = omega arith;
      bounded = bounded;
    } in
    let full : IsValid (insert (encodings order vs) (clear b)) =
      insert-IsValid (encodings order vs) (clear b) empty (omega arith) in
    let all =
      select_all-encodings order laws vs (insert (encodings order vs) (clear b)) [] full ok
        (drop-length [] (encodings order vs) ∙ sym (append-nil (encodings order vs))) in
    let end : 0 + length (encodings order vs) ≡ length (encodings order vs) = omega arith in
    (
      insert (encodings order vs) (clear b),
      append_all-encodings order laws vs (clear b) empty ok (omega arith),
      all ∙ ap (λ n. (some vs, move_to n (insert (encodings order vs) (clear b)))) end,
    )
