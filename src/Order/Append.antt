-- ===== src/Order/Append.antt =====
-- What `append` does, on every branch: all of a value is written, or nothing.
use casual.Bytes.{ByteOrder, plus, bytes_long, IsByteOrder, half}
use casual.Bytes.Laws.{ltb-minus, take-length}
use mathlib.Core.Path.{subst}
use casual.Base.{
  ◌∙◌, Bool-cases, inl, inr, ℕ, ◌+◌, ◌<◌, ◌≡◌, refl, Bool, true, false, List, [], ◌∷◌, ◌++◌, arith,
  length, take, leb, if◌then◌else◌, length-append, append_assoc,
}
use casual.Order.Buffer.{
  Buffer, Value, number, string, binary, insert, append, append_number, append_string,
  append_binary,
}
use casual.Order.Format.{IsValid, IsValue, encoding}

-- What `append` promises.
abbrev pub written : ByteOrder → Value → Buffer → Bool × Buffer
written order v b =
    if leb (length b.memory + length (encoding order v)) b.capacity
    then (true, insert (encoding order v) b)
    else (false, b)

module _ (order : ByteOrder) (laws : IsByteOrder order) (b : Buffer) (valid : IsValid b) where
  append_number-written :
      (width bits : ℕ) → append_number order width bits b ≡ written order (number width bits) b
  unfolding append_number
  append_number-written width bits =
      rw (laws.length-encode width bits)
        (ltb-minus b.capacity (length b.memory) width _ _ valid.fits valid.bounded)

  append_string-written : (s : List ℕ) → append_string s b ≡ written order (string s) b
  unfolding append_string
  append_string-written s =
      rw (length-append s (0 ∷ []))
        (ltb-minus b.capacity (length b.memory) (length s + 1) _ _ valid.fits valid.bounded)

  binary_size :
      (size : ℕ)
      → leb (length b.memory + (8 + size)) b.capacity ≡ true
      → append_number order 8 size b ≡ (true, insert (order.encode 8 size) b)
  binary_size size h =
      let room : leb (length b.memory + 8) b.capacity ≡ true = ground arith in
      append_number-written 8 size ∙ rw (laws.length-encode 8 size, room) refl

  append_binary-written :
      (size : ℕ) (bytes : List ℕ)
      → length bytes ≡ size
      → size + 8 < half
      → append_binary order size bytes b ≡ written order (binary size bytes) b
  unfolding append_binary
  append_binary-written size bytes e small =
      let whole : take size bytes ≡ bytes =
        subst (λ n. take n bytes ≡ bytes) e (take-length bytes) in
      let total : plus bytes_long size ≡ 8 + size = omega arith in
      let wide : length (order.encode 8 size ++ bytes) ≡ 8 + size =
        length-append (order.encode 8 size) bytes ∙ rw (laws.length-encode 8 size, e) refl in
      rw (total, whole, wide)
        (ltb-minus b.capacity (length b.memory) (8 + size) _ _ valid.fits valid.bounded
          ∙ elim (Bool-cases (leb (length b.memory + (8 + size)) b.capacity)) [
            | inl h ↦
                rw (h, binary_size size h, append_assoc b.memory (order.encode 8 size) bytes) refl
            | inr h ↦ rw h refl
          ])

  -- To a valid buffer, `append` adds the whole encoding of a value if that fits into the capacity
  -- and says that it did; if not, it says so and leaves the buffer as it was.
  pub append-written : (v : Value) → IsValue v → append order v b ≡ written order v b
  unfolding append
  append-written (number width bits) ok = append_number-written width bits
  append-written (string s) ok = append_string-written s
  append-written (binary size bytes) ok = append_binary-written size bytes ok.0 ok.1
