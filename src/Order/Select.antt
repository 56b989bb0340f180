-- ===== src/Order/Select.antt =====
-- What `select` reads where a value was written, and where it leaves the selector.
use casual.Bytes.{ByteOrder, plus, IsByteOrder, half}
use casual.Bytes.Laws.{ltb-minus, length-drop, drop-add, drop-length, take-append, c_string-append}
use mathlib.Core.Path.{subst}
use casual.Base.{
  ℕ, ◌^◌, ◌+◌, ◌≤◌, ◌<◌, ◌≡◌, ◌≢◌, ◌∙◌, sym, refl, ap, true, false, Bool-cases, inl, inr, none,
  some, List, [], ◌∷◌, ◌++◌, arith, length, take, drop, leb, ltb, All, if◌then◌else◌, length-append,
  append_assoc,
}
use casual.Order.Buffer.{
  Buffer, Value, number, string, binary, advance, select, select_number, select_string,
  select_terminated, select_binary, select_data, as_value,
}
use casual.Order.Format.{IsValid, IsValue, encoding, kind_of}

abbrev pub move_to : ℕ → Buffer → Buffer
move_to at b = record b { selector = at }

-- On every branch: a count that is there is consumed.
pub advance_lem :
    {A : Type 0} (count : ℕ) (value : A) (b : Buffer)
    → IsValid b
    → advance count value b ≡ (
        if leb (b.selector + count) (length b.memory)
        then (some value, move_to (b.selector + count) b)
        else (none, b))
unfolding advance
advance_lem count value b valid =
    let small : length b.memory < half =
      let fits = valid.fits in let bounded = valid.bounded in omega arith in
    ltb-minus (length b.memory) b.selector count _ _ valid.within small
    ∙ elim (Bool-cases (leb (b.selector + count) (length b.memory))) [
      | inl h ↦ let e : plus b.selector count ≡ b.selector + count = ground arith in rw (h, e) refl
      | inr h ↦ rw h refl
    ]

-- Where the bytes are, they are consumed.
advance-some :
    {A : Type 0} (count : ℕ) (value : A) (b : Buffer) (xs post : List ℕ)
    → IsValid b
    → drop b.selector b.memory ≡ xs ++ post
    → length xs ≡ count
    → advance count value b ≡ (some value, move_to (b.selector + count) b)
advance-some count value b xs post valid at e =
    let within = valid.within in
    let total : b.selector + length (drop b.selector b.memory) ≡ length b.memory =
      length-drop b.selector b.memory valid.within in
    let split : length (drop b.selector b.memory) ≡ length xs + length post =
      ap length at ∙ length-append xs post in
    let room : leb (b.selector + count) (length b.memory) ≡ true = ground arith in
    advance_lem count value b valid ∙ rw room refl

move_to-IsValid : (n : ℕ) (b : Buffer) → IsValid b → n ≤ length b.memory → IsValid (move_to n b)
move_to-IsValid n b valid h = record { within = h; fits = valid.fits; bounded = valid.bounded }

module _ (order : ByteOrder) (laws : IsByteOrder order) (b : Buffer) (valid : IsValid b) where
  number-read :
      (post : List ℕ) (width bits : ℕ)
      → bits < 256 ^ width
      → drop b.selector b.memory ≡ order.encode width bits ++ post
      → select_number order width b ≡ (some bits, move_to (b.selector + width) b)
  unfolding select_number
  number-read post width bits small at =
      let wide = laws.length-encode width bits in
      let bytes : take width (drop b.selector b.memory) ≡ order.encode width bits = rw at (
        subst (λ n. take n (order.encode width bits ++ post) ≡ order.encode width bits) wide
          (take-append (order.encode width bits) post)) in
      rw (bytes, laws.decode-encode width bits small)
        (advance-some width bits b (order.encode width bits) post valid at wide)

  string-read :
      (post : List ℕ) (s : List ℕ)
      → All (λ c. c ≢ 0) s
      → drop b.selector b.memory ≡ (s ++ 0 ∷ []) ++ post
      → select_string b ≡ (some s, move_to (b.selector + (length s + 1)) b)
  unfolding select_string select_terminated
  string-read post s clean at =
      rw (at, append_assoc s (0 ∷ []) post, c_string-append s post clean)
        (advance-some (length s + 1) s b (s ++ 0 ∷ []) post valid at (length-append s (0 ∷ [])))

  number-then :
      (post : List ℕ) (size : ℕ) (bytes : List ℕ)
      → size + 8 < half
      → drop b.selector b.memory ≡ (order.encode 8 size ++ bytes) ++ post
      → drop (b.selector + 8) b.memory ≡ bytes ++ post
  number-then post size bytes small at =
      sym (drop-add b.selector 8 b.memory)
      ∙ (rw (at, append_assoc (order.encode 8 size) bytes post)
          (subst (λ n. drop n (order.encode 8 size ++ (bytes ++ post)) ≡ bytes ++ post)
            (laws.length-encode 8 size) (drop-length (order.encode 8 size) (bytes ++ post))))

  binary-read :
      (post : List ℕ) (size : ℕ) (bytes : List ℕ)
      → length bytes ≡ size
      → size + 8 < half
      → drop b.selector b.memory ≡ (order.encode 8 size ++ bytes) ++ post
      → select_binary order b ≡ (some (size, bytes), move_to (b.selector + (8 + size)) b)
  unfolding select_binary select_data
  binary-read post size bytes e small at =
      let bits : size < 256 ^ 8 = omega arith in
      let next = number-then post size bytes small at in
      let first =
        number-read (bytes ++ post) 8 size bits
          (at ∙ append_assoc (order.encode 8 size) bytes post) in
      let whole : take size (drop (b.selector + 8) b.memory) ≡ bytes =
        rw next (subst (λ n. take n (bytes ++ post) ≡ bytes) e (take-append bytes post)) in
      let total : b.selector + length (drop b.selector b.memory) ≡ length b.memory =
        length-drop b.selector b.memory valid.within in
      let split : length (drop b.selector b.memory) ≡ (8 + size) + length post =
        ap length at
        ∙ (length-append (order.encode 8 size ++ bytes) post
            ∙ rw (length-append (order.encode 8 size) bytes, laws.length-encode 8 size, e) refl) in
      let fits = valid.fits in
      let bounded = valid.bounded in
      let there : plus (b.selector + 8) size ≡ b.selector + (8 + size) = omega arith in
      let room : ltb (length b.memory) (b.selector + (8 + size)) ≡ false = ground arith in
      rw (first, there, room, whole) refl

  -- Where the encoding of a value stands at the selector, `select` for its kind reads the value and
  -- moves the selector past the encoding.
  pub select-encoding :
      (post : List ℕ) (v : Value)
      → IsValue v
      → drop b.selector b.memory ≡ encoding order v ++ post
      → select order (kind_of v) b ≡ (some v, move_to (b.selector + length (encoding order v)) b)
  unfolding select as_value
  select-encoding post (number width bits) ok at =
      rw (number-read post width bits ok.1 at, laws.length-encode width bits) refl
  select-encoding post (string s) ok at =
      rw (string-read post s ok.1 at, length-append s (0 ∷ [])) refl
  select-encoding post (binary size bytes) ok at =
      rw
        (
          binary-read post size bytes ok.0 ok.1 at,
          length-append (order.encode 8 size) bytes,
          laws.length-encode 8 size,
          ok.0,
        )
        refl

  -- What follows an encoding stands where the selector is moved to, which is within the memory.
  pub drop-encoding :
      (post xs : List ℕ)
      → drop b.selector b.memory ≡ xs ++ post
      → drop (b.selector + length xs) b.memory ≡ post
  drop-encoding post xs at =
      sym (drop-add b.selector (length xs) b.memory) ∙ rw at (drop-length xs post)

  pub encoding-within :
      (post xs : List ℕ)
      → drop b.selector b.memory ≡ xs ++ post
      → IsValid (move_to (b.selector + length xs) b)
  encoding-within post xs at =
      let total : b.selector + length (drop b.selector b.memory) ≡ length b.memory =
        length-drop b.selector b.memory valid.within in
      let split : length (drop b.selector b.memory) ≡ length xs + length post =
        ap length at ∙ length-append xs post in
      let within : b.selector + length xs ≤ length b.memory = omega arith in
      move_to-IsValid (b.selector + length xs) b valid within
