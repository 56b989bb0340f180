-- ===== src/Bytes/Laws.antt =====
-- Laws of the tests on sizes, and of the parts of a memory.
use casual.Base.{
  ◌∙◌, ℕ, zero, suc, ◌+◌, ◌-◌, ◌≤◌, ◌<◌, ◌≡◌, ◌≢◌, refl, ap, some, List, [], ◌∷◌, ◌++◌, arith,
  length, take, drop, leb, ltb, All, if◌then◌else◌,
}
use casual.Bytes.{minus, half, c_string}

pub minus_le : (a b : ℕ) → b ≤ a → a < half → minus a b ≡ a - b
minus_le a b h k = omega arith

-- The test of the space that is left is the test of the space that is needed.
pub ltb-minus :
    {A : Type 0} (a b n : ℕ) (x y : A)
    → b ≤ a
    → a < half
    → (if ltb (minus a b) n then x else y) ≡ (if leb (b + n) a then y else x)
ltb-minus a b n x y h k = rw (minus_le a b h k) (ground arith)

pub take-length : (xs : List ℕ) → take (length xs) xs ≡ xs
unfolding take
take-length [] = refl
take-length (x ∷ xs) = ap (λ l. x ∷ l) (take-length xs)

pub length-drop : (n : ℕ) (xs : List ℕ) → n ≤ length xs → n + length (drop n xs) ≡ length xs
unfolding drop
length-drop n [] h = omega arith
length-drop zero (x ∷ xs) h = omega arith
length-drop (suc n) (x ∷ xs) h = omega (arith, length-drop n xs)

pub drop-add : (n k : ℕ) (xs : List ℕ) → drop k (drop n xs) ≡ drop (n + k) xs
unfolding drop
drop-add n k [] = refl
drop-add zero k (x ∷ xs) = let e : k ≡ zero + k = omega arith in ap (λ n. drop n (x ∷ xs)) e
drop-add (suc n) k (x ∷ xs) =
    let e : suc (n + k) ≡ suc n + k = omega arith in drop-add n k xs ∙ ap (λ n. drop n (x ∷ xs)) e

pub drop-length : (xs ys : List ℕ) → drop (length xs) (xs ++ ys) ≡ ys
unfolding drop
drop-length [] [] = refl
drop-length [] (y ∷ ys) = refl
drop-length (x ∷ xs) ys = drop-length xs ys

pub take-append : (xs ys : List ℕ) → take (length xs) (xs ++ ys) ≡ xs
unfolding take
take-append [] [] = refl
take-append [] (y ∷ ys) = refl
take-append (x ∷ xs) ys = ap (λ l. x ∷ l) (take-append xs ys)

pub c_string-append : (s post : List ℕ) → All (λ b. b ≢ 0) s → c_string (s ++ 0 ∷ post) ≡ some s
unfolding c_string
c_string-append [] post h = refl
c_string-append (zero ∷ s) post h = absurd (h.0 refl)
c_string-append (suc b ∷ s) post h = rw (c_string-append s post h.1) refl
