-- ===== src/Base/Lists.antt =====
-- Lists as the program's vectors: the searches, updates and partitions of `common/algorithm.h`.
use Prim.Native.Nat.{ℕ, zero, suc, ◌+◌}
use mathlib.Core.Path.{◌≡◌, refl}
use mathlib.Core.Bool.{Bool, true, false, ◌&&◌, ◌||◌}
use mathlib.Core.List.{List, [], ◌∷◌, ◌++◌}
use mathlib.Core.Option.{Option, none, some, some-injective}
use native.Mathlib.Omega.{arith}
use casual.Base.Tests.{if◌then◌else◌, Bool-cases}
use mathlib.Core.Logic.{inl, inr}
use mathlib.Core.Path.{subst}

module _ {ℓ} {A : Type ℓ} where
  abbrev pub length : List A → ℕ
  length [] = 0
  length (x ∷ xs) = suc (length xs)

  pub length-append : (xs ys : List A) → length (xs ++ ys) ≡ length xs + length ys
  length-append [] ys = omega arith
  length-append (x ∷ xs) ys = omega (arith, length-append xs ys)

  abbrev pub is_empty : List A → Bool
  is_empty [] = true
  is_empty (x ∷ xs) = false

  -- `range::find_if`: the first element that passes.
  unfoldable pub find_if : (A → Bool) → List A → Option A
  find_if p [] = none
  find_if p (x ∷ xs) = if p x then some x else find_if p xs

  pub find_if-passes : (p : A → Bool) (xs : List A) (x : A) → find_if p xs ≡ some x → p x ≡ true
  unfolding find_if
  find_if-passes p [] x = λ h. ground arith
  find_if-passes p (y ∷ ys) x = elim (Bool-cases (p y)) [
    | inl e ↦ rw e (λ h. subst (λ z. p z ≡ true) (some-injective y x h) e)
    | inr e ↦ rw e (find_if-passes p ys x)
  ]

  -- A write through what `find_if` found.
  unfoldable pub update_first : (A → Bool) → (A → A) → List A → List A
  update_first p f [] = []
  update_first p f (x ∷ xs) = if p x then f x ∷ xs else x ∷ update_first p f xs

  -- `erase( std::begin( found))`.
  unfoldable pub erase_first : (A → Bool) → List A → List A
  erase_first p [] = []
  erase_first p (x ∷ xs) = if p x then xs else x ∷ erase_first p xs

  unfoldable pub all_of : (A → Bool) → List A → Bool
  all_of p [] = true
  all_of p (x ∷ xs) = p x && all_of p xs

  unfoldable pub any_of : (A → Bool) → List A → Bool
  any_of p [] = false
  any_of p (x ∷ xs) = p x || any_of p xs

  -- The two halves of `range::partition`.
  unfoldable pub select : (A → Bool) → List A → List A
  select p [] = []
  select p (x ∷ xs) = if p x then x ∷ select p xs else select p xs

  unfoldable pub reject : (A → Bool) → List A → List A
  reject p [] = []
  reject p (x ∷ xs) = if p x then reject p xs else x ∷ reject p xs

  -- The elements before the first that passes.
  unfoldable pub until : (A → Bool) → List A → List A
  until p [] = []
  until p (x ∷ xs) = if p x then [] else x ∷ until p xs

  -- `std::sort`, by an order that tells different elements apart: where equal elements come to stand
  -- makes no difference.
  unfoldable pub insert_by : (A → A → Bool) → A → List A → List A
  insert_by less x [] = x ∷ []
  insert_by less x (y ∷ ys) = if less y x then y ∷ insert_by less x ys else x ∷ y ∷ ys

  unfoldable pub sort_by : (A → A → Bool) → List A → List A
  sort_by less [] = []
  sort_by less (x ∷ xs) = insert_by less x (sort_by less xs)

  -- `range::unique`: of a run of equal elements the first is kept.
  unfoldable pub unique_by : (A → A → Bool) → List A → List A
  unique_by same [] = []
  unique_by same (x ∷ xs) =
      let rest = unique_by same xs in
      elim rest [ [] ↦ x ∷ [] | y ∷ ys ↦ if same x y then x ∷ ys else x ∷ y ∷ ys ]

  -- How many elements pass.
  unfoldable pub how_many : (A → Bool) → List A → ℕ
  how_many p [] = 0
  how_many p (x ∷ xs) = (if p x then 1 else 0) + how_many p xs

  pub how_many-append :
      (p : A → Bool) (xs ys : List A) → how_many p (xs ++ ys) ≡ how_many p xs + how_many p ys
  unfolding how_many
  how_many-append p [] ys = omega arith
  how_many-append p (x ∷ xs) ys = ground (arith, how_many-append p xs ys)

  pub how_many-select-reject :
      (p q : A → Bool) (xs : List A)
      → how_many q (select p xs) + how_many q (reject p xs) ≡ how_many q xs
  unfolding how_many select reject
  how_many-select-reject p q [] = refl
  how_many-select-reject p q (x ∷ xs) = ground (arith, how_many-select-reject p q xs)

  -- A predicate at every element, by recursion.
  abbrev pub All {κ} : (A → Type κ) → List A → Type κ
  All P [] = Unit
  All P (x ∷ xs) = P x × All P xs

  unfoldable pub take : ℕ → List A → List A
  take n [] = []
  take zero (x ∷ xs) = []
  take (suc n) (x ∷ xs) = x ∷ take n xs

  unfoldable pub drop : ℕ → List A → List A
  drop n [] = []
  drop zero (x ∷ xs) = x ∷ xs
  drop (suc n) (x ∷ xs) = drop n xs
