-- ===== src/Base/Maps.antt =====
-- Maps from numbers, as lists of keys and values in the order that the container chooses.
use Prim.Native.Nat.{ℕ}
use mathlib.Core.List.{List, [], ◌∷◌}
use mathlib.Core.Option.{Option, none, some}
use casual.Base.Tests.{◌==◌, if◌then◌else◌}

module _ {ℓ} {V : Type ℓ} where
  -- `range::find( map, key)`.
  unfoldable pub lookup : ℕ → List (ℕ × V) → Option V
  lookup k [] = none
  lookup k ((j, v) ∷ entries) = if j == k then some v else lookup k entries

  -- `emplace`: a key that is there keeps its value.
  unfoldable pub emplace : ℕ → V → List (ℕ × V) → List (ℕ × V)
  emplace k v [] = (k, v) ∷ []
  emplace k v ((j, w) ∷ entries) = if j == k then (j, w) ∷ entries else (j, w) ∷ emplace k v entries

  -- A write through what `lookup` found.
  unfoldable pub update_at : ℕ → (V → V) → List (ℕ × V) → List (ℕ × V)
  update_at k f [] = []
  update_at k f ((j, v) ∷ entries) =
      if j == k then (j, f v) ∷ entries else (j, v) ∷ update_at k f entries

  -- `erase` of a key.
  unfoldable pub remove_key : ℕ → List (ℕ × V) → List (ℕ × V)
  remove_key k [] = []
  remove_key k ((j, v) ∷ entries) =
      if j == k then remove_key k entries else (j, v) ∷ remove_key k entries

  abbrev pub values : List (ℕ × V) → List V
  values [] = []
  values ((j, v) ∷ entries) = v ∷ values entries
