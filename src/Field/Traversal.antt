-- ===== src/Field/Traversal.antt =====
-- The traversal of a field buffer by `first` and `next`.
use casual.Base.{
  ◌∙◌, ℕ, zero, suc, ◌+◌, ◌≡◌, refl, true, false, Bool-cases, inl, inr, some, List, [], ◌∷◌, ◌++◌,
  ◌==◌, ==_refl, arith, append_assoc,
}
use casual.Pool.{Entry, find}
use casual.Field.Buffer.{Buffer, find_index, count_entries}
use casual.Field.Pool.{Pool, success, behind, split_after, adjacent, next, next_found}

split_after-other :
    (id to j n : ℕ) (entries through rest : List (ℕ × ℕ))
    → (j == id) ≡ false
    → split_after id n entries ≡ some (through, rest)
    → split_after id n ((j, to) ∷ entries) ≡ some ((j, to) ∷ through, rest)
unfolding split_after behind
split_after-other id to j zero entries through rest e further = rw (e, further) refl
split_after-other id to j (suc n) entries through rest e further = rw (e, further) refl

split_after-found :
    (id at : ℕ) (before rest : List (ℕ × ℕ))
    → split_after id (count_entries id before) (before ++ (id, at) ∷ rest)
      ≡ some (before ++ (id, at) ∷ [], rest)
unfolding split_after count_entries behind
split_after-found id at [] rest = rw (==_refl id) refl
split_after-found id at ((j, to) ∷ before) rest =
    let further = split_after-found id at before rest in
    elim (Bool-cases (j == id)) [
      | inl e ↦
          let one : 1 + count_entries id before ≡ suc (count_entries id before) = omega arith in
          rw (e, one, e, further) refl
      | inr e ↦
          let none_yet : 0 + count_entries id before ≡ count_entries id before = omega arith in
          rw (e, none_yet) (split_after-other id to j (count_entries id before) _ _ _ e further)
    ]

find_index-other :
    (id to j n : ℕ) (entries : List (ℕ × ℕ))
    → (j == id) ≡ false
    → find_index id n ((j, to) ∷ entries) ≡ find_index id n entries
unfolding find_index
find_index-other id to j zero entries e = rw e refl
find_index-other id to j (suc n) entries e = rw e refl

find_index-same :
    (id to j n : ℕ) (entries : List (ℕ × ℕ))
    → (j == id) ≡ true
    → find_index id (suc n) ((j, to) ∷ entries) ≡ find_index id n entries
unfolding find_index
find_index-same id to j n entries e = rw e refl

find_index-found :
    (id at : ℕ) (before rest : List (ℕ × ℕ))
    → find_index id (count_entries id before) (before ++ (id, at) ∷ rest) ≡ some at
unfolding find_index count_entries
find_index-found id at [] rest = rw (==_refl id) refl
find_index-found id at ((j, to) ∷ before) rest =
    let further = find_index-found id at before rest in
    elim (Bool-cases (j == id)) [
      | inl e ↦
          let one : 1 + count_entries id before ≡ suc (count_entries id before) = omega arith in
          rw (e, one)
            (find_index-same id to j (count_entries id before) (before ++ (id, at) ∷ rest) e
              ∙ further)
      | inr e ↦
          let none_yet : 0 + count_entries id before ≡ count_entries id before = omega arith in
          rw (e, none_yet)
            (find_index-other id to j (count_entries id before) (before ++ (id, at) ∷ rest) e
              ∙ further)
    ]

-- In the index of a buffer of the pool one entry follows another. Then `next`, from the first of
-- them, given as its id and the number of entries of that id before it, succeeds with the id of the
-- second and the number of entries of that id before it, and under that the second is found.
pub next_follows :
    (pool : Pool) (h : ℕ) (e : Entry Buffer) (id at j to : ℕ) (before after : List (ℕ × ℕ))
    → find h pool ≡ some e
    → e.buffer.index ≡ before ++ (id, at) ∷ (j, to) ∷ after
    → (next h id (count_entries id before) pool
        ≡ (success, some (j, count_entries j (before ++ (id, at) ∷ []))))
      × (find_index j (count_entries j (before ++ (id, at) ∷ [])) e.buffer.index ≡ some to)
unfolding next next_found adjacent
next_follows pool h e id at j to before after known index = (
  rw (known, index, split_after-found id at before ((j, to) ∷ after)) refl,
  rw (index, ← append_assoc before ((id, at) ∷ []) ((j, to) ∷ after))
      (find_index-found j to (before ++ (id, at) ∷ []) after),
)
