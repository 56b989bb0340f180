-- ===== src/Manager/Model/Unique.antt =====
-- `range::sort`, `range::unique` and `range::trim` over the resources of a transaction.
use casual.Base.{
  ◌≢◌, ◌∙◌, ℕ, ◌≤◌, ◌<◌, ◌≡◌, refl, List, [], ◌∷◌, All, arith, ◌==◌, any_of, ◌||◌, ◌&&◌, Bool,
  Bool-cases, inl, inr, ltb,
}
use casual.Manager.Model.{Ties, Resource, has_id, insert_sorted, sort, skip_same, unique}

abbrev pub Below : ℕ → List Resource → Type 0
Below i = All (λ q. i ≤ q.id)

abbrev pub IsSorted : List Resource → Type 0
IsSorted [] = Unit
IsSorted (r ∷ rs) = Below r.id rs × IsSorted rs

-- The ids rise strictly along the list.
abbrev pub IsAscending : List Resource → Type 0
IsAscending [] = Unit
IsAscending (r ∷ rs) = All (λ q. r.id < q.id) rs × IsAscending rs

Below-mono : (i j : ℕ) (rs : List Resource) → i ≤ j → Below j rs → Below i rs
Below-mono i j [] h b = tt
Below-mono i j (r ∷ rs) h b = (omega arith, Below-mono i j rs h b.1)

insert_sorted-Below :
    (ties : Ties) (i : ℕ) (r : Resource) (qs : List Resource)
    → i ≤ r.id
    → Below i qs
    → Below i (insert_sorted ties r qs)
unfolding insert_sorted
insert_sorted-Below ties i r [] h b = (h, tt)
insert_sorted-Below ties i r (q ∷ qs) h b = ground (arith, insert_sorted-Below ties i r qs h b.1)

insert_sorted-IsSorted :
    (ties : Ties) (r : Resource) (qs : List Resource)
    → IsSorted qs
    → IsSorted (insert_sorted ties r qs)
unfolding insert_sorted
insert_sorted-IsSorted ties r [] s = (tt, tt)
insert_sorted-IsSorted ties r (q ∷ qs) s = ground (
  arith,
  insert_sorted-IsSorted ties r qs s.1,
  insert_sorted-Below ties q.id r qs,
  Below-mono r.id q.id qs,
)

pub sort-IsSorted : (ties : Ties) (rs : List Resource) → IsSorted (sort ties rs)
unfolding sort
sort-IsSorted ties [] = tt
sort-IsSorted ties (r ∷ rs) = insert_sorted-IsSorted ties r (sort ties rs) (sort-IsSorted ties rs)

abbrev Above : ℕ → List Resource → Type 0
Above i = All (λ q. i < q.id)

Above-mono : (i j : ℕ) (rs : List Resource) → i ≤ j → Above j rs → Above i rs
Above-mono i j [] h a = tt
Above-mono i j (r ∷ rs) h a = (omega arith, Above-mono i j rs h a.1)

skip_same-IsAscending :
    (j : ℕ) (rs : List Resource)
    → Below j rs
    → IsSorted rs
    → Above j (skip_same j rs) × IsAscending (skip_same j rs)
unfolding skip_same
skip_same-IsAscending j [] b s = (tt, tt)
skip_same-IsAscending j (r ∷ rs) b s = ground (
  arith,
  skip_same-IsAscending j rs b.1 s.1,
  skip_same-IsAscending r.id rs s.0 s.1,
  Above-mono j r.id (skip_same r.id rs),
)

unique-IsAscending : (rs : List Resource) → IsSorted rs → IsAscending (unique rs)
unfolding unique
unique-IsAscending [] s = tt
unique-IsAscending (r ∷ rs) s = skip_same-IsAscending r.id rs s.0 s.1

pub unique-sort-IsAscending :
    (ties : Ties) (rs : List Resource) → IsAscending (unique (sort ties rs))
unique-sort-IsAscending ties rs = unique-IsAscending (sort ties rs) (sort-IsSorted ties rs)

any_of-insert_sorted :
    (p : Resource → Bool) (ties : Ties) (r : Resource) (qs : List Resource)
    → any_of p (insert_sorted ties r qs) ≡ (p r || any_of p qs)
unfolding insert_sorted any_of
any_of-insert_sorted p ties r [] = refl
any_of-insert_sorted p ties r (q ∷ qs) = ground (arith, any_of-insert_sorted p ties r qs)

pub any_of-sort :
    (p : Resource → Bool) (ties : Ties) (rs : List Resource) → any_of p (sort ties rs) ≡ any_of p rs
unfolding sort any_of
any_of-sort p ties [] = refl
any_of-sort p ties (r ∷ rs) =
    ground (arith, any_of-insert_sorted p ties r (sort ties rs), any_of-sort p ties rs)

any_of-skip_same :
    (i j : ℕ) (rs : List Resource)
    → i ≢ j
    → any_of (has_id i) (skip_same j rs) ≡ any_of (has_id i) rs
unfolding skip_same any_of
any_of-skip_same i j [] h = refl
any_of-skip_same i j (r ∷ rs) h =
    ground (arith, any_of-skip_same i j rs h, any_of-skip_same i r.id rs)

any_of-unique : (i : ℕ) (rs : List Resource) → any_of (has_id i) (unique rs) ≡ any_of (has_id i) rs
unfolding unique any_of
any_of-unique i [] = refl
any_of-unique i (r ∷ rs) = ground (arith, any_of-skip_same i r.id rs)

-- The same ids stand in the list.
pub any_of-unique-sort :
    (i : ℕ) (ties : Ties) (rs : List Resource)
    → any_of (has_id i) (unique (sort ties rs)) ≡ any_of (has_id i) rs
any_of-unique-sort i ties rs = any_of-unique i (sort ties rs) ∙ any_of-sort (has_id i) ties rs

module _ (P : Resource → Type 0) where
  All-skip_same : (j : ℕ) (rs : List Resource) → All P rs → All P (skip_same j rs)
  unfolding skip_same
  All-skip_same j [] h = tt
  All-skip_same j (r ∷ rs) h = elim (Bool-cases (r.id == j)) [
    | inl e ↦ rw (All, e) (All-skip_same j rs h.1)
    | inr e ↦ rw (All, e) (h.0, All-skip_same r.id rs h.1)
  ]

  All-insert_sorted :
      (ties : Ties) (r : Resource) (qs : List Resource)
      → P r
      → All P qs
      → All P (insert_sorted ties r qs)
  unfolding insert_sorted
  All-insert_sorted ties r [] h a = (h, tt)
  All-insert_sorted ties r (q ∷ qs) h a =
      elim (Bool-cases (ltb q.id r.id || (q.id == r.id && ties r (q ∷ qs)))) [
        | inl e ↦ rw e (a.0, All-insert_sorted ties r qs h a.1)
        | inr e ↦ rw e (h, a)
      ]

  All-sort : (ties : Ties) (rs : List Resource) → All P rs → All P (sort ties rs)
  unfolding sort
  All-sort ties [] h = tt
  All-sort ties (r ∷ rs) h = All-insert_sorted ties r (sort ties rs) h.0 (All-sort ties rs h.1)

  All-unique : (rs : List Resource) → All P rs → All P (unique rs)
  unfolding unique
  All-unique [] h = tt
  All-unique (r ∷ rs) h = (h.0, All-skip_same r.id rs h.1)

  -- What holds of all resources still holds of all.
  pub All-unique-sort :
      (ties : Ties) (rs : List Resource) → All P rs → All P (unique (sort ties rs))
  All-unique-sort ties rs h = All-unique (sort ties rs) (All-sort ties rs h)
