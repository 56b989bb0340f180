-- ===== src/Field/Places.antt =====
-- Where the index of a field buffer finds an occurrence of an id.
use casual.Base.{
  ◌∙◌, ℕ, zero, suc, ◌+◌, ◌≡◌, refl, ap, Bool-cases, inl, inr, Option, none, some, List, [], ◌∷◌,
  ◌++◌, arith, length, ◌==◌, ==_iff, if◌then◌else◌,
}
use casual.Field.Buffer.{find_index, shift, shift_after, erase_entry}
use casual.Field.Items.{Item, width, widths, index_of, Place, beyond, locate}

-- A place says how the items are divided.
abbrev pub Divides : ℕ → List Item → Option Place → Type 0
Divides id is none = Unit {0}
Divides id is (some p) = is ≡ p.before ++ (id, p.value) ∷ p.after

Divides-beyond :
    (id : ℕ) (i : Item) (is : List Item) (o : Option Place)
    → Divides id is o
    → Divides id (i ∷ is) (beyond i o)
unfolding beyond
Divides-beyond id i is none d = tt
Divides-beyond id i is (some p) d = ap (λ l. i ∷ l) d

pub locate-Divides : (id n : ℕ) (is : List Item) → Divides id is (locate id n is)
unfolding locate
locate-Divides id n [] = tt
locate-Divides id zero ((j, bytes) ∷ is) = elim (Bool-cases (j == id)) [
  | inl e ↦ rw e (ap (λ k. (k, bytes) ∷ is) ((==_iff j id).0 e))
  | inr e ↦ rw e (Divides-beyond id (j, bytes) is (locate id zero is) (locate-Divides id zero is))
]
locate-Divides id (suc n) ((j, bytes) ∷ is) =
    Divides-beyond id (j, bytes) is (locate id (if j == id then n else suc n) is)
      (locate-Divides id (if j == id then n else suc n) is)

abbrev pub offset : ℕ → Option Place → Option ℕ
offset at none = none
offset at (some p) = some (at + widths p.before)

offset-beyond :
    (at : ℕ) (i : Item) (o : Option Place) → offset (at + width i) o ≡ offset at (beyond i o)
unfolding beyond
offset-beyond at i none = refl
offset-beyond at i (some p) =
    let e : at + width i + widths p.before ≡ at + (width i + widths p.before) = omega arith in
    ap some e

pub find_index-index_of :
    (id n at : ℕ) (is : List Item) → find_index id n (index_of at is) ≡ offset at (locate id n is)
unfolding find_index index_of locate
find_index-index_of id n at [] = refl
find_index-index_of id zero at ((j, bytes) ∷ is) = elim (Bool-cases (j == id)) [
  | inl e ↦ let z : at ≡ at + 0 = omega arith in rw e (ap some z)
  | inr e ↦ rw e (
      find_index-index_of id zero (at + (16 + length bytes)) is
      ∙ offset-beyond at (j, bytes) (locate id zero is))
]
find_index-index_of id (suc n) at ((j, bytes) ∷ is) =
    find_index-index_of id (if j == id then n else suc n) (at + (16 + length bytes)) is
    ∙ offset-beyond at (j, bytes) (locate id (if j == id then n else suc n) is)

-- What stands beyond a place, in an index that starts at an offset.
abbrev pub tail_of : ℕ → Place → List (ℕ × ℕ)
tail_of at p = index_of (at + widths p.before + (16 + length p.value)) p.after

abbrev pub Shifted : ℕ → ℕ → ℕ → List (ℕ × ℕ) → Option Place → Type 0
Shifted id at amount entries none = Unit {0}
Shifted id at amount entries (some p) =
    entries ≡ index_of at p.before ++ (id, at + widths p.before) ∷ shift amount (tail_of at p)

abbrev pub Erased : ℕ → ℕ → List (ℕ × ℕ) → Option Place → Type 0
Erased at amount entries none = Unit {0}
Erased at amount entries (some p) = entries ≡ index_of at p.before ++ shift amount (tail_of at p)

Shifted-beyond :
    (id at amount : ℕ) (i : Item) (entries : List (ℕ × ℕ)) (o : Option Place)
    → Shifted id (at + width i) amount entries o
    → Shifted id at amount ((i.0, at) ∷ entries) (beyond i o)
unfolding beyond index_of
Shifted-beyond id at amount i entries none s = tt
Shifted-beyond id at amount i entries (some p) s =
    let e : at + width i + widths p.before ≡ at + (width i + widths p.before) = omega arith in
    ap (λ l. (i.0, at) ∷ l) s
    ∙ ap
        (λ n.
          (i.0, at)
          ∷ (index_of (at + width i) p.before
              ++ (id, n) ∷ shift amount (index_of (n + (16 + length p.value)) p.after)))
        e

Erased-beyond :
    (at amount : ℕ) (i : Item) (entries : List (ℕ × ℕ)) (o : Option Place)
    → Erased (at + width i) amount entries o
    → Erased at amount ((i.0, at) ∷ entries) (beyond i o)
unfolding beyond index_of
Erased-beyond at amount i entries none s = tt
Erased-beyond at amount i entries (some p) s =
    let e : at + width i + widths p.before ≡ at + (width i + widths p.before) = omega arith in
    ap (λ l. (i.0, at) ∷ l) s
    ∙ ap
        (λ n.
          (i.0, at)
          ∷ (index_of (at + width i) p.before
              ++ shift amount (index_of (n + (16 + length p.value)) p.after)))
        e

pub shift_after-Shifted :
    (id n at amount : ℕ) (is : List Item)
    → Shifted id at amount (shift_after id n amount (index_of at is)) (locate id n is)
unfolding shift_after index_of locate
shift_after-Shifted id n at amount [] = tt
shift_after-Shifted id zero at amount ((j, bytes) ∷ is) = elim (Bool-cases (j == id)) [
  | inl e ↦
      let z : at ≡ at + 0 = omega arith in
      rw e (
        ap (λ k. (k, at) ∷ shift amount (index_of (at + (16 + length bytes)) is))
          ((==_iff j id).0 e)
        ∙ ap (λ n. (id, n) ∷ shift amount (index_of (n + (16 + length bytes)) is)) z)
  | inr e ↦ rw e (
      Shifted-beyond id at amount (j, bytes)
        (shift_after id zero amount (index_of (at + (16 + length bytes)) is)) (locate id zero is)
        (shift_after-Shifted id zero (at + (16 + length bytes)) amount is))
]
shift_after-Shifted id (suc n) at amount ((j, bytes) ∷ is) =
    let m : ℕ = if j == id then n else suc n in
    Shifted-beyond id at amount (j, bytes)
      (shift_after id m amount (index_of (at + (16 + length bytes)) is)) (locate id m is)
      (shift_after-Shifted id m (at + (16 + length bytes)) amount is)

pub erase_entry-Erased :
    (id n at amount : ℕ) (is : List Item)
    → Erased at amount (erase_entry id n amount (index_of at is)) (locate id n is)
unfolding erase_entry index_of locate
erase_entry-Erased id n at amount [] = tt
erase_entry-Erased id zero at amount ((j, bytes) ∷ is) = elim (Bool-cases (j == id)) [
  | inl e ↦
      let z : at ≡ at + 0 = omega arith in
      rw e (ap (λ n. shift amount (index_of (n + (16 + length bytes)) is)) z)
  | inr e ↦ rw e (
      Erased-beyond at amount (j, bytes)
        (erase_entry id zero amount (index_of (at + (16 + length bytes)) is)) (locate id zero is)
        (erase_entry-Erased id zero (at + (16 + length bytes)) amount is))
]
erase_entry-Erased id (suc n) at amount ((j, bytes) ∷ is) =
    let m : ℕ = if j == id then n else suc n in
    Erased-beyond at amount (j, bytes)
      (erase_entry id m amount (index_of (at + (16 + length bytes)) is)) (locate id m is)
      (erase_entry-Erased id m (at + (16 + length bytes)) amount is)
