-- ===== src/Context/Pending/Rising.antt =====
-- The descriptors of calls are told apart.
use casual.Base.{
  ◌∙◌, sym, ℕ, ◌+◌, ◌<◌, ◌≡◌, refl, Bool, true, false, Bool-cases, inl, inr, Option, none, some,
  List, [], ◌∷◌, ◌++◌, ◌==◌, ==_refl, ◌||◌, not, find_if, update_first, is_empty, arith,
}
use mathlib.Core.Path.{subst}
use mathlib.Core.Option.{some-injective}
use casual.Context.State.{State, Descriptor}
use casual.Context.Monad.{ok, pure, raise, gets, modify, continue, case_of, ◌>>=◌}
use casual.Context.Pending.{
  has_descriptor, is_free, last_descriptor, taken, appended, reserve, active_found,
  active_descriptor,
}

-- The descriptors rise, from above the number.
abbrev pub Rising : ℕ → List Descriptor → Type 0
Rising low [] = Unit
Rising low (e ∷ es) = (low < e.descriptor) × Rising e.descriptor es

abbrev active_at : ℕ → List Descriptor → Bool
active_at d pending = active_found (find_if (has_descriptor d) pending)

found_above :
    (p : Descriptor → Bool) (low : ℕ) (pending : List Descriptor) (e : Descriptor)
    → Rising low pending
    → find_if p pending ≡ some e
    → low < e.descriptor
unfolding find_if
found_above p low [] e rising = λ h. absurd (ground arith)
found_above p low (f ∷ fs) e rising = elim (Bool-cases (p f)) [
  | inl h ↦ rw h (λ g. ground (arith, rising.0))
  | inr h ↦ rw h (λ g.
      let above = found_above p f.descriptor fs e rising.1 g in omega (arith, rising.0, above))
]

-- What taking the first free descriptor does.
abbrev Taken : ℕ → ℕ → Descriptor → ℕ → List Descriptor → Type 0
Taken low correlation e k pending =
    (active_at e.descriptor pending ≡ false)
    × Rising low (update_first is_free (taken correlation) pending)
    × (active_at k (update_first is_free (taken correlation) pending)
        ≡ (k == e.descriptor) || active_at k pending)

free-active : (f : Descriptor) (b : Bool) → is_free f ≡ b → f.is_active ≡ not b
unfolding is_free
free-active f b h = ground arith

taken_lem :
    (low correlation : ℕ) (e : Descriptor) (k : ℕ) (pending : List Descriptor)
    → Rising low pending
    → find_if is_free pending ≡ some e
    → Taken low correlation e k pending
unfolding find_if update_first taken has_descriptor active_found
taken_lem low correlation e k [] rising = λ h. absurd (ground arith)
taken_lem low correlation e k (f ∷ fs) rising = elim (Bool-cases (is_free f)) [
  | inl h ↦ λ g.
      subst (λ e. Taken low correlation e k (f ∷ fs)) (some-injective f e (rw h at g))
        (first_taken h)
  | inr h ↦ rw h (λ g.
      let (free, rest, k_active) = taken_lem f.descriptor correlation e k fs rising.1 g in
      let above = found_above is_free f.descriptor fs e rising.1 g in
      let other : (f.descriptor == e.descriptor) ≡ false = ground arith in
      let used : f.is_active ≡ true = free-active f false h in
      (
        rw other free,
        (rising.0, rest),
        elim (Bool-cases (f.descriptor == k)) [
          | inl m ↦ rw m (used ∙ sym (rw used (ground arith)))
          | inr m ↦ rw m k_active
        ],
      ))
]
  where
    first_taken : is_free f ≡ true → Taken low correlation f k (f ∷ fs)
    first_taken h = (
      rw (==_refl f.descriptor) (free-active f true h),
      rw h rising,
      rw h (elim (Bool-cases (f.descriptor == k)) [
        | inl m ↦ let same : (k == f.descriptor) ≡ true = ground arith in rw (m, same) refl
        | inr m ↦ let other : (k == f.descriptor) ≡ false = ground arith in rw (m, other) refl
      ]),
    )

-- What a new descriptor after the last does.
appended_lem :
    (low l : ℕ) (x : Descriptor) (k : ℕ) (pending : List Descriptor)
    → x.descriptor ≡ l + 1
    → x.is_active ≡ true
    → Rising low pending
    → last_descriptor pending ≡ some l
    → (low < l + 1)
      × (active_at (l + 1) pending ≡ false)
      × Rising low (pending ++ x ∷ [])
      × (active_at k (pending ++ x ∷ []) ≡ (k == l + 1) || active_at k pending)
unfolding find_if last_descriptor has_descriptor active_found
appended_lem low l x k [] next active rising h = absurd (ground arith)
appended_lem low l x k (e ∷ []) next active rising h =
    let last : e.descriptor ≡ l = some-injective _ l h in
    let other : (e.descriptor == l + 1) ≡ false = ground arith in
    (
      omega (arith, rising.0, last),
      rw other refl,
      (rising.0, (omega (arith, next, last), tt)),
      elim (Bool-cases (e.descriptor == k)) [
        | inl m ↦ let new : (k == l + 1) ≡ false = ground arith in rw (m, new) refl
        | inr m ↦ rw (m, next) (ground arith)
      ],
    )
appended_lem low l x k (e ∷ f ∷ fs) next active rising h =
    let (above, fresh, rest, k_active) =
      appended_lem e.descriptor l x k (f ∷ fs) next active rising.1 h in
    let other : (e.descriptor == l + 1) ≡ false = ground arith in
    (
      omega (arith, rising.0, above),
      rw other fresh,
      (rising.0, rest),
      elim (Bool-cases (e.descriptor == k)) [
        | inl m ↦ let new : (k == l + 1) ≡ false = ground arith in rw (m, new) refl
        | inr m ↦ rw m k_active
      ],
    )

last_none :
    (pending : List Descriptor) → last_descriptor pending ≡ none → is_empty pending ≡ false → ⊥
unfolding last_descriptor
last_none [] l some_left = ground arith
last_none (e ∷ []) l some_left = ground arith
last_none (e ∷ f ∷ fs) l some_left = last_none (f ∷ fs) l refl

reserved :
    (correlation k : ℕ) (s : State) (found : Option Descriptor) (last : Option ℕ)
    → find_if is_free s.pending ≡ found
    → last_descriptor s.pending ≡ last
    → Rising 0 s.pending
    → is_empty s.pending ≡ false
    → (d : ℕ) × (left : State) × (reserve correlation s ≡ (ok d, left))
      × (active_descriptor d s ≡ false)
      × Rising 0 left.pending
      × (active_descriptor k left ≡ (k == d) || active_descriptor k s)
unfolding reserve ◌>>=◌ gets continue case_of modify pure raise active_descriptor
reserved correlation k s (some e) last f l rising some_left =
    let (free, rest, k_active) = taken_lem 0 correlation e k s.pending rising f in
    (
      e.descriptor,
      record s { pending = update_first is_free (taken correlation) s.pending },
      rw f refl,
      free,
      rest,
      k_active,
    )
reserved correlation k s none (some last) f l rising some_left =
    let (above, fresh, rest, k_active) =
      appended_lem 0 last (appended correlation last) k s.pending refl refl rising l in
    (
      last + 1,
      record s { pending = s.pending ++ appended correlation last ∷ [] },
      rw (f, l) refl,
      fresh,
      rest,
      k_active,
    )
reserved correlation k s none none f l rising some_left = absurd (last_none s.pending l some_left)

-- The descriptors rise and there is one. Then to reserve one returns a descriptor that was not in
-- use, the descriptors still rise, and those in use after it are the new one and those in use
-- before.
pub reserve-Rising :
    (correlation k : ℕ) (s : State)
    → Rising 0 s.pending
    → is_empty s.pending ≡ false
    → (d : ℕ) × (left : State) × (reserve correlation s ≡ (ok d, left))
      × (active_descriptor d s ≡ false)
      × Rising 0 left.pending
      × (active_descriptor k left ≡ (k == d) || active_descriptor k s)
reserve-Rising correlation k s = reserved correlation k s _ _ refl refl
