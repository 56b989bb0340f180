-- ===== src/Context/Pending/Used.antt =====
-- A descriptor that is in use, and one that is freed.
use casual.Base.{
  ap, ℕ, ◌≡◌, refl, true, false, Bool-cases, Option-cases, inl, inr, some, List, [], ◌∷◌, ◌==◌,
  find_if, update_first, arith,
}
use mathlib.Core.Option.{some-injective}
use casual.Context.State.{State, Descriptor}
use casual.Context.Monad.{ok, pure, gets, modify, continue, case_of, ◌>>=◌, require}
use casual.Context.Pending.{
  has_descriptor, active_found, active_descriptor, unreserve, get_descriptor,
}

pub find_if-update_first :
    (d : ℕ) (f : Descriptor → Descriptor) (pending : List Descriptor) (e : Descriptor)
    → ((c : Descriptor) → has_descriptor d (f c) ≡ has_descriptor d c)
    → find_if (has_descriptor d) pending ≡ some e
    → find_if (has_descriptor d) (update_first (has_descriptor d) f pending) ≡ some (f e)
unfolding find_if update_first
find_if-update_first d f [] e same = λ h. absurd (ground arith)
find_if-update_first d f (c ∷ cs) e same = elim (Bool-cases (has_descriptor d c)) [
  | inl h ↦ rw (h, same c, h) (λ g. ap some (ap f (some-injective c e g)))
  | inr h ↦ rw (h, h) (find_if-update_first d f cs e same)
]

-- The descriptor is in use.
abbrev pub InUseAt : ℕ → State → Type 0
InUseAt d s =
    (e : Descriptor) × (find_if (has_descriptor d) s.pending ≡ some e) × (e.is_active ≡ true)

pub in_use : (d : ℕ) (s : State) → active_descriptor d s ≡ true → InUseAt d s
unfolding active_descriptor active_found
in_use d s h = elim (Option-cases (find_if (has_descriptor d) s.pending)) [
  | inl e ↦ absurd (ground arith)
  | inr (e, f) ↦ (e, f, ground arith)
]

-- After it is freed, it is not.
pub freed_inactive :
    (d : ℕ) (pending : List Descriptor)
    → active_found (
        find_if
          (has_descriptor d)
          (update_first (has_descriptor d) (λ e. record e { is_active = false }) pending))
      ≡ false
unfolding find_if update_first has_descriptor active_found
freed_inactive d [] = refl
freed_inactive d (c ∷ cs) = elim (Bool-cases (c.descriptor == d)) [
  | inl h ↦ rw (h, h) refl
  | inr h ↦ rw (h, h) (freed_inactive d cs)
]

pub unreserve_lem :
    (d : ℕ) (s : State)
    → InUseAt d s
    → unreserve d s ≡ (
      ok tt,
      record s {
        pending = update_first (has_descriptor d) (λ e. record e { is_active = false }) s.pending;
      },
    )
unfolding unreserve ◌>>=◌ gets continue case_of modify
unreserve_lem d s (e, found, active) = rw found refl

pub get_lem : (d : ℕ) (s : State) (held : InUseAt d s) → get_descriptor d s ≡ (ok held.0, s)
unfolding get_descriptor ◌>>=◌ gets continue case_of require pure
get_lem d s (e, found, active) = rw (found, active) refl
