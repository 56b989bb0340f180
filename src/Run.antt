-- ===== src/Run.antt =====
-- A run on a state that stays as it was left when an exception is thrown.
pub mod Keeps
pub mod Yields
use casual.Base.{◌≡◌, ap, Option, none, some}

pub data Result (E A : Type 0) : Type 0 where
  ok : A → Result E A
  throw : E → Result E A

abbrev pub Action : (S E A : Type 0) → Type 0
Action S E A = S → Result E A × S

unfoldable pub pure : {S E A : Type 0} → A → Action S E A
pure value s = (ok value, s)

unfoldable pub raise : {S E A : Type 0} → E → Action S E A
raise problem s = (throw problem, s)

unfoldable pub gets : {S E A : Type 0} → (S → A) → Action S E A
gets look s = (ok (look s), s)

unfoldable pub modify : {S E : Type 0} → (S → S) → Action S E (Unit {0})
modify f s = (ok tt, f s)

unfoldable pub continue : {S E A B : Type 0} → Result E A → (A → Action S E B) → Action S E B
continue (ok value) next s = next value s
continue (throw problem) next s = (throw problem, s)

unfoldable pub or_throw : {S E A : Type 0} → Option A → E → Action S E A
or_throw none e = raise e
or_throw (some a) e = pure a

-- A test for what a search has found.
unfoldable pub case_of :
    {S E A B : Type 0} → Option A → Action S E B → (A → Action S E B) → Action S E B
case_of none m f = m
case_of (some a) m f = f a

-- To open this is to open the basic actions too.
infixl 5 ◌>>=◌ ◌>>◌
unfoldable pub ◌>>=◌ : {S E A B : Type 0} → Action S E A → (A → Action S E B) → Action S E B
unfolding pure raise gets modify continue or_throw case_of
◌>>=◌ first next s = let (outcome, left) = first s in continue outcome next left

abbrev pub ◌>>◌ : {S E A B : Type 0} → Action S E A → Action S E B → Action S E B
m >> k = m >>= λ _. k

-- A `try` with its `catch` clauses.
unfoldable pub caught : {S E A : Type 0} → (E → Action S E A) → Result E A → Action S E A
caught handler (ok value) s = (ok value, s)
caught handler (throw problem) s = handler problem s

unfoldable pub recover : {S E A : Type 0} → (E → Action S E A) → Action S E A → Action S E A
recover handler act s = let (outcome, left) = act s in caught handler outcome left

-- What comes after an action that returns.
pub bind_ok :
    {S E A B : Type 0} (act : Action S E A) (next : A → Action S E B) (s left : S) (value : A)
    → act s ≡ (ok value, left)
    → (act >>= next) s ≡ next value left
unfolding ◌>>=◌
bind_ok act next s left value e = ap (λ r. continue r.0 next r.1) e
