-- ===== src/Context/Lists.antt =====
-- The stack of transactions as a list.
use casual.Base.{
  ap, ℕ, ◌≡◌, refl, Bool, true, false, ==_refl, Option, none, some, List, [], ◌∷◌, ◌++◌, any_of,
  find_if, arith,
}
use casual.Context.State.{Transaction, has_xid, same_xid, last_or, drop_last}
use casual.Context.Stack.{rotate_found}

pub last_or-append : (d t : Transaction) (ts : List Transaction) → last_or d (ts ++ t ∷ []) ≡ t
unfolding last_or
last_or-append d t [] = refl
last_or-append d t (u ∷ us) = last_or-append u t us

pub drop_last-append : (t : Transaction) (ts : List Transaction) → drop_last (ts ++ t ∷ []) ≡ ts
unfolding drop_last
drop_last-append t [] = refl
drop_last-append t (u ∷ []) = refl
drop_last-append t (u ∷ v ∷ vs) = ap (λ l. u ∷ l) (drop_last-append t (v ∷ vs))

-- What is the first to pass stands at the end after the rotation.
pub rotate_found-last :
    (p : Transaction → Bool) (t : Transaction) (ts us : List Transaction)
    → any_of p ts ≡ false
    → p t ≡ true
    → rotate_found p (ts ++ t ∷ us) ≡ ts ++ us ++ t ∷ []
unfolding rotate_found any_of
rotate_found-last p t [] us none_before here = rw here refl
rotate_found-last p t (v ∷ vs) us none_before here =
    let out : p v ≡ false = ground arith in
    let rest : any_of p vs ≡ false = ground arith in
    rw out (ap (λ l. v ∷ l) (rotate_found-last p t vs us rest here))

pub find_if-first :
    (p : Transaction → Bool) (t : Transaction) (ts us : List Transaction)
    → any_of p ts ≡ false
    → p t ≡ true
    → find_if p (ts ++ t ∷ us) ≡ some t
unfolding find_if any_of
find_if-first p t [] us none_before here = rw here refl
find_if-first p t (v ∷ vs) us none_before here =
    let out : p v ≡ false = ground arith in
    let rest : any_of p vs ≡ false = ground arith in rw out (find_if-first p t vs us rest here)

pub same_xid_refl : (x : Option ℕ) → same_xid x x ≡ true
unfolding same_xid
same_xid_refl none = refl
same_xid_refl (some x) = ==_refl x

pub has_xid_self : (t : Transaction) → has_xid t.trid.xid t ≡ true
unfolding has_xid
has_xid_self t = same_xid_refl t.trid.xid
