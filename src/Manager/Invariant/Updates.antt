-- ===== src/Manager/Invariant/Updates.antt =====
-- How the updates of `Manager.Handle` act on the transactions and their resources.
use mathlib.Core.Logic.Or
use mathlib.Core.List.{
  Nodup, Nodup-cons, Nodup-nil, Mem, mem-cons, not-mem-nil, perm_middle, Perm, map-append,
  perm_append_comm,
}
use mathlib.Core.List.Perm
use mathlib.Core.Path.{subst}
use casual.Base.{
  ℕ, ◌≡◌, ◌<◌, refl, ap, Bool, not, List, [], ◌∷◌, ◌++◌, map, none, some, find_if, update_first,
  erase_first, select, All, arith, Bool-cases, inl, inr,
}
use casual.Manager.Model.{
  Ties, Trid, Stage, Resource, Transaction, new_transaction, set_stage, has_id, has_trid,
}
use casual.Manager.Model.Unique.{IsAscending, unique-sort-IsAscending}
use casual.Manager.Message.{ResourceReply}
use casual.Manager.State.{Proxy}
use casual.Manager.Handle.Send.{move_stage}
use casual.Manager.Handle.Involved.{involve}
use casual.Manager.Handle.Reply.{update_resource_of}
use casual.Manager.Invariant.{ids, xids, IsSimple}

not-mem-above : (k : ℕ) (rs : List Resource) → All (λ q. k < q.id) rs → ¬ Mem k (ids rs)
not-mem-above k [] a m = not-mem-nil m
not-mem-above k (r ∷ rs) a m =
    Or.elim (λ x. absurd x) (mem-cons.0 m) (λ e. absurd (omega (arith, e))) (not-mem-above k rs a.1)

Nodup-of_IsAscending : (rs : List Resource) → IsAscending rs → Nodup (ids rs)
Nodup-of_IsAscending [] a = Nodup-nil
Nodup-of_IsAscending (r ∷ rs) a =
    Nodup-cons.1 (not-mem-above r.id rs a.0, Nodup-of_IsAscending rs a.1)

pub involve-IsSimple :
    (ties : List Resource → Ties) (ps : List Proxy) (new : List ℕ) (t : Transaction)
    → IsSimple (involve ties ps new t)
unfolding involve
involve-IsSimple ties ps new t = Nodup-of_IsAscending _ (unique-sort-IsAscending _ _)

ids-update_first :
    (i : ℕ) (f : Resource → Resource) (rs : List Resource)
    → ((r : Resource) → (f r).id ≡ r.id)
    → ids (update_first (has_id i) f rs) ≡ ids rs
unfolding update_first
ids-update_first i f [] h = refl
ids-update_first i f (r ∷ rs) h = ground (arith, h r, ids-update_first i f rs h)

pub update_resource_of-IsSimple :
    (m : ResourceReply) (f : Resource → Resource) (t : Transaction)
    → ((r : Resource) → (f r).id ≡ r.id)
    → IsSimple t
    → IsSimple (update_resource_of m f t)
unfolding update_resource_of
update_resource_of-IsSimple m f t h simple = rw (ids-update_first m.resource f t.resources h) simple

ids-set_stage : (new : Stage) (rs : List Resource) → ids (map (set_stage new) rs) ≡ ids rs
ids-set_stage new [] = refl
ids-set_stage new (r ∷ rs) = ap (λ l. r.id ∷ l) (ids-set_stage new rs)

select-perm :
    (p : Resource → Bool) (rs : List Resource)
    → Perm (ids (select p rs) ++ ids (select (λ r. not (p r)) rs)) (ids rs)
unfolding select
select-perm p [] = Perm.refl []
select-perm p (r ∷ rs) = elim (Bool-cases (p r)) [
  | inl e ↦ rw e (Perm.cons r.id (select-perm p rs))
  | inr e ↦
      rw e (Perm.trans (perm_middle (ids (select p rs)) _) (Perm.cons r.id (select-perm p rs)))
]

pub move_stage-IsSimple :
    (p : Resource → Bool) (new : Stage) (t : Transaction)
    → IsSimple t
    → IsSimple (record t { resources = move_stage p new t.resources })
unfolding move_stage
move_stage-IsSimple p new t simple =
    rw (map-append, ids-set_stage) (Perm.nodup (Perm.symm (select-perm p t.resources)) simple)

pub xids-put :
    (t : Transaction) (ts : List Transaction)
    → xids (update_first (has_trid t.trid) (λ _. t) ts) ≡ xids ts
unfolding update_first
xids-put t [] = refl
xids-put t (u ∷ ts) = ground (arith, xids-put t ts)

pub All-put :
    (t : Transaction) (ts : List Transaction)
    → IsSimple t
    → All IsSimple ts
    → All IsSimple (update_first (has_trid t.trid) (λ _. t) ts)
unfolding update_first
All-put t [] h a = tt
All-put t (u ∷ ts) h a = elim (Bool-cases (has_trid t.trid u)) [
  | inl e ↦ rw e (h, a.1)
  | inr e ↦ rw e (a.0, All-put t ts h a.1)
]

not-mem-xids :
    (trid : Trid) (ts : List Transaction)
    → find_if (has_trid trid) ts ≡ none
    → ¬ Mem trid.xid (xids ts)
unfolding find_if
not-mem-xids trid [] e m = not-mem-nil m
not-mem-xids trid (t ∷ ts) e m =
    Or.elim (λ x. absurd x) (mem-cons.0 m) (λ q. ground arith) (not-mem-xids trid ts (ground arith))

pub xids-add :
    (trid : Trid) (ts : List Transaction)
    → find_if (has_trid trid) ts ≡ none
    → Nodup (xids ts)
    → Nodup (xids (ts ++ new_transaction trid ∷ []))
xids-add trid ts e d = rw map-append (
    Perm.nodup (perm_append_comm (trid.xid ∷ []) (xids ts))
      (Nodup-cons.1 (not-mem-xids trid ts e, d)))

pub All-add :
    (t : Transaction) (ts : List Transaction)
    → IsSimple t
    → All IsSimple ts
    → All IsSimple (ts ++ t ∷ [])
All-add t [] h a = (h, tt)
All-add t (u ∷ ts) h a = (a.0, All-add t ts h a.1)

not-mem-erase :
    (x : ℕ) (trid : Trid) (ts : List Transaction)
    → ¬ Mem x (xids ts)
    → ¬ Mem x (xids (erase_first (has_trid trid) ts))
unfolding erase_first
not-mem-erase x trid [] h = h
not-mem-erase x trid (t ∷ ts) h = elim (Bool-cases (has_trid trid t)) [
  | inl e ↦ rw e (λ m. h (mem-cons.1 (Or.inr m)))
  | inr e ↦ rw e λ m.
      Or.elim (λ y. absurd y) (mem-cons.0 m) (λ q. h (mem-cons.1 (Or.inl q)))
        (not-mem-erase x trid ts (λ k. h (mem-cons.1 (Or.inr k))))
]

pub xids-erase :
    (trid : Trid) (ts : List Transaction)
    → Nodup (xids ts)
    → Nodup (xids (erase_first (has_trid trid) ts))
unfolding erase_first
xids-erase trid [] d = d
xids-erase trid (t ∷ ts) d = elim (Bool-cases (has_trid trid t)) [
  | inl e ↦ rw e (Nodup-cons.0 d).1
  | inr e ↦ rw e (
      Nodup-cons.1 (
        not-mem-erase t.trid.xid trid ts (Nodup-cons.0 d).0,
        xids-erase trid ts (Nodup-cons.0 d).1,
      ))
]

pub All-erase :
    (trid : Trid) (ts : List Transaction)
    → All IsSimple ts
    → All IsSimple (erase_first (has_trid trid) ts)
unfolding erase_first
All-erase trid [] a = tt
All-erase trid (t ∷ ts) a = elim (Bool-cases (has_trid trid t)) [
  | inl e ↦ rw e a.1
  | inr e ↦ rw e (a.0, All-erase trid ts a.1)
]

some-cancel : {t u : Transaction} → some t ≡ some u → t ≡ u
some-cancel e = cc

pub find-IsSimple :
    (trid : Trid) (ts : List Transaction) (t : Transaction)
    → All IsSimple ts
    → find_if (has_trid trid) ts ≡ some t
    → IsSimple t
unfolding find_if
find-IsSimple trid [] t a e = cc
find-IsSimple trid (u ∷ ts) t a e = elim (Bool-cases (has_trid trid u)) [
  | inl h ↦ subst IsSimple (some-cancel (rw (h, find_if) at e)) a.0
  | inr h ↦ find-IsSimple trid ts t a.1 (rw (h, find_if) at e)
]
