-- ===== src/Manager/Requests/Serves.antt =====
-- Whose queues the instances of the resource proxies have: nothing that a request to resources does
-- changes them.
use mathlib.Core.Path.{subst}
use mathlib.Core.Option.{some-injective}
use casual.Base.{
  ℕ, ◌≡◌, refl, Bool, true, Bool-cases, inl, inr, ◌&&◌, some, List, [], ◌∷◌, arith, ==_refl, any_of,
  find_if, update_first, ◌==◌,
}
use casual.Manager.State.{Proxy, Instance, is_idle, is_shutdown, set_state, is_resource}
use casual.Base.Int.{ℤ}
use casual.Manager.Handle.Involved.{is_known}
use casual.Manager.Action.{occupy}

abbrev pub has_queue : ℕ → Instance → Bool
has_queue queue i = i.process.queue == queue

-- The queue is that of an instance of a resource with the id.
unfoldable pub serves : List Proxy → ℕ → ℕ → Bool
serves ps rm queue = any_of (λ r. r.id == rm && any_of (has_queue queue) r.instances) ps

-- The proxies have the same ids, and the same queues at their instances.
abbrev pub SameProxies : List Proxy → List Proxy → Type 0
SameProxies ps qs =
    ((rm : ℕ) → is_known ps rm ≡ is_known qs rm)
    × ((rm queue : ℕ) → serves ps rm queue ≡ serves qs rm queue)

queues-occupy :
    (queue : ℕ) (p : Instance → Bool) (f : Instance → Instance) (is : List Instance)
    → ((i : Instance) → has_queue queue (f i) ≡ has_queue queue i)
    → any_of (has_queue queue) (update_first p f is) ≡ any_of (has_queue queue) is
unfolding any_of update_first
queues-occupy queue p f [] keeps = refl
queues-occupy queue p f (i ∷ is) keeps = elim (Bool-cases (p i)) [
  | inl e ↦ rw (e, keeps i) refl
  | inr e ↦ rw (e, queues-occupy queue p f is keeps) refl
]

-- A write to an instance that keeps its queue.
module _ (p : Instance → Bool) (rm : ℕ) (f : Instance → Instance)
    (keeps : (queue : ℕ) (i : Instance) → has_queue queue (f i) ≡ has_queue queue i) where
  abbrev pub updated : List Proxy → List Proxy
  updated =
      update_first (is_resource rm) (λ r. record r { instances = update_first p f r.instances })

  is_known-update_first : (ps : List Proxy) (id : ℕ) → is_known (updated ps) id ≡ is_known ps id
  unfolding is_known any_of update_first
  is_known-update_first [] id = refl
  is_known-update_first (q ∷ ps) id = elim (Bool-cases (q.id == rm)) [
    | inl e ↦ rw e refl
    | inr e ↦ rw (e, is_known-update_first ps id) refl
  ]

  serves-update_first :
      (ps : List Proxy) (id queue : ℕ) → serves (updated ps) id queue ≡ serves ps id queue
  unfolding serves any_of update_first
  serves-update_first [] id queue = refl
  serves-update_first (q ∷ ps) id queue = elim (Bool-cases (q.id == rm)) [
    | inl e ↦ rw (e, queues-occupy queue p f q.instances (keeps queue)) refl
    | inr e ↦ rw (e, serves-update_first ps id queue) refl
  ]

  pub update_first-SameProxies : (ps : List Proxy) → SameProxies (updated ps) ps
  update_first-SameProxies ps = (is_known-update_first ps, serves-update_first ps)

pub known-found :
    (id : ℕ) (ps : List Proxy)
    → is_known ps id ≡ true
    → (p : Proxy) × (find_if (is_resource id) ps ≡ some p)
unfolding is_known any_of find_if
known-found id [] h = absurd (ground arith)
known-found id (q ∷ ps) h = elim (Bool-cases (q.id == id)) [
  | inl e ↦ (q, rw e refl)
  | inr e ↦
      let rest : is_known ps id ≡ true = ground arith in
      let (p, found) = known-found id ps rest in (p, rw e found)
]

pub occupy-queue :
    (at : ℤ) (queue : ℕ) (i : Instance) → has_queue queue (occupy at i) ≡ has_queue queue i
unfolding occupy set_state
occupy-queue at queue i = elim (Bool-cases (is_shutdown i.state)) [
  | inl e ↦ rw e refl
  | inr e ↦ rw e refl
]

queue_of :
    (is : List Instance) (i : Instance)
    → find_if (λ j. is_idle j.state) is ≡ some i
    → any_of (has_queue i.process.queue) is ≡ true
unfolding any_of find_if
queue_of [] i = λ h. absurd (ground arith)
queue_of (j ∷ is) i = elim (Bool-cases (is_idle j.state)) [
  | inl e ↦ rw e λ h.
      subst (λ k. any_of (has_queue k.process.queue) (j ∷ is) ≡ true) (some-injective j i h)
        (rw (==_refl j.process.queue) refl)
  | inr e ↦ rw e λ h. rw (queue_of is i h) (ground arith)
]

-- What was found by its id serves it.
pub serves-found :
    (id : ℕ) (ps : List Proxy) (p : Proxy) (i : Instance)
    → find_if (is_resource id) ps ≡ some p
    → find_if (λ j. is_idle j.state) p.instances ≡ some i
    → serves ps id i.process.queue ≡ true
unfolding serves any_of find_if
serves-found id [] p i = λ h. absurd (ground arith)
serves-found id (q ∷ ps) p i = elim (Bool-cases (q.id == id)) [
  | inl e ↦ rw e λ h found. rw (queue_of q.instances i (rw (some-injective q p h) found)) refl
  | inr e ↦ rw e λ h found. serves-found id ps p i h found
]
