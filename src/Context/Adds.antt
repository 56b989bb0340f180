-- ===== src/Context/Adds.antt =====
-- The calls of the resources always return, and change nothing but the events.
use mathlib.Core.Path.{subst}
use casual.Base.{
  ◌∙◌, ap, sym, ℕ, ◌+◌, ◌*◌, ◌≡◌, refl, Bool, true, false, ◌&&◌, not, List, [], ◌∷◌, ◌++◌,
  append_assoc, how_many, how_many-append, length, is_empty, if◌then◌else◌, arith,
}
use casual.Base.Int.{ℤ, ◌==ℤ◌}
use casual.Run.{bind_ok}
use casual.Run.Keeps.{Keeps}
use casual.Manager.Code.{xaer_dupid}
use casual.Context.State.{
  State, Event, Resource, Transaction, XaCall, start_call, end_call, called, fixed, is_real,
}
use casual.Context.Monad.{
  Action, Environment, ok, pure, gets, modify, continue, ◌>>=◌, record_event, call_xa,
}
use casual.Context.Resources.{start_resource, end_resource, each, resources_start, resources_end}

abbrev pub after : List Event → State → State
after news s = record s { events = news ++ s.events }

-- The action returns, and adds events with `Q` to the state that it starts from.
pub record Adds {A : Type 0} (Q : State → List Event → Type 0) (act : Action A) : Type 0 where
  pub at : (s : State) → (a : A) × (news : List Event) × (act s ≡ (ok a, after news s)) × Q s news

-- Of what is added, this many events pass.
abbrev pub Count : (Event → Bool) → (State → ℕ) → State → List Event → Type 0
Count p n s news = how_many p news ≡ n s

pub Adds-bind :
    {A B : Type 0} {P Q R : State → List Event → Type 0} (act : Action A) (next : A → Action B)
    → Adds P act
    → ((a : A) → Adds Q (next a))
    → ((s : State) (xs ys : List Event) → P s xs → Q (after xs s) ys → R s (ys ++ xs))
    → Adds R (act >>= next)
unfolding ◌>>=◌
Adds-bind {R} act next first rest join = record {
  at = λ s.
      let (a, xs, e, p) = first.at s in
      let (b, ys, f, q) = (rest a).at (after xs s) in
      (
        b,
        ys ++ xs,
        bind_ok act next s (after xs s) a e
            ∙ f
            ∙ ap (λ events. (ok b, record s { events = events }))
                (sym (append_assoc ys xs s.events)),
        join s xs ys p q,
      );
}

pub Adds-pure :
    {A : Type 0} {Q : State → List Event → Type 0} (a : A)
    → ((s : State) → Q s [])
    → Adds Q (pure a)
unfolding pure
Adds-pure a q = record { at = λ s. (a, [], refl, q s) }

pub Adds-gets :
    {A B : Type 0} {Q : State → List Event → Type 0} (look : State → A) (next : A → Action B)
    → ((s : State) → Adds (λ _ news. Q s news) (next (look s)))
    → Adds Q (gets look >>= next)
unfolding ◌>>=◌ gets continue
Adds-gets look next rest = record { at = λ s. (rest s).at s }

pub Adds-if :
    {A : Type 0} {Q : State → List Event → Type 0} (b : Bool) (act n : Action A)
    → Adds Q act
    → Adds Q n
    → Adds Q (if b then act else n)
Adds-if true act n first second = first
Adds-if false act n first second = second

pub Adds-weaken :
    {A : Type 0} {Q R : State → List Event → Type 0} (act : Action A)
    → Adds Q act
    → ((s : State) (news : List Event) → Q s news → R s news)
    → Adds R act
Adds-weaken act adds weaken = record {
  at = λ s. let (a, news, e, q) = adds.at s in (a, news, e, weaken s news q);
}

-- Counts of the new events can be added to what is known of them.
pub Adds-Counts :
    {A I : Type 0} {Q : State → List Event → Type 0} (p : I → Event → Bool) (n : I → State → ℕ)
    (act : Action A)
    → Adds Q act
    → ((i : I) → Adds (Count (p i) (n i)) act)
    → Adds (λ s news. Q s news × ((i : I) → Count (p i) (n i) s news)) act
Adds-Counts p n act adds counts = record {
  at = λ s.
      let (a, xs, e, q) = adds.at s in
      (
        a,
        xs,
        e,
        (
          q,
          λ i.
              let (b, ys, f, c) = (counts i).at s in
              let same : xs ++ s.events ≡ ys ++ s.events = ap (λ r. r.1.events) (sym e ∙ f) in
              let sum : how_many (p i) xs + how_many (p i) s.events
                  ≡ how_many (p i) ys + how_many (p i) s.events =
                sym (how_many-append (p i) xs s.events)
                ∙ ap (how_many (p i)) same
                ∙ how_many-append (p i) ys s.events in
              omega (arith, sum, c),
        ),
      );
}

-- A property that the new events keep is kept.
pub Adds-Keeps :
    {A : Type 0} {Q : State → List Event → Type 0} {P : State → Type 0} (act : Action A)
    → Adds Q act
    → ((s : State) (news : List Event) → Q s news → P s → P (after news s))
    → Keeps P act
Adds-Keeps {P} act adds stable = record {
  at = λ s held.
      let (a, news, e, q) = adds.at s in subst P (sym (ap (λ r. r.1) e)) (stable s news q held);
}

module _ (env : Environment) (p : Event → Bool) where
  pub call_xa-Count :
      (c : XaCall) (b : ℕ)
      → ((v : ℤ) → (if p (called c v) then 1 else 0) ≡ b)
      → Adds (Count p (λ _. b)) (call_xa env c)
  unfolding call_xa ◌>>=◌ gets continue record_event modify pure how_many
  call_xa-Count c b h = record {
    at = λ s.
        let v : ℤ = env.xa s.events c in
        let one : (if p (called c v) then 1 else 0) + 0 ≡ b = omega (arith, h v) in
        (v, called c v ∷ [], refl, one);
  }

  module _ (t : Transaction) (flags b : ℕ)
      (counts : (id : ℕ) (v : ℤ)
        → (if p (called (end_call id t.trid.xid flags) v) then 1 else 0) ≡ b) where
    each_end-Count :
        (rs : List Resource)
        → Adds (Count p (λ _. b * length rs)) (each (end_resource env t flags) rs)
    unfolding each end_resource how_many
    each_end-Count [] = Adds-pure tt (λ s. omega arith)
    each_end-Count (r ∷ rs) =
        Adds-bind (end_resource env t flags r) (λ _. each (end_resource env t flags) rs)
          (call_xa-Count (end_call r.id t.trid.xid flags) b (counts r.id)) (λ a. each_end-Count rs)
          (λ s xs ys e f. how_many-append p ys xs ∙ omega (arith, e, f))

  module _ (t : Transaction) (flags : ℕ)
      (counts : (id f : ℕ) (v : ℤ) → p (called (start_call id t.trid.xid f) v) ≡ false) where
    start_quiet : (r : Resource) → Adds (Count p (λ _. 0)) (start_resource env t flags r)
    unfolding start_resource how_many
    start_quiet r =
        Adds-bind (call_xa env (start_call r.id t.trid.xid flags)) _ (once flags)
          (λ v. Adds-if (v ==ℤ xaer_dupid) _ (pure v) (once _) (Adds-pure v (λ s. refl)))
          none_joined
      where
        once : (f : ℕ) → Adds (Count p (λ _. 0)) (call_xa env (start_call r.id t.trid.xid f))
        once f = call_xa-Count (start_call r.id t.trid.xid f) 0 (λ v. rw (counts r.id f v) refl)

        none_joined :
            (s : State) (xs ys : List Event)
            → how_many p xs ≡ 0
            → how_many p ys ≡ 0
            → how_many p (ys ++ xs) ≡ 0
        none_joined s xs ys e f = how_many-append p ys xs ∙ omega (arith, e, f)

    each_start_quiet :
        (rs : List Resource) → Adds (Count p (λ _. 0)) (each (start_resource env t flags) rs)
    unfolding each how_many
    each_start_quiet [] = Adds-pure tt (λ s. refl)
    each_start_quiet (r ∷ rs) =
        Adds-bind (start_resource env t flags r) (λ _. each (start_resource env t flags) rs)
          (start_quiet r) (λ a. each_start_quiet rs)
          (λ s xs ys e f. how_many-append p ys xs ∙ omega (arith, e, f))

    pub resources_start_quiet : Adds (Count p (λ _. 0)) (resources_start env t flags)
    unfolding resources_start how_many
    resources_start_quiet = Adds-gets fixed _ λ s.
        Adds-if (is_real t && not (is_empty (fixed s))) _ _ (each_start_quiet (fixed s))
          (Adds-pure tt (λ _. refl))

  -- No event that passes is added, by any transaction.
  pub resources_end_quiet :
      (t : Transaction) (flags : ℕ)
      → ((id : ℕ) (v : ℤ) → p (called (end_call id t.trid.xid flags) v) ≡ false)
      → Adds (Count p (λ _. 0)) (resources_end env t flags)
  unfolding resources_end how_many
  resources_end_quiet t flags counts =
      Adds-gets (λ s. s.resources) _
        λ s.
          Adds-if (is_real t && not (is_empty s.resources)) _ _
            (Adds-weaken _ (each_end-Count t flags 0 (λ id v. rw (counts id v) refl) s.resources)
              (λ _ news e. omega (arith, e)))
            (Adds-pure tt (λ _. refl))
