-- ===== src/Manager/Requests/Returns.antt =====
-- When `action::resource::request` returns: no queue is gone, and every resource is known.
use casual.Base.{
  ap, sym, ◌+◌, ℕ, ◌≡◌, ◌≢◌, ◌∙◌, refl, Bool, true, false, List, [], ◌∷◌, ◌++◌, append_assoc,
  Option-cases, inl, inr, arith, All, how_many, how_many-append, find_if, if◌then◌else◌,
}
use casual.Run.{bind_ok}
use casual.Manager.Message.{Message}
use casual.Manager.State.{
  State, Event, sent, refused, Instance, is_idle, get_resource, update_instance, update_resource,
}
use casual.Manager.Monad.{Environment, ok, pure, Outcome, delivered, full, gone, ◌>>=◌}
use casual.Manager.Action.{
  non_blocking_push, attempt, occupy, idle_instance, instance_request, request_one, request,
}
use casual.Manager.Handle.Involved.{is_known}
use casual.Manager.Requests.Serves.{
  serves, SameProxies, known-found, serves-found, occupy-queue, update_first-SameProxies,
}

-- A message with `p` was delivered to a queue with `p`.
unfoldable pub is_sent : (ℕ → Message → Bool) → Event → Bool
is_sent p (sent q m) = p q m
is_sent p e = false

-- Between two states the message went to some of the resources, and the others are left. `taken`
-- pairs each resource that got it with the queue it was delivered to.
pub record Shared (m : Message) (ids left : List ℕ) (s s' : State) : Type 0 where
  pub taken : List (ℕ × ℕ)
  pub news : List Event
  pub events : s'.events ≡ news ++ s.events
  pub split : (p : ℕ → Bool) → how_many (λ d. p d.0) taken + how_many p left ≡ how_many p ids
  pub delivered :
      (p : ℕ → Message → Bool) → how_many (is_sent p) news ≡ how_many (λ d. p d.1 m) taken
  pub served : All (λ d. serves s.resources d.0 d.1 ≡ true) taken
  pub proxies : SameProxies s'.resources s.resources

-- No message was delivered.
unsent :
    (m : Message) (ids : List ℕ) (news : List Event) (s s' : State)
    → s'.events ≡ news ++ s.events
    → s'.resources ≡ s.resources
    → ((p : ℕ → Message → Bool) → how_many (is_sent p) news ≡ 0)
    → Shared m ids ids s s'
unfolding how_many
unsent m ids news s s' e same none_sent = record {
  taken = [];
  news = news;
  events = e;
  split = λ p. omega arith;
  delivered = none_sent;
  served = tt;
  proxies = (λ rm. ap (λ ps. is_known ps rm) same, λ rm q. ap (λ ps. serves ps rm q) same);
}

All-append :
    {A : Type 0} {P Q : A → Type 0} (xs ys : List A)
    → ((a : A) → P a → Q a)
    → All P xs
    → All Q ys
    → All Q (xs ++ ys)
All-append [] ys f hs ks = ks
All-append (x ∷ xs) ys f hs ks = (f x hs.0, All-append xs ys f hs.1 ks)

All-map :
    {A : Type 0} {P Q : A → Type 0} (xs : List A) → ((a : A) → P a → Q a) → All P xs → All Q xs
All-map [] f hs = tt
All-map (x ∷ xs) f hs = (f x hs.0, All-map xs f hs.1)

-- One resource and then the others.
Shared-cons :
    (m : Message) (id : ℕ) (ids left : List ℕ) (b : Bool) (s s1 s2 : State)
    → Shared m (id ∷ []) (if b then [] else id ∷ []) s s1
    → Shared m ids left s1 s2
    → Shared m (id ∷ ids) (if b then left else id ∷ left) s s2
unfolding how_many
Shared-cons m id ids left b s s1 s2 one rest = record {
  taken = rest.taken ++ one.taken;
  news = rest.news ++ one.news;
  events =
      rest.events
      ∙ ap (λ l. rest.news ++ l) one.events
      ∙ sym (append_assoc rest.news one.news s.events);
  split = λ p.
      let sum = how_many-append (λ (d : ℕ × ℕ). p d.0) rest.taken one.taken in
      let more = left_if p b in omega (arith, sum, more, one.split p, rest.split p);
  delivered = λ p.
      how_many-append (is_sent p) rest.news one.news
      ∙ rw (rest.delivered p, one.delivered p)
          (sym (how_many-append (λ (d : ℕ × ℕ). p d.1 m) rest.taken one.taken));
  served =
      All-append rest.taken one.taken (λ d h. sym (one.proxies.1 d.0 d.1) ∙ h) rest.served
        one.served;
  proxies = (
    λ rm. rest.proxies.0 rm ∙ one.proxies.0 rm,
    λ rm queue. rest.proxies.1 rm queue ∙ one.proxies.1 rm queue,
  );
}
  where
    left_if :
        (p : ℕ → Bool) (c : Bool)
        → how_many p (if c then left else id ∷ left)
          ≡ how_many p (if c then [] else id ∷ []) + how_many p left
    left_if p true = omega arith
    left_if p false = omega arith

module _ (env : Environment) (m : Message) where
  -- A push to an idle instance, whose queue is not gone.
  instance_request-Shared :
      (id : ℕ) (i : Instance) (o : Outcome) (s : State)
      → env.push s.events i.process.queue ≡ o
      → o ≢ Outcome.gone
      → serves s.resources id i.process.queue ≡ true
      → (b : Bool) × (s' : State) × (instance_request env id m i s ≡ (ok b, s'))
        × Shared m (id ∷ []) (if b then [] else id ∷ []) s s'
  unfolding instance_request non_blocking_push attempt ◌>>=◌ update_instance update_resource
      how_many is_sent occupy
  instance_request-Shared id i delivered s e there serving = (
    true,
    update_instance id (λ j. is_idle j.state) (occupy (env.now (sent i.process.queue m ∷ s.events)))
        (record s { events = sent i.process.queue m ∷ s.events }),
    rw e refl,
    record {
      taken = (id, i.process.queue) ∷ [];
      news = sent i.process.queue m ∷ [];
      events = refl;
      split = λ p. omega arith;
      delivered = λ p. refl;
      served = (serving, tt);
      proxies =
          update_first-SameProxies (λ j. is_idle j.state) id
            (occupy (env.now (sent i.process.queue m ∷ s.events)))
            (occupy-queue (env.now (sent i.process.queue m ∷ s.events))) s.resources;
    },
  )
  instance_request-Shared id i full s e there serving = (
    false,
    record s { events = refused i.process.queue m ∷ s.events },
    rw e refl,
    unsent m (id ∷ []) (refused i.process.queue m ∷ []) s
        (record s { events = refused i.process.queue m ∷ s.events }) refl refl (λ p. refl),
  )
  instance_request-Shared id i gone s e there serving = absurd (there refl)

  module _ (reachable : (events : List Event) (q : ℕ) → env.push events q ≢ Outcome.gone) where
    request_one-Shared :
        (id : ℕ) (s : State)
        → is_known s.resources id ≡ true
        → (b : Bool) × (s' : State) × (request_one env m id s ≡ (ok b, s'))
          × Shared m (id ∷ []) (if b then [] else id ∷ []) s s'
    unfolding request_one idle_instance get_resource ◌>>=◌ how_many pure
    request_one-Shared id s known =
        let (p, found) = known-found id s.resources known in
        elim (Option-cases (find_if (λ i. is_idle i.state) p.instances)) [
          | inl e ↦ (false, s, rw (found, e) refl, unsent m (id ∷ []) [] s s refl refl (λ p. refl))
          | inr (i, e) ↦
              let (b, s', eq, h) =
                instance_request-Shared id i (env.push s.events i.process.queue) s refl
                  (reachable s.events i.process.queue) (serves-found id s.resources p i found e) in
              (b, s', rw (found, e) eq, h)
        ]

-- If no queue is ever gone, then a request to resources that are all known returns. The resources
-- that took the message and those that are left to wait are, with multiplicity, the resources of
-- the request; the new events deliver this message, and no other, once for each that took it, to
-- the queue of an instance of that resource.
pub request_returns :
    (env : Environment) (m : Message) (ids : List ℕ) (s : State)
    → ((events : List Event) (q : ℕ) → env.push events q ≢ Outcome.gone)
    → All (λ id. is_known s.resources id ≡ true) ids
    → (left : List ℕ) × (s' : State) × (request env m ids s ≡ (ok left, s'))
      × Shared m ids left s s'
unfolding request how_many pure
request_returns env m [] s reachable known = (
  [],
  s,
  refl,
  record {
    taken = [];
    news = [];
    events = refl;
    split = λ p. refl;
    delivered = λ p. refl;
    served = tt;
    proxies = (λ rm. refl, λ rm q. refl);
  },
)
request_returns env m (id ∷ ids) s reachable known =
    let (b, s1, one, h) = request_one-Shared env m reachable id s known.0 in
    let (left, s2, rest, k) =
      request_returns env m ids s1 reachable (All-map ids (λ i e. h.proxies.0 i ∙ e) known.1) in
    (
      (if b then left else id ∷ left),
      s2,
      bind_ok _ _ s s1 b one ∙ bind_ok _ _ s1 s2 left rest,
      Shared-cons m id ids left b s s1 s2 h k,
    )
