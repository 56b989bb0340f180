-- ===== src/Manager/Keeps/Frame.antt =====
-- Communication with clients and resource proxies keeps whatever does not speak of the messages,
-- the proxies and what is pending.
use casual.Base.{ℕ, ◌≡◌, refl, Bool, true, false, List, [], ◌∷◌, ◌++◌, is_empty}
use casual.Manager.Model.{Process, Transaction, Resource, Stage}
use casual.Manager.Message.{Message, Reply, RequestKind}
use casual.Manager.State.{
  State, Event, sent, refused, lost, Proxy, Instance, PendingReply, PendingRequest, update_instance,
}
use casual.Manager.Monad.{modify, Outcome, delivered, full, gone, Environment}
use casual.Manager.Action.{
  attempt, non_blocking_push, send_persistent_reply, idle_instance, instance_request, request_one,
  request,
}
use casual.Manager.Handle.Send.{
  pend_reply, pend_request, send_reply, move_stage, resource_message, resource_request, put,
}
use casual.Manager.Handle.Instances.{get_instance, accept, oblige, done}
use casual.Manager.Keeps.{Keeps, Keeps-pure, Keeps-if, Keeps-bind, keeps_rules}

-- An event of the outgoing queues, with such a message.
abbrev pub is_message : (Message → Bool) → Event → Bool
is_message allowed (sent q m) = allowed m
is_message allowed (refused q m) = allowed m
is_message allowed (lost q m) = allowed m
is_message allowed _ = false

-- `P` does not speak of such messages, of the proxies, or of pending replies and such requests.
pub record IsFrame (allowed : Message → Bool) (P : State → Type 0) : Type 0 where
  pub event :
      (e : Event) (s : State)
      → is_message allowed e ≡ true
      → P s
      → P (record s { events = e ∷ s.events })
  pub proxies : (ps : List Proxy) (s : State) → P s → P (record s { resources = ps })
  pub replies :
      (r : PendingReply) (s : State)
      → P s
      → P (record s { persistent_replies = s.persistent_replies ++ r ∷ [] })
  pub request :
      (r : PendingRequest) (s : State)
      → allowed r.message ≡ true
      → P s
      → P (record s { pending_requests = s.pending_requests ++ r ∷ [] })

-- Nor does it speak of the pending requests at all.
pub record IsFrameOfAll (P : State → Type 0) : Type 0 where
  pub frame : IsFrame (λ _. true) P
  pub requests :
      (rs : List PendingRequest) (s : State) → P s → P (record s { pending_requests = rs })

module _ (allowed : Message → Bool) (P : State → Type 0) (frame : IsFrame allowed P) where
  pub attempt-Keeps :
      (q : ℕ) (m : Message) (o : Outcome) → allowed m ≡ true → Keeps P (attempt q m o)
  unfolding attempt
  attempt-Keeps q m delivered a = record { at = λ s h. frame.event (sent q m) s a h }
  attempt-Keeps q m full a = record { at = λ s h. frame.event (refused q m) s a h }
  attempt-Keeps q m gone a = record { at = λ s h. frame.event (lost q m) s a h }

  pub update_instance-Keeps :
      (rm : ℕ) (p : Instance → Bool) (f : Instance → Instance)
      → Keeps P (modify (update_instance rm p f))
  unfolding update_instance modify
  update_instance-Keeps rm p f = record { at = λ s h. frame.proxies _ s h }

  pub pend_reply-Keeps : (r : Reply) (target : Process) → Keeps P (pend_reply r target)
  unfolding pend_reply modify
  pend_reply-Keeps r target = record { at = λ s h. frame.replies _ s h }

  pub pend_request-Keeps :
      (m : Message) (ids : List ℕ) → allowed m ≡ true → Keeps P (pend_request m ids)
  unfolding pend_request modify
  pend_request-Keeps m ids a = record { at = λ s h. frame.request _ s a h }

  idle_instance-Keeps : (rm : ℕ) → Keeps P (idle_instance rm)
  unfolding idle_instance
  idle_instance-Keeps rm = search keeps_rules depth 8

  pub get_instance-Keeps : (rm pid : ℕ) → Keeps P (get_instance rm pid)
  unfolding get_instance
  get_instance-Keeps rm pid = search keeps_rules depth 8

module _ (env : Environment) (allowed : Message → Bool) (P : State → Type 0)
    (frame : IsFrame allowed P) where
  pub non_blocking_push-Keeps :
      (q : ℕ) (m : Message) → allowed m ≡ true → Keeps P (non_blocking_push env q m)
  unfolding non_blocking_push
  non_blocking_push-Keeps q m a = record {
    at = λ s h. (attempt-Keeps allowed P frame q m (env.push s.events q) a).at s h;
  }

  pub send_persistent_reply-Keeps :
      (r : PendingReply) → allowed r.message ≡ true → Keeps P (send_persistent_reply env r)
  unfolding send_persistent_reply
  send_persistent_reply-Keeps r a = record {
    at = λ s h. (non_blocking_push-Keeps r.target r.message a).at s h;
  }

  instance_request-Keeps :
      (rm : ℕ) (m : Message) (i : Instance)
      → allowed m ≡ true
      → Keeps P (instance_request env rm m i)
  unfolding instance_request
  instance_request-Keeps rm m i a =
      search (keeps_rules, non_blocking_push-Keeps, update_instance-Keeps allowed P frame) depth 8

  pub request-Keeps : (m : Message) (ids : List ℕ) → allowed m ≡ true → Keeps P (request env m ids)
  unfolding request request_one
  request-Keeps m [] a = Keeps-pure []
  request-Keeps m (id ∷ ids) a =
      let rest : Keeps P (request env m ids) = request-Keeps m ids a in
      search (keeps_rules, idle_instance-Keeps allowed P frame, instance_request-Keeps) depth 8

  pub send_reply-Keeps :
      (r : Reply) (target : Process)
      → allowed (Message.reply r) ≡ true
      → Keeps P (send_reply env r target)
  unfolding send_reply
  send_reply-Keeps r target a =
      search (keeps_rules, send_persistent_reply-Keeps, pend_reply-Keeps allowed P frame) depth 8

  pub resource_request-Keeps :
      (kind : RequestKind) (t : Transaction) (filter : Resource → Bool) (new : Stage) (flags : ℕ)
      → allowed (resource_message env kind t flags) ≡ true
      → Keeps P (put (record t { resources = move_stage filter new t.resources }))
      → Keeps P (resource_request env kind t filter new flags)
  unfolding resource_request
  resource_request-Keeps kind t filter new flags a kept = Keeps-bind _ _ kept λ _.
      Keeps-bind _ _ (request-Keeps _ _ a) λ left.
        Keeps-if (is_empty left) _ _ (Keeps-pure tt) (pend_request-Keeps allowed P frame _ left a)

module _ (env : Environment) (P : State → Type 0) (all : IsFrameOfAll P) where
  accept-Keeps : (rm pid id : ℕ) → Keeps P (modify (accept rm pid id))
  unfolding accept update_instance modify
  accept-Keeps rm pid id = record { at = λ s h. all.frame.proxies _ _ (all.requests _ s h) }

  push-Keeps : (q : ℕ) (m : Message) → Keeps P (non_blocking_push env q m)
  push-Keeps q m = non_blocking_push-Keeps env _ P all.frame q m refl

  oblige-Keeps : (rm pid : ℕ) (i : Instance) (r : PendingRequest) → Keeps P (oblige env rm pid i r)
  unfolding oblige
  oblige-Keeps rm pid i r = search (keeps_rules, push-Keeps, accept-Keeps) depth 8

  pub done-Keeps : (rm pid : ℕ) (i : Instance) → Keeps P (done env rm pid i)
  unfolding done
  done-Keeps rm pid i =
      search (keeps_rules, oblige-Keeps, update_instance-Keeps _ P all.frame) depth 8
