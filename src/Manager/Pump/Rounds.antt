-- ===== src/Manager/Pump/Rounds.antt =====
-- The end of a round of `message::pump`: the replies that wait for the log.
use casual.Base.{◌≡◌, refl, ap, true, List, [], ◌∷◌, ◌++◌, All}
use casual.Manager.State.{State, Event, write_commit, PendingReply, PendingRequest}
use casual.Manager.Monad.{Environment, record_event, modify, ◌>>=◌}
use casual.Manager.Keeps.{Keeps, Keeps-pure, Keeps-gets, Keeps-bind}
use casual.Manager.Keeps.Frame.{IsFrame, is_message, send_persistent_reply-Keeps, request-Keeps}
use casual.Manager.Pump.{flush_replies, flush_requests, finish_round}

-- What has happened since the events were `base` is messages only, before which the log was
-- committed.
abbrev pub SinceCommit : List Event → State → Type 0
SinceCommit base s =
    (es : List Event) × (s.events ≡ es ++ write_commit ∷ base)
    × All (λ e. is_message (λ _. true) e ≡ true) es

commit_frame : (base : List Event) → IsFrame (λ _. true) (SinceCommit base)
commit_frame base = record {
  event = λ e s a (es, eq, all). (e ∷ es, ap (λ l. e ∷ l) eq, (a, all));
  proxies = λ ps s c. c;
  replies = λ r s c. c;
  request = λ r s a c. c;
}

module _ (env : Environment) (base : List Event) where
  flush_replies-Keeps : (rs : List PendingReply) → Keeps (SinceCommit base) (flush_replies env rs)
  unfolding flush_replies
  flush_replies-Keeps [] = Keeps-pure []
  flush_replies-Keeps (r ∷ rs) =
      Keeps-bind _ _ (send_persistent_reply-Keeps env _ _ (commit_frame base) r refl)
        λ done. Keeps-bind _ _ (flush_replies-Keeps rs) (λ kept. Keeps-pure _)

  flush_requests-Keeps :
      (rs : List PendingRequest) → Keeps (SinceCommit base) (flush_requests env rs)
  unfolding flush_requests
  flush_requests-Keeps [] = Keeps-pure []
  flush_requests-Keeps (r ∷ rs) =
      Keeps-bind _ _ (request-Keeps env _ _ (commit_frame base) r.message r.resources refl)
        λ left. Keeps-bind _ _ (flush_requests-Keeps rs) (λ kept. Keeps-pure _)

forget_replies :
    {base : List Event} (kept : List PendingReply)
    → Keeps (SinceCommit base) (modify (λ s. record s { persistent_replies = kept }))
unfolding modify
forget_replies kept = record { at = λ s h. h }

forget_requests :
    {base : List Event} (left : List PendingRequest)
    → Keeps (SinceCommit base) (
        modify (λ s. record s {
          pending_requests = s.pending_requests ++ left;
          persistent_requests = [];
        }))
unfolding modify
forget_requests left = record { at = λ s h. h }

-- At the end of a round the log is committed first, and all that happens after that is that
-- messages are pushed, whatever the order in which the replies are tried.
pub commit_before_replies :
    (env : Environment) (order : List PendingReply → List PendingReply) (s : State)
    → SinceCommit s.events (finish_round env order s).1
unfolding finish_round ◌>>=◌ record_event flush_replies
commit_before_replies env order s =
    let rest = Keeps-bind _ _ (Keeps-gets (λ s'. s'.persistent_replies)) λ replies.
      Keeps-bind _ _ (flush_replies-Keeps env s.events (order replies)) λ kept.
        Keeps-bind _ _ (forget_replies kept) λ _.
          Keeps-bind _ _ (Keeps-gets (λ s'. s'.persistent_requests)) λ requests.
            Keeps-bind _ _ (flush_requests-Keeps env s.events requests) forget_requests in
    rest.at (record s { events = write_commit ∷ s.events }) ([], refl, tt)
