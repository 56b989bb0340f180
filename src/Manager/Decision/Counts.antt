-- ===== src/Manager/Decision/Counts.antt =====
-- Communication that excludes a sort of messages hands out none of them.
use casual.Base.{ℕ, ◌≡◌, refl, Bool, true, false, not, List, [], ◌∷◌, ◌++◌, arith}
use casual.Manager.Message.{Message}
use casual.Manager.Model.{Transaction}
use casual.Manager.State.{State, Event, sent, refused, lost, PendingRequest}
use casual.Manager.Monad.{modify}
use casual.Manager.Keeps.{Keeps}
use casual.Manager.Keeps.Frame.{IsFrame, is_message}
use casual.Manager.Handle.Send.{put}
use casual.Manager.Decision.{log_prepares, waiting, handed_out}

-- So many log entries for prepared transactions, and so many requests of the sort handed out.
pub record Counts (p : Message → Bool) (logged requested : ℕ) (s : State) : Type 0 where
  pub log : log_prepares s.events ≡ logged
  pub requests : handed_out p s ≡ requested

waiting-append :
    (p : Message → Bool) (rs : List PendingRequest) (r : PendingRequest)
    → p r.message ≡ false
    → waiting p (rs ++ r ∷ []) ≡ waiting p rs
waiting-append p [] r e = rw e refl
waiting-append p (q ∷ rs) r e = omega (arith, waiting-append p rs r e)

module _ (p : Message → Bool) (logged requested : ℕ) where
  event-Counts :
      (e : Event) (s : State)
      → is_message (λ m. not (p m)) e ≡ true
      → Counts p logged requested s
      → Counts p logged requested (record s { events = e ∷ s.events })
  event-Counts (sent q m) s a c = record { log = c.log; requests = ground (arith, c.requests) }
  event-Counts (refused q m) s a c = record { log = c.log; requests = ground (arith, c.requests) }
  event-Counts (lost q m) s a c = record { log = c.log; requests = ground (arith, c.requests) }
  event-Counts _ s a c = cc

  request-Counts :
      (r : PendingRequest) (s : State)
      → not (p r.message) ≡ true
      → Counts p logged requested s
      → Counts p logged requested (record s { pending_requests = s.pending_requests ++ r ∷ [] })
  request-Counts r s a c = record {
    log = c.log;
    requests = ground (arith, waiting-append p s.pending_requests r, c.requests);
  }

  pub Counts-frame : IsFrame (λ m. not (p m)) (Counts p logged requested)
  Counts-frame = record {
    event = event-Counts;
    proxies = λ ps s c. record { log = c.log; requests = c.requests };
    replies = λ r s c. record { log = c.log; requests = c.requests };
    request = request-Counts;
  }

  pub put-Counts : (t : Transaction) → Keeps (Counts p logged requested) (put t)
  unfolding put modify
  put-Counts t = record { at = λ s c. record { log = c.log; requests = c.requests } }
