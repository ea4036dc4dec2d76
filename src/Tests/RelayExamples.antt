-- ===== src/Tests/RelayExamples.antt =====
-- Examples of the theorems on the relay.
use forge_platform.Platform.{column_time}
use forge_platform.Relay.{
  call, ◌and_then◌, place, in_order, claimed, publish, publish_all, mark, commit, publish_claimed,
  claim_batch, drained, drain_once,
}
use forge_platform.Base.{ℕ, ◌≤◌, ◌<◌, ◌≡◌, refl, Bool, false, none, some, [], ◌∷◌, All, arith}
use forge_platform.Db.{OutboxRow}
use forge_platform.Relay.{Stream, Drained}
use forge_platform.Relay.Claims.{Relays, batch_of, claim_batch_cases, message_of}
use forge_platform.Relay.Delivery.{IsAccounted, drain_once-IsAccounted}
use forge_platform.Relay.Draining.{waiting, drain_once_terminates, drain_once_drains}
use forge_platform.Tests.{calm}

abbrev event : ℕ → ℕ → OutboxRow
event id created = record {
  id = id;
  aggregate_id = "i";
  event_type = "tenant.created";
  payload = record { event_type = "tenant.created"; aggregate_id = "i"; fields = [] };
  occurred_at = created;
  published_at = none;
  created_at = created;
}

-- Three events, out of order.
abbrev pending : Stream
pending = record { outbox = event 1 30 ∷ event 2 10 ∷ event 3 20 ∷ []; sent = []; calls = 0 }

abbrev unlocked : ℕ → ℕ → Bool
unlocked n i = false

abbrev pushed : ℕ → OutboxRow → OutboxRow
pushed now r = record r { published_at = some now }

-- Two batches of at most two rows: the older two, then the last one.
abbrev all_sent : Drained
all_sent = record {
  total = 3;
  error = none;
  stream = record {
    outbox = pushed 7000 (event 1 30) ∷ pushed 1000 (event 2 10) ∷ pushed 1000 (event 3 20) ∷ [];
    sent =
        message_of calm "forge" (event 2 10)
        ∷ message_of calm "forge" (event 3 20)
        ∷ message_of calm "forge" (event 1 30)
        ∷ [];
    calls = 11;
  };
}

pending-drained : drain_once 4 calm unlocked "forge" 2 0 pending ≡ some all_sent
unfolding column_time call ◌and_then◌ place in_order claimed publish publish_all mark commit
    publish_claimed claim_batch drained drain_once
pending-drained = refl

pending-IsAccounted : All (IsAccounted calm pending.sent) pending.outbox
pending-IsAccounted = ((λ e. cc), ((λ e. cc), ((λ e. cc), tt)))

drain_once-IsAccounted_example : All (IsAccounted calm all_sent.stream.sent) all_sent.stream.outbox
drain_once-IsAccounted_example =
    drain_once-IsAccounted 4 calm unlocked "forge" 2 0 pending pending-IsAccounted pending-drained

three_waiting : waiting pending.outbox < 4
three_waiting = omega arith

a_batch : ◌≤◌ 1 2
a_batch = omega arith

drain_once_terminates_example :
    (d : Drained) × (drain_once 4 calm unlocked "forge" 2 0 pending ≡ some d)
drain_once_terminates_example =
    drain_once_terminates 4 calm unlocked "forge" 2 0 pending a_batch three_waiting

free : (n i : ℕ) → unlocked n i ≡ false
free n i = refl

drain_once_drains_example : waiting all_sent.stream.outbox ≡ 0
drain_once_drains_example =
    drain_once_drains 4 calm unlocked "forge" 2 0 pending free pending-drained refl

claim_batch_cases_example :
    Relays
      (claim_batch calm unlocked "forge" 2 pending)
      calm
      "forge"
      1000
      (batch_of unlocked 2 pending)
      pending
claim_batch_cases_example = claim_batch_cases calm unlocked "forge" 2 pending
