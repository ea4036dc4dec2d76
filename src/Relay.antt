-- ===== src/Relay.antt =====
-- The outbox relay: internal/relay/relay.go and postgres.go, with the publisher of
-- internal/platform/events/events.go. The tables, the calls made and the messages that the stream
-- took are the state; how each call ends is the environment's.
pub mod Claims
pub mod Delivery
pub mod Draining
use Prim.Native.String.{◌++◌ as ◌⧺◌}
use forge_platform.Base.{
  ℕ, zero, suc, ◌+◌, String, Bool, true, false, not, ◌&&◌, ◌||◌, if◌then◌else◌, Option, none, some,
  List, [], ◌∷◌, ◌++◌, ◌==◌, ltb, map, any, select, take, length,
}
use forge_platform.Base.Words.{slt64}
use forge_platform.Platform.{column_time, Env, Outcome, done, failed, lost}
use forge_platform.Apperr.{GoError, plain, wrapped, Result, ok, err}
use forge_platform.Db.{OutboxRow, Envelope}

-- What the stream takes: msgID is what it tells duplicates by.
pub record Message : Type 0 where
  pub subject : String
  pub msg_id : String
  pub payload : Envelope

pub record Stream : Type 0 where
  pub outbox : List OutboxRow
  pub sent : List Message
  pub calls : ℕ

abbrev pub Step : Type 0 → Type 0
Step A = Stream → Result A × Stream

-- A call of the database or of the stream that does `act` and may fail.
ended : {A : Type 0} → Outcome → GoError → A × Stream → Stream → Result A × Stream
ended done e (a, w') w = (ok a, record w' { calls = w.calls + 1 })
ended failed e (a, w') w = (err e, record w { calls = w.calls + 1 })
ended lost e (a, w') w = (err e, record w' { calls = w.calls + 1 })

unfoldable pub call : {A : Type 0} → Env → String → (Stream → A × Stream) → Step A
unfolding ended
call env what act w =
    ended (env.outcome w.calls) (wrapped what (plain (env.failure_text w.calls))) (act w) w

infixl 5 ◌and_then◌
unfoldable pub ◌and_then◌ : {A B : Type 0} → Result A × Stream → (A → Step B) → Result B × Stream
(ok a, w) and_then k = k a w
(err e, w) and_then k = (err e, w)

-- WHERE published_at IS NULL
abbrev pub is_unpublished : OutboxRow → Bool
is_unpublished r = elim r.published_at [ none ↦ true | some t ↦ false ]

-- ORDER BY created_at, id
abbrev pub comes_before : OutboxRow → OutboxRow → Bool
comes_before a b = ltb a.created_at b.created_at || (a.created_at == b.created_at && ltb a.id b.id)

unfoldable pub place : OutboxRow → List OutboxRow → List OutboxRow
place r [] = r ∷ []
place r (q ∷ qs) = let rest = place r qs in if comes_before q r then q ∷ rest else r ∷ q ∷ qs

unfoldable pub in_order : List OutboxRow → List OutboxRow
unfolding place
in_order [] = []
in_order (r ∷ rs) = place r (in_order rs)

-- SELECT … LIMIT $1 FOR UPDATE SKIP LOCKED: `locked n id` says that another transaction holds the
-- row at the call `n`.
unfoldable pub claimed : (ℕ → ℕ → Bool) → ℕ → Stream → List OutboxRow
unfolding in_order
claimed locked limit w =
    take limit (in_order (select (λ r. is_unpublished r && not (locked w.calls r.id)) w.outbox))

-- Relay.subjectFor
abbrev pub subject_for : String → OutboxRow → String
subject_for prefix r = prefix ⧺ "." ⧺ r.event_type

-- JetStreamPublisher.Publish, under the function that DrainOnce hands to ClaimBatch.
unfoldable pub publish : Env → String → OutboxRow → Step (Unit {0})
unfolding call
publish env prefix r w =
    call env ("publish " ⧺ subject_for prefix r)
      (λ v. (
        tt,
        record v {
          sent =
              v.sent
              ++ record {
                subject = subject_for prefix r;
                msg_id = env.uuid_print r.id;
                payload = r.payload;
              }
                ∷ [];
        },
      ))
      w

blamed : {A : Type 0} → String → Result A × Stream → Result A × Stream
blamed what (ok a, w) = (ok a, w)
blamed what (err e, w) = (err (wrapped what e), w)

-- The loop over the claimed rows: the identifiers of those that were published.
unfoldable pub publish_all : Env → String → List OutboxRow → Step (List ℕ)
unfolding publish blamed ◌and_then◌
publish_all env prefix [] w = (ok [], w)
publish_all env prefix (r ∷ rs) w =
    blamed ("publish " ⧺ env.uuid_print r.id) (publish env prefix r w) and_then λ _ w1.
    publish_all env prefix rs w1 and_then λ ids w2. (ok (r.id ∷ ids), w2)

abbrev pub mark_row : ℕ → List ℕ → OutboxRow → OutboxRow
mark_row now ids r =
    if any (λ i. i == r.id) ids then record r { published_at = some (column_time now) } else r

-- UPDATE outbox_events SET published_at = now() WHERE id = ANY($1)
unfoldable pub mark : ℕ → List ℕ → Stream → Unit {0} × Stream
mark now ids w = (tt, record w { outbox = map (mark_row now ids) w.outbox })

-- The deferred rollback, which only an error or an empty batch leaves something to do.
rolled_back : {A : Type 0} → List OutboxRow → Result A × Stream → Result A × Stream
rolled_back before (ok a, w) = (ok a, w)
rolled_back before (err e, w) = (err e, record w { outbox = before; calls = w.calls + 1 })

-- A commit that fails leaves the tables as they were before; one whose answer is lost does not.
committed : ℕ → GoError → Outcome → List OutboxRow → Step ℕ
committed n e done before w = (ok n, record w { calls = w.calls + 1 })
committed n e lost before w = (err e, record w { calls = w.calls + 1 })
committed n e failed before w = (err e, record w { outbox = before; calls = w.calls + 1 })

unfoldable pub commit : Env → ℕ → List OutboxRow → Step ℕ
unfolding committed
commit env n before w =
    committed n (wrapped "commit" (plain (env.failure_text w.calls))) (env.outcome w.calls) before w

unfoldable pub publish_claimed : Env → String → ℕ → List OutboxRow → List OutboxRow → Step ℕ
unfolding commit rolled_back ◌and_then◌ call mark
publish_claimed env prefix now before [] w = (ok 0, record w { calls = w.calls + 1 })
publish_claimed env prefix now before (r ∷ rs) w =
    rolled_back before (
      publish_all env prefix (r ∷ rs) w and_then λ ids w1.
      call env "mark published" (mark now ids) w1)
    and_then λ _ w2. commit env (length (r ∷ rs)) before w2

-- PgStore.ClaimBatch
unfoldable pub claim_batch : Env → (ℕ → ℕ → Bool) → String → ℕ → Step ℕ
unfolding publish_claimed rolled_back ◌and_then◌ call
claim_batch env locked prefix limit w = call env "begin" (λ v. (tt, v)) w and_then λ _ w1.
    rolled_back w1.outbox (call env "claim outbox" (λ v. (claimed locked limit v, v)) w1)
    and_then λ recs w2. publish_claimed env prefix (env.now w.calls) w1.outbox recs w2

-- New: a batch size that is not positive becomes 100.
abbrev pub batch_size : ℕ → ℕ
batch_size batch = if slt64 0 batch then batch else 100

-- What DrainOnce returns: a count and an error.
pub record Drained : Type 0 where
  pub total : ℕ
  pub error : Option GoError
  pub stream : Stream

unfoldable pub drained : ℕ → ℕ → (ℕ → Stream → Option Drained) → Result ℕ × Stream → Option Drained
drained batch total again (err e, w) = some (record { total = total; error = some e; stream = w })
drained batch total again (ok n, w) =
    let rest = again (total + n) w in
    if ltb n batch then some (record { total = total + n; error = none; stream = w }) else rest

-- DrainOnce, with fuel for its loop: `none` where the fuel is used up.
unfoldable pub drain_once : ℕ → Env → (ℕ → ℕ → Bool) → String → ℕ → ℕ → Stream → Option Drained
unfolding drained claim_batch
drain_once zero env locked prefix batch total w = none
drain_once (suc fuel) env locked prefix batch total w =
    drained batch total (drain_once fuel env locked prefix batch)
      (claim_batch env locked prefix batch w)
