-- ===== src/Relay/Claims.antt =====
-- How a call of PgStore.ClaimBatch (internal/relay/postgres.go) can end.
use Prim.Native.String.{◌++◌ as ◌⧺◌}
use mathlib.Core.Path.{ap₂}
use mathlib.Core.List.{append_assoc, append-nil}
use forge_platform.Base.{
  ℕ, ◌+◌, String, Bool, ◌≡◌, refl, sym, ap, ◌∙◌, ◌⊎◌, inl, inr, List, [], ◌∷◌, ◌++◌, map, length,
}
use forge_platform.Platform.{Env, Outcome, done, failed, lost}
use forge_platform.Apperr.{GoError, plain, wrapped, Result, ok, err}
use forge_platform.Db.{OutboxRow}
use forge_platform.Relay.{
  Message, Stream, call, ended, ◌and_then◌, claimed, subject_for, publish, blamed, publish_all,
  mark_row, mark, rolled_back, committed, commit, publish_claimed, claim_batch,
}

-- What is published for a row.
abbrev pub message_of : Env → String → OutboxRow → Message
message_of env prefix r = record {
  subject = subject_for prefix r;
  msg_id = env.uuid_print r.id;
  payload = r.payload;
}

abbrev pub messages : Env → String → List OutboxRow → List Message
messages env prefix = map (message_of env prefix)

abbrev pub ids_of : List OutboxRow → List ℕ
ids_of = map (λ (r : OutboxRow). r.id)

abbrev pub at_call : ℕ → Stream → Stream
at_call c w = record w { calls = c }

abbrev pub with_sent : List Message → ℕ → Stream → Stream
with_sent ms c w = record w { sent = w.sent ++ ms; calls = c }

-- How a call ends that would go to `p` from `w`.
abbrev Ends : {A : Type 0} → Result A × Stream → A × Stream → Stream → Type 0
Ends r p w =
    (r ≡ (ok p.0, at_call (w.calls + 1) p.1))
    ⊎ ((e : GoError) × ((r ≡ (err e, at_call (w.calls + 1) w))
          ⊎ (r ≡ (err e, at_call (w.calls + 1) p.1))))

ended_cases :
    {A : Type 0} (o : Outcome) (e : GoError) (p : A × Stream) (w : Stream)
    → Ends (ended o e p w) p w
unfolding ended
ended_cases done e (a, v) w = inl refl
ended_cases failed e (a, v) w = inr (e, inl refl)
ended_cases lost e (a, v) w = inr (e, inr refl)

call_cases :
    {A : Type 0} (env : Env) (what : String) (act : Stream → A × Stream) (w : Stream)
    → Ends (call env what act w) (act w) w
unfolding call
call_cases env what act w =
    ended_cases (env.outcome w.calls) (wrapped what (plain (env.failure_text w.calls))) (act w) w

-- A step that only sends: it sends `ms` and returns `a`, or it fails and has sent something.
abbrev pub Sends : {A : Type 0} → Result A × Stream → A → List Message → Stream → Type 0
Sends r a ms w =
    ((c : ℕ) × (r ≡ (ok a, with_sent ms c w)))
    ⊎ ((e : GoError) × (ex : List Message) × (c : ℕ) × (r ≡ (err e, with_sent ex c w)))

publish_cases :
    (env : Env) (prefix : String) (r : OutboxRow) (w : Stream)
    → Sends
        (blamed ("publish " ⧺ env.uuid_print r.id) (publish env prefix r w))
        tt
        (message_of env prefix r ∷ [])
        w
unfolding publish blamed
publish_cases env prefix r w =
    let m = message_of env prefix r in
    let what = "publish " ⧺ subject_for prefix r in
    let act : Stream → Unit {0} × Stream = λ v. (tt, record v { sent = v.sent ++ m ∷ [] }) in
    let who = "publish " ⧺ env.uuid_print r.id in
    elim (call_cases env what act w) [
      | inl p ↦ inl (w.calls + 1, ap (blamed who) p)
      | inr (e, inl p) ↦ inr (
        wrapped who e,
        [],
        w.calls + 1,
        ap (blamed who) p
            ∙ ap (λ s. (err (wrapped who e), record w { sent = s; calls = w.calls + 1 }))
                (sym (append-nil w.sent)),
      )
      | inr (e, inr p) ↦ inr (wrapped who e, m ∷ [], w.calls + 1, ap (blamed who) p)
    ]

-- Publishing stops at the first error; the rows before it were sent, and it may have been.
pub publish_all_cases :
    (env : Env) (prefix : String) (rs : List OutboxRow) (w : Stream)
    → Sends (publish_all env prefix rs w) (ids_of rs) (messages env prefix rs) w
unfolding publish_all ◌and_then◌
publish_all_cases env prefix [] w =
    inl (w.calls, ap (λ s. (ok [], record w { sent = s })) (sym (append-nil w.sent)))
publish_all_cases env prefix (r ∷ rs) w = elim (publish_cases env prefix r w) [
  | inr (e, ex, c, p) ↦ inr (e, ex, c, rw p refl)
  | inl (c, p) ↦
      elim (publish_all_cases env prefix rs (with_sent (message_of env prefix r ∷ []) c w)) [
        | inl (c', q) ↦ inl (c', rw (p, q) (simp append_assoc))
        | inr (e, ex, c', q) ↦
            inr (e, message_of env prefix r ∷ ex, c', rw (p, q) (simp append_assoc))
      ]
]

-- The claimed rows sent and marked as published.
abbrev pub relayed : Env → String → ℕ → List OutboxRow → ℕ → Stream → Stream
relayed env prefix now rs c w = record {
  outbox = map (mark_row now (ids_of rs)) w.outbox;
  sent = w.sent ++ messages env prefix rs;
  calls = c;
}

-- A batch ends with an error and no row marked; or every row of it was sent and marked, and the
-- error, if there is one, is that of the commit.
abbrev pub Relays : Result ℕ × Stream → Env → String → ℕ → List OutboxRow → Stream → Type 0
Relays res env prefix now rs w =
    ((e : GoError) × (ms : List Message) × (c : ℕ) × (res ≡ (err e, with_sent ms c w)))
    ⊎ (((c : ℕ) × (res ≡ (ok (length rs), relayed env prefix now rs c w)))
        ⊎ ((e : GoError) × (c : ℕ) × (res ≡ (err e, relayed env prefix now rs c w))))

commit_cases :
    (env : Env) (n : ℕ) (before : List OutboxRow) (w : Stream)
    → (commit env n before w ≡ (ok n, at_call (w.calls + 1) w))
      ⊎ ((e : GoError) × ((commit env n before w ≡ (err e, at_call (w.calls + 1) w))
            ⊎ (commit env n before w ≡ (err e, record w { outbox = before; calls = w.calls + 1 }))))
unfolding commit
commit_cases env n before w =
    go (env.outcome w.calls) (wrapped "commit" (plain (env.failure_text w.calls)))
  where
    go :
        (o : Outcome) (x : GoError)
        → (committed n x o before w ≡ (ok n, at_call (w.calls + 1) w))
          ⊎ ((e : GoError) × ((committed n x o before w ≡ (err e, at_call (w.calls + 1) w))
                ⊎ (committed n x o before w
                    ≡ (err e, record w { outbox = before; calls = w.calls + 1 }))))
    go done x = inl refl
    go lost x = inr (x, inl refl)
    go failed x = inr (x, inr refl)

publish_claimed_cases :
    (env : Env) (prefix : String) (now : ℕ) (r : OutboxRow) (rs : List OutboxRow) (w : Stream)
    → Relays (publish_claimed env prefix now w.outbox (r ∷ rs) w) env prefix now (r ∷ rs) w
unfolding publish_claimed ◌and_then◌ rolled_back mark committed
publish_claimed_cases env prefix now r rs w = elim (publish_all_cases env prefix (r ∷ rs) w) [
  | inr (e, ms, c, p) ↦ inl (e, ms, c + 1, rw p refl)
  | inl (c, p) ↦
      let ms = messages env prefix (r ∷ rs) in
      let ids = ids_of (r ∷ rs) in
      elim (call_cases env "mark published" (mark now ids) (with_sent ms c w)) [
        | inr (e, inl q) ↦ inl (e, ms, c + 1 + 1, rw (p, q) refl)
        | inr (e, inr q) ↦ inl (e, ms, c + 1 + 1, rw (p, q) refl)
        | inl q ↦
            elim (commit_cases env (length (r ∷ rs)) w.outbox
              (relayed env prefix now (r ∷ rs) (c + 1) w)) [
                | inl t ↦ inr (inl (c + 1 + 1, rw (p, q) t))
                | inr (e, inl t) ↦ inr (inr (e, c + 1 + 1, rw (p, q) t))
                | inr (e, inr t) ↦ inl (e, ms, c + 1 + 1, rw (p, q) t)
              ]
      ]
]

nothing_sent :
    (e : GoError) (c : ℕ) (w : Stream)
    → ◌≡◌ {A = Result ℕ × Stream} (err e, at_call c w) (err e, with_sent [] c w)
nothing_sent e c w = ap (λ s. (err e, record w { sent = s; calls = c })) (sym (append-nil w.sent))

mark-nothing : (now : ℕ) (rs : List OutboxRow) → map (mark_row now []) rs ≡ rs
mark-nothing now [] = refl
mark-nothing now (r ∷ rs) = ap (λ qs. r ∷ qs) (mark-nothing now rs)

publish_batch_cases :
    (env : Env) (prefix : String) (now : ℕ) (rs : List OutboxRow) (c : ℕ) (w : Stream)
    → Relays (publish_claimed env prefix now w.outbox rs (at_call c w)) env prefix now rs w
unfolding publish_claimed
publish_batch_cases env prefix now [] c w = inr (
    inl (
      c + 1,
      ap₂ (λ rs ms. (ok 0, record { outbox = rs; sent = ms; calls = c + 1 }))
          (sym (mark-nothing now w.outbox)) (sym (append-nil w.sent)),
    ))
publish_batch_cases env prefix now (r ∷ rs) c w =
    publish_claimed_cases env prefix now r rs (at_call c w)

-- The rows that a batch claims, after the call that opens its transaction.
abbrev pub batch_of : (ℕ → ℕ → Bool) → ℕ → Stream → List OutboxRow
batch_of locked limit w = claimed locked limit (at_call (w.calls + 1) w)

-- A call of ClaimBatch ends with an error and marks no row (it may have sent some); or it sends and
-- marks every row that it claimed, and returns their number, or the error of the commit.
pub claim_batch_cases :
    (env : Env) (locked : ℕ → ℕ → Bool) (prefix : String) (limit : ℕ) (w : Stream)
    → Relays
        (claim_batch env locked prefix limit w)
        env
        prefix
        (env.now w.calls)
        (batch_of locked limit w)
        w
unfolding claim_batch ◌and_then◌ rolled_back
claim_batch_cases env locked prefix limit w = elim (call_cases env "begin" (λ v. (tt, v)) w) [
  | inr (e, inl p) ↦ inl (e, [], w.calls + 1, rw p (nothing_sent e (w.calls + 1) w))
  | inr (e, inr p) ↦ inl (e, [], w.calls + 1, rw p (nothing_sent e (w.calls + 1) w))
  | inl p ↦
      elim (call_cases env "claim outbox" (λ v. (claimed locked limit v, v))
        (at_call (w.calls + 1) w)) [
          | inr (e, inl q) ↦
              inl (e, [], w.calls + 1 + 1 + 1, rw (p, q) (nothing_sent e (w.calls + 1 + 1 + 1) w))
          | inr (e, inr q) ↦
              inl (e, [], w.calls + 1 + 1 + 1, rw (p, q) (nothing_sent e (w.calls + 1 + 1 + 1) w))
          | inl q ↦
              rw (p, q)
                (publish_batch_cases env prefix (env.now w.calls) (batch_of locked limit w)
                  (w.calls + 1 + 1) w)
        ]
]
