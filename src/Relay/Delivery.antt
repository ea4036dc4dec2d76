-- ===== src/Relay/Delivery.antt =====
-- No event is lost: the rows that the relay marks (internal/relay/postgres.go) are rows that the stream took.
use text.Mathlib.TextPositions.{eq_refl}
use forge_platform.Base.{
  ℕ, zero, suc, ◌+◌, String, ◌≡◌, refl, ◌⊎◌, inl, inr, Bool, true, false, Option, none, some, List,
  [], ◌∷◌, ◌++◌, ◌==◌, ==_iff, arith, ltb, map, any, All, Bool-cases, str_eq,
}
use forge_platform.Platform.{Env}
use forge_platform.Apperr.{GoError, Result, ok, err}
use forge_platform.Db.{OutboxRow}
use forge_platform.Relay.{
  Message, Stream, is_unpublished, mark_row, claim_batch, Drained, drained, drain_once,
}
use forge_platform.Relay.Claims.{batch_of, claim_batch_cases, messages, ids_of}

abbrev pub is_sent : Env → List Message → ℕ → Bool
is_sent env sent id = any (λ (m : Message). str_eq m.msg_id (env.uuid_print id)) sent

-- A row that is marked as published was taken by the stream, under its own identifier.
abbrev pub IsAccounted : Env → List Message → OutboxRow → Type 0
IsAccounted env sent r = is_unpublished r ≡ false → is_sent env sent r.id ≡ true

any-append_left {ℓ} :
    {A : Type ℓ} (p : A → Bool) (xs ys : List A) → any p xs ≡ true → any p (xs ++ ys) ≡ true
any-append_left p [] ys h = cc
any-append_left p (x ∷ xs) ys h = ground (arith, any-append_left p xs ys)

any-append_right {ℓ} :
    {A : Type ℓ} (p : A → Bool) (xs ys : List A) → any p ys ≡ true → any p (xs ++ ys) ≡ true
any-append_right p [] ys h = h
any-append_right p (x ∷ xs) ys h = ground (arith, any-append_right p xs ys h)

is_sent-messages :
    (env : Env) (prefix : String) (rs : List OutboxRow) (id : ℕ)
    → any (λ i. i == id) (ids_of rs) ≡ true
    → is_sent env (messages env prefix rs) id ≡ true
is_sent-messages env prefix [] id h = cc
is_sent-messages env prefix (r ∷ rs) id h =
    ground (arith, is_sent-messages env prefix rs id, eq_refl (env.uuid_print id), ==_iff r.id id)

grown :
    (env : Env) (sent more : List Message) (rs : List OutboxRow)
    → All (IsAccounted env sent) rs
    → All (IsAccounted env (sent ++ more)) rs
grown env sent more [] h = tt
grown env sent more (r ∷ rs) h = (
  λ u. any-append_left (λ (m : Message). str_eq m.msg_id (env.uuid_print r.id)) sent more (h.0 u),
  grown env sent more rs h.1,
)

marked :
    (env : Env) (prefix : String) (now : ℕ) (batch : List OutboxRow) (sent : List Message)
    (rs : List OutboxRow)
    → All (IsAccounted env sent) rs
    → All
        (IsAccounted env (sent ++ messages env prefix batch))
        (map (mark_row now (ids_of batch)) rs)
marked env prefix now batch sent [] h = tt
marked env prefix now batch sent (r ∷ rs) h = (
  elim (Bool-cases (any (λ i. i == r.id) (ids_of batch))) [
    | inl e ↦ rw e λ _.
        any-append_right _ sent (messages env prefix batch)
          (is_sent-messages env prefix batch r.id e)
    | inr e ↦ rw e λ u. any-append_left _ sent (messages env prefix batch) (h.0 u)
  ],
  marked env prefix now batch sent rs h.1,
)

-- Whatever a batch returns, the rows that are marked after it were taken by the stream if those
-- before it were.
pub claim_batch-IsAccounted :
    (env : Env) (locked : ℕ → ℕ → Bool) (prefix : String) (limit : ℕ) (w : Stream)
    → All (IsAccounted env w.sent) w.outbox
    → All
        (IsAccounted env (claim_batch env locked prefix limit w).1.sent)
        (claim_batch env locked prefix limit w).1.outbox
claim_batch-IsAccounted env locked prefix limit w h =
    let rs = batch_of locked limit w in
    let after = marked env prefix (env.now w.calls) rs w.sent w.outbox h in
    elim (claim_batch_cases env locked prefix limit w) [
      | inl (e, ms, c, p) ↦ rw p (grown env w.sent ms w.outbox h)
      | inr (inl (c, p)) ↦ rw p after
      | inr (inr (e, c, p)) ↦ rw p after
    ]

-- A turn of the loop ends it with an error, ends it with a small batch, or goes on.
pub drained_cases :
    (batch total : ℕ) (again : ℕ → Stream → Option Drained) (res : Result ℕ × Stream) {d : Drained}
    → drained batch total again res ≡ some d
    → ((e : GoError) × (d ≡ record { total = total; error = some e; stream = res.1 }))
      ⊎ ((n : ℕ) × (res.0 ≡ ok n)
          × (((ltb n batch ≡ true)
                × (d ≡ record { total = total + n; error = none; stream = res.1 }))
              ⊎ ((ltb n batch ≡ false) × (again (total + n) res.1 ≡ some d))))
unfolding drained
drained_cases batch total again (err e, v) h = inl (e, cc)
drained_cases batch total again (ok n, v) h = elim (Bool-cases (ltb n batch)) [
  | inl last ↦ inr (n, refl, inl (last, ground arith))
  | inr more ↦ inr (n, refl, inr (more, ground arith))
]

-- At least once: DrainOnce, however it ends, marks only rows that the stream took.
pub drain_once-IsAccounted :
    (fuel : ℕ) (env : Env) (locked : ℕ → ℕ → Bool) (prefix : String) (batch total : ℕ) (w : Stream)
    {d : Drained}
    → All (IsAccounted env w.sent) w.outbox
    → drain_once fuel env locked prefix batch total w ≡ some d
    → All (IsAccounted env d.stream.sent) d.stream.outbox
unfolding drain_once
drain_once-IsAccounted zero env locked prefix batch total w h got = cc
drain_once-IsAccounted (suc fuel) env locked prefix batch total w h got =
    let res = claim_batch env locked prefix batch w in
    let a = claim_batch-IsAccounted env locked prefix batch w h in
    elim (drained_cases batch total (drain_once fuel env locked prefix batch) res got) [
      | inl (e, is_d) ↦ rw is_d a
      | inr (n, _, inl (_, is_d)) ↦ rw is_d a
      | inr (n, _, inr (_, rest)) ↦
          drain_once-IsAccounted fuel env locked prefix batch (total + n) res.1 a rest
    ]
