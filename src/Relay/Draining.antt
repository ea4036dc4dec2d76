-- ===== src/Relay/Draining.antt =====
-- The loop of DrainOnce (internal/relay/relay.go): that it ends, and what is left when it ends well.
use forge_platform.Base.{
  ℕ, zero, suc, ◌+◌, ◌≤◌, ◌<◌, String, ◌≡◌, refl, sym, ap, ◌∙◌, inl, inr, Bool, true, false, not,
  ◌&&◌, ◌||◌, Option, none, some, List, [], ◌∷◌, ◌==◌, ==_refl, ==_iff, arith, ltb, map, any,
  select, take, length, Bool-cases,
}
use forge_platform.Platform.{Env}
use forge_platform.Apperr.{Result, ok, err, ok-injective}
use forge_platform.Db.{OutboxRow}
use forge_platform.Relay.{
  Stream, is_unpublished, place, in_order, claimed, mark_row, claim_batch, Drained, drained,
  drain_once,
}
use forge_platform.Relay.Claims.{batch_of, claim_batch_cases, ids_of}
use forge_platform.Relay.Delivery.{drained_cases}

-- The rows that are still to be relayed.
abbrev pub waiting : List OutboxRow → ℕ
waiting rs = length (select is_unpublished rs)

any-place :
    (p : OutboxRow → Bool) (r : OutboxRow) (qs : List OutboxRow)
    → any p (place r qs) ≡ p r || any p qs
unfolding place
any-place p r [] = refl
any-place p r (q ∷ qs) = ground (arith, any-place p r qs)

any-in_order : (p : OutboxRow → Bool) (rs : List OutboxRow) → any p (in_order rs) ≡ any p rs
unfolding in_order
any-in_order p [] = refl
any-in_order p (r ∷ rs) = any-place p r (in_order rs) ∙ ap (λ b. p r || b) (any-in_order p rs)

length-place : (r : OutboxRow) (qs : List OutboxRow) → length (place r qs) ≡ length qs + 1
unfolding place
length-place r [] = omega arith
length-place r (q ∷ qs) = ground (arith, length-place r qs)

length-in_order : (rs : List OutboxRow) → length (in_order rs) ≡ length rs
unfolding in_order
length-in_order [] = refl
length-in_order (r ∷ rs) = omega (arith, length-place r (in_order rs), length-in_order rs)

any-take :
    (p : OutboxRow → Bool) (n : ℕ) (rs : List OutboxRow)
    → any p (take n rs) ≡ true
    → any p rs ≡ true
any-take p zero rs h = cc
any-take p (suc n) [] h = cc
any-take p (suc n) (r ∷ rs) h = ground (arith, any-take p n rs)

take-all : (n : ℕ) (rs : List OutboxRow) → length (take n rs) < n → take n rs ≡ rs
take-all zero rs h = absurd (omega (arith, h))
take-all (suc n) [] h = refl
take-all (suc n) (r ∷ rs) h = ap (λ qs. r ∷ qs) (take-all n rs (omega (arith, h)))

any-select :
    (p q : OutboxRow → Bool) (rs : List OutboxRow) → any p (select q rs) ≡ any (λ r. q r && p r) rs
any-select p q [] = refl
any-select p q (r ∷ rs) = ground (arith, any-select p q rs)

-- Marking never adds a waiting row, and takes one away where it marks one.
waiting-mark :
    (now : ℕ) (ids : List ℕ) (rs : List OutboxRow)
    → waiting (map (mark_row now ids) rs) ≤ waiting rs
waiting-mark now ids [] = omega arith
waiting-mark now ids (r ∷ rs) = ground (arith, waiting-mark now ids rs)

waiting-mark_lt :
    (now : ℕ) (ids : List ℕ) (rs : List OutboxRow)
    → any (λ (r : OutboxRow). is_unpublished r && any (λ i. i == r.id) ids) rs ≡ true
    → waiting (map (mark_row now ids) rs) < waiting rs
waiting-mark_lt now ids [] h = cc
waiting-mark_lt now ids (r ∷ rs) h =
    ground (arith, waiting-mark_lt now ids rs, waiting-mark now ids rs)

any_mono :
    (p q : OutboxRow → Bool) (rs : List OutboxRow)
    → ((r : OutboxRow) → p r ≡ true → q r ≡ true)
    → any p rs ≡ true
    → any q rs ≡ true
any_mono p q [] f h = h
any_mono p q (r ∷ rs) f h = ground (arith, f r, any_mono p q rs f)

any-claimed :
    (locked : ℕ → ℕ → Bool) (limit : ℕ) (w : Stream) (i : ℕ)
    → any (λ (r : OutboxRow). r.id == i) (claimed locked limit w) ≡ true
    → any (λ (r : OutboxRow). (is_unpublished r && not (locked w.calls r.id)) && r.id == i) w.outbox
      ≡ true
unfolding claimed
any-claimed locked limit w i h =
    let free : OutboxRow → Bool = λ r. is_unpublished r && not (locked w.calls r.id) in
    let same : OutboxRow → Bool = λ r. r.id == i in
    sym (any-in_order same (select free w.outbox) ∙ any-select same free w.outbox)
    ∙ any-take same limit (in_order (select free w.outbox)) h

a_first :
    (rs : List OutboxRow)
    → 1 ≤ length rs
    → (i : ℕ) × (any (λ (r : OutboxRow). r.id == i) rs ≡ true)
      × (any (λ j. j == i) (ids_of rs) ≡ true)
a_first [] h = absurd (omega (arith, h))
a_first (r ∷ rs) h = (r.id, ground arith, ground arith)

-- A batch that relays a row leaves fewer rows waiting.
batch-waiting :
    (locked : ℕ → ℕ → Bool) (limit now : ℕ) (w : Stream)
    → 1 ≤ length (batch_of locked limit w)
    → waiting (map (mark_row now (ids_of (batch_of locked limit w))) w.outbox) < waiting w.outbox
batch-waiting locked limit now w h =
    let rs = batch_of locked limit w in
    let (i, here, marked) = a_first rs h in
    let v : Stream = record w { calls = w.calls + 1 } in
    waiting-mark_lt now (ids_of rs) w.outbox (
      any_mono (λ r. (is_unpublished r && not (locked v.calls r.id)) && r.id == i) _ w.outbox
        (λ r e. hit (is_unpublished r) (not (locked v.calls r.id)) r.id i (ids_of rs) marked e)
        (any-claimed locked limit v i here))
  where
    hit :
        (a b : Bool) (k i : ℕ) (ids : List ℕ)
        → any (λ j. j == i) ids ≡ true
        → (a && b) && k == i ≡ true
        → a && any (λ j. j == k) ids ≡ true
    hit true b k i ids m e = ap (λ n. any (λ j. j == n) ids) ((==_iff k i).0 (ground arith)) ∙ m
    hit false b k i ids m e = e

length-ids_of : (rs : List OutboxRow) → length (ids_of rs) ≡ length rs
length-ids_of [] = refl
length-ids_of (r ∷ rs) = omega (arith, length-ids_of rs)

-- A batch that returns a positive count leaves fewer rows waiting, and one that returns 0 none more.
claim_batch-waiting :
    (env : Env) (locked : ℕ → ℕ → Bool) (prefix : String) (limit n : ℕ) (w : Stream)
    → (claim_batch env locked prefix limit w).0 ≡ ok n
    → (n ≡ length (batch_of locked limit w))
      × ((claim_batch env locked prefix limit w).1.outbox
          ≡ map (mark_row (env.now w.calls) (ids_of (batch_of locked limit w))) w.outbox)
claim_batch-waiting env locked prefix limit n w h =
    elim (claim_batch_cases env locked prefix limit w) [
      | inl (e, ms, c, p) ↦ cc
      | inr (inl (c, p)) ↦ (ok-injective (sym h ∙ ap (λ q. q.0) p), ap (λ q. q.1.outbox) p)
      | inr (inr (e, c, p)) ↦ cc
    ]

drained_returns :
    (batch total : ℕ) (again : ℕ → Stream → Option Drained) (res : Result ℕ × Stream)
    → ((n : ℕ)
        → res.0 ≡ ok n
        → ltb n batch ≡ false
        → (d : Drained) × (again (total + n) res.1 ≡ some d))
    → (d : Drained) × (drained batch total again res ≡ some d)
unfolding drained
drained_returns batch total again (err e, v) f =
    (record { total = total; error = some e; stream = v }, refl)
drained_returns batch total again (ok n, v) f = elim (Bool-cases (ltb n batch)) [
  | inl last ↦ (record { total = total + n; error = none; stream = v }, rw last refl)
  | inr more ↦ let (d, rest) = f n refl more in (d, rw more rest)
]

-- DrainOnce ends: with a batch size of at least 1, a turn for each waiting row and one more are
-- enough, since every turn that is followed by another one relays a row. (No rows are added while it
-- runs.)
pub drain_once_terminates :
    (fuel : ℕ) (env : Env) (locked : ℕ → ℕ → Bool) (prefix : String) (batch total : ℕ) (w : Stream)
    → 1 ≤ batch
    → waiting w.outbox < fuel
    → (d : Drained) × (drain_once fuel env locked prefix batch total w ≡ some d)
unfolding drain_once
drain_once_terminates zero env locked prefix batch total w positive enough =
    absurd (omega (arith, enough))
drain_once_terminates (suc fuel) env locked prefix batch total w positive enough =
    let res = claim_batch env locked prefix batch w in
    drained_returns batch total (drain_once fuel env locked prefix batch) res λ n p more.
      let (is_n, marked) = claim_batch-waiting env locked prefix batch n w p in
      let fewer =
        batch-waiting locked batch (env.now w.calls) w (ground (arith, is_n, more, positive)) in
      drain_once_terminates fuel env locked prefix batch (total + n) res.1 positive
        (rw marked (omega (arith, fewer, enough)))

any-ids_of :
    (i : ℕ) (rs : List OutboxRow)
    → any (λ j. j == i) (ids_of rs) ≡ any (λ (r : OutboxRow). r.id == i) rs
any-ids_of i [] = refl
any-ids_of i (r ∷ rs) = ap (λ b. (r.id == i) || b) (any-ids_of i rs)

-- Rows that are all marked: none waits.
waiting-all_marked :
    (now : ℕ) (ids : List ℕ) (rs : List OutboxRow)
    → ((i : ℕ) → any (λ r. is_unpublished r && r.id == i) rs ≡ true → any (λ j. j == i) ids ≡ true)
    → waiting (map (mark_row now ids) rs) ≡ 0
waiting-all_marked now ids [] h = refl
waiting-all_marked now ids (r ∷ rs) h =
    ground (arith, waiting-all_marked now ids rs (λ i e. h i (ground arith)), h r.id, ==_refl r.id)

-- A batch that is smaller than its limit, with no row locked, leaves none waiting.
small_batch-waiting :
    (locked : ℕ → ℕ → Bool) (limit now : ℕ) (w : Stream)
    → ((n i : ℕ) → locked n i ≡ false)
    → length (batch_of locked limit w) < limit
    → waiting (map (mark_row now (ids_of (batch_of locked limit w))) w.outbox) ≡ 0
unfolding claimed
small_batch-waiting locked limit now w free small =
    let p : OutboxRow → Bool = λ r. is_unpublished r && not (locked (w.calls + 1) r.id) in
    let whole = take-all limit (in_order (select p w.outbox)) small in
    waiting-all_marked now (ids_of (batch_of locked limit w)) w.outbox λ i e.
      let same : OutboxRow → Bool = λ r. r.id == i in
      any-ids_of i (batch_of locked limit w)
      ∙ ap (any same) whole
      ∙ any-in_order same (select p w.outbox)
      ∙ any-select same p w.outbox
      ∙ any_mono (λ r. is_unpublished r && r.id == i) (λ r. p r && same r) w.outbox
          (λ r x. rw (free (w.calls + 1) r.id) (ground arith)) e

-- Where DrainOnce returns no error, and no other transaction held a row, no row is left to relay.
pub drain_once_drains :
    (fuel : ℕ) (env : Env) (locked : ℕ → ℕ → Bool) (prefix : String) (batch total : ℕ) (w : Stream)
    {d : Drained}
    → ((n i : ℕ) → locked n i ≡ false)
    → drain_once fuel env locked prefix batch total w ≡ some d
    → d.error ≡ none
    → waiting d.stream.outbox ≡ 0
unfolding drain_once
drain_once_drains zero env locked prefix batch total w free got fine = cc
drain_once_drains (suc fuel) env locked prefix batch total w free got fine =
    let res = claim_batch env locked prefix batch w in
    elim (drained_cases batch total (drain_once fuel env locked prefix batch) res got) [
      | inl (e, is_d) ↦ cc
      | inr (n, _, inr (_, rest)) ↦
          drain_once_drains fuel env locked prefix batch (total + n) res.1 free rest fine
      | inr (n, p, inl (last, is_d)) ↦
          let (is_n, marked) = claim_batch-waiting env locked prefix batch n w p in
          rw (is_d, marked)
            (small_batch-waiting locked batch (env.now w.calls) w free (ground (arith, is_n, last)))
    ]
