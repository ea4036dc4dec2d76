-- ===== src/Idempotency/Saves.antt =====
-- What Save of internal/platform/idempotency/idempotency.go leaves under a key.
use forge_platform.Base.{
  sym, ◌∙◌, ◌≢◌, ℕ, String, ◌≡◌, refl, ap, ◌⊎◌, inl, inr, true, false, if◌then◌else◌, Option, none,
  some, List, [], ◌∷◌, ◌++◌, str_eq, any, find, ◌==◌, arith, Bool-cases,
}
use text.Mathlib.TextPositions.{eq_refl}
use forge_platform.Platform.{Env, Outcome, done, failed, lost}
use forge_platform.Apperr.{Result, ok, err}
use forge_platform.Db.{IdempotencyRow, Db, World, rows}
use forge_platform.Db.Steps.{query_ok, query_done}
use forge_platform.Idempotency.{
  Response, has_key, response_of, insert_cast, insert_response, save_response,
}

-- The response that a key has after a save: the one that it had, or else the saved one.
abbrev pub kept : Option Response → Response → Response
kept none new = new
kept (some old) new = old

find_snoc :
    (key : String) (r : IdempotencyRow) (qs : List IdempotencyRow)
    → has_key key r ≡ true
    → any (has_key key) qs ≡ false
    → find (has_key key) (qs ++ r ∷ []) ≡ some r
find_snoc key r [] h free = rw h refl
find_snoc key r (q ∷ qs) h free = ground (arith, find_snoc key r qs)

find-none :
    (key : String) (qs : List IdempotencyRow)
    → any (has_key key) qs ≡ false
    → find (has_key key) qs ≡ none
find-none key [] h = refl
find-none key (q ∷ qs) h = ground (arith, find-none key qs)

find-any :
    (key : String) (qs : List IdempotencyRow)
    → any (has_key key) qs ≡ true
    → (r : IdempotencyRow) × (find (has_key key) qs ≡ some r)
find-any key [] h = cc
find-any key (q ∷ qs) h = elim (Bool-cases (has_key key q)) [
  | inl e ↦ (q, rw e refl)
  | inr e ↦ let (r, is_r) = find-any key qs (ground arith) in (r, rw e is_r)
]

find_other :
    (key other : String) (r : IdempotencyRow) (qs : List IdempotencyRow)
    → has_key other r ≡ false
    → find (has_key other) (qs ++ r ∷ []) ≡ find (has_key other) qs
find_other key other r [] h = rw h refl
find_other key other r (q ∷ qs) h =
    ap (λ rest. if has_key other q then some q else rest) (find_other key other r qs h)

inserted :
    (r : IdempotencyRow) (o : Option String) (db db' : Db)
    → insert_cast r o db ≡ rows tt db'
    → (body : String) × (o ≡ some body)
      × (((any (has_key r.idem_key) db.idempotency ≡ true) × (db' ≡ db))
          ⊎ ((any (has_key r.idem_key) db.idempotency ≡ false)
              × (db' ≡ record db {
                idempotency = db.idempotency ++ record r { response_body = body } ∷ [];
              })))
unfolding insert_cast
inserted r none db db' h = cc
inserted r (some body) db db' h = (body, refl, ground arith)

-- What its key and another key have after a save of `body`: the key has the response that it had before,
-- or else the saved one with the body as jsonb prints it.
abbrev pub Kept :
    (String → Option String)
    → String
    → String
    → ℕ
    → String
    → List IdempotencyRow
    → List IdempotencyRow
    → Type 0
Kept jsonb key other status body before after =
    (printed : String) × (jsonb body ≡ some printed)
    × (response_of (find (has_key key) after)
        ≡ some (
            kept (response_of (find (has_key key) before))
              (record { status = status; body = printed })))
    × (response_of (find (has_key other) after) ≡ response_of (find (has_key other) before))

saved :
    (env : Env) (jsonb : String → Option String) (key request_hash : String) (status : ℕ)
    (body : String) (w : World) (other : String)
    → str_eq key other ≡ false
    → (save_response env jsonb key request_hash status body w).0 ≡ ok tt
    → Kept jsonb key other status body w.db.idempotency
        (save_response env jsonb key request_hash status body w).1.db.idempotency
unfolding save_response insert_response
saved env jsonb key request_hash status body w other ne h =
    let r : IdempotencyRow = record {
      id = env.fresh_uuid w.calls;
      idem_key = key;
      request_hash = request_hash;
      response_status = status;
      response_body = body;
    } in
    let (db, carried, next) = query_ok env _ (insert_response jsonb r) w h in
    let after = ap (λ (v : World). v.db.idempotency) next in
    let (printed, takes, cases) = inserted r (jsonb body) w.db db carried in
    let row = record r { response_body = printed } in
    let stored = (save_response env jsonb key request_hash status body w).1.db.idempotency in
    let both : (response_of (find (has_key key) stored)
          ≡ some (
              kept (response_of (find (has_key key) w.db.idempotency))
                (record { status = status; body = printed })))
        × (response_of (find (has_key other) stored)
            ≡ response_of (find (has_key other) w.db.idempotency)) =
      elim cases [
        | inl (had, same) ↦
            let (q, is_q) = find-any key w.db.idempotency had in
            rw (after, same) (rw is_q refl, refl)
        | inr (free, same) ↦
            rw (after, same)
              (
                rw
                    (
                      find_snoc key row w.db.idempotency (eq_refl key) free,
                      find-none key w.db.idempotency free,
                    )
                    refl,
                ap response_of (find_other key other row w.db.idempotency ne),
              )
      ] in
    (printed, takes, both.0, both.1)

-- Why a save may return an error: the server did not carry the statement out with an answer, its jsonb
-- does not take the text, or another row has the identifier.
abbrev pub Unsaved : Env → (String → Option String) → String → World → Type 0
Unsaved env jsonb body w =
    (env.outcome w.calls ≢ done)
    ⊎ (jsonb body ≡ none)
    ⊎ (any (λ (q : IdempotencyRow). q.id == env.fresh_uuid w.calls) w.db.idempotency ≡ true)

insert_cast_cases :
    (r : IdempotencyRow) (o : Option String) (db : Db)
    → (o ≡ none)
      ⊎ (any (λ (q : IdempotencyRow). q.id == r.id) db.idempotency ≡ true)
      ⊎ ((db' : Db) × (insert_cast r o db ≡ rows tt db'))
unfolding insert_cast
insert_cast_cases r none db = inl refl
insert_cast_cases r (some body) db = elim (Bool-cases (any (has_key r.idem_key) db.idempotency)) [
  | inl had ↦ inr (inr (db, rw had refl))
  | inr free ↦ elim (Bool-cases (any (λ (q : IdempotencyRow). q.id == r.id) db.idempotency)) [
    | inl clash ↦ inr (inl clash)
    | inr new ↦ inr (
        inr (
          record db { idempotency = db.idempotency ++ record r { response_body = body } ∷ [] },
          rw (free, new) refl,
        ))
  ]
]

saves :
    (env : Env) (jsonb : String → Option String) (key request_hash : String) (status : ℕ)
    (body : String) (w : World) (o : Outcome)
    → env.outcome w.calls ≡ o
    → Unsaved env jsonb body w
      ⊎ ((save_response env jsonb key request_hash status body w).0 ≡ ok tt)
unfolding save_response insert_response
saves env jsonb key request_hash status body w failed h = inl (inl (λ e. failed_done (sym h ∙ e)))
  where
    failed_done : ◌≢◌ {A = Outcome} failed done
    failed_done e = cc
saves env jsonb key request_hash status body w lost h = inl (inl (λ e. lost_done (sym h ∙ e)))
  where
    lost_done : ◌≢◌ {A = Outcome} lost done
    lost_done e = cc
saves env jsonb key request_hash status body w done h =
    let r : IdempotencyRow = record {
      id = env.fresh_uuid w.calls;
      idem_key = key;
      request_hash = request_hash;
      response_status = status;
      response_body = body;
    } in
    elim (insert_cast_cases r (jsonb body) w.db) [
      | inl bad ↦ inl (inr (inl bad))
      | inr (inl clash) ↦ inl (inr (inr clash))
      | inr (inr (db, stored)) ↦
          inr (ap (λ p. p.0) (query_done env _ (insert_response jsonb r) w h stored))
    ]

-- The first writer wins. A save returns no error, and then the server's jsonb takes the text of the body,
-- its key has the response that it had before, or else the saved one with the body as jsonb prints it,
-- and another key has the response that it had. Or it returns an error, and then the server did not
-- carry the statement out with an answer, its jsonb does not take the text, or another row has the
-- random identifier.
pub save_response-keeps :
    (env : Env) (jsonb : String → Option String) (key request_hash : String) (status : ℕ)
    (body : String) (w : World) (other : String)
    → str_eq key other ≡ false
    → let p = save_response env jsonb key request_hash status body w in
      ((p.0 ≡ ok tt) × Kept jsonb key other status body w.db.idempotency p.1.db.idempotency)
      ⊎ ((p.0 ≢ ok tt) × Unsaved env jsonb body w)
save_response-keeps env jsonb key request_hash status body w other ne =
    by_result (save_response env jsonb key request_hash status body w).0 refl
  where
    by_result :
        (r : Result (Unit {0}))
        → (save_response env jsonb key request_hash status body w).0 ≡ r
        → let p = save_response env jsonb key request_hash status body w in
          ((p.0 ≡ ok tt) × Kept jsonb key other status body w.db.idempotency p.1.db.idempotency)
          ⊎ ((p.0 ≢ ok tt) × Unsaved env jsonb body w)
    by_result (ok u) h = inl (h, saved env jsonb key request_hash status body w other ne h)
    by_result (err x) h =
        let failed_save : (save_response env jsonb key request_hash status body w).0 ≢ ok tt =
          λ e. absurd (err_ok (sym h ∙ e)) in
        elim (saves env jsonb key request_hash status body w (env.outcome w.calls) refl) [
          | inl why ↦ inr (failed_save, why)
          | inr good ↦ absurd (failed_save good)
        ]
      where
        err_ok : ◌≢◌ {A = Result (Unit {0})} (err x) (ok tt)
        err_ok e = cc
