-- ===== src/Db/Tx.antt =====
-- Transactions: Store.Execute of internal/modules/catalog/adapters/postgres/store.go (and the copy in the
-- tenant module), and what its outcome says of the database.
use forge_platform.Base.{◌+◌, ◌≡◌, ◌≢◌, ◌⊎◌, inl, inr, arith, String}
use forge_platform.Platform.{Env, Outcome, done, failed, lost}
use forge_platform.Apperr.{GoError, plain, wrapped, Result, ok, err, Result-cases}
use forge_platform.Db.{Db, World, Act}

finish_commit : {A : Type 0} → Outcome → String → Db → A → World → Result A × World
finish_commit done t before a w = (ok a, record w { calls = w.calls + 1 })
finish_commit lost t before a w =
    (err (wrapped "commit tx" (plain t)), record w { calls = w.calls + 1 })
finish_commit failed t before a w =
    (err (wrapped "commit tx" (plain t)), record w { db = before; calls = w.calls + 1 })

-- An error rolls back, and the rollback's own error is dropped; a server that loses the
-- connection rolls back as well.
finish : {A : Type 0} → Env → Db → Result A × World → Result A × World
finish env before (ok a, w) =
    finish_commit (env.outcome w.calls) (env.failure_text w.calls) before a w
finish env before (err e, w) = (err e, record w { db = before; calls = w.calls + 1 })

begin : {A : Type 0} → Env → Outcome → Act A → Act A
begin env done body w =
    finish env w.db (body (record w { calls = w.calls + 1; started = env.now w.calls }))
begin env _ body w =
    (err (wrapped "begin tx" (plain (env.failure_text w.calls))), record w { calls = w.calls + 1 })

-- Store.Execute
unfoldable pub execute : {A : Type 0} → Env → Act A → Act A
unfolding begin finish finish_commit
execute env body w = begin env (env.outcome w.calls) body w

-- The world in which the body of a unit of work starts.
abbrev pub opened : Env → World → World
opened env w = record w { calls = w.calls + 1; started = env.now w.calls }

-- Where Execute returns a value, its body returned that value, and the database is the one that the
-- body left.
pub execute_ok :
    {A : Type 0} (env : Env) (body : Act A) (w : World) {a : A}
    → (execute env body w).0 ≡ ok a
    → ((body (opened env w)).0 ≡ ok a) × ((execute env body w).1.db ≡ (body (opened env w)).1.db)
unfolding execute
execute_ok env body w h = ground arith

failed_or_not : (o : Outcome) → (o ≡ failed) ⊎ (o ≢ failed)
failed_or_not o = ground arith

lost_or_not : (o : Outcome) → (o ≡ lost) ⊎ (o ≢ lost)
lost_or_not o = ground arith

-- Where Execute returns an error, the database is as it was before, or the body returned a value and
-- the database is the one that the body left (the answer to the commit was lost).
pub execute_err :
    {A : Type 0} (env : Env) (body : Act A) (w : World) {e : GoError}
    → (execute env body w).0 ≡ err e
    → ((execute env body w).1.db ≡ w.db)
      ⊎ ((a : A) × ((body (opened env w)).0 ≡ ok a)
          × ((execute env body w).1.db ≡ (body (opened env w)).1.db))
unfolding execute
execute_err env body w h = elim (Result-cases (body (opened env w)).0) [
  | inr (x, p) ↦ inl (ground arith)
  | inl (a, p) ↦ elim (failed_or_not (env.outcome (body (opened env w)).1.calls)) [
    | inl rolled_back ↦ inl (ground arith)
    | inr kept ↦ elim (failed_or_not (env.outcome w.calls)) [
      | inl none_begun ↦ inl (ground arith)
      | inr begun ↦ elim (lost_or_not (env.outcome w.calls)) [
        | inl none_begun ↦ inl (ground arith)
        | inr open_now ↦ inr (a, p, ground arith)
      ]
    ]
  ]
]
