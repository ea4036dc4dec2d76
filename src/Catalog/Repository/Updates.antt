-- ===== src/Catalog/Repository/Updates.antt =====
-- What Repository.Update (internal/modules/catalog/adapters/postgres/repository.go) leaves in the tables when it
-- returns no error.
use forge_platform.Base.{
  ℕ, zero, suc, ◌+◌, ◌<◌, ◌≡◌, sym, ap, ◌∙◌, List, [], ◌∷◌, ◌++◌, ◌&&◌, map, any, select, length,
  arith, if◌then◌else◌, Bool-cases, inl, inr,
}
use forge_platform.Platform.{Env}
use forge_platform.Apperr.{Result, ok, err, wrapped}
use forge_platform.Db.{OwnershipRow, World, Db, rows, to_go, query}
use forge_platform.Db.Steps.{query_ok, step_ok}
use forge_platform.Catalog.Service.{Service}
use forge_platform.Catalog.Repository.{
  interval_of, is_open, same_owner, close_row, close_intervals, open_interval, record_ownership,
  is_target, update_rows, update_service_row, after_update, missed, update, find_by_id,
}
use forge_platform.Catalog.Repository.Writes.{insert_history_row_ok}

-- The history after recordOwnership, where `id` was drawn for a new interval.
unfoldable pub recorded : Service → ℕ → List OwnershipRow → List OwnershipRow
recorded s id h =
    let closed = map (close_row s) h in
    if any (λ r. is_open s.id r && same_owner s r) closed
    then closed
    else closed ++ interval_of id s.updated_at s ∷ []

open_interval_ok :
    (s : Service) (id : ℕ) (db : Db) {u : Unit {0}} {db' : Db}
    → open_interval s id (record db { history = map (close_row s) db.history }) ≡ rows u db'
    → db' ≡ record db { history = recorded s id db.history }
unfolding open_interval recorded
open_interval_ok s id db h =
    elim (Bool-cases (any (λ r. is_open s.id r && same_owner s r) (map (close_row s) db.history))) [
      | inl old ↦ rw old (ground (arith, old))
      | inr new ↦ rw new (
          insert_history_row_ok (interval_of id s.updated_at s)
            (record db { history = map (close_row s) db.history }) (rw new at h))
    ]

rows-injective : {a b : Unit {0}} {d e : Db} → rows a d ≡ rows b e → d ≡ e
rows-injective h = cc

record_ownership_ok :
    (env : Env) (s : Service) (w : World) {u : Unit {0}}
    → (record_ownership env s w).0 ≡ ok u
    → (record_ownership env s w).1 ≡ record w {
      db = record w.db { history = recorded s (env.fresh_uuid (w.calls + 1)) w.db.history };
      calls = w.calls + 1 + 1;
    }
unfolding record_ownership close_intervals
record_ownership_ok env s w h =
    let closed = record w.db { history = map (close_row s) w.db.history } in
    let v = record w { db = closed; calls = w.calls + 1 } in
    let (_, db, carried, whole) = step_ok env _ (close_intervals s) _ w h in
    let to_v =
      whole
      ∙ ap {A = Db} {B = Result (Unit {0}) × World}
          (λ d.
            query env (λ e. wrapped "open ownership interval" (to_go e))
              (open_interval s (env.fresh_uuid (w.calls + 1)))
              (record w { db = d; calls = w.calls + 1 }))
          (sym (rows-injective carried)) in
    let (db2, carried2, last) =
      query_ok env _ (open_interval s (env.fresh_uuid (w.calls + 1))) v
        (sym (ap (λ p. p.0) to_v) ∙ h) in
    ap (λ (p : Result (Unit {0}) × World). p.1) to_v
    ∙ last
    ∙ ap {A = Db} {B = World} (λ d. record w { db = d; calls = w.calls + 1 + 1 })
        (open_interval_ok s (env.fresh_uuid (w.calls + 1)) w.db carried2)

update_service_row_ok :
    (s : Service) (expected : ℕ) (db : Db) {n : ℕ} {db' : Db}
    → update_service_row s expected db ≡ rows n db'
    → (n ≡ length (select (is_target s.id expected) db.services))
      × (db' ≡ record db { services = update_rows s expected db.services })
unfolding update_service_row
update_service_row_ok s expected db h = (ground arith, ground arith)

missed-ne-ok : (r : Result Service) {u : Unit {0}} → missed r ≡ ok u → ⊥
unfolding missed
missed-ne-ok (ok s) h = cc
missed-ne-ok (err e) h = cc

after_update_ok :
    (env : Env) (s : Service) (n : ℕ) (w : World) {u : Unit {0}}
    → (after_update env s n w).0 ≡ ok u
    → (0 < n)
      × ((after_update env s n w).1 ≡ record w {
        db = record w.db { history = recorded s (env.fresh_uuid (w.calls + 1)) w.db.history };
        calls = w.calls + 1 + 1;
      })
unfolding after_update
after_update_ok env s zero w h = absurd (missed-ne-ok (find_by_id env s.id w).0 h)
after_update_ok env s (suc n) w h = (omega arith, record_ownership_ok env s w h)

pub update_ok :
    (env : Env) (s : Service) (expected : ℕ) (w : World) {u : Unit {0}}
    → (update env s expected w).0 ≡ ok u
    → (0 < length (select (is_target s.id expected) w.db.services))
      × ((update env s expected w).1 ≡ record w {
        db = record w.db {
          services = update_rows s expected w.db.services;
          history = recorded s (env.fresh_uuid (w.calls + 1 + 1)) w.db.history;
        };
        calls = w.calls + 1 + 1 + 1;
      })
unfolding update
update_ok env s expected w h =
    let (n, db, carried, whole) = step_ok env _ (update_service_row s expected) _ w h in
    let (count, is_db) = update_service_row_ok s expected w.db carried in
    let v = record w { db = db; calls = w.calls + 1 } in
    let (some_row, left) = after_update_ok env s n v (sym (ap (λ p. p.0) whole) ∙ h) in
    (
      omega (arith, count, some_row),
      ap (λ (p : Result (Unit {0}) × World). p.1) whole
          ∙ left
          ∙ ap {A = Db} {B = World}
              (λ d. record w {
                db = record d { history = recorded s (env.fresh_uuid (w.calls + 1 + 1)) d.history };
                calls = w.calls + 1 + 1 + 1;
              })
              is_db,
    )
