-- ===== src/Catalog/Repository/Writes.antt =====
-- What the writes of internal/modules/catalog/adapters/postgres leave in the tables when they return no error.
use forge_platform.Base.{ℕ, ◌+◌, ◌≡◌, sym, ap, ◌∙◌, true, false, List, [], ◌∷◌, ◌++◌, arith, any}
use mathlib.Core.List.{append-nil, append_assoc}
use forge_platform.Platform.{Env}
use forge_platform.Apperr.{Result, ok}
use forge_platform.Db.{OutboxRow, ServiceRow, OwnershipRow, World, Db, rows}
use forge_platform.Db.Steps.{bind_ok, query_ok, step_ok}
use forge_platform.Catalog.Service.{Service, Event}
use forge_platform.Catalog.Repository.{
  insert, append, row_of, interval_of, insert_service_row, insert_history_row, insert_outbox_row,
  outbox_row, append_one, row_clashes, row_checks,
}

insert_service_row_ok :
    (r : ServiceRow) (db : Db) {u : Unit {0}} {db' : Db}
    → insert_service_row r db ≡ rows u db'
    → (any (row_clashes r) db.services ≡ false)
      × (row_checks r ≡ true)
      × (db' ≡ record db { services = db.services ++ r ∷ [] })
unfolding insert_service_row
insert_service_row_ok r db h = (ground arith, ground arith, ground arith)

pub insert_history_row_ok :
    (r : OwnershipRow) (db : Db) {u : Unit {0}} {db' : Db}
    → insert_history_row r db ≡ rows u db'
    → db' ≡ record db { history = db.history ++ r ∷ [] }
unfolding insert_history_row
insert_history_row_ok r db h = ground arith

pub insert_ok :
    (env : Env) (s : Service) (w : World) {u : Unit {0}}
    → (insert env s w).0 ≡ ok u
    → (any (row_clashes (row_of s)) w.db.services ≡ false)
      × ((insert env s w).1 ≡ record w {
        db = record w.db {
          services = w.db.services ++ row_of s ∷ [];
          history = w.db.history ++ interval_of (env.fresh_uuid (w.calls + 1)) s.created_at s ∷ [];
        };
        calls = w.calls + 1 + 1;
      })
unfolding insert
insert_ok env s w h =
    let (u, db1, st1, e1) = step_ok env _ (insert_service_row (row_of s)) _ w h in
    let (free, checked, is1) = insert_service_row_ok (row_of s) w.db st1 in
    let h' = rw e1 at h in
    let (db2, st2, e2) =
      query_ok env _
        (insert_history_row (interval_of (env.fresh_uuid (w.calls + 1)) s.created_at s))
        (record w { db = db1; calls = w.calls + 1 }) h' in
    let opens = interval_of (env.fresh_uuid (w.calls + 1)) s.created_at s in
    (
      free,
      ap (λ p. p.1) e1
          ∙ e2
          ∙ ap {A = Db} {B = World} (λ d. record w { db = d; calls = w.calls + 1 + 1 })
              (insert_history_row_ok opens db1 st2
                ∙ ap {A = Db} {B = Db} (λ d. record d { history = d.history ++ opens ∷ [] }) is1),
    )

insert_outbox_row_ok :
    (r : OutboxRow) (db : Db) {u : Unit {0}} {db' : Db}
    → insert_outbox_row r db ≡ rows u db'
    → db' ≡ record db { outbox = db.outbox ++ r ∷ [] }
unfolding insert_outbox_row
insert_outbox_row_ok r db h = ground arith

-- The rows that Append writes for a list of events.
abbrev pub outbox_rows : Env → ℕ → ℕ → List Event → List OutboxRow
outbox_rows env n started [] = []
outbox_rows env n started (e ∷ es) =
    outbox_row (env.fresh_uuid n) started e ∷ outbox_rows env (n + 1) started es

pub append_ok :
    (env : Env) (es : List Event) (w : World) {u : Unit {0}}
    → (append env es w).0 ≡ ok u
    → (append env es w).1.db
      ≡ record w.db { outbox = w.db.outbox ++ outbox_rows env w.calls w.started es }
unfolding append
append_ok env [] w h =
    ap {A = List OutboxRow} {B = Db} (λ l. record w.db { outbox = l }) (sym (append-nil _))
append_ok env (e ∷ es) w h =
    let row = outbox_row (env.fresh_uuid w.calls) w.started e in
    let (u, first, rest) = bind_ok (append_one env e) (λ _. append env es) w h in
    let (db, st, next) = query_ok env _ (insert_outbox_row row) w first in
    let whole : append env (e ∷ es) w ≡ append env es (record w { db = db; calls = w.calls + 1 }) =
      rest ∙ ap (append env es) next in
    let ih = append_ok env es (record w { db = db; calls = w.calls + 1 }) (rw whole at h) in
    ap (λ (p : Result (Unit {0}) × World). p.1.db) whole
    ∙ ih
    ∙ ap {A = Db} {B = Db}
        (λ d. record d { outbox = d.outbox ++ outbox_rows env (w.calls + 1) w.started es })
        (insert_outbox_row_ok row w.db st)
    ∙ ap {A = List OutboxRow} {B = Db} (λ l. record w.db { outbox = l })
        (append_assoc w.db.outbox (row ∷ []) (outbox_rows env (w.calls + 1) w.started es))
