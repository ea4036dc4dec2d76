-- ===== src/Catalog/Repository/RoundTrip.antt =====
-- Rows and aggregates (internal/modules/catalog/adapters/postgres/repository.go): what was written reads back.
use forge_platform.Base.{ℕ, ◌≡◌, refl, sym, ap, ◌∙◌, Option, none, some, [], find, ◌==◌, arith}
use forge_platform.Platform.{column_time, Env, IsUuidText}
use forge_platform.Apperr.{ok}
use forge_platform.Db.{rows, ServiceRow, World, Db}
use forge_platform.Db.Steps.{bind_ok, query_ok}
use forge_platform.Catalog.Values.Parsing.{parse_lifecycle_text}
use forge_platform.Catalog.Service.{
  Service, service_id_from_string, tenant_id_from_string, pull_events, reconstitute,
}
use forge_platform.Catalog.Service.Invariant.{IsSound}
use forge_platform.Catalog.Repository.{row_of, scan_service, find_by_id, select_service, scan_row}

-- A service with its instants as the columns hold them.
abbrev pub at_rest : Service → Service
at_rest s = record s {
  created_at = column_time s.created_at;
  updated_at = column_time s.updated_at;
}

-- Where package uuid parses what it prints, the row of a sound service reads back as that service, with
-- its instants rounded down to whole microseconds and no events pending.
pub scan-row_of :
    (env : Env) (s : Service)
    → IsUuidText env
    → IsSound s
    → scan_service env (row_of s) ≡ ok (at_rest (pull_events s).1)
unfolding scan_service service_id_from_string tenant_id_from_string pull_events reconstitute
scan-row_of env s u h = rw (
  u.parse_print s.id,
  u.parse_print s.tenant_id,
  h.name_valid,
  h.tier_valid,
  parse_lifecycle_text s.lifecycle,
  h.owner_valid,
)

-- A row that reads as a service gives it its id, its version and no pending event.
pub scan_service_ok :
    (env : Env) (r : ServiceRow) {s : Service}
    → IsUuidText env
    → scan_service env r ≡ ok s
    → (s.id ≡ r.id) × (s.version ≡ r.version) × (s.events ≡ [])
unfolding scan_service service_id_from_string tenant_id_from_string reconstitute
scan_service_ok env r u h = (ground (arith, u.parse_print r.id), ground arith, ground arith)

scan_row_ok :
    (env : Env) (o : Option ServiceRow) {s : Service}
    → scan_row env o ≡ ok s
    → (r : ServiceRow) × (o ≡ some r) × (scan_service env r ≡ ok s)
unfolding scan_row
scan_row_ok env none h = cc
scan_row_ok env (some r) h = (r, refl, h)

answer-injective : {a b : Option ServiceRow} {d e : Db} → rows a d ≡ rows b e → a ≡ b
answer-injective h = cc

-- The service that is found by an id is read from the row with that id.
pub find_by_id_ok :
    (env : Env) (id : ℕ) (w : World) {s : Service}
    → (find_by_id env id w).0 ≡ ok s
    → (r : ServiceRow) × (find (λ (q : ServiceRow). q.id == id) w.db.services ≡ some r)
      × (scan_service env r ≡ ok s)
unfolding find_by_id
find_by_id_ok env id w h =
    let (found, first, rest) = bind_ok _ (λ o v. (scan_row env o, v)) w h in
    let (db, carried, _) = query_ok env _ (select_service (λ q. q.id == id)) w first in
    let (r, is_r, read) = scan_row_ok env found (sym (ap (λ p. p.0) rest) ∙ h) in
    (r, answer-injective carried ∙ is_r, read)
