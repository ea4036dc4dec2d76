-- ===== src/Catalog/Repository.antt =====
-- The Postgres repository and outbox of internal/modules/catalog/adapters/postgres: repository.go and outbox.go. Each
-- statement is what its SQL text does to the tables of migrations/0001_catalog.up.sql.
pub mod Writes
pub mod Reads
pub mod Updates
pub mod History
pub mod RoundTrip
pub mod Keys
use forge_platform.Base.{
  ℕ, zero, suc, String, Bool, true, false, not, ◌&&◌, ◌||◌, if◌then◌else◌, Option, none, some, List,
  [], ◌∷◌, ◌++◌, str_eq, ◌==◌, leb, map, any, find, select, length,
}
use forge_platform.Platform.{column_time, Env}
use forge_platform.Apperr.{
  GoError, app, caused, plain, wrapped, Result, ok, err, ◌>>=◌ as ◌then_ok◌, internal_error,
  with_cause,
}
use forge_platform.Db.{
  ServiceRow, OwnershipRow, Json, text, number, OutboxRow, Db, DbError, unique_violation,
  other_error, rows, duplicate, refused, Statement, to_go, Act, ◌>>=◌, ◌>>◌, pure, lift, query,
  with_uuid,
}
use forge_platform.Catalog.Values.{
  ServiceName, new_service_name, new_tier, lifecycle_text, parse_lifecycle, new_ownership,
  err_service_not_found, err_name_conflict, err_version_conflict,
}
use forge_platform.Catalog.Service.{
  Service, Event, service_registered, service_ownership_changed, service_lifecycle_changed,
  service_retired, event_type, event_base, service_id_from_string, tenant_id_from_string,
  reconstitute,
}

-- The parameters of the INSERT: a row for the aggregate.
abbrev pub row_of : Service → ServiceRow
row_of s = record {
  id = s.id;
  tenant_id = s.tenant_id;
  name = s.name.v;
  description = s.description;
  tier = s.tier.v;
  lifecycle = lifecycle_text s.lifecycle;
  repository_url = s.repository;
  owning_team = s.ownership.owning_team;
  on_call_ref = s.ownership.on_call_ref;
  version = s.version;
  created_at = column_time s.created_at;
  updated_at = column_time s.updated_at;
}

-- The CHECK constraints of catalog_services.
unfoldable pub row_checks : ServiceRow → Bool
row_checks r =
    leb 1 r.tier
    && leb r.tier 4
    && (str_eq r.lifecycle "experimental"
        || str_eq r.lifecycle "production"
        || str_eq r.lifecycle "deprecated"
        || str_eq r.lifecycle "retired")

-- The primary key, and catalog_services_tenant_name_unique.
unfoldable pub row_clashes : ServiceRow → ServiceRow → Bool
row_clashes r q = r.id == q.id || (r.tenant_id == q.tenant_id && str_eq r.name q.name)

-- INSERT INTO catalog_services
unfoldable pub insert_service_row : ServiceRow → Statement (Unit {0})
unfolding row_checks row_clashes
insert_service_row r db =
    if not (row_checks r)
    then refused
    else if any (row_clashes r) db.services
    then duplicate
    else rows tt (record db { services = db.services ++ r ∷ [] })

unfoldable pub has_service : ℕ → Db → Bool
has_service id db = any (λ (r : ServiceRow). r.id == id) db.services

-- INSERT INTO catalog_ownership_history, with its primary key and its foreign key.
unfoldable pub insert_history_row : OwnershipRow → Statement (Unit {0})
unfolding has_service
insert_history_row r db =
    if any (λ (q : OwnershipRow). q.id == r.id) db.history
    then duplicate
    else if not (has_service r.service_id db)
    then refused
    else rows tt (record db { history = db.history ++ r ∷ [] })

-- The interval that a service's present owner opens.
abbrev pub interval_of : ℕ → ℕ → Service → OwnershipRow
interval_of id from s = record {
  id = id;
  service_id = s.id;
  owning_team = s.ownership.owning_team;
  on_call_ref = s.ownership.on_call_ref;
  valid_from = column_time from;
  valid_to = none;
}

insert_error : DbError → GoError
insert_error (unique_violation t) = err_name_conflict
insert_error (other_error t) = wrapped "insert service" (plain t)

-- Repository.Insert
unfoldable pub insert : Env → Service → Act (Unit {0})
unfolding insert_error
insert env s = do
  query env insert_error (insert_service_row (row_of s))
  with_uuid env λ id.
      query env (λ e. wrapped "insert ownership history" (to_go e))
        (insert_history_row (interval_of id s.created_at s))

-- corrupt
corrupt : {A : Type 0} → Result A → Result A
corrupt (ok a) = ok a
corrupt (err e) =
    err (with_cause (internal_error "DATA_CORRUPTION" "stored service data is invalid") e)

-- scanService, for a row that was read.
unfoldable pub scan_service : Env → ServiceRow → Result Service
unfolding corrupt
scan_service env r = corrupt (service_id_from_string env (env.uuid_print r.id)) then_ok λ id.
    corrupt (tenant_id_from_string env (env.uuid_print r.tenant_id)) then_ok λ tenant.
    corrupt (new_service_name r.name) then_ok λ name. corrupt (new_tier r.tier) then_ok λ tier.
    corrupt (parse_lifecycle r.lifecycle) then_ok λ lifecycle.
    corrupt (new_ownership r.owning_team r.on_call_ref) then_ok λ ownership. ok (
      reconstitute id tenant name r.description tier lifecycle r.repository_url ownership r.version
        r.created_at r.updated_at)

scan_row : Env → Option ServiceRow → Result Service
unfolding scan_service
scan_row env none = err err_service_not_found
scan_row env (some r) = scan_service env r

select_service : (ServiceRow → Bool) → Statement (Option ServiceRow)
select_service p db = rows (find p db.services) db

-- Repository.FindByID
unfoldable pub find_by_id : Env → ℕ → Act Service
unfolding scan_row select_service
find_by_id env id = do
  found ← query env (λ e. wrapped "scan service" (to_go e)) (select_service (λ r. r.id == id))
  lift (scan_row env found)

-- Repository.FindByTenantAndName
unfoldable pub find_by_tenant_and_name : Env → ℕ → ServiceName → Act Service
unfolding scan_row select_service
find_by_tenant_and_name env tenant name = do
  found ←
      query env (λ e. wrapped "scan service" (to_go e))
        (select_service (λ r. r.tenant_id == tenant && str_eq r.name name.v))
  lift (scan_row env found)

-- The SET list of the UPDATE: the id, the tenant, the name and the creation time stay.
abbrev pub assign : Service → ServiceRow → ServiceRow
assign s r = record r {
  description = s.description;
  tier = s.tier.v;
  lifecycle = lifecycle_text s.lifecycle;
  repository_url = s.repository;
  owning_team = s.ownership.owning_team;
  on_call_ref = s.ownership.on_call_ref;
  version = s.version;
  updated_at = column_time s.updated_at;
}

-- WHERE id = $9 AND version = $10
unfoldable pub is_target : ℕ → ℕ → ServiceRow → Bool
is_target id expected r = r.id == id && r.version == expected

unfoldable pub update_rows : Service → ℕ → List ServiceRow → List ServiceRow
unfolding is_target
update_rows s expected = map (λ r. if is_target s.id expected r then assign s r else r)

-- UPDATE catalog_services; the answer is the number of rows that it changed.
unfoldable pub update_service_row : Service → ℕ → Statement ℕ
unfolding update_rows is_target row_checks
update_service_row s expected db =
    let n = length (select (is_target s.id expected) db.services) in
    if not (n == 0) && not (row_checks (row_of s))
    then refused
    else rows n (record db { services = update_rows s expected db.services })

-- WHERE service_id = $1 AND valid_to IS NULL
unfoldable pub is_open : ℕ → OwnershipRow → Bool
is_open id r = r.service_id == id && elim r.valid_to [ none ↦ true | some t ↦ false ]

abbrev pub same_owner : Service → OwnershipRow → Bool
same_owner s r =
    str_eq r.owning_team s.ownership.owning_team && str_eq r.on_call_ref s.ownership.on_call_ref

unfoldable pub close_row : Service → OwnershipRow → OwnershipRow
unfolding is_open
close_row s r =
    if is_open s.id r && not (same_owner s r)
    then record r { valid_to = some (column_time s.updated_at) }
    else r

-- UPDATE catalog_ownership_history: close the open intervals of another owner.
unfoldable pub close_intervals : Service → Statement (Unit {0})
unfolding close_row
close_intervals s db = rows tt (record db { history = map (close_row s) db.history })

-- INSERT … WHERE NOT EXISTS: open an interval, unless the owner has one.
unfoldable pub open_interval : Service → ℕ → Statement (Unit {0})
unfolding insert_history_row is_open
open_interval s id db =
    if any (λ r. is_open s.id r && same_owner s r) db.history
    then rows tt db
    else insert_history_row (interval_of id s.updated_at s) db

-- recordOwnership
unfoldable pub record_ownership : Env → Service → Act (Unit {0})
record_ownership env s = do
  query env (λ e. wrapped "close ownership interval" (to_go e)) (close_intervals s)
  with_uuid env
      λ id. query env (λ e. wrapped "open ownership interval" (to_go e)) (open_interval s id)

-- errors.Is on domain.ErrServiceNotFound, which is the only error with its code.
unfoldable pub is_service_not_found : GoError → Bool
is_service_not_found (app k c m d) = str_eq c "SERVICE_NOT_FOUND"
is_service_not_found (caused k c m d e) = is_service_not_found e
is_service_not_found (plain m) = false
is_service_not_found (wrapped m e) = is_service_not_found e

-- What Update returns where no row was changed: `r` is what FindByID returned.
missed : Result Service → Result (Unit {0})
unfolding is_service_not_found
missed (ok s) = err err_version_conflict
missed (err e) =
    err (if is_service_not_found e then err_service_not_found else err_version_conflict)

-- The branch on RowsAffected.
after_update : Env → Service → ℕ → Act (Unit {0})
unfolding missed
after_update env s zero w = let (r, w') = find_by_id env s.id w in (missed r, w')
after_update env s (suc n) w = record_ownership env s w

-- Repository.Update
unfoldable pub update : Env → Service → ℕ → Act (Unit {0})
unfolding after_update
update env s expected = do
  n ← query env (λ e. wrapped "update service" (to_go e)) (update_service_row s expected)
  after_update env s n

-- The JSON object of an event: its own exported fields (the embedded base has none).
unfoldable pub event_data : Event → List (String × Json)
event_data (service_registered b tenant name tier) =
    ("tenantId", text tenant) ∷ ("name", text name) ∷ ("tier", number tier) ∷ []
event_data (service_ownership_changed b previous next) =
    ("previousTeam", text previous) ∷ ("newTeam", text next) ∷ []
event_data (service_lifecycle_changed b from to) = ("from", text from) ∷ ("to", text to) ∷ []
event_data (service_retired b) = []

-- The row of an event; created_at is the column's default, the start of the transaction.
unfoldable pub outbox_row : ℕ → ℕ → Event → OutboxRow
unfolding event_type event_data
outbox_row id started e = record {
  id = id;
  aggregate_id = (event_base e).id;
  event_type = event_type e;
  payload = record {
    event_type = event_type e;
    aggregate_id = (event_base e).id;
    fields = event_data e;
  };
  occurred_at = column_time (event_base e).at;
  published_at = none;
  created_at = column_time started;
}

-- INSERT INTO outbox_events, with its primary key.
unfoldable pub insert_outbox_row : OutboxRow → Statement (Unit {0})
insert_outbox_row r db =
    if any (λ (q : OutboxRow). q.id == r.id) db.outbox
    then duplicate
    else rows tt (record db { outbox = db.outbox ++ r ∷ [] })

append_one : Env → Event → Act (Unit {0})
append_one env e w =
    query env (λ x. wrapped "append outbox event" (to_go x))
      (insert_outbox_row (outbox_row (env.fresh_uuid w.calls) w.started e)) w

-- Outbox.Append
unfoldable pub append : Env → List Event → Act (Unit {0})
unfolding append_one
append env [] = pure tt
append env (e ∷ es) = let rest = append env es in do append_one env e; rest
