-- ===== src/Db.antt =====
-- The database that the adapters share: the tables of migrations/*.up.sql as lists of rows, one
-- statement at a time sent through DBTX (internal/platform/postgres/postgres.go), and actions with errors.
pub mod Tx
pub mod Steps
use forge_platform.Base.{ℕ, String, Option, List, ◌+◌}
use forge_platform.Platform.{Env, Outcome, done, failed, lost}
use forge_platform.Apperr.{GoError, plain, Result, ok, err}

-- catalog_services
pub record ServiceRow : Type 0 where
  pub id : ℕ
  pub tenant_id : ℕ
  pub name : String
  pub description : String
  pub tier : ℕ
  pub lifecycle : String
  pub repository_url : String
  pub owning_team : String
  pub on_call_ref : String
  pub version : ℕ
  pub created_at : ℕ
  pub updated_at : ℕ

-- catalog_ownership_history
pub record OwnershipRow : Type 0 where
  pub id : ℕ
  pub service_id : ℕ
  pub owning_team : String
  pub on_call_ref : String
  pub valid_from : ℕ
  pub valid_to : Option ℕ

-- tenants
pub record TenantRow : Type 0 where
  pub id : ℕ
  pub name : String
  pub slug : String
  pub plan : String
  pub status : String
  pub max_services : ℕ
  pub version : ℕ
  pub created_at : ℕ
  pub updated_at : ℕ

-- The values of an event's JSON object.
pub data Json : Type 0 where
  text : String → Json
  number : ℕ → Json

-- The `envelope` of the adapters' outbox.go.
pub record Envelope : Type 0 where
  pub event_type : String
  pub aggregate_id : String
  pub fields : List (String × Json)

-- outbox_events; the payload is the envelope before it is printed as JSON, and the aggregate's id
-- the text that is sent for it.
pub record OutboxRow : Type 0 where
  pub id : ℕ
  pub aggregate_id : String
  pub event_type : String
  pub payload : Envelope
  pub occurred_at : ℕ
  pub published_at : Option ℕ
  pub created_at : ℕ

-- idempotency_keys
pub record IdempotencyRow : Type 0 where
  pub id : ℕ
  pub idem_key : String
  pub request_hash : String
  pub response_status : ℕ
  pub response_body : String

pub record Db : Type 0 where
  pub services : List ServiceRow
  pub history : List OwnershipRow
  pub tenants : List TenantRow
  pub outbox : List OutboxRow
  pub idempotency : List IdempotencyRow

-- The database, the number of calls made so far, and the start of the running transaction.
pub record World : Type 0 where
  pub db : Db
  pub calls : ℕ
  pub started : ℕ

-- SQLSTATE 23505, and every other error of the driver.
pub data DbError : Type 0 where
  unique_violation : String → DbError
  other_error : String → DbError

-- What the server makes of a statement: its answer and the tables after it, or a constraint.
pub data Answer (A : Type 0) : Type 0 where
  rows : A → Db → Answer A
  duplicate : Answer A
  refused : Answer A

pub data Reply (A : Type 0) : Type 0 where
  answer : A → Reply A
  failure : DbError → Reply A

abbrev pub Statement : Type 0 → Type 0
Statement A = Db → Answer A

settle : {A : Type 0} → Outcome → String → Answer A → World → Reply A × World
settle failed t r w = (failure (other_error t), record w { calls = w.calls + 1 })
settle done t (rows a db) w = (answer a, record w { db = db; calls = w.calls + 1 })
settle lost t (rows a db) w = (failure (other_error t), record w { db = db; calls = w.calls + 1 })
settle _ t duplicate w = (failure (unique_violation t), record w { calls = w.calls + 1 })
settle _ t refused w = (failure (other_error t), record w { calls = w.calls + 1 })

-- Exec, Query and QueryRow: one round trip.
unfoldable pub exec : {A : Type 0} → Env → Statement A → World → Reply A × World
unfolding settle
exec env stmt w = settle (env.outcome w.calls) (env.failure_text w.calls) (stmt w.db) w

-- The driver's error as a Go error.
abbrev pub to_go : DbError → GoError
to_go (unique_violation t) = plain t
to_go (other_error t) = plain t

-- A step that may fail: the Go functions that take a context and return an error.
abbrev pub Act : Type 0 → Type 0
Act A = World → Result A × World

continue : {A B : Type 0} → Result A → (A → Act B) → Act B
continue (ok a) f w = f a w
continue (err e) f w = (err e, w)

infixl 5 ◌>>=◌ ◌>>◌
unfoldable pub ◌>>=◌ : {A B : Type 0} → Act A → (A → Act B) → Act B
unfolding continue
◌>>=◌ m f w = let (r, w') = m w in continue r f w'

abbrev pub ◌>>◌ : {B : Type 0} → Act (Unit {0}) → Act B → Act B
m >> k = m >>= λ _. k

abbrev pub pure : {A : Type 0} → A → Act A
pure a w = (ok a, w)

abbrev pub raise : {A : Type 0} → GoError → Act A
raise e w = (err e, w)

abbrev pub lift : {A : Type 0} → Result A → Act A
lift r w = (r, w)

translate : {A : Type 0} → (DbError → GoError) → Reply A → Result A
translate f (answer a) = ok a
translate f (failure e) = err (f e)

-- One statement, with the Go error that is returned where it fails.
unfoldable pub query : {A : Type 0} → Env → (DbError → GoError) → Statement A → Act A
unfolding translate
query env f stmt w = let (r, w') = exec env stmt w in (translate f r, w')

-- The next random identifier; the call that it is drawn for advances the counter.
abbrev pub with_uuid : {A : Type 0} → Env → (ℕ → Act A) → Act A
with_uuid env f w = f (env.fresh_uuid w.calls) w
