-- ===== src/Catalog/Commands.antt =====
-- The use cases of internal/modules/catalog/app/commands.go: each is one unit of work.
pub mod Registering
pub mod Mutating
pub mod Versions
use forge_platform.Base.{ℕ, String, Bool, false, if◌then◌else◌, Option, none, some, str_eq}
use forge_platform.Base.Words.{slt64}
use forge_platform.Platform.{Env}
use forge_platform.Apperr.{
  GoError, app, caused, plain, wrapped, Result, ok, err, ◌>>=◌ as ◌then_ok◌,
}
use forge_platform.Db.{Act, ◌>>=◌, ◌>>◌, pure, raise, lift}
use forge_platform.Db.Tx.{execute}
use forge_platform.Catalog.Values.{
  ServiceName, new_service_name, new_tier, parse_lifecycle, new_ownership, err_name_conflict,
}
use forge_platform.Catalog.Service.{
  Service, register, Change, ownership, lifecycle, retirement, change, pull_events,
  service_id_from_string, tenant_id_from_string,
}
use forge_platform.Catalog.Repository.{insert, update, find_by_id, find_by_tenant_and_name, append}

pub record RegisterServiceInput : Type 0 where
  pub tenant_id : String
  pub name : String
  pub description : String
  pub tier : ℕ
  pub repository : String
  pub owning_team : String
  pub on_call_ref : String

-- isNotFound: the error is domain.ErrServiceNotFound itself, which is told by its code.
unfoldable pub is_not_found : GoError → Bool
is_not_found (app k c m d) = str_eq c "SERVICE_NOT_FOUND"
is_not_found (caused k c m d e) = false
is_not_found (plain m) = false
is_not_found (wrapped m e) = false

-- The test of the name: `r` is what FindByTenantAndName returned.
name_free : Result Service → Result (Unit {0})
unfolding is_not_found
name_free (ok s) = err err_name_conflict
name_free (err e) = if is_not_found e then ok tt else err e

-- outbox.Append(ctx, svc.PullEvents()...)
pub append_pulled : Env → Service → Act Service
append_pulled env s = let (es, s') = pull_events s in do append env es; pure s'

check_name : Env → ℕ → ServiceName → Act (Unit {0})
unfolding name_free
check_name env tenant name w =
    let (r, w') = find_by_tenant_and_name env tenant name w in (name_free r, w')

-- The function that RegisterService hands to Execute.
unfoldable pub register_body : Env → ℕ → ServiceName → Service → Act Service
unfolding check_name append_pulled
register_body env tenant name s = do check_name env tenant name; insert env s; append_pulled env s

-- What RegisterService makes of its input before the transaction: the service, with the id and
-- the time that are drawn for it.
unfoldable pub parse_registration : Env → ℕ → RegisterServiceInput → Result Service
parse_registration env n i = tenant_id_from_string env i.tenant_id then_ok λ tenant.
    new_service_name i.name then_ok λ name. new_tier i.tier then_ok λ tier.
    new_ownership i.owning_team i.on_call_ref then_ok λ owner.
    ok (
      register env (env.fresh_uuid n) tenant name i.description tier i.repository owner (env.now n))

-- RegisterService
unfoldable pub register_service : Env → RegisterServiceInput → Act Service
unfolding register_body parse_registration
register_service env i w =
    (do
      s ← lift (parse_registration env w.calls i)
      execute env (register_body env s.tenant_id s.name s))
      w

-- expectedVersionOr
unfoldable pub expected_version_or : ℕ → ℕ → ℕ
expected_version_or provided current = if slt64 0 provided then provided else current

-- The error of a method of the aggregate.
returned : Service × Option GoError → Act Service
returned (s, none) = pure s
returned (s, some e) = raise e

-- `apply`: a method of the aggregate, at the time that the clock shows.
apply_change : Env → (ℕ → Change) → Service → Act Service
unfolding returned
apply_change env c s w = returned (change env (c (env.now w.calls)) s) w

-- The function that mutate hands to Execute.
unfoldable pub mutate_body : Env → ℕ → ℕ → (ℕ → Change) → Act Service
unfolding apply_change append_pulled
mutate_body env id expected c = do
  s ← find_by_id env id
  s' ← apply_change env c s
  update env s' (expected_version_or expected s.version)
  append_pulled env s'

-- mutate
unfoldable pub mutate : Env → ℕ → ℕ → (ℕ → Change) → Act Service
unfolding mutate_body
mutate env id expected c = execute env (mutate_body env id expected c)

pub record ChangeOwnershipInput : Type 0 where
  pub service_id : String
  pub owning_team : String
  pub on_call_ref : String
  pub expected_version : ℕ

-- ChangeOwnership
unfoldable pub change_ownership_command : Env → ChangeOwnershipInput → Act Service
unfolding mutate
change_ownership_command env i = do
  id ← lift (service_id_from_string env i.service_id)
  owner ← lift (new_ownership i.owning_team i.on_call_ref)
  mutate env id i.expected_version (ownership owner)

pub record ChangeLifecycleInput : Type 0 where
  pub service_id : String
  pub lifecycle_name : String
  pub expected_version : ℕ

-- ChangeLifecycle
unfoldable pub change_lifecycle_command : Env → ChangeLifecycleInput → Act Service
unfolding mutate
change_lifecycle_command env i = do
  id ← lift (service_id_from_string env i.service_id)
  target ← lift (parse_lifecycle i.lifecycle_name)
  mutate env id i.expected_version (lifecycle target)

pub record RetireServiceInput : Type 0 where
  pub service_id : String
  pub expected_version : ℕ

-- RetireService
unfoldable pub retire_service_command : Env → RetireServiceInput → Act Service
unfolding mutate
retire_service_command env i = do
  id ← lift (service_id_from_string env i.service_id)
  mutate env id i.expected_version retirement
