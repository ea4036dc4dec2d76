-- ===== src/Catalog/Handlers.antt =====
-- The HTTP handlers of services: internal/modules/catalog/api/handlers.go and dto.go.
pub mod Filters
pub mod Replay
pub mod Versions
use Prim.Native.String.{◌++◌ as ◌⧺◌}
use forge_platform.Base.{
  ℕ, String, Bool, true, not, ◌&&◌, if◌then◌else◌, Option, none, some, [], ◌∷◌, str_eq,
}
use forge_platform.Platform.{Env}
use forge_platform.Apperr.{Result, ok, err, validation_error}
use forge_platform.Db.{World, Act}
use forge_platform.Idempotency.{lookup_response, save_response}
use forge_platform.Idempotency
use forge_platform.Http.{
  Request, Decoded, value, stored, Response, json_type, json, error_answer, answer, decode,
  if_match, etag,
}
use forge_platform.Catalog.Values.{lifecycle_text}
use forge_platform.Catalog.Service.{Service}
use forge_platform.Catalog.Commands.{
  RegisterServiceInput, register_service, change_ownership_command, change_lifecycle_command,
  retire_service_command,
}
use forge_platform.Catalog.Listing.{get_service}

-- OwnershipDTO
pub record OwnershipDto : Type 0 where
  pub owning_team : String
  pub on_call_ref : String

-- ServiceResponse
pub record ServiceResponse : Type 0 where
  pub id : String
  pub tenant_id : String
  pub name : String
  pub description : String
  pub tier : ℕ
  pub lifecycle : String
  pub repository : String
  pub ownership : OwnershipDto
  pub version : ℕ
  pub created_at : ℕ
  pub updated_at : ℕ

-- toResponse
unfoldable pub to_response : Env → Service → ServiceResponse
to_response env s = record {
  id = env.uuid_print s.id;
  tenant_id = env.uuid_print s.tenant_id;
  name = s.name.v;
  description = s.description;
  tier = s.tier.v;
  lifecycle = lifecycle_text s.lifecycle;
  repository = s.repository;
  ownership = record {
    owning_team = s.ownership.owning_team;
    on_call_ref = s.ownership.on_call_ref;
  };
  version = s.version;
  created_at = s.created_at;
  updated_at = s.updated_at;
}

-- What Register takes from outside: the JSON text of a response, the server's cast of a text to jsonb (as its
-- column prints it, or none), and the SHA-256 sum of a body in hexadecimal.
pub record Coding : Type 0 where
  pub json_text : ServiceResponse → String
  pub jsonb : String → Option String
  pub sha256 : String → String

-- The body of a registration: it cannot be read, or it is a text that is decoded.
pub data Body : Type 0 where
  unreadable : Body
  read : String → Option RegisterServiceInput → Body

-- The answer under a key that has a record.
abbrev pub replay : Idempotency.Response → Response ServiceResponse
replay rec = record {
  status = rec.status;
  headers = ("Idempotency-Replayed", "true") ∷ json_type ∷ [];
  content = stored rec.body;
}

abbrev pub created : Env → Service → Response ServiceResponse
created env s =
    json (("Location", "/api/v1/services/" ⧺ env.uuid_print s.id) ∷ etag s.version ∷ []) 201
      (value (to_response env s))

-- `idemKey != "" && h.idem != nil`
unfoldable pub is_keyed : Bool → Request → Bool
is_keyed with_store r = not (str_eq (r.header "Idempotency-Key") "") && with_store

-- Save, whose error is dropped.
remember : Env → Coding → Bool → Request → String → Service → World → World
unfolding is_keyed
remember env c with_store r body s w =
    let saved =
      save_response env c.jsonb (r.header "Idempotency-Key") (c.sha256 body) 201
        (c.json_text (to_response env s)) w in
    if is_keyed with_store r then saved.1 else w

-- What RegisterService returned.
finish :
    Env
    → Coding
    → Bool
    → Request
    → String
    → Result Service × World
    → Response ServiceResponse × World
unfolding remember
finish env c with_store r body (err e, w) = (error_answer r e, w)
finish env c with_store r body (ok s, w) = (created env s, remember env c with_store r body s w)

-- What Lookup returned; without a key it is not called.
looked_up : Env → Bool → Request → Act (Option Idempotency.Response)
unfolding is_keyed
looked_up env with_store r w =
    let found = lookup_response env (r.header "Idempotency-Key") w in
    if is_keyed with_store r then found else (ok none, w)

after_lookup :
    Env
    → Coding
    → Bool
    → Request
    → String
    → RegisterServiceInput
    → Result (Option Idempotency.Response) × World
    → Response ServiceResponse × World
unfolding finish
after_lookup env c with_store r body i (err e, w) = (error_answer r e, w)
after_lookup env c with_store r body i (ok (some rec), w) = (replay rec, w)
after_lookup env c with_store r body i (ok none, w) =
    finish env c with_store r body (register_service env i w)

-- Register
unfoldable pub register_handler :
    Env → Coding → Bool → Request → Body → World → Response ServiceResponse × World
unfolding looked_up after_lookup
register_handler env c with_store r unreadable w =
    (error_answer r (validation_error "INVALID_BODY" "request body could not be read"), w)
register_handler env c with_store r (read body none) w =
    (error_answer r (validation_error "INVALID_BODY" "request body is not valid JSON"), w)
register_handler env c with_store r (read body (some i)) w =
    after_lookup env c with_store r body i (looked_up env with_store r w)

-- setETag and toResponse, where a service is the answer.
abbrev pub service_answer : Env → Service → Response ServiceResponse
service_answer env s = json (etag s.version ∷ []) 200 (value (to_response env s))

-- Get
unfoldable pub get_handler : Env → Request → World → Response ServiceResponse × World
get_handler env r = answer r (get_service env (r.url_param "id")) (service_answer env)

-- ChangeOwnershipRequest
pub record ChangeOwnershipRequest : Type 0 where
  pub owning_team : String
  pub on_call_ref : String

-- ChangeOwnership
unfoldable pub change_ownership_handler :
    Env → Request → Decoded ChangeOwnershipRequest → World → Response ServiceResponse × World
change_ownership_handler env r body = decode r body λ req.
    answer r
      (change_ownership_command env (record {
        service_id = r.url_param "id";
        owning_team = req.owning_team;
        on_call_ref = req.on_call_ref;
        expected_version = if_match r;
      }))
      (service_answer env)

-- ChangeLifecycleRequest
pub record ChangeLifecycleRequest : Type 0 where
  pub lifecycle_name : String

-- ChangeLifecycle
unfoldable pub change_lifecycle_handler :
    Env → Request → Decoded ChangeLifecycleRequest → World → Response ServiceResponse × World
change_lifecycle_handler env r body = decode r body λ req.
    answer r
      (change_lifecycle_command env (record {
        service_id = r.url_param "id";
        lifecycle_name = req.lifecycle_name;
        expected_version = if_match r;
      }))
      (service_answer env)

-- Retire
unfoldable pub retire_handler : Env → Request → World → Response ServiceResponse × World
retire_handler env r =
    answer r
      (retire_service_command env
        (record { service_id = r.url_param "id"; expected_version = if_match r }))
      (service_answer env)

-- The routes that change a service, with their bodies.
pub data Patch : Type 0 where
  to_ownership : Decoded ChangeOwnershipRequest → Patch
  to_lifecycle : Decoded ChangeLifecycleRequest → Patch
  to_retire : Patch

-- Mount, for these routes.
unfoldable pub patch_service : Env → Request → Patch → World → Response ServiceResponse × World
unfolding change_ownership_handler change_lifecycle_handler retire_handler
patch_service env r (to_ownership body) = change_ownership_handler env r body
patch_service env r (to_lifecycle body) = change_lifecycle_handler env r body
patch_service env r to_retire = retire_handler env r
