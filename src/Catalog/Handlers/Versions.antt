-- ===== src/Catalog/Handlers/Versions.antt =====
-- Optimistic concurrency over HTTP: the changes of a service under If-Match (api/handlers.go, routes.go).
use mathlib.Core.Path.{subst}
use forge_platform.Base.{ℕ, ◌<◌, String, ◌≡◌, refl, ap, ◌∙◌, ◌⊎◌, true, find, some, ◌==◌}
use forge_platform.Base.Words.{mod64, slt64}
use forge_platform.Platform.{Env, IsUuidText}
use forge_platform.Apperr.{ok}
use forge_platform.Db.{ServiceRow, World, lift}
use forge_platform.Db.Steps.{then_ok}
use forge_platform.Http.{Request, value, etag, if_match}
use forge_platform.Http.ETag.{quoted, if_match-etag}
use forge_platform.Http.Answers.{answer_value, decode_value}
use forge_platform.Catalog.Values.{new_ownership, parse_lifecycle}
use forge_platform.Catalog.Service.{
  Change, ownership, lifecycle, retirement, service_id_from_string, Service,
}
use forge_platform.Catalog.Repository.Keys.{UniqueKeys}
use forge_platform.Catalog.Commands.{
  mutate, ChangeOwnershipInput, ChangeLifecycleInput, RetireServiceInput, change_ownership_command,
  change_lifecycle_command, retire_service_command,
}
use forge_platform.Catalog.Commands.Versions.{mutate_version_checked}
use forge_platform.Catalog.Handlers.{
  ServiceResponse, Patch, to_ownership, to_lifecycle, to_retire, patch_service, service_answer,
  change_ownership_handler, change_lifecycle_handler, retire_handler,
}

-- The row that a text names had the version.
abbrev pub HadVersion : Env → String → ℕ → World → Type 0
HadVersion env text v w =
    (id : ℕ) × (service_id_from_string env text ≡ ok id)
    × (q : ServiceRow) × (find (λ (p : ServiceRow). p.id == id) w.db.services ≡ some q)
    × (q.version ≡ v)

module _ (env : Env) (w : World) (u : IsUuidText env) (unique : UniqueKeys w.db.services) where
  mutated :
      (text : String) (id expected : ℕ) (c : ℕ → Change) {s : Service}
      → slt64 0 expected ≡ true
      → service_id_from_string env text ≡ ok id
      → (mutate env id expected c w).0 ≡ ok s
      → HadVersion env text expected w
  mutated text id expected c positive named h =
      let (q, is_q, had) = mutate_version_checked env id expected c w u unique positive h in
      (id, named, q, is_q, had)

  ownership_checked :
      (i : ChangeOwnershipInput) {s : Service}
      → slt64 0 i.expected_version ≡ true
      → (change_ownership_command env i w).0 ≡ ok s
      → HadVersion env i.service_id i.expected_version w
  unfolding change_ownership_command
  ownership_checked i positive h =
      let (id, named, _, h1) =
        then_ok (lift (service_id_from_string env i.service_id)) _ w w (λ _ _. refl) h in
      let (o, _, _, h2) =
        then_ok (lift (new_ownership i.owning_team i.on_call_ref)) _ w w (λ _ _. refl) h1 in
      mutated i.service_id id i.expected_version (ownership o) positive named h2

  lifecycle_checked :
      (i : ChangeLifecycleInput) {s : Service}
      → slt64 0 i.expected_version ≡ true
      → (change_lifecycle_command env i w).0 ≡ ok s
      → HadVersion env i.service_id i.expected_version w
  unfolding change_lifecycle_command
  lifecycle_checked i positive h =
      let (id, named, _, h1) =
        then_ok (lift (service_id_from_string env i.service_id)) _ w w (λ _ _. refl) h in
      let (l, _, _, h2) =
        then_ok (lift (parse_lifecycle i.lifecycle_name)) _ w w (λ _ _. refl) h1 in
      mutated i.service_id id i.expected_version (lifecycle l) positive named h2

  retire_checked :
      (i : RetireServiceInput) {s : Service}
      → slt64 0 i.expected_version ≡ true
      → (retire_service_command env i w).0 ≡ ok s
      → HadVersion env i.service_id i.expected_version w
  unfolding retire_service_command
  retire_checked i positive h =
      let (id, named, _, h1) =
        then_ok (lift (service_id_from_string env i.service_id)) _ w w (λ _ _. refl) h in
      mutated i.service_id id i.expected_version retirement positive named h1

  patch_checked :
      (r : Request) (p : Patch) {x : ServiceResponse}
      → slt64 0 (if_match r) ≡ true
      → (patch_service env r p w).0.content ≡ value x
      → HadVersion env (r.url_param "id") (if_match r) w
  unfolding patch_service change_ownership_handler change_lifecycle_handler retire_handler
  patch_checked r (to_ownership body) positive h =
      let (req, decoded) = decode_value r body _ w h in
      let (s, changed, _) =
        answer_value r
          (change_ownership_command env (record {
            service_id = r.url_param "id";
            owning_team = req.owning_team;
            on_call_ref = req.on_call_ref;
            expected_version = if_match r;
          }))
          (service_answer env) w decoded in
      ownership_checked _ positive changed
  patch_checked r (to_lifecycle body) positive h =
      let (req, decoded) = decode_value r body _ w h in
      let (s, changed, _) =
        answer_value r
          (change_lifecycle_command env (record {
            service_id = r.url_param "id";
            lifecycle_name = req.lifecycle_name;
            expected_version = if_match r;
          }))
          (service_answer env) w decoded in
      lifecycle_checked _ positive changed
  patch_checked r to_retire positive h =
      let (s, changed, _) =
        answer_value r
          (retire_service_command env
            (record { service_id = r.url_param "id"; expected_version = if_match r }))
          (service_answer env) w h in
      retire_checked _ positive changed

-- Where the keys are unique and package uuid parses what it prints: a request for a change of a service
-- whose If-Match is the ETag of a positive version, with or without quotes, is answered with the changed
-- service only if the stored row had exactly that version.
pub patch_service_version :
    (env : Env) (r : Request) (p : Patch) (v : ℕ) (w : World) {x : ServiceResponse}
    → IsUuidText env
    → UniqueKeys w.db.services
    → v < mod64
    → slt64 0 v ≡ true
    → (r.header "If-Match" ≡ (etag v).1) ⊎ (r.header "If-Match" ≡ quoted (etag v).1)
    → (patch_service env r p w).0.content ≡ value x
    → HadVersion env (r.url_param "id") v w
patch_service_version env r p v w u unique fits positive tag h =
    let named = if_match-etag r v fits tag in
    subst (λ n. HadVersion env (r.url_param "id") n w) named
      (patch_checked env w u unique r p (ap (slt64 0) named ∙ positive) h)
