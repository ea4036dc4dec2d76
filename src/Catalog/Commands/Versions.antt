-- ===== src/Catalog/Commands/Versions.antt =====
-- Optimistic concurrency: the version that a client expects is compared with the stored one
-- (internal/modules/catalog/app/commands.go and adapters/postgres/repository.go).
use forge_platform.Base.{
  ℕ, ◌+◌, ◌<◌, ◌≡◌, ◌∙◌, true, some, arith, find, select, length, ◌==◌, ==_iff, inl, inr,
}
use mathlib.Core.Path.{subst₂}
use forge_platform.Base.Words.{slt64}
use forge_platform.Platform.{Env, IsUuidText}
use forge_platform.Apperr.{ok, Result-cases}
use forge_platform.Db.{ServiceRow, World}
use forge_platform.Db.Tx.{opened}
use forge_platform.Catalog.Service.{Service, Change, change, ownership, lifecycle, retirement}
use forge_platform.Catalog.Repository.{is_target, row_of}
use forge_platform.Catalog.Repository.Keys.{
  UniqueKeys, UniqueKeys-snoc, UniqueKeys-update_rows, find-some, target_version,
}
use forge_platform.Catalog.Repository.RoundTrip.{find_by_id_ok, scan_service_ok}
use forge_platform.Catalog.Commands.{
  RegisterServiceInput, register_service, mutate, expected_version_or,
}
use forge_platform.Catalog.Commands.Mutating.{mutate-commits, mutate-fails}
use forge_platform.Catalog.Commands.Registering.{register_service-commits, register_service-fails}

-- `change` leaves the id alone.
id-change : (env : Env) (c : Change) (s : Service) → (change env c s).0.id ≡ s.id
unfolding change
id-change env (ownership o now) s = ground arith
id-change env (lifecycle l now) s = ground arith
id-change env (retirement now) s = ground arith

expected_positive : (e v : ℕ) → slt64 0 e ≡ true → expected_version_or e v ≡ e
unfolding expected_version_or
expected_positive e v h = ground arith

-- Where the keys are unique and package uuid parses what it prints: a change for which the client
-- named a version (a positive one) succeeds only if the stored row had that version when it was read.
pub mutate_version_checked :
    (env : Env) (id expected : ℕ) (c : ℕ → Change) (w : World) {r : Service}
    → IsUuidText env
    → UniqueKeys w.db.services
    → slt64 0 expected ≡ true
    → (mutate env id expected c w).0 ≡ ok r
    → (q : ServiceRow) × (find (λ (p : ServiceRow). p.id == id) w.db.services ≡ some q)
      × (q.version ≡ expected)
mutate_version_checked env id expected c w u unique positive h =
    let (s, found, (accepted, (hit, _, _))) = mutate-commits env id expected c w h in
    let (q, is_q, read) = find_by_id_ok env id (opened env w) found in
    let (same_id, _, _) = scan_service_ok env q u read in
    let now_id = id-change env (c (env.now (w.calls + 1 + 1))) s in
    let of_id =
      now_id
      ∙ same_id
      ∙ (==_iff q.id id).0 (find-some (λ (p : ServiceRow). p.id == id) w.db.services is_q) in
    let hit' =
      subst₂ (λ (i e : ℕ). 0 < length (select (is_target i e) w.db.services)) of_id
        (expected_positive expected s.version positive) hit in
    (q, is_q, target_version id expected w.db.services unique is_q hit')

register-UniqueKeys :
    (env : Env) (w : World)
    → UniqueKeys w.db.services
    → (i : RegisterServiceInput) → UniqueKeys (register_service env i w).1.db.services
register-UniqueKeys env w u i = elim (Result-cases (register_service env i w).0) [
  | inl (r, h) ↦
      let (s, _, free, _, db) = register_service-commits env i w h in
      rw db (UniqueKeys-snoc (row_of s) w.db.services u free)
  | inr (e, h) ↦ elim (register_service-fails env i w h) [
    | inl same ↦ rw same u
    | inr (s, _, free, db) ↦ rw db (UniqueKeys-snoc (row_of s) w.db.services u free)
  ]
]

mutate-UniqueKeys :
    (env : Env) (w : World)
    → UniqueKeys w.db.services
    → (id expected : ℕ) (c : ℕ → Change) → UniqueKeys (mutate env id expected c w).1.db.services
mutate-UniqueKeys env w u id expected c = elim (Result-cases (mutate env id expected c w).0) [
  | inl (r, h) ↦
      let (s, _, (_, (_, _, db))) = mutate-commits env id expected c w h in
      rw db (UniqueKeys-update_rows _ _ w.db.services u)
  | inr (e, h) ↦ elim (mutate-fails env id expected c w h) [
    | inl same ↦ rw same u
    | inr (s, r, _, (_, (_, _, db))) ↦ rw db (UniqueKeys-update_rows _ _ w.db.services u)
  ]
]

-- The keys of the services stay unique through every registration and every change, whatever it
-- returns.
pub commands-UniqueKeys :
    (env : Env) (w : World)
    → UniqueKeys w.db.services
    → ((i : RegisterServiceInput) → UniqueKeys (register_service env i w).1.db.services)
      × ((id expected : ℕ) (c : ℕ → Change) → UniqueKeys (mutate env id expected c w).1.db.services)
commands-UniqueKeys env w u = (register-UniqueKeys env w u, mutate-UniqueKeys env w u)
