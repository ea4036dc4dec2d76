-- ===== src/Controller/Status/Updates.antt =====
-- What updateStatus of internal/controller/application_controller.go leaves in the API server.
use forge_platform.Base.{
  ℕ, zero, suc, ◌+◌, String, ◌≡◌, refl, sym, ap, ◌∙◌, ◌⊎◌, inl, inr, Bool, true, false, Option,
  none, some, eq_iff, ◌==◌, ==_iff, arith, Bool-cases,
}
use forge_platform.Platform.{Outcome, done, failed, lost}
use forge_platform.Controller.{Application}
use forge_platform.Controller.Status.{
  Api, ApiError, Store, Live, Updated, Response, found, problem, get, update, is_unchanged,
  phase_of, with_status, write, examine, attempt, is_conflict, retry_on_conflict, update_status,
  store_status,
}
use forge_platform.Controller.Status.Excuses.{Excused, get_found, get_calls, retry-Excused}

-- The status tells of the Deployment and of the generation that the object has.
pub record IsCurrent (live : Live) (app : Application) : Type 0 where
  pub phase : app.status.phase ≡ phase_of live app
  pub ready_replicas : app.status.ready_replicas ≡ live.ready_replicas
  pub replicas : app.status.replicas ≡ live.replicas
  pub observed : app.status.observed_generation ≡ app.generation

-- Documented by the API server: an object with the same resource version is the same object. Here, what
-- the cache gave for the stored object, and what that has become by the next call.
pub record IsVersioned (api : Api) : Type 0 where
  pub same_version :
      (n : ℕ) (stored : Option Application) (a b : Application)
      → api.cached n stored ≡ some a
      → api.others (n + 1) stored ≡ some b
      → b.resource_version ≡ a.resource_version
      → b ≡ a

-- A stored Application whose status is current.
abbrev pub HasCurrent : Live → Option Application → Type 0
HasCurrent live stored = (a : Application) × (stored ≡ some a) × IsCurrent live a

-- An Application whose status was current in the cache, when that was asked for the stored one.
abbrev pub ReadCurrent : Api → Live → Option Application → Type 0
ReadCurrent api live stored =
    (n : ℕ) × (a : Application) × (api.cached n stored ≡ some a) × IsCurrent live a

-- The status was written and is current in the server, or it was not, and was current in the cache.
abbrev pub LeftCurrent : Api → Live → Updated → Type 0
LeftCurrent api live u =
    ((u.wrote ≡ true) × HasCurrent live u.store.application)
    ⊎ ((u.wrote ≡ false) × ReadCurrent api live u.store.application)

is_unchanged_iff :
    (live : Live) (app : Application) → is_unchanged live app ≡ true → IsCurrent live app
unfolding is_unchanged
is_unchanged_iff live app h = ground (
  arith,
  eq_iff app.status.phase (phase_of live app),
  ==_iff app.status.ready_replicas live.ready_replicas,
  ==_iff app.status.replicas live.replicas,
  ==_iff app.status.observed_generation app.generation,
)

store_status_ok :
    (o : Outcome) (t : String) (app : Application) (stored : Option Application)
    → (store_status o t app stored).0 ≡ none
    → (b : Application) × (stored ≡ some b)
      × (b.resource_version ≡ app.resource_version)
      × ((store_status o t app stored).1
          ≡ some (record b { status = app.status; resource_version = b.resource_version + 1 }))
unfolding store_status
store_status_ok done t app none h = cc
store_status_ok done t app (some b) h =
    elim (Bool-cases (b.resource_version == app.resource_version)) [
      | inl same ↦ (b, refl, (==_iff b.resource_version app.resource_version).0 same, rw same refl)
      | inr other ↦ absurd (ground arith)
    ]
store_status_ok lost t app none h = cc
store_status_ok lost t app (some b) h = cc
store_status_ok failed t app stored h = cc

-- A write that succeeds is of the object that was read, with the new status.
write-current :
    (api : Api) (live : Live) (app : Application) (n : ℕ) (s : Store)
    → IsVersioned api
    → api.cached n s.application ≡ some app
    → s.calls ≡ n + 1
    → (write api live app s).error ≡ none
    → HasCurrent live (write api live app s).store.application
unfolding write update with_status
write-current api live app n s v is_app next_call h =
    let next = with_status (api.now s.calls) live app in
    let (b, is_b, same_version, stored) =
      store_status_ok (api.outcome s.calls) (api.problem_text s.calls) next
        (api.others s.calls s.application) h in
    let same =
      v.same_version n s.application app b is_app
        (ap (λ i. api.others i s.application) (sym next_call) ∙ is_b) same_version in
    (
      record app { status = next.status; resource_version = b.resource_version + 1 },
      stored
          ∙ ap
              (λ (x : Application).
                some (record x { status = next.status; resource_version = b.resource_version + 1 }))
              same,
      record { phase = refl; ready_replicas = refl; replicas = refl; observed = refl },
    )

write_wrote :
    (api : Api) (live : Live) (app : Application) (s : Store) → (write api live app s).wrote ≡ true
unfolding write
write_wrote api live app s = refl

attempt-current :
    (api : Api) (live : Live) (wrote : Bool) (s : Store)
    → IsVersioned api
    → (attempt api live wrote s).error ≡ none
    → LeftCurrent api live (attempt api live wrote s)
unfolding attempt
attempt-current api live wrote s v h = go (get api s) (λ a. get_found api s) (get_calls api s) h
  where
    go :
        (p : Response × Store)
        → ((a : Application) → p.0 ≡ found a → api.cached s.calls p.1.application ≡ some a)
        → p.1.calls ≡ s.calls + 1
        → (examine api live wrote p).error ≡ none
        → LeftCurrent api live (examine api live wrote p)
    go (problem e, s') f n h = cc
    go (found a, s') f n h = elim (Bool-cases (is_unchanged live a)) [
      | inl same ↦ rw same (inr (refl, (s.calls, a, f a refl, is_unchanged_iff live a same)))
      | inr other ↦ rw other (
          inl (
            write_wrote api live a s',
            write-current api live a s.calls s' v (f a refl) n (rw other at h),
          ))
    ]

retry-current :
    (retries : ℕ) (api : Api) (live : Live) (wrote : Bool) (s : Store)
    → IsVersioned api
    → (retry_on_conflict retries api live wrote s).error ≡ none
    → LeftCurrent api live (retry_on_conflict retries api live wrote s)
unfolding retry_on_conflict
retry-current zero api live wrote s v h = attempt-current api live wrote s v h
retry-current (suc retries) api live wrote s v h =
    let first = attempt api live wrote s in
    elim (Bool-cases (is_conflict first.error)) [
      | inl again ↦
          rw again (retry-current retries api live first.wrote first.store v (rw again at h))
      | inr last ↦ rw last (attempt-current api live wrote s v (rw last at h))
    ]

-- Whatever other clients do meanwhile and however old the answers of the cache are, as long as an object
-- with the same resource version is the same object: where updateStatus returns no error and says that it
-- wrote, the Application is stored with a status that tells of the Deployment that was read and of the
-- Application's own generation; where it says that it did not write, that held of the Application as
-- the cache gave it for the one that is stored. Where it returns an error, a call was not carried out
-- with an answer, the cache or the server does not have the Application, or the server had another
-- version of it than the cache gave.
pub update_status-current :
    (api : Api) (live : Live) (s : Store)
    → IsVersioned api
    → (((update_status api live s).error ≡ none) × LeftCurrent api live (update_status api live s))
      ⊎ ((e : ApiError) × ((update_status api live s).error ≡ some e)
          × Excused api (update_status api live s))
unfolding update_status
update_status-current api live s v = by_error (update_status api live s).error refl
  where
    by_error :
        (o : Option ApiError)
        → (update_status api live s).error ≡ o
        → (((update_status api live s).error ≡ none)
            × LeftCurrent api live (update_status api live s))
          ⊎ ((e : ApiError) × ((update_status api live s).error ≡ some e)
              × Excused api (update_status api live s))
    by_error none h = inl (h, retry-current 4 api live false s v h)
    by_error (some e) h = inr (e, h, retry-Excused 4 api live false s h)
