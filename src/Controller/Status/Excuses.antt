-- ===== src/Controller/Status/Excuses.antt =====
-- What updateStatus of internal/controller/application_controller.go returns errors for.
use forge_platform.Base.{
  ℕ, zero, suc, ◌+◌, String, ◌≡◌, ◌≢◌, refl, sym, ap, ◌∙◌, ◌⊎◌, inl, inr, Bool, Option, none, some,
  ◌==◌, ==_iff, arith, Bool-cases,
}
use forge_platform.Platform.{Outcome, done, failed, lost}
use forge_platform.Controller.{Application}
use forge_platform.Controller.Status.{
  Api, ApiError, Store, Live, Updated, Response, found, problem, get, update, is_unchanged,
  with_status, write, examine, attempt, is_conflict, retry_on_conflict, answer_get, store_status,
}

pub get_found :
    (api : Api) (s : Store) {app : Application}
    → (get api s).0 ≡ found app
    → api.cached s.calls (get api s).1.application ≡ some app
unfolding get
get_found api s h =
    go (api.outcome s.calls) (api.problem_text s.calls)
      (api.cached s.calls (api.others s.calls s.application)) h
  where
    go :
        (o : Outcome) (t : String) (read : Option Application) {app : Application}
        → answer_get o t read ≡ found app
        → read ≡ some app
    go done t none h = cc
    go done t (some a) h = cc
    go failed t read h = cc
    go lost t read h = cc

pub get_calls : (api : Api) (s : Store) → (get api s).1.calls ≡ s.calls + 1
unfolding get
get_calls api s = refl

-- What updateStatus may return an error for: a call that the server did not carry out with an answer, an
-- Application that the cache or the server does not have, or one that had another version than the
-- cache gave.
abbrev pub Excused : Api → Updated → Type 0
Excused api u =
    ((n : ℕ) × (api.outcome n ≢ done))
    ⊎ ((n : ℕ) × (api.cached n u.store.application ≡ none))
    ⊎ (u.store.application ≡ none)
    ⊎ ((n : ℕ) × (x : Option Application) × (a : Application) × (b : Application) × (api.cached n x
          ≡ some a)
        × (api.others (n + 1) x ≡ some b)
        × (b.resource_version ≢ a.resource_version))

get-problem :
    (api : Api) (s : Store) {e : ApiError}
    → (get api s).0 ≡ problem e
    → (api.outcome s.calls ≢ done) ⊎ (api.cached s.calls (get api s).1.application ≡ none)
unfolding get
get-problem api s h =
    go (api.outcome s.calls) (api.problem_text s.calls)
      (api.cached s.calls (api.others s.calls s.application)) h
  where
    go :
        (o : Outcome) (t : String) (read : Option Application) {e : ApiError}
        → answer_get o t read ≡ problem e
        → (o ≢ done) ⊎ (read ≡ none)
    go done t none h = inr refl
    go done t (some a) h = cc
    go failed t read h = inl (λ q. cc)
    go lost t read h = inl (λ q. cc)

store_status_error :
    (o : Outcome) (t : String) (app : Application) (stored : Option Application) {e : ApiError}
    → (store_status o t app stored).0 ≡ some e
    → (o ≢ done)
      ⊎ ((store_status o t app stored).1 ≡ none)
      ⊎ ((b : Application) × (stored ≡ some b) × (b.resource_version ≢ app.resource_version))
unfolding store_status
store_status_error done t app none h = inr (inl refl)
store_status_error done t app (some b) h =
    elim (Bool-cases (b.resource_version == app.resource_version)) [
      | inl same ↦ absurd (ground arith)
      | inr other ↦
          inr (inr (b, refl, λ q. ground (arith, ==_iff b.resource_version app.resource_version)))
    ]
store_status_error lost t app stored h = inl (λ q. cc)
store_status_error failed t app stored h = inl (λ q. cc)

write-Excused :
    (api : Api) (live : Live) (app : Application) (n : ℕ) (s : Store) {e : ApiError}
    → api.cached n s.application ≡ some app
    → s.calls ≡ n + 1
    → (write api live app s).error ≡ some e
    → Excused api (write api live app s)
unfolding write update with_status
write-Excused api live app n s is_app next_call h =
    elim (store_status_error (api.outcome s.calls) (api.problem_text s.calls)
      (with_status (api.now s.calls) live app) (api.others s.calls s.application) h) [
        | inl cut ↦ inl (s.calls, cut)
        | inr (inl gone) ↦ inr (inr (inl gone))
        | inr (inr (b, is_b, other)) ↦ inr (
            inr (
              inr (
                n,
                s.application,
                app,
                b,
                is_app,
                ap (λ i. api.others i s.application) (sym next_call) ∙ is_b,
                other,
              )))
      ]

attempt-Excused :
    (api : Api) (live : Live) (wrote : Bool) (s : Store) {e : ApiError}
    → (attempt api live wrote s).error ≡ some e
    → Excused api (attempt api live wrote s)
unfolding attempt
attempt-Excused api live wrote s {e} h =
    go (get api s) (λ a. get_found api s) (λ x. get-problem api s) (get_calls api s) h
  where
    go :
        (p : Response × Store)
        → ((a : Application) → p.0 ≡ found a → api.cached s.calls p.1.application ≡ some a)
        → ((x : ApiError)
            → p.0 ≡ problem x
            → (api.outcome s.calls ≢ done) ⊎ (api.cached s.calls p.1.application ≡ none))
        → p.1.calls ≡ s.calls + 1
        → (examine api live wrote p).error ≡ some e
        → Excused api (examine api live wrote p)
    go (problem x, s') f g n h = elim (g x refl) [
      | inl cut ↦ inl (s.calls, cut)
      | inr gone ↦ inr (inl (s.calls, gone))
    ]
    go (found a, s') f g n h = elim (Bool-cases (is_unchanged live a)) [
      | inl same ↦ absurd (ground arith)
      | inr other ↦ rw other (write-Excused api live a s.calls s' (f a refl) n (rw other at h))
    ]

pub retry-Excused :
    (retries : ℕ) (api : Api) (live : Live) (wrote : Bool) (s : Store) {e : ApiError}
    → (retry_on_conflict retries api live wrote s).error ≡ some e
    → Excused api (retry_on_conflict retries api live wrote s)
unfolding retry_on_conflict
retry-Excused zero api live wrote s h = attempt-Excused api live wrote s h
retry-Excused (suc retries) api live wrote s h =
    let first = attempt api live wrote s in
    elim (Bool-cases (is_conflict first.error)) [
      | inl again ↦
          rw again (retry-Excused retries api live first.wrote first.store (rw again at h))
      | inr last ↦ rw last (attempt-Excused api live wrote s (rw last at h))
    ]
