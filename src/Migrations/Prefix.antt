-- ===== src/Migrations/Prefix.antt =====
-- What a run of the migrations leaves behind, whatever calls fail (internal/platform/postgres/migrate.go).
use mathlib.Core.Path.{subst}
use forge_platform.Base.{
  ℕ, String, ◌≡◌, refl, sym, ap, ◌∙◌, ◌⊎◌, inl, inr, false, List, [], ◌∷◌, ◌++◌, ◌==◌, any, take,
  arith, Bool-cases,
}
use forge_platform.Platform.{Env, Outcome, done, failed, lost}
use forge_platform.Apperr.{GoError, Result, ok, err, Result-cases}
use forge_platform.Migrations.{
  Migration, Schema, Journal, with_migration, call, commit_at, apply_one, after_one, apply_all,
  apply_pending, pending_of, in_order, migrate,
}

-- No version is in the table twice.
abbrev pub Distinct : List ℕ → Type 0
Distinct [] = Unit
Distinct (v ∷ vs) = (any (λ (u : ℕ). u == v) vs ≡ false) × Distinct vs

abbrev pub Failed : Result (Unit {0}) → Type 0
Failed r = (e : GoError) × (r ≡ err e)

-- The schema after some migrations, one after the other.
abbrev pub extended : Schema → List Migration → Schema
extended s [] = s
extended s (m ∷ ms) = extended (with_migration m s) ms

Distinct-snoc :
    (v : ℕ) (vs : List ℕ)
    → Distinct vs
    → any (λ (u : ℕ). u == v) vs ≡ false
    → Distinct (vs ++ v ∷ [])
Distinct-snoc v [] d h = (refl, tt)
Distinct-snoc v (u ∷ vs) d h = (any_snoc vs d.0, Distinct-snoc v vs d.1 (ground arith))
  where
    any_snoc :
        (ws : List ℕ)
        → any (λ (x : ℕ). x == u) ws ≡ false
        → any (λ (x : ℕ). x == u) (ws ++ v ∷ []) ≡ false
    any_snoc [] e = ground arith
    any_snoc (w ∷ ws) e = ground (arith, any_snoc ws)

-- One migration leaves the schema as it was and fails, or is applied with its version, which is new.
abbrev OneStep : Migration → Journal → Result (Unit {0}) × Journal → Type 0
OneStep m j p =
    (Failed p.0 × (p.1.schema ≡ j.schema))
    ⊎ ((p.1.schema ≡ with_migration m j.schema)
        × (any (λ (v : ℕ). v == m.version) j.schema.versions ≡ false))

commit_step :
    (o : Outcome) (m : Migration) (j k : Journal)
    → k.schema ≡ j.schema
    → any (λ (v : ℕ). v == m.version) j.schema.versions ≡ false
    → OneStep m j (commit_at o m k)
unfolding commit_at
commit_step done m j k same new = inr (ap (with_migration m) same, new)
commit_step failed m j k same new = inl ((_, refl), same)
commit_step lost m j k same new = inr (ap (with_migration m) same, new)

call_schema : (env : Env) (j : Journal) → (call env j).1.schema ≡ j.schema
unfolding call
call_schema env j = refl

apply_one_step : (env : Env) (m : Migration) (j : Journal) → OneStep m j (apply_one env m j)
unfolding apply_one
apply_one_step env m j =
    let j1 = (call env j).1 in
    let j2 = (call env j1).1 in
    let j3 = (call env j2).1 in
    let same1 = call_schema env j in
    let same2 = call_schema env j1 ∙ same1 in
    let same3 = call_schema env j2 ∙ same2 in
    elim (Bool-cases (call env j).0) [
      | inr e1 ↦ inl (rw e1 ((_, refl), same1))
      | inl e1 ↦ elim (Bool-cases (call env j1).0) [
        | inr e2 ↦ inl (rw (e1, e2) ((_, refl), same2))
        | inl e2 ↦ elim (Bool-cases (call env j2).0) [
          | inr e3 ↦ inl (rw (e1, e2, e3) ((_, refl), same3))
          | inl e3 ↦ elim (Bool-cases (any (λ (v : ℕ). v == m.version) j.schema.versions)) [
            | inl there ↦ inl (rw (e1, e2, e3, there) ((_, refl), same3))
            | inr new ↦
                let committed : apply_one env m j ≡ commit_at (env.outcome j3.calls) m j3 =
                  rw (e1, e2, e3, new) refl in
                subst (OneStep m j) (sym committed)
                  (commit_step (env.outcome j3.calls) m j j3 same3 new)
          ]
        ]
      ]
    ]

-- An initial segment of the migrations was applied, and all of them unless the run failed.
abbrev pub Prefix : List Migration → Schema → Result (Unit {0}) × Journal → Type 0
Prefix ms s p =
    (before : List Migration) × (rest : List Migration) × (ms ≡ before ++ rest)
    × (p.1.schema ≡ extended s before)
    × Distinct p.1.schema.versions
    × ((rest ≡ []) ⊎ Failed p.0)

grown :
    (m : Migration) (j k : Journal)
    → Distinct j.schema.versions
    → k.schema ≡ with_migration m j.schema
    → any (λ (v : ℕ). v == m.version) j.schema.versions ≡ false
    → Distinct k.schema.versions
grown m j k d is new =
    subst (λ (s : Schema). Distinct s.versions) (sym is)
      (Distinct-snoc m.version j.schema.versions d new)

after_one-Prefix :
    (m : Migration) (ms : List Migration) (j : Journal) (p : Result (Unit {0}) × Journal)
    (next : Journal → Result (Unit {0}) × Journal)
    → Distinct j.schema.versions
    → OneStep m j p
    → ((k : Journal) → Distinct k.schema.versions → Prefix ms k.schema (next k))
    → Prefix (m ∷ ms) j.schema (after_one p next)
unfolding after_one
after_one-Prefix m ms j (err e, k) next d (inl (_, same)) h = (
  [],
  m ∷ ms,
  refl,
  same,
  subst (λ (s : Schema). Distinct s.versions) (sym same) d,
  inr (e, refl),
)
after_one-Prefix m ms j (err e, k) next d (inr (is, new)) h =
    (m ∷ [], ms, refl, is, grown m j k d is new, inr (e, refl))
after_one-Prefix m ms j (ok u, k) next d (inl ((e, bad), _)) h = absurd (cc)
after_one-Prefix m ms j (ok u, k) next d (inr (is, new)) h =
    let (before, rest, split, final, distinct, end) = h k (grown m j k d is new) in
    (
      m ∷ before,
      rest,
      ap (λ r. m ∷ r) split,
      final ∙ ap (λ (s : Schema). extended s before) is,
      distinct,
      end,
    )

apply_all-Prefix :
    (env : Env) (ms : List Migration) (j : Journal)
    → Distinct j.schema.versions
    → Prefix ms j.schema (apply_all env ms j)
unfolding apply_all
apply_all-Prefix env [] j d = ([], [], refl, refl, d, inl refl)
apply_all-Prefix env (m ∷ ms) j d =
    after_one-Prefix m ms j (apply_one env m j) (apply_all env ms) d (apply_one_step env m j)
      (λ k e. apply_all-Prefix env ms k e)

-- Whatever calls fail, and however many of the recorded versions reached the loop: a run that starts with
-- no version recorded twice ends so. It fails and leaves the schema as it was, or it applies an initial
-- segment of the pending files in the order of their versions, each exactly once with its version
-- recorded (a file whose version is recorded is never applied again); it only succeeds with all of them.
pub migrate-Prefix :
    (env : Env) (quote : String → String) (arrived : ℕ) (names : List String) (j : Journal)
    → Distinct j.schema.versions
    → (Failed (migrate env quote arrived names j).0
        × ((migrate env quote arrived names j).1.schema ≡ j.schema))
      ⊎ ((ms : List Migration) × (pending_of quote (take arrived j.schema.versions) names ≡ ok ms)
          × Prefix (in_order ms) j.schema (migrate env quote arrived names j))
unfolding migrate apply_pending
migrate-Prefix env quote arrived names j d =
    let j1 = (call env j).1 in
    let j2 = (call env j1).1 in
    let same1 = call_schema env j in
    let same2 = call_schema env j1 ∙ same1 in
    elim (Bool-cases (call env j).0) [
      | inr e1 ↦ inl (rw e1 ((_, refl), same1))
      | inl e1 ↦ elim (Bool-cases (call env j1).0) [
        | inr e2 ↦ inl (rw (e1, e2) ((_, refl), same2))
        | inl e2 ↦ elim (Result-cases (pending_of quote (take arrived j.schema.versions) names)) [
          | inr (x, bad) ↦ inl (rw (e1, e2, bad) ((_, refl), same2))
          | inl (ms, found) ↦
              let ran : migrate env quote arrived names j ≡ apply_all env (in_order ms) j2 =
                rw (e1, e2, found) refl in
              let start = subst (λ (s : Schema). Distinct s.versions) (sym same2) d in
              inr (
                ms,
                found,
                subst (Prefix (in_order ms) j.schema) (sym ran) (
                    subst (λ s. Prefix (in_order ms) s (apply_all env (in_order ms) j2)) same2
                      (apply_all-Prefix env (in_order ms) j2 start)),
              )
        ]
      ]
    ]
