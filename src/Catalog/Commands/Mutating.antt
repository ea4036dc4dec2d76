-- ===== src/Catalog/Commands/Mutating.antt =====
-- What the commands that change a service do to the database (internal/modules/catalog/app/commands.go).
use forge_platform.Base.{
  ℕ, ◌+◌, ◌<◌, ◌≡◌, refl, sym, ap, ◌∙◌, ◌⊎◌, inl, inr, Option, none, some, ◌++◌, select, length,
}
use mathlib.Core.Path.{subst}
use forge_platform.Platform.{Env}
use forge_platform.Apperr.{GoError, Result, ok, err, ok-injective}
use forge_platform.Db.{World, Db, ◌>>◌}
use forge_platform.Db.Tx.{execute_ok, execute_err, opened}
use forge_platform.Db.Steps.{then_ok}
use forge_platform.Catalog.Service.{Service, Change, change, pull_events}
use forge_platform.Catalog.Repository.{find_by_id, is_target, update, update_rows}
use forge_platform.Catalog.Repository.Writes.{outbox_rows}
use forge_platform.Catalog.Repository.Reads.{find_by_id_world}
use forge_platform.Catalog.Repository.Updates.{recorded, update_ok}
use forge_platform.Catalog.Commands.{
  mutate_body, mutate, apply_change, returned, append_pulled, expected_version_or,
}
use forge_platform.Catalog.Commands.Registering.{append_pulled_ok}

returned_ok :
    (p : Service × Option GoError) (w : World) {s : Service}
    → (returned p w).0 ≡ ok s
    → (p.1 ≡ none) × (s ≡ p.0) × ((returned p w).1 ≡ w)
unfolding returned
returned_ok (s, none) w h = (refl, sym (ok-injective h), refl)
returned_ok (s, some e) w h = cc

-- The tables after a change: the row assigned to, the owner recorded, the events written.
abbrev pub changed : Env → World → Service → ℕ → Db → Db
changed env w s expected db = record db {
  services = update_rows s expected db.services;
  history = recorded s (env.fresh_uuid (w.calls + 1 + 1 + 1)) db.history;
  outbox = db.outbox ++ outbox_rows env (w.calls + 1 + 1 + 1 + 1) w.started s.events;
}

abbrev Saved : Env → ℕ → World → Service → Service → Db → Type 0
Saved env expected w s r db =
    (0 < length (select (is_target s.id expected) w.db.services))
    × (r ≡ (pull_events s).1)
    × (db ≡ changed env w s expected w.db)

save_ok :
    (env : Env) (s : Service) (expected : ℕ) (w : World) {r : Service}
    → ((update env s expected >> append_pulled env s) (record w { calls = w.calls + 1 })).0 ≡ ok r
    → Saved env expected w s r
        ((update env s expected >> append_pulled env s) (record w { calls = w.calls + 1 })).1.db
save_ok env s expected w h =
    let w1 = record w { calls = w.calls + 1 } in
    let v = record w {
      db = record w.db {
        services = update_rows s expected w.db.services;
        history = recorded s (env.fresh_uuid (w.calls + 1 + 1 + 1)) w.db.history;
      };
      calls = w.calls + 1 + 1 + 1 + 1;
    } in
    let (u, p, q, h1) =
      then_ok (update env s expected) (λ _. append_pulled env s) w1 v
        (λ _ e. (update_ok env s expected w1 e).1) h in
    let (same, db) = append_pulled_ok env s v h1 in
    ((update_ok env s expected w1 p).0, same, ap (λ (x : Result Service × World). x.1.db) q ∙ db)

-- A unit of work that changed `s` into `s'` and returned `r`.
abbrev pub Changed : Env → ℕ → (ℕ → Change) → World → Service → Service → Db → Type 0
Changed env expected c w s r db =
    let after = change env (c (env.now (w.calls + 1))) s in
    (after.1 ≡ none) × Saved env (expected_version_or expected s.version) w after.0 r db

mutate_body_ok :
    (env : Env) (id expected : ℕ) (c : ℕ → Change) (w : World) {r : Service}
    → (mutate_body env id expected c w).0 ≡ ok r
    → (s : Service) × ((find_by_id env id w).0 ≡ ok s)
      × Changed env expected c w s r (mutate_body env id expected c w).1.db
unfolding mutate_body apply_change
mutate_body_ok env id expected c w {r} h =
    let w1 = record w { calls = w.calls + 1 } in
    let (s, found, q1, h1) =
      then_ok (find_by_id env id) _ w w1 (λ _ _. find_by_id_world env id w) h in
    let after = change env (c (env.now (w.calls + 1))) s in
    let expect = expected_version_or expected s.version in
    let (s', p2, q2, h2) =
      then_ok (apply_change env c s) (λ x. update env x expect >> append_pulled env x) w1 w1
        (λ _ e. (returned_ok after w1 e).2) h1 in
    let (none_err, is_after, _) = returned_ok after w1 p2 in
    let saved = save_ok env s' expect w h2 in
    (
      s,
      found,
      (
        none_err,
        subst (λ (d : Db). Saved env expect w after.0 r d)
            (sym (ap (λ (x : Result Service × World). x.1.db) (q1 ∙ q2)))
            (subst
              (λ (x : Service).
                Saved env expect w x r ((update env s' expect >> append_pulled env s') w1).1.db)
              is_after saved),
      ),
    )

-- A change that returns a service read the row with its id, was accepted by the aggregate, and
-- found a row with the expected version; and the database has that row assigned to, the owner
-- recorded in the history and the rows of the change's events, and nothing else has changed.
pub mutate-commits :
    (env : Env) (id expected : ℕ) (c : ℕ → Change) (w : World) {r : Service}
    → (mutate env id expected c w).0 ≡ ok r
    → (s : Service) × ((find_by_id env id (opened env w)).0 ≡ ok s)
      × Changed env expected c (opened env w) s r (mutate env id expected c w).1.db
unfolding mutate
mutate-commits env id expected c w {r} h =
    let (ran, kept) = execute_ok env (mutate_body env id expected c) w h in
    let (s, found, done) = mutate_body_ok env id expected c (opened env w) ran in
    (s, found, subst (λ (d : Db). Changed env expected c (opened env w) s r d) (sym kept) done)

-- A change that returns an error changes nothing in the database, unless the answer to the commit
-- was lost: then all of it is there.
pub mutate-fails :
    (env : Env) (id expected : ℕ) (c : ℕ → Change) (w : World) {e : GoError}
    → (mutate env id expected c w).0 ≡ err e
    → ((mutate env id expected c w).1.db ≡ w.db)
      ⊎ ((s : Service) × (r : Service) × ((find_by_id env id (opened env w)).0 ≡ ok s)
          × Changed env expected c (opened env w) s r (mutate env id expected c w).1.db)
unfolding mutate
mutate-fails env id expected c w h = elim (execute_err env (mutate_body env id expected c) w h) [
  | inl same ↦ inl same
  | inr (r, ran, kept) ↦
      let (s, found, all) = mutate_body_ok env id expected c (opened env w) ran in
      inr (
        s,
        r,
        found,
        subst (λ (d : Db). Changed env expected c (opened env w) s r d) (sym kept) all,
      )
]
