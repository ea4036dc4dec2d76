-- ===== src/Catalog/Commands/Registering.antt =====
-- What RegisterService does to the database (internal/modules/catalog/app/commands.go).
use forge_platform.Base.{ℕ, ◌+◌, ◌≡◌, refl, sym, ap, ◌∙◌, ◌⊎◌, inl, inr, false, [], ◌∷◌, ◌++◌, any}
use forge_platform.Platform.{Env}
use forge_platform.Apperr.{GoError, Result, ok, err, ok-injective, Result-cases}
use forge_platform.Db.{World, Db, ◌>>=◌, ◌>>◌, lift}
use forge_platform.Db.Tx.{execute, execute_ok, execute_err, opened}
use forge_platform.Db.Steps.{bind_ok, then_ok}
use forge_platform.Catalog.Values.{ServiceName}
use forge_platform.Catalog.Service.{Service, pull_events}
use forge_platform.Catalog.Repository.{insert, append, row_of, interval_of, row_clashes}
use forge_platform.Catalog.Repository.Writes.{insert_ok, append_ok, outbox_rows}
use forge_platform.Catalog.Repository.Reads.{find_by_tenant_and_name_world}
use forge_platform.Catalog.Commands.{
  RegisterServiceInput, register_body, check_name, append_pulled, parse_registration,
  register_service,
}

-- The tables with a service, its first interval of ownership and its events in them.
abbrev pub registered : Env → ℕ → ℕ → Service → Db → Db
registered env n started s db = record db {
  services = db.services ++ row_of s ∷ [];
  history = db.history ++ interval_of (env.fresh_uuid (n + 1)) s.created_at s ∷ [];
  outbox = db.outbox ++ outbox_rows env (n + 1 + 1) started s.events;
}

-- The world after an insert that returned no error.
abbrev after_insert : Env → Service → World → World
after_insert env s w = record w {
  db = record w.db {
    services = w.db.services ++ row_of s ∷ [];
    history = w.db.history ++ interval_of (env.fresh_uuid (w.calls + 1)) s.created_at s ∷ [];
  };
  calls = w.calls + 1 + 1;
}

pub append_pulled_ok :
    (env : Env) (s : Service) (w : World) {r : Service}
    → (append_pulled env s w).0 ≡ ok r
    → (r ≡ (pull_events s).1)
      × ((append_pulled env s w).1.db
          ≡ record w.db { outbox = w.db.outbox ++ outbox_rows env w.calls w.started s.events })
unfolding append_pulled pull_events
append_pulled_ok env s w h =
    let (u, first, rest) = bind_ok (append env s.events) _ w h in
    (
      sym (ok-injective (sym (ap (λ p. p.0) rest) ∙ h)),
      ap (λ (p : Result Service × World). p.1.db) rest ∙ append_ok env s.events w first,
    )

register_body_ok :
    (env : Env) (tenant : ℕ) (name : ServiceName) (s : Service) (w : World) {r : Service}
    → (register_body env tenant name s w).0 ≡ ok r
    → (any (row_clashes (row_of s)) w.db.services ≡ false)
      × (r ≡ (pull_events s).1)
      × ((register_body env tenant name s w).1.db ≡ registered env (w.calls + 1) w.started s w.db)
unfolding register_body pull_events
register_body_ok env tenant name s w h =
    let (u1, p1, q1, h1) =
      then_ok (check_name env tenant name) (λ _. insert env s >> append_pulled env s) w
        (record w { calls = w.calls + 1 }) (λ _ _. find_by_tenant_and_name_world env tenant name w)
        h in
    let v = after_insert env s (record w { calls = w.calls + 1 }) in
    let (u2, p2, q2, h2) =
      then_ok (insert env s) (λ _. append_pulled env s) (record w { calls = w.calls + 1 }) v
        (λ _ e. (insert_ok env s (record w { calls = w.calls + 1 }) e).1) h1 in
    let (same, db) = append_pulled_ok env s v h2 in
    (
      (insert_ok env s (record w { calls = w.calls + 1 }) p2).0,
      same,
      ap (λ (p : Result Service × World). p.1.db) (q1 ∙ q2) ∙ db,
    )

-- A service that RegisterService returns is the one that the input parses to; no row of the
-- database had its id, or its name in its tenant; and the database has gained exactly its row, its
-- first interval of ownership and the rows of its events.
pub register_service-commits :
    (env : Env) (i : RegisterServiceInput) (w : World) {r : Service}
    → (register_service env i w).0 ≡ ok r
    → (s : Service) × (parse_registration env w.calls i ≡ ok s)
      × (any (row_clashes (row_of s)) w.db.services ≡ false)
      × (r ≡ (pull_events s).1)
      × ((register_service env i w).1.db
          ≡ registered env (w.calls + 1 + 1) (env.now w.calls) s w.db)
unfolding register_service
register_service-commits env i w h =
    let (s, parsed, whole, h1) =
      then_ok (lift (parse_registration env w.calls i))
        (λ s. execute env (register_body env s.tenant_id s.name s)) w w (λ _ _. refl) h in
    let (ran, kept) = execute_ok env (register_body env s.tenant_id s.name s) w h1 in
    let (free, same, db) = register_body_ok env s.tenant_id s.name s (opened env w) ran in
    (s, parsed, free, same, ap (λ (p : Result Service × World). p.1.db) whole ∙ kept ∙ db)

-- A failed registration changes nothing, unless the answer to the commit was lost: then all of
-- the registration is there. No part of it is ever there alone.
pub register_service-fails :
    (env : Env) (i : RegisterServiceInput) (w : World) {e : GoError}
    → (register_service env i w).0 ≡ err e
    → ((register_service env i w).1.db ≡ w.db)
      ⊎ ((s : Service) × (parse_registration env w.calls i ≡ ok s)
          × (any (row_clashes (row_of s)) w.db.services ≡ false)
          × ((register_service env i w).1.db
              ≡ registered env (w.calls + 1 + 1) (env.now w.calls) s w.db))
unfolding register_service ◌>>=◌
register_service-fails env i w h = elim (Result-cases (parse_registration env w.calls i)) [
  | inr (x, p) ↦ inl (rw p)
  | inl (s, p) ↦
      let whole : register_service env i w
          ≡ execute env (register_body env s.tenant_id s.name s) w =
        rw p in
      elim (execute_err env (register_body env s.tenant_id s.name s) w
        (sym (ap (λ q. q.0) whole) ∙ h)) [
          | inl same ↦ inl (ap (λ (q : Result Service × World). q.1.db) whole ∙ same)
          | inr (r, ran, kept) ↦
              let (free, _, db) = register_body_ok env s.tenant_id s.name s (opened env w) ran in
              inr (s, p, free, ap (λ (q : Result Service × World). q.1.db) whole ∙ kept ∙ db)
        ]
]
