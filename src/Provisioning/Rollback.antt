-- ===== src/Provisioning/Rollback.antt =====
-- The rollback of internal/provisioning/workflow.go: what a run that fails leaves in the systems.
use mathlib.Core.List.{reverse}
use mathlib.Core.Path.{subst}
use forge_platform.Base.{
  ℕ, String, ◌≡◌, refl, sym, ap, ◌∙◌, ◌≢◌, Bool, true, false, none, some, List, [], ◌∷◌, str_eq,
  eq_iff, arith, Bool-cases, drop, ◌⊎◌, inl, inr, All,
}
use forge_platform.Platform.{done, lost}
use forge_platform.Apperr.{GoError, plain, Result, ok, err, Result-cases}
use forge_platform.Provisioning.{
  Systems, put, Activity, create_namespace, delete_namespace, remove_quota, register_dns,
  deregister_dns, create_secret_path, delete_secret_path, finalize, apply_quota, run, Temporal, Run,
  execute_activity, undo, compensate, ProvisionTenantInput, ProvisionTenantResult, provision_tenant,
  guarded, unguarded,
}
use forge_platform.Provisioning.Saga.{after_done, after_failed, settle_cases, register_dns_ok}

-- The maps hold the same entries.
pub record SameSystems (p q : Systems) : Type 0 where
  pub namespaces : (j : String) → p.namespaces j ≡ q.namespaces j
  pub quotas : (j : String) → p.quotas j ≡ q.quotas j
  pub dns : (j : String) → p.dns j ≡ q.dns j
  pub secrets : (j : String) → p.secrets j ≡ q.secrets j

-- Nothing of a slug is in the systems.
pub record IsAbsent (slug : String) (p : Systems) : Type 0 where
  pub namespace : p.namespaces slug ≡ false
  pub quota : p.quotas slug ≡ none
  pub dns_entry : p.dns slug ≡ false
  pub secret : p.secrets slug ≡ false

abbrev pub is_compensation : Activity → Bool
is_compensation delete_namespace = true
is_compensation remove_quota = true
is_compensation deregister_dns = true
is_compensation delete_secret_path = true
is_compensation _ = false

-- Every compensation is carried out, and no activity takes effect and is reported as failed.
pub record IsReliable (t : Temporal) : Type 0 where
  pub compensations : (n : ℕ) (a : Activity) → is_compensation a ≡ true → t.outcome n a ≡ done
  pub not_lost : (n : ℕ) (a : Activity) → t.outcome n a ≢ lost

abbrev effects : Bool → String → List Activity → Systems → Systems
effects hook slug [] p = p
effects hook slug (a ∷ rest) p = effects hook slug rest (run hook slug a p).1

execute_done :
    (t : Temporal) (slug : String) (a : Activity) (r : Run)
    → t.outcome r.calls a ≡ done
    → (execute_activity t slug a r).1 ≡ after_done t slug a r
unfolding execute_activity
execute_done t slug a r h = elim (settle_cases t (t.outcome r.calls a) slug a r) [
  | inl (_, e) ↦ ap (λ p. p.1) e
  | inr (inl (f, _)) ↦ cc
  | inr (inr (f, _)) ↦ cc
]

undo-effects :
    (t : Temporal) (slug : String) (saga : List Activity) (r : Run)
    → IsReliable t
    → All (λ a. is_compensation a ≡ true) saga
    → (undo t slug saga r).systems ≡ effects t.fail_register_dns slug saga r.systems
unfolding undo
undo-effects t slug [] r u c = refl
undo-effects t slug (a ∷ rest) r u c =
    ap (λ (v : Run). (undo t slug rest v).systems)
      (execute_done t slug a r (u.compensations r.calls a c.0))
    ∙ undo-effects t slug rest (after_done t slug a r) u c.1

run_err :
    (hook : Bool) (slug : String) (a : Activity) (p : Systems) {e : GoError}
    → (run hook slug a p).0 ≡ err e
    → (run hook slug a p).1 ≡ p
unfolding run
run_err hook slug a p h = ground arith

-- How an activity ends in a reliable run.
abbrev Goes : Temporal → String → Activity → Run → Type 0
Goes t slug a r =
    (x : String) × ((run t.fail_register_dns slug a r.systems).0 ≡ ok x)
    × (execute_activity t slug a r ≡ (ok x, after_done t slug a r))

abbrev Stops : Temporal → String → Activity → Run → Type 0
Stops t slug a r =
    (e : GoError) × (r' : Run) × (r'.systems ≡ r.systems)
    × (execute_activity t slug a r ≡ (err e, r'))

executed :
    (t : Temporal) (slug : String) (a : Activity) (r : Run)
    → IsReliable t
    → Goes t slug a r ⊎ Stops t slug a r
unfolding execute_activity
executed t slug a r u = elim (settle_cases t (t.outcome r.calls a) slug a r) [
  | inr (inl (f, e)) ↦ inr (plain (t.error_text r.calls), after_failed a r, refl, e)
  | inr (inr (f, e)) ↦ absurd (u.not_lost r.calls a f)
  | inl (f, e) ↦ elim (Result-cases (run t.fail_register_dns slug a r.systems).0) [
    | inl (x, gave) ↦ inl (x, gave, e ∙ ap (λ y. (y, after_done t slug a r)) gave)
    | inr (x, gave) ↦ inr (
      x,
      after_done t slug a r,
      run_err t.fail_register_dns slug a r.systems gave,
      e ∙ ap (λ y. (y, after_done t slug a r)) gave,
    )
  ]
]

-- To prove something of a step: prove it of what follows a success, and of what an error leads to.
guarded_rule :
    {A : Type 0} (P : Result A × Run → Type 0) (t : Temporal) (slug : String) (saga : List Activity)
    (a : Activity) (r : Run) (k : String → Run → Result A × Run)
    → IsReliable t
    → ((x : String)
        → (run t.fail_register_dns slug a r.systems).0 ≡ ok x
        → P (k x (after_done t slug a r)))
    → ((e : GoError) (r' : Run) → r'.systems ≡ r.systems → P (compensate t slug saga e r'))
    → P (guarded t slug saga (execute_activity t slug a r) k)
unfolding guarded
guarded_rule P t slug saga a r k u go stop = elim (executed t slug a r u) [
  | inl (x, gave, e) ↦ subst (λ p. P (guarded t slug saga p k)) (sym e) (go x gave)
  | inr (x, r', same, e) ↦ subst (λ p. P (guarded t slug saga p k)) (sym e) (stop x r' same)
]

unguarded_rule :
    {A : Type 0} (P : Result A × Run → Type 0) (t : Temporal) (slug : String) (a : Activity)
    (r : Run) (k : String → Run → Result A × Run)
    → IsReliable t
    → ((x : String) → P (k x (after_done t slug a r)))
    → ((e : GoError) (r' : Run) → r'.systems ≡ r.systems → P (err e, r'))
    → P (unguarded (execute_activity t slug a r) k)
unfolding unguarded
unguarded_rule P t slug a r k u go stop = elim (executed t slug a r u) [
  | inl (x, gave, e) ↦ subst (λ p. P (unguarded p k)) (sym e) (go x)
  | inr (x, r', same, e) ↦ subst (λ p. P (unguarded p k)) (sym e) (stop x r' same)
]

abbrev RolledBack : {A : Type 0} → Systems → Result A × Run → Type 0
RolledBack p (ok x, r) = Unit
RolledBack p (err e, r) = SameSystems r.systems p

put_back :
    {A : Type 0} (k j : String) (v w : A) (m : String → A) → m k ≡ v → put k v (put k w m) j ≡ m j
put_back k j v w m h = elim (Bool-cases (str_eq j k)) [
  | inl e ↦ rw e (sym h) ∙ ap m (sym ((eq_iff j k).0 e))
  | inr e ↦ rw e refl
]

compensated :
    (A : Type 0) (t : Temporal) (slug : String) (saga : List Activity) (e : GoError) (p q : Systems)
    (r : Run)
    → IsReliable t
    → All (λ a. is_compensation a ≡ true) (reverse saga)
    → r.systems ≡ q
    → SameSystems (effects t.fail_register_dns slug (reverse saga) q) p
    → RolledBack {A = A} p (compensate t slug saga e r)
unfolding compensate
compensated A t slug saga e p q r u c is_q same =
    subst (λ (v : Systems). SameSystems v p)
      (sym (
        undo-effects t slug (reverse saga) r u c
        ∙ ap (effects t.fail_register_dns slug (reverse saga)) is_q))
      same

-- The systems once the namespace, the quota, the DNS entry and the secret path were made.
abbrev with_namespace : ProvisionTenantInput → Systems → Systems
with_namespace i p = record p { namespaces = put i.slug true p.namespaces }

abbrev with_quota : ProvisionTenantInput → Systems → Systems
with_quota i p =
    let q = with_namespace i p in record q { quotas = put i.slug (some i.max_services) q.quotas }

abbrev with_dns : ProvisionTenantInput → Systems → Systems
with_dns i p = let q = with_quota i p in record q { dns = put i.slug true q.dns }

abbrev with_secret : ProvisionTenantInput → Systems → Systems
with_secret i p = let q = with_dns i p in record q { secrets = put i.slug true q.secrets }

abbrev undo_all : List Activity
undo_all = delete_secret_path ∷ deregister_dns ∷ remove_quota ∷ delete_namespace ∷ []

-- Undoing as many of the steps as were made takes the systems back.
undone :
    (hook : Bool) (i : ProvisionTenantInput) (p : Systems)
    → IsAbsent i.slug p
    → SameSystems (effects hook i.slug (drop 3 undo_all) (with_namespace i p)) p
      × SameSystems (effects hook i.slug (drop 2 undo_all) (with_quota i p)) p
      × SameSystems (effects hook i.slug (drop 1 undo_all) (with_dns i p)) p
      × SameSystems (effects hook i.slug undo_all (with_secret i p)) p
unfolding run
undone hook i p c =
    let ns = λ (j : String). put_back i.slug j false true p.namespaces c.namespace in
    let qs = λ (j : String). put_back i.slug j none (some i.max_services) p.quotas c.quota in
    let ds = λ (j : String). put_back i.slug j false true p.dns c.dns_entry in
    let ss = λ (j : String). put_back i.slug j false true p.secrets c.secret in
    (
      record { namespaces = ns; quotas = λ j. refl; dns = λ j. refl; secrets = λ j. refl },
      record { namespaces = ns; quotas = qs; dns = λ j. refl; secrets = λ j. refl },
      record { namespaces = ns; quotas = qs; dns = ds; secrets = λ j. refl },
      record { namespaces = ns; quotas = qs; dns = ds; secrets = ss },
    )

rolls_back :
    (t : Temporal) (i : ProvisionTenantInput) (r : Run)
    → IsReliable t
    → IsAbsent i.slug r.systems
    → RolledBack r.systems (provision_tenant t i r)
unfolding provision_tenant run
rolls_back t i r u c =
    let s = i.slug in
    let hook = t.fail_register_dns in
    let p = r.systems in
    let P = RolledBack {A = ProvisionTenantResult} p in
    let (b1, b2, b3, b4) = undone hook i p c in
    let r1 = after_done t s create_namespace r in
    let r2 = after_done t s (apply_quota i.max_services) r1 in
    let r3 = after_done t s register_dns r2 in
    let r4 = after_done t s create_secret_path r3 in
    let stop = compensated ProvisionTenantResult t s in
    unguarded_rule P t s create_namespace r _ u
      (λ ns.
        guarded_rule P t s _ (apply_quota i.max_services) r1 _ u
          (λ _ _.
            guarded_rule P t s _ register_dns r2 _ u
              (λ fqdn gave.
                let dns_added = (register_dns_ok hook s r2.systems gave).1 in
                let secret_added =
                  ap {A = Systems} {B = Systems} (λ q. record q { secrets = put s true q.secrets })
                    dns_added in
                guarded_rule P t s _ create_secret_path r3 _ u
                  (λ _ _.
                    guarded_rule P t s _ finalize r4 _ u (λ _ _. tt)
                      (λ e r' same.
                        stop _ e p (with_secret i p) r' u (refl, (refl, (refl, (refl, tt))))
                          (same ∙ secret_added) b4))
                  (λ e r' same.
                    stop _ e p (with_dns i p) r' u (refl, (refl, (refl, tt))) (same ∙ dns_added)
                      b3))
              (λ e r' same. stop _ e p (with_quota i p) r' u (refl, (refl, tt)) same b2))
          (λ e r' same. stop _ e p (with_namespace i p) r' u (refl, tt) same b1))
      (λ e r' same.
        subst (λ v. SameSystems v p) (sym same)
          (record {
            namespaces = λ j. refl;
            quotas = λ j. refl;
            dns = λ j. refl;
            secrets = λ j. refl;
          }))

RolledBack-err :
    (A : Type 0) (p : Systems) (x : Result A × Run) {e : GoError}
    → RolledBack p x
    → x.0 ≡ err e
    → SameSystems x.1.systems p
RolledBack-err A p (ok x, r) h is_err = cc
RolledBack-err A p (err e, r) h is_err = h

-- Where every compensation is carried out, no activity takes effect that is reported as failed, and
-- nothing of the slug is in the systems, a run of the workflow that fails, at whichever step, leaves
-- the systems as it found them.
pub provision_tenant_rolls_back :
    (t : Temporal) (i : ProvisionTenantInput) (r : Run) {e : GoError}
    → IsReliable t
    → IsAbsent i.slug r.systems
    → (provision_tenant t i r).0 ≡ err e
    → SameSystems (provision_tenant t i r).1.systems r.systems
provision_tenant_rolls_back t i r u c h =
    RolledBack-err ProvisionTenantResult r.systems (provision_tenant t i r) (rolls_back t i r u c) h
