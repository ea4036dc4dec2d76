-- ===== src/Catalog/Repository/Reads.antt =====
-- The reads of internal/modules/catalog/adapters/postgres/repository.go: they change no table.
use forge_platform.Base.{ℕ, ◌+◌, ◌≡◌, ◌∙◌, find, ◌&&◌, ◌==◌, str_eq}
use forge_platform.Platform.{Env}
use forge_platform.Apperr.{wrapped}
use forge_platform.Db.{ServiceRow, World, to_go}
use forge_platform.Db.Steps.{query_read, bind_lift_world}
use forge_platform.Catalog.Values.{ServiceName}
use forge_platform.Catalog.Repository.{find_by_id, find_by_tenant_and_name, scan_row}

pub find_by_id_world :
    (env : Env) (id : ℕ) (w : World) → (find_by_id env id w).1 ≡ record w { calls = w.calls + 1 }
unfolding find_by_id
find_by_id_world env id w =
    bind_lift_world _ (scan_row env) w
    ∙ query_read env (λ e. wrapped "scan service" (to_go e))
        (λ db. find (λ (r : ServiceRow). r.id == id) db.services) w

pub find_by_tenant_and_name_world :
    (env : Env) (tenant : ℕ) (name : ServiceName) (w : World)
    → (find_by_tenant_and_name env tenant name w).1 ≡ record w { calls = w.calls + 1 }
unfolding find_by_tenant_and_name
find_by_tenant_and_name_world env tenant name w =
    bind_lift_world _ (scan_row env) w
    ∙ query_read env (λ e. wrapped "scan service" (to_go e))
        (λ db. find (λ (r : ServiceRow). r.tenant_id == tenant && str_eq r.name name.v) db.services)
        w
