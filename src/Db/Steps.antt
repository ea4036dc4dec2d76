-- ===== src/Db/Steps.antt =====
-- What a chain of actions that returned a value says of its parts.
use forge_platform.Base.{◌+◌, String, ◌≡◌, refl, sym, ap, ◌∙◌}
use forge_platform.Platform.{Env, Outcome, done, failed, lost}
use forge_platform.Apperr.{GoError, Result, ok, err}
use forge_platform.Db.{
  Db, World, DbError, Answer, rows, Statement, Act, ◌>>=◌, exec, query, continue, duplicate, lift,
  refused, settle, translate,
}

module _ {A B : Type 0} where
  continue_ok :
      (r : Result A) (f : A → Act B) (w : World) {b : B}
      → (continue r f w).0 ≡ ok b
      → (a : A) × (r ≡ ok a) × (continue r f w ≡ f a w)
  unfolding continue
  continue_ok (ok a) f w h = (a, refl, refl)
  continue_ok (err e) f w h = cc

  -- A chain returns a value only if its first step did, and is then the rest of the chain.
  pub bind_ok :
      (m : Act A) (f : A → Act B) (w : World) {b : B}
      → ((m >>= f) w).0 ≡ ok b
      → (a : A) × ((m w).0 ≡ ok a) × ((m >>= f) w ≡ f a (m w).1)
  unfolding ◌>>=◌
  bind_ok m f w h = continue_ok (m w).0 f (m w).1 h

settle_ok :
    {A : Type 0} (f : DbError → GoError) (o : Outcome) (t : String) (r : Answer A) (w : World)
    {a : A}
    → translate f (settle o t r w).0 ≡ ok a
    → (db : Db) × (r ≡ rows a db) × ((settle o t r w).1 ≡ record w { db = db; calls = w.calls + 1 })
unfolding translate settle
settle_ok f done t (rows b db) w h = (db, cc, refl)
settle_ok f done t duplicate w h = cc
settle_ok f done t refused w h = cc
settle_ok f failed t r w h = cc
settle_ok f lost t (rows b db) w h = cc
settle_ok f lost t duplicate w h = cc
settle_ok f lost t refused w h = cc

-- A statement that returned a value was carried out, and nothing else happened.
pub query_ok :
    {A : Type 0} (env : Env) (f : DbError → GoError) (stmt : Statement A) (w : World) {a : A}
    → (query env f stmt w).0 ≡ ok a
    → (db : Db) × (stmt w.db ≡ rows a db)
      × ((query env f stmt w).1 ≡ record w { db = db; calls = w.calls + 1 })
unfolding query exec
query_ok env f stmt w h =
    settle_ok f (env.outcome w.calls) (env.failure_text w.calls) (stmt w.db) w h

-- The first statement of a chain that returned a value, and the rest of the chain after it.
pub step_ok :
    {A B : Type 0} (env : Env) (f : DbError → GoError) (stmt : Statement A) (k : A → Act B)
    (w : World) {b : B}
    → ((query env f stmt >>= k) w).0 ≡ ok b
    → (a : A) × (db : Db) × (stmt w.db ≡ rows a db)
      × ((query env f stmt >>= k) w ≡ k a (record w { db = db; calls = w.calls + 1 }))
step_ok env f stmt k w h =
    let (a, first, rest) = bind_ok (query env f stmt) k w h in
    let (db, carried, next) = query_ok env f stmt w first in (a, db, carried, rest ∙ ap (k a) next)

settle_read :
    {A : Type 0} (o : Outcome) (t : String) (a : A) (w : World)
    → (settle o t (rows a w.db) w).1 ≡ record w { calls = w.calls + 1 }
unfolding settle
settle_read done t a w = refl
settle_read failed t a w = refl
settle_read lost t a w = refl

-- A statement that only reads changes no table, whatever becomes of its answer.
pub query_read :
    {A : Type 0} (env : Env) (f : DbError → GoError) (g : Db → A) (w : World)
    → (query env f (λ db. rows (g db) db) w).1 ≡ record w { calls = w.calls + 1 }
unfolding query exec
query_read env f g w = settle_read (env.outcome w.calls) (env.failure_text w.calls) (g w.db) w

-- Steps that cannot change the world.
pub bind_lift_world :
    {A B : Type 0} (m : Act A) (r : A → Result B) (w : World)
    → ((m >>= λ a w'. (r a, w')) w).1 ≡ (m w).1
unfolding ◌>>=◌
bind_lift_world {A = A} m r w = go (m w).0 (m w).1
  where
    go : (x : Result A) (v : World) → (continue x (λ a w'. (r a, w')) v).1 ≡ v
    go (ok a) v = refl
    go (err e) v = refl

-- A chain whose first step is known to leave the world `v` where it returns a value.
pub then_ok :
    {A B : Type 0} (m : Act A) (f : A → Act B) (w v : World)
    → ((a : A) → (m w).0 ≡ ok a → (m w).1 ≡ v)
    → {b : B} → ((m >>= f) w).0 ≡ ok b
    → (a : A) × ((m w).0 ≡ ok a) × ((m >>= f) w ≡ f a v) × ((f a v).0 ≡ ok b)
then_ok m f w v step h =
    let (a, first, rest) = bind_ok m f w h in
    let whole = rest ∙ ap (f a) (step a first) in (a, first, whole, sym (ap (λ p. p.0) whole) ∙ h)

-- A statement that is carried out and answered, and the rest of the chain after it.
pub step_done :
    {A B : Type 0} (env : Env) (f : DbError → GoError) (stmt : Statement A) (k : A → Act B)
    (w : World) {a : A} {db : Db}
    → env.outcome w.calls ≡ done
    → stmt w.db ≡ rows a db
    → (query env f stmt >>= k) w ≡ k a (record w { db = db; calls = w.calls + 1 })
unfolding query exec settle translate ◌>>=◌ continue
step_done env f stmt k w h g = rw (h, g) refl

-- A value of a result that is known, and the rest of the chain after it.
pub lift_ok :
    {A B : Type 0} (r : Result A) (k : A → Act B) (w : World) {a : A}
    → r ≡ ok a
    → (lift r >>= k) w ≡ k a w
unfolding ◌>>=◌ continue
lift_ok r k w h = rw h refl

pub query_done :
    {A : Type 0} (env : Env) (f : DbError → GoError) (stmt : Statement A) (w : World) {a : A}
    {db : Db}
    → env.outcome w.calls ≡ done
    → stmt w.db ≡ rows a db
    → query env f stmt w ≡ (ok a, record w { db = db; calls = w.calls + 1 })
unfolding query exec settle translate
query_done env f stmt w h g = rw (h, g) refl
