-- ===== src/Catalog/Repository/Keys.antt =====
-- The keys of catalog_services (migrations/0001_catalog.up.sql): no two rows share an id, or a name in one
-- tenant, and what the statements of the repository make of that.
use mathlib.Core.Path.{ap₂}
use forge_platform.Base.{
  ℕ, ◌<◌, ◌≡◌, refl, ◌∙◌, Bool, true, false, some, List, [], ◌∷◌, ◌++◌, ◌||◌, arith, any, find,
  select, length, ◌==◌, ==_iff, Bool-cases, inl, inr, eq_iff, if◌then◌else◌,
}
use forge_platform.Db.{ServiceRow}
use forge_platform.Catalog.Service.{Service}
use forge_platform.Catalog.Repository.{is_target, assign, update_rows, row_clashes}

-- The primary key and catalog_services_tenant_name_unique, as an invariant of the table.
abbrev pub UniqueKeys : List ServiceRow → Type 0
UniqueKeys [] = Unit
UniqueKeys (r ∷ rs) = (any (row_clashes r) rs ≡ false) × UniqueKeys rs

row_clashes_symm : (r q : ServiceRow) → row_clashes r q ≡ row_clashes q r
unfolding row_clashes
row_clashes_symm r q = ground (arith, eq_iff r.name q.name, eq_iff q.name r.name)

any_snoc :
    (r q : ServiceRow) (rs : List ServiceRow)
    → any (row_clashes r) rs ≡ false
    → row_clashes q r ≡ false
    → any (row_clashes r) (rs ++ q ∷ []) ≡ false
any_snoc r q [] h c = rw (row_clashes_symm r q, c)
any_snoc r q (p ∷ rs) h c = ground (arith, any_snoc r q rs)

-- A row that clashes with none joins them.
pub UniqueKeys-snoc :
    (r : ServiceRow) (rs : List ServiceRow)
    → UniqueKeys rs
    → any (row_clashes r) rs ≡ false
    → UniqueKeys (rs ++ r ∷ [])
UniqueKeys-snoc r [] u h = (refl, tt)
UniqueKeys-snoc r (q ∷ rs) u h =
    (any_snoc q r rs u.0 (ground arith), UniqueKeys-snoc r rs u.1 (ground arith))

module _ (s : Service) (v : ℕ) where
  abbrev set_row : ServiceRow → ServiceRow
  set_row r = if is_target s.id v r then assign s r else r

  clashes-set_row : (r q : ServiceRow) → row_clashes (set_row r) (set_row q) ≡ row_clashes r q
  unfolding row_clashes
  clashes-set_row r q = ground arith

  any-update_rows :
      (r : ServiceRow) (rs : List ServiceRow)
      → any (row_clashes (set_row r)) (update_rows s v rs) ≡ any (row_clashes r) rs
  unfolding update_rows
  any-update_rows r [] = refl
  any-update_rows r (q ∷ rs) = ap₂ (λ x y. x || y) (clashes-set_row r q) (any-update_rows r rs)

  -- An UPDATE changes no key.
  pub UniqueKeys-update_rows :
      (rs : List ServiceRow) → UniqueKeys rs → UniqueKeys (update_rows s v rs)
  unfolding update_rows
  UniqueKeys-update_rows [] u = tt
  UniqueKeys-update_rows (r ∷ rs) u = (any-update_rows r rs ∙ u.0, UniqueKeys-update_rows rs u.1)

pub find-some {ℓ} :
    {A : Type ℓ} (p : A → Bool) (xs : List A) {x : A} → find p xs ≡ some x → p x ≡ true
find-some p [] h = cc
find-some p (y ∷ xs) h = elim (Bool-cases (p y)) [
  | inl here ↦ ground (arith, here)
  | inr later ↦ find-some p xs (rw later at h)
]

not-any-target :
    (id v : ℕ) (r : ServiceRow) (rs : List ServiceRow)
    → r.id ≡ id
    → any (row_clashes r) rs ≡ false
    → select (is_target id v) rs ≡ []
unfolding is_target row_clashes
not-any-target id v r [] e h = refl
not-any-target id v r (q ∷ rs) e h = ground (arith, not-any-target id v r rs e)

first_target :
    (id v : ℕ) (q : ServiceRow) (rs : List ServiceRow) {r : ServiceRow}
    → (q.id == id) ≡ true
    → select (is_target id v) rs ≡ []
    → 0 < length (select (is_target id v) (q ∷ rs))
    → some q ≡ some r
    → r.version ≡ v
unfolding is_target
first_target id v q rs here gone h f = ground arith

later_target :
    (id v : ℕ) (q : ServiceRow) (rs : List ServiceRow)
    → (q.id == id) ≡ false
    → 0 < length (select (is_target id v) (q ∷ rs))
    → 0 < length (select (is_target id v) rs)
unfolding is_target
later_target id v q rs later h = ground arith

-- The one row with an id has the version that a row with that id has.
pub target_version :
    (id v : ℕ) (rs : List ServiceRow) {r : ServiceRow}
    → UniqueKeys rs
    → find (λ (q : ServiceRow). q.id == id) rs ≡ some r
    → 0 < length (select (is_target id v) rs)
    → r.version ≡ v
target_version id v [] u f h = cc
target_version id v (q ∷ rs) {r} u f h = elim (Bool-cases (q.id == id)) [
  | inl here ↦
      let gone = not-any-target id v q rs ((==_iff q.id id).0 here) u.0 in
      first_target id v q rs here gone h (rw here at f)
  | inr later ↦ target_version id v rs u.1 (rw later at f) (later_target id v q rs later h)
]
