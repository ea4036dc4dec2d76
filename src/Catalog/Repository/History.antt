-- ===== src/Catalog/Repository/History.antt =====
-- The time-versioned ownership that recordOwnership keeps (internal/modules/catalog/adapters/postgres/repository.go).
use mathlib.Core.List.{append-nil}
use forge_platform.Base.{
  select-append, select_none, select_some, eq_iff, ℕ, ◌≤◌, ◌≡◌, refl, ap, ◌∙◌, ◌≢◌, Bool, true,
  List, [], ◌∷◌, ◌++◌, ◌&&◌, map, any, select, length, arith, ◌==◌, ==_refl, Bool-cases, inl, inr,
}
use forge_platform.Db.{OwnershipRow}
use forge_platform.Catalog.Service.{Service}
use forge_platform.Catalog.Repository.{interval_of, is_open, same_owner, close_row}
use forge_platform.Catalog.Repository.Updates.{recorded}

abbrev is_current : Service → OwnershipRow → Bool
is_current s r = is_open s.id r && same_owner s r

open-close_row : (s : Service) (r : OwnershipRow) → is_open s.id (close_row s r) ≡ is_current s r
unfolding close_row
open-close_row s r = ground arith

current-close_row : (s : Service) (r : OwnershipRow) → is_current s (close_row s r) ≡ is_current s r
unfolding close_row
current-close_row s r = ground arith

any-close :
    (s : Service) (h : List OwnershipRow)
    → any (is_current s) (map (close_row s) h) ≡ any (is_current s) h
any-close s [] = refl
any-close s (r ∷ h) = rw (current-close_row s r, any-close s h)

current_unchanged : (s : Service) (r : OwnershipRow) → is_current s r ≡ true → close_row s r ≡ r
unfolding close_row
current_unchanged s r h = ground arith

select-close :
    (s : Service) (h : List OwnershipRow)
    → select (is_open s.id) (map (close_row s) h) ≡ select (is_current s) h
select-close s [] = refl
select-close s (r ∷ h) = ground (arith, open-close_row s r, current_unchanged s r, select-close s h)

select_fewer :
    (s : Service) (h : List OwnershipRow)
    → length (select (is_current s) h) ≤ length (select (is_open s.id) h)
select_fewer s [] = omega arith
select_fewer s (r ∷ h) = ground (arith, select_fewer s h)

new_interval_open :
    (s : Service) (id : ℕ)
    → select (is_open s.id) (interval_of id s.updated_at s ∷ [])
      ≡ interval_of id s.updated_at s ∷ []
unfolding is_open
new_interval_open s id = rw (==_refl s.id)

none_left : (r : OwnershipRow) (rest : List OwnershipRow) → length (r ∷ rest) ≤ 1 → rest ≡ []
none_left r [] h = refl
none_left r (q ∷ rest) h = absurd (omega arith)

others-close :
    (s : Service) (other : ℕ) (h : List OwnershipRow)
    → other ≢ s.id
    → select (λ (r : OwnershipRow). r.service_id == other) (map (close_row s) h)
      ≡ select (λ (r : OwnershipRow). r.service_id == other) h
unfolding close_row
others-close s other [] ne = refl
others-close s other (r ∷ h) ne = ground (arith, others-close s other h ne)

-- If a service had at most one open interval of ownership, then after its owner was recorded it
-- has exactly one, and that names the owning team and the on-call reference that it now has.
pub recorded_current :
    (s : Service) (id : ℕ) (h : List OwnershipRow)
    → length (select (is_open s.id) h) ≤ 1
    → (r : OwnershipRow) × (select (is_open s.id) (recorded s id h) ≡ r ∷ [])
      × (r.owning_team ≡ s.ownership.owning_team)
      × (r.on_call_ref ≡ s.ownership.on_call_ref)
unfolding recorded
recorded_current s id h few = elim (Bool-cases (any (is_current s) h)) [
  | inl old ↦
      let (r, rest, chosen, current) = select_some (is_current s) h old in
      let alone : rest ≡ [] =
        none_left r rest (omega (arith, ap length chosen, select_fewer s h)) in
      rw (any-close s h, old)
        (
          r,
          select-close s h ∙ chosen ∙ ap (λ l. r ∷ l) alone,
          ground (arith, eq_iff r.owning_team s.ownership.owning_team),
          ground (arith, eq_iff r.on_call_ref s.ownership.on_call_ref),
        )
  | inr new ↦
      let fresh = interval_of id s.updated_at s in
      rw (any-close s h, new)
        (
          fresh,
          select-append (is_open s.id) (map (close_row s) h) (fresh ∷ [])
              ∙ ap (λ l. l ++ select (is_open s.id) (fresh ∷ []))
                  (select-close s h ∙ select_none (is_current s) h new)
              ∙ new_interval_open s id,
          refl,
          refl,
        )
]

-- The intervals of every other service stay as they are, in their order.
pub recorded_others :
    (s : Service) (id other : ℕ) (h : List OwnershipRow)
    → other ≢ s.id
    → select (λ r. r.service_id == other) (recorded s id h) ≡ select (λ r. r.service_id == other) h
unfolding recorded
recorded_others s id other h ne = elim (Bool-cases (any (is_current s) h)) [
  | inl old ↦ rw (any-close s h, old) (others-close s other h ne)
  | inr new ↦
      rw (any-close s h, new)
        (select-append (λ (r : OwnershipRow). r.service_id == other) (map (close_row s) h)
            (interval_of id s.updated_at s ∷ [])
          ∙ ground (
            arith,
            others-close s other h ne,
            append-nil (select (λ (r : OwnershipRow). r.service_id == other) h),
          ))
]
