-- ===== src/Catalog/Listing/Bounds.antt =====
-- How many services ListServices returns (app/queries.go, and the cut of repository.go).
use forge_platform.Base.{
  ◌≤◌, ◌<◌, String, ◌≡◌, sym, ap, ◌∙◌, Option, some, none, List, length, take, length-take, arith,
  ltb, Bool-cases, inl, inr,
}
use forge_platform.Base.Words.{mod64}
use forge_platform.Platform.{Env}
use forge_platform.Apperr.{ok}
use forge_platform.Db.{World}
use forge_platform.Db.Steps.{bind_ok}
use forge_platform.Catalog.Service.{Service}
use forge_platform.Catalog.Listing.{
  Codec, ListFilter, cut, cut_at, list, with_defaults, list_services,
}

cut_at_le :
    (env : Env) (codec : Codec) (g : ListFilter) (ss : List Service) (o : Option Service)
    {page : List Service × String}
    → cut_at env codec g ss o ≡ ok page
    → length page.0 ≤ g.limit
unfolding cut_at
cut_at_le env codec g ss none h = cc
cut_at_le env codec g ss (some l) {page} h =
    let same : take g.limit ss ≡ page.0 = cc in
    omega (arith, length-take g.limit ss, ap length same)

cut_le :
    (env : Env) (codec : Codec) (g : ListFilter) (ss : List Service) {page : List Service × String}
    → cut env codec g ss ≡ ok page
    → length page.0 ≤ g.limit
unfolding cut
cut_le env codec g ss {page} h = elim (Bool-cases (ltb g.limit (length ss))) [
  | inl e ↦ cut_at_le env codec g ss _ (rw e at h)
  | inr e ↦ let same : ss ≡ page.0 = cc in ground (arith, ap length same)
]

list_le :
    (env : Env) (codec : Codec) (g : ListFilter) (w : World) {page : List Service × String}
    → (list env codec g w).0 ≡ ok page
    → length page.0 ≤ g.limit
unfolding list
list_le env codec g w h =
    let (start, _, r1) = bind_ok _ _ w h in
    let (found, _, r2) = bind_ok _ _ _ (sym (ap (λ p. p.0) r1) ∙ h) in
    let (ss, _, r3) = bind_ok _ _ _ (sym (ap (λ p. p.0) (r1 ∙ r2)) ∙ h) in
    cut_le env codec g ss (sym (ap (λ p. p.0) (r1 ∙ r2 ∙ r3)) ∙ h)

with_defaults_le : (f : ListFilter) → f.limit < mod64 → (with_defaults f).limit ≤ 200
unfolding with_defaults
with_defaults_le f h = ground arith

-- A call returns at most 200 services.
pub list_services_le :
    (env : Env) (codec : Codec) (f : ListFilter) (w : World) {page : List Service × String}
    → f.limit < mod64
    → (list_services env codec f w).0 ≡ ok page
    → length page.0 ≤ 200
unfolding list_services
list_services_le env codec f w h g =
    omega (arith, list_le env codec (with_defaults f) w g, with_defaults_le f h)
