-- ===== src/Catalog/Handlers/Filters/Bounds.antt =====
-- How many services the answer to GET /api/v1/services holds (List of api/handlers.go).
use forge_platform.Base.{
  ℕ, ◌≤◌, ◌<◌, String, ◌≡◌, refl, sym, ap, ◌∙◌, Option, some, none, List, [], ◌∷◌, map, length,
  arith, str_eq, Bool-cases, inl, inr,
}
use forge_platform.Base.Words.{mod64}
use forge_platform.Base.Decimal.{parse_int, parse_int_lt}
use forge_platform.Platform.{Env}
use forge_platform.Apperr.{Result, ok, err, ◌>>=◌ as ◌then_ok◌}
use forge_platform.Db.{World, ◌>>=◌, lift}
use forge_platform.Db.Steps.{bind_ok}
use forge_platform.Http.{Request, value, Page, answer}
use forge_platform.Catalog.Values.{parse_lifecycle}
use forge_platform.Http.Answers.{answered_value}
use forge_platform.Catalog.Service.{tenant_id_from_string}
use forge_platform.Catalog.Listing.{Codec, ListFilter, list_services}
use forge_platform.Catalog.Listing.Bounds.{list_services_le}
use forge_platform.Catalog.Handlers.{ServiceResponse, to_response}
use forge_platform.Catalog.Handlers.Filters.{
  given, present, limit_of, tier_of, sort_of, order_of, parse_list_filter, list_handler,
  page_answer,
}

limit_of_lt :
    (o : Option ℕ) {n : ℕ} → ((u : ℕ) → o ≡ some u → u < mod64) → limit_of o ≡ ok n → n < mod64
unfolding limit_of
limit_of_lt none b h = cc
limit_of_lt (some u) b h = ground (arith, b u refl)

given_limit_lt : (v : String) {n : ℕ} → given v 50 (limit_of (parse_int v)) ≡ ok n → n < mod64
given_limit_lt v h = elim (Bool-cases (str_eq v "")) [
  | inl e ↦ ground (arith, e)
  | inr e ↦ limit_of_lt (parse_int v) (λ u p. parse_int_lt v p) (rw e at h)
]

-- The first step of a chain of results that ends in a value.
first_ok :
    {A B : Type 0} (r : Result A) (k : A → Result B) {b : B}
    → (r then_ok k) ≡ ok b
    → (a : A) × (r ≡ ok a) × (k a ≡ ok b)
first_ok (ok a) k h = (a, refl, h)
first_ok (err e) k h = cc

limit_in : Result ListFilter → ℕ
limit_in (ok g) = g.limit
limit_in (err e) = 0

parsed_limit_lt :
    (env : Env) (r : Request) {f : ListFilter} → parse_list_filter env r ≡ ok f → f.limit < mod64
unfolding parse_list_filter limit_in
parsed_limit_lt env r {f} h =
    let (n, p, h1) =
      first_ok (given (r.parameter "limit") 50 (limit_of (parse_int (r.parameter "limit")))) _ h in
    let (t, _, h2) =
      first_ok
        (given (r.parameter "tenantId") none
          (present (tenant_id_from_string env (r.parameter "tenantId"))))
        _ h1 in
    let (l, _, h3) =
      first_ok
        (given (r.parameter "lifecycle") none (present (parse_lifecycle (r.parameter "lifecycle"))))
        _ h2 in
    let (i, _, h4) =
      first_ok
        (given (r.parameter "tier") none (present (tier_of (parse_int (r.parameter "tier"))))) _
        h3 in
    let (s, _, h5) = first_ok (sort_of (r.parameter "sort")) _ h4 in
    let (o, _, h6) = first_ok (order_of (r.parameter "order")) _ h5 in
    let same : n ≡ f.limit = ap limit_in h6 in
    omega (arith, given_limit_lt (r.parameter "limit") p, same)

length-map : {A B : Type 0} (f : A → B) (xs : List A) → length (map f xs) ≡ length xs
length-map f [] = refl
length-map f (x ∷ xs) = omega (arith, length-map f xs)

-- Whatever the parameters of a request, a page that it is answered with has at most 200 services.
pub list_handler_le :
    (env : Env) (codec : Codec) (r : Request) (w : World) {page : Page ServiceResponse}
    → (list_handler env codec r w).0.content ≡ value page
    → length page.items ≤ 200
unfolding list_handler answer
list_handler_le env codec r w {page} h =
    let ((ss, next), listed, same) =
      answered_value r (page_answer env)
        ((lift (parse_list_filter env r) >>= list_services env codec) w).0 h in
    let (f, parsed, rest) =
      bind_ok (lift (parse_list_filter env r)) (list_services env codec) w listed in
    let bound =
      list_services_le env codec f w (parsed_limit_lt env r parsed)
        (sym (ap (λ p. p.0) rest) ∙ listed) in
    let items : map (to_response env) ss ≡ page.items = cc in
    omega (arith, bound, length-map (to_response env) ss, ap length items)
