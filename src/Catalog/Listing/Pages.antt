-- ===== src/Catalog/Listing/Pages.antt =====
-- One page of a listing (repository.go, List): what is cut off it, and the rows that its cursor leads to.
use forge_platform.Base.{
  ℕ, zero, suc, ◌+◌, ◌<◌, String, ◌≡◌, refl, sym, ap, ◌∙◌, Bool, true, false, ◌&&◌, if◌then◌else◌,
  ◌⊎◌, inl, inr, not, ◌||◌, Option, some, List, [], ◌∷◌, ◌++◌, map, arith, str_eq, eq_iff, ltb,
  length, take, get_elem?, select, All, Bool-cases,
}
use mathlib.Core.Path.{subst, ap₂}
use forge_platform.Base.Words.{slt64}
use forge_platform.Base.Sorting.{sort_by}
use forge_platform.Base.Paging.{select-after}
use forge_platform.Platform.{column_time, column_time_idempotent, Env, IsUuidText, done}
use forge_platform.Apperr.{ok}
use forge_platform.Db.{ServiceRow, Db, World, rows}
use forge_platform.Db.Steps.{lift_ok, step_done}
use forge_platform.Catalog.Service.{Service, pull_events}
use forge_platform.Catalog.Service.Invariant.{IsSound}
use forge_platform.Catalog.Repository.{row_of, scan_service}
use forge_platform.Catalog.Repository.Keys.{UniqueKeys}
use forge_platform.Catalog.Repository.RoundTrip.{scan-row_of, at_rest}
use forge_platform.Catalog.Listing.{
  ListFilter, Codec, IsCodec, Cursor, position, matches, precedes, row_precedes, select_page,
  scan_all, cut, list, with_defaults, encode_cursor, cut_at, start_of, decode_cursor,
  accepted_cursor, after_position, sort_text, order_text,
}
use forge_platform.Catalog.Listing.Order.{
  row_precedes-IsStrict, row_precedes-IsConnected, cursor_position-cursor, cursor_by, key,
  precedes-key,
}

-- A row of the table that holds a sound service.
abbrev pub IsStored : ServiceRow → Type 0
IsStored r = (s : Service) × (r ≡ row_of s) × IsSound s × (s.events ≡ [])

-- A service that its row reads as, with the time of its creation as the column holds it.
abbrev pub Readable : Env → Service → Type 0
Readable env s = (scan_service env (row_of s) ≡ ok s) × (column_time s.created_at ≡ s.created_at)

row_of-at_rest : (s : Service) → row_of (at_rest s) ≡ row_of s
row_of-at_rest s =
    rw (column_time_idempotent s.created_at, column_time_idempotent s.updated_at) refl

pull_nothing : (s : Service) → s.events ≡ [] → (pull_events s).1 ≡ s
unfolding pull_events
pull_nothing s h = ap (λ es. record s { events = es }) (sym h)

-- The services of stored rows.
pub services_of :
    (env : Env) (rs : List ServiceRow)
    → IsUuidText env
    → All IsStored rs
    → (ss : List Service) × (rs ≡ map row_of ss) × All (Readable env) ss
services_of env [] u h = ([], refl, tt)
services_of env (r ∷ rs) u h =
    let (s, is_row, sound, quiet) = h.0 in
    let (ss, are_rows, readable) = services_of env rs u h.1 in
    let back : scan_service env (row_of (at_rest s)) ≡ ok (at_rest s) =
      ap (scan_service env) (row_of-at_rest s)
      ∙ scan-row_of env s u sound
      ∙ ap (λ t. ok (at_rest t)) (pull_nothing s quiet) in
    (
      at_rest s ∷ ss,
      ap₂ (λ q qs. q ∷ qs) (is_row ∙ sym (row_of-at_rest s)) are_rows,
      ((back, column_time_idempotent s.created_at), readable),
    )

scan_all-take :
    (env : Env) (n : ℕ) (ss : List Service)
    → All (Readable env) ss
    → scan_all env (take n (map row_of ss)) ≡ ok (take n ss)
unfolding scan_all
scan_all-take env zero ss h = refl
scan_all-take env (suc n) [] h = refl
scan_all-take env (suc n) (s ∷ ss) h = rw (h.0.0, scan_all-take env n ss h.1)

positive_limit : (l : ℕ) → (m : ℕ) × ((if not (slt64 0 l) || slt64 200 l then 50 else l) ≡ suc m)
positive_limit zero = (49, refl)
positive_limit (suc l) = elim (Bool-cases (not (slt64 0 (suc l)) || slt64 200 (suc l))) [
  | inl e ↦ (49, rw e refl)
  | inr e ↦ (l, rw e refl)
]

pub with_defaults_limit : (f : ListFilter) → (m : ℕ) × ((with_defaults f).limit ≡ suc m)
unfolding with_defaults
with_defaults_limit f = positive_limit f.limit

-- One element more than `suc m` decides whether there are more: the last of the first `suc m`, or all of them.
split_at :
    (m : ℕ) (ss : List Service)
    → ((take (suc (suc m)) ss ≡ ss) × (ltb (suc m) (length (take (suc (suc m)) ss)) ≡ false))
      ⊎ ((ps : List Service) × (l : Service) × (rest : List Service) × (ss ≡ ps ++ l ∷ rest)
          × (0 < length rest)
          × (ltb (suc m) (length (take (suc (suc m)) ss)) ≡ true)
          × (get_elem? (take (suc (suc m)) ss) m ≡ some l)
          × (take (suc m) (take (suc (suc m)) ss) ≡ ps ++ l ∷ []))
split_at m [] = inl (refl, ground arith)
split_at zero (s ∷ []) = inl (refl, ground arith)
split_at zero (s ∷ t ∷ ss) = inr ([], s, t ∷ ss, refl, omega arith, ground arith, refl, refl)
split_at (suc m) (s ∷ ss) = elim (split_at m ss) [
  | inl (all, e) ↦ inl (ap (λ r. s ∷ r) all, ground arith)
  | inr (ps, l, rest, is, some_left, e, last, page) ↦
      inr (s ∷ ps, l, rest, ap (λ r. s ∷ r) is, some_left, ground arith, last, ap (λ r. s ∷ r) page)
]

-- A page is the last one, or its last service has others after it and is what its cursor names.
abbrev pub PageCases : Env → Codec → ListFilter → List Service → Type 0
PageCases env codec g ss =
    (cut env codec g (take (suc g.limit) ss) ≡ ok (ss, ""))
    ⊎ ((ps : List Service) × (l : Service) × (rest : List Service) × (ss ≡ ps ++ l ∷ rest)
        × (0 < length rest)
        × (cut env codec g (take (suc g.limit) ss)
            ≡ ok (ps ++ l ∷ [], encode_cursor env codec g l)))

PageCases-at :
    (env : Env) (codec : Codec) (g : ListFilter) (m : ℕ) (ss : List Service)
    → PageCases env codec (record g { limit = suc m }) ss
unfolding cut
PageCases-at env codec g m ss = elim (split_at m ss) [
  | inl (all, e) ↦ inl (rw (e, all) refl)
  | inr (ps, l, rest, is, some_left, e, last, page) ↦
      inr (ps, l, rest, is, some_left, rw (e, last, page, cut_at) refl)
]

pub page_cases :
    (env : Env) (codec : Codec) (g : ListFilter) (m : ℕ) (ss : List Service)
    → g.limit ≡ suc m
    → PageCases env codec g ss
page_cases env codec g m ss h =
    subst (λ g'. PageCases env codec g' ss) (ap (λ n. record g { limit = n }) (sym h))
      (PageCases-at env codec g m ss)

-- One call of List, where the SELECT answers with the first rows of `ss`.
pub list_page :
    (env : Env) (codec : Codec) (g : ListFilter) (start : Option Cursor) (ss : List Service)
    (w : World)
    → env.outcome w.calls ≡ done
    → start_of codec g ≡ ok start
    → select_page codec g start w.db ≡ rows (take (suc g.limit) (map row_of ss)) w.db
    → All (Readable env) ss
    → list env codec g w
      ≡ (cut env codec g (take (suc g.limit) ss), record w { calls = w.calls + 1 })
unfolding list
list_page env codec g start ss w h s q readable =
    lift_ok (start_of codec g) _ w s
    ∙ step_done env _ (select_page codec g start) _ w h q
    ∙ lift_ok (scan_all env (take (suc g.limit) (map row_of ss))) _
        (record w { calls = w.calls + 1 }) (scan_all-take env (suc g.limit) ss readable)

module _ (env : Env) (codec : Codec) (k : IsCodec env codec) where
  str_eq_refl : (t : String) → str_eq t t ≡ true
  str_eq_refl t = (eq_iff t t).1 refl

  -- The cursor of a page is accepted for the same sort and order.
  decode-encode_cursor :
      (g : ListFilter) (l : Service)
      → decode_cursor codec (encode_cursor env codec g l) g.sort g.order
        ≡ ok (cursor_by env codec g.sort g l)
  unfolding decode_cursor encode_cursor accepted_cursor
  decode-encode_cursor g l =
      rw
        (
          k.cursor_back (cursor_by env codec g.sort g l),
          str_eq_refl (sort_text g.sort),
          str_eq_refl (order_text g.order),
        )
        refl

  pub start_of-cursor :
      (g : ListFilter) (l : Service)
      → start_of codec (record g { cursor = encode_cursor env codec g l })
        ≡ ok (some (cursor_by env codec g.sort g l))
  unfolding start_of encode_cursor
  start_of-cursor g l =
      rw (k.cursor_some (cursor_by env codec g.sort g l), decode-encode_cursor g l) refl

  select_ext :
      (p q : ServiceRow → Bool) (rs : List ServiceRow)
      → ((r : ServiceRow) → p r ≡ q r)
      → select p rs ≡ select q rs
  select_ext p q [] h = refl
  select_ext p q (r ∷ rs) h = rw (h r, select_ext p q rs h) refl

  -- The rows after a cursor are those that follow its service in the listing.
  pub select_page-cursor :
      (g : ListFilter) (l : Service) (ps qs : List ServiceRow) (db : Db)
      → column_time l.created_at ≡ l.created_at
      → UniqueKeys db.services
      → sort_by (row_precedes codec g) (select (matches g) db.services) ≡ ps ++ row_of l ∷ qs
      → select_page codec g (some (cursor_by env codec g.sort g l)) db
        ≡ rows (take (suc g.limit) qs) db
  unfolding select_page after_position
  select_page-cursor g l ps qs db rest u h =
      let among = λ (r : ServiceRow).
        matches g r && precedes codec g (key g.sort (position (row_of l))) (position r) in
      let after = λ (r : ServiceRow). matches g r && row_precedes codec g (row_of l) r in
      let same = select_ext among after db.services (λ r.
        ap (λ b. matches g r && b)
          (precedes-key env codec k g (position (row_of l)) (position r))) in
      let found =
        select-after (row_precedes codec g) (matches g) db.services (row_of l) ps qs
          (row_precedes-IsStrict env codec k g)
          (row_precedes-IsConnected env codec k g db.services u) h in
      rw (cursor_position-cursor env codec k g l rest) (
        ap (λ rs. rows (take (suc g.limit) rs) db)
          (ap (sort_by (row_precedes codec g)) same ∙ found))
