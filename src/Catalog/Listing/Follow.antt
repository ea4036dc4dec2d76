-- ===== src/Catalog/Listing/Follow.antt =====
-- A client that lists services page by page: ListServices with the cursor that the page before returned
-- (internal/modules/catalog/app/queries.go), until there is none.
use mathlib.Core.Path.{subst}
use mathlib.Core.List.{append_assoc}
use forge_platform.Base.{
  ℕ, zero, suc, ◌+◌, ◌<◌, String, ◌≡◌, refl, sym, ap, ◌∙◌, false, if◌then◌else◌, inl, inr, Option,
  some, none, List, [], ◌∷◌, ◌++◌, map, arith, str_eq, length, take, select, All, length-append,
  length-select-le,
}
use forge_platform.Base.Sorting.{sort_by, All-sort_by, Chain, sort_by-Chain, length-sort_by}
use forge_platform.Base.Paging.{select-All, All-append_right, IsConnected-select}
use forge_platform.Platform.{column_time, Env, IsUuidText, done}
use forge_platform.Apperr.{Result, ok, err}
use forge_platform.Db.{ServiceRow, World, rows}
use forge_platform.Catalog.Service.{Service}
use forge_platform.Catalog.Repository.{row_of}
use forge_platform.Catalog.Repository.Keys.{UniqueKeys}
use forge_platform.Catalog.Listing.{
  ListFilter, Codec, IsCodec, Cursor, matches, row_precedes, select_page, list, with_defaults,
  list_services, precedes, encode_cursor, start_of,
}
use forge_platform.Catalog.Listing.Order.{
  row_precedes-IsStrict, row_precedes-IsConnected, cursor_by,
}
use forge_platform.Catalog.Listing.Pages.{
  IsStored, Readable, services_of, with_defaults_limit, page_cases, list_page, start_of-cursor,
  select_page-cursor,
}

prepended : List Service → Option (Result (List Service)) → Option (Result (List Service))
prepended ss none = none
prepended ss (some (err e)) = some (err e)
prepended ss (some (ok ts)) = some (ok (ss ++ ts))

gathered :
    Result (List Service × String)
    → (String → Option (Result (List Service)))
    → Option (Result (List Service))
unfolding prepended
gathered (err e) next = some (err e)
gathered (ok (ss, cursor)) next =
    let rest = prepended ss (next cursor) in if str_eq cursor "" then some (ok ss) else rest

-- All pages from the one that `f` asks for, in at most `n` calls.
unfoldable pub follow : ℕ → Env → Codec → ListFilter → World → Option (Result (List Service))
unfolding gathered
follow zero env codec f w = none
follow (suc n) env codec f w =
    let (page, w') = list_services env codec f w in
    gathered page (λ cursor. follow n env codec (record f { cursor = cursor }) w')

shorter :
    (n : ℕ) (ps rest : List Service) (l : Service)
    → length (ps ++ l ∷ rest) < suc n
    → length rest < n
shorter n ps rest l h = omega (arith, length-append ps (l ∷ rest))

module _ (env : Env) (codec : Codec) (k : IsCodec env codec) (up : (n : ℕ) → env.outcome n ≡ done)
    (f : ListFilter) where
  -- The client is at a place in the listing: what it asks for next begins with the first of `ss`.
  abbrev IsAt : String → List Service → World → Type 0
  IsAt cursor ss w =
      let g = record (with_defaults f) { cursor = cursor } in
      (start : Option Cursor) × (start_of codec g ≡ ok start)
      × (select_page codec g start w.db ≡ rows (take (suc g.limit) (map row_of ss)) w.db)

  map_split :
      (ps rest : List Service) (l : Service)
      → map row_of (ps ++ l ∷ rest) ≡ map row_of ps ++ row_of l ∷ map row_of rest
  map_split [] rest l = refl
  map_split (p ∷ ps) rest l = ap (λ r. row_of p ∷ r) (map_split ps rest l)

  abbrev joined : ℕ → Result (List Service × String) × World → Option (Result (List Service))
  joined n (page, w) = gathered page (λ cursor. follow n env codec (record f { cursor = cursor }) w)

  follow_step :
      (n : ℕ) (cursor : String) (w : World)
      → follow (suc n) env codec (record f { cursor = cursor }) w
        ≡ joined n (list env codec (record (with_defaults f) { cursor = cursor }) w)
  unfolding follow list_services with_defaults
  follow_step n cursor w = refl

  joined_more :
      (n : ℕ) (cursor : String) (ps rest : List Service) (l : Service) (w : World)
      → str_eq cursor "" ≡ false
      → follow n env codec (record f { cursor = cursor }) w ≡ some (ok rest)
      → joined n (ok (ps ++ l ∷ [], cursor), w) ≡ some (ok (ps ++ l ∷ rest))
  unfolding gathered prepended
  joined_more n cursor ps rest l w h g =
      rw (h, g) (ap (λ ts. some (ok ts)) (append_assoc ps (l ∷ []) rest))

  -- A place after `l`, where its cursor leads.
  next_place :
      (cursor : String) (l : Service) (before : List ServiceRow) (rest : List Service) (w : World)
      → column_time l.created_at ≡ l.created_at
      → UniqueKeys w.db.services
      → sort_by
          (row_precedes codec (with_defaults f))
          (select (matches (with_defaults f)) w.db.services)
        ≡ before ++ row_of l ∷ map row_of rest
      → IsAt (encode_cursor env codec (record (with_defaults f) { cursor = cursor }) l) rest w
  unfolding precedes matches
  next_place cursor l before rest w whole u listing =
      let g = record (with_defaults f) { cursor = cursor } in
      let next = encode_cursor env codec g l in
      (
        some (cursor_by env codec g.sort g l),
        start_of-cursor env codec k g l,
        select_page-cursor env codec k (record g { cursor = next }) l before (map row_of rest) w.db
            whole u listing,
      )

  follow_from :
      (n : ℕ) (cursor : String) (before : List ServiceRow) (ss : List Service) (w : World)
      → UniqueKeys w.db.services
      → All (Readable env) ss
      → sort_by
          (row_precedes codec (with_defaults f))
          (select (matches (with_defaults f)) w.db.services)
        ≡ before ++ map row_of ss
      → IsAt cursor ss w
      → length ss < n
      → follow n env codec (record f { cursor = cursor }) w ≡ some (ok ss)
  unfolding gathered encode_cursor
  follow_from zero cursor before ss w u readable listing here enough = absurd (omega arith)
  follow_from (suc n) cursor before ss w u readable listing (start, started, found) enough =
      let g = record (with_defaults f) { cursor = cursor } in
      let w' = record w { calls = w.calls + 1 } in
      let (m, limit) = with_defaults_limit f in
      let page =
        follow_step n cursor w
        ∙ ap (joined n) (list_page env codec g start ss w (up w.calls) started found readable) in
      elim (page_cases env codec g m ss limit) [
        | inl last ↦ page ∙ ap (λ r. joined n (r, w')) last
        | inr (ps, l, rest, is, some_left, more) ↦
            let next = encode_cursor env codec g l in
            let listing' =
              listing
              ∙ ap (λ ts. before ++ map row_of ts) is
              ∙ ap (λ rs. before ++ rs) (map_split ps rest l)
              ∙ sym (append_assoc before (map row_of ps) (row_of l ∷ map row_of rest)) in
            let split = subst (All (Readable env)) is readable in
            let from_l = All-append_right (Readable env) ps (l ∷ rest) split in
            let ih =
              follow_from n next ((before ++ map row_of ps) ++ row_of l ∷ []) rest w' u from_l.1
                (listing'
                  ∙ sym (append_assoc (before ++ map row_of ps) (row_of l ∷ []) (map row_of rest)))
                (next_place cursor l (before ++ map row_of ps) rest w' from_l.0.1 u listing')
                (shorter n ps rest l (subst (λ ts. length ts < suc n) is enough)) in
            page
            ∙ ap (λ r. joined n (r, w')) more
            ∙ joined_more n next ps rest l w' (k.cursor_some (cursor_by env codec g.sort g l)) ih
            ∙ ap (λ ts. some (ok ts)) (sym is)
      ]

  first_place :
      (ss : List Service) (w : World)
      → sort_by
          (row_precedes codec (with_defaults f))
          (select (matches (with_defaults f)) w.db.services)
        ≡ map row_of ss
      → IsAt "" ss w
  unfolding start_of select_page precedes matches
  first_place ss w h = (none, refl, ap (λ rs. rows (take (suc (with_defaults f).limit) rs) w.db) h)

  length-map_row : (ss : List Service) → length (map row_of ss) ≡ length ss
  length-map_row [] = refl
  length-map_row (s ∷ ss) = ap suc (length-map_row ss)

  enough_calls :
      (n : ℕ) (ss : List Service) (rs : List ServiceRow)
      → sort_by (row_precedes codec (with_defaults f)) (select (matches (with_defaults f)) rs)
        ≡ map row_of ss
      → length rs < n
      → length ss < n
  enough_calls n ss rs h enough = omega (
    arith,
    sym (length-map_row ss)
        ∙ ap length (sym h)
        ∙ length-sort_by (row_precedes codec (with_defaults f))
            (select (matches (with_defaults f)) rs),
    length-select-le (matches (with_defaults f)) rs,
  )

  follow_start :
      (n : ℕ) (w : World)
      → IsUuidText env
      → UniqueKeys w.db.services
      → All IsStored w.db.services
      → length w.db.services < n
      → (ss : List Service) × (follow n env codec (record f { cursor = "" }) w ≡ some (ok ss))
        × (map row_of ss
            ≡ sort_by
                (row_precedes codec (with_defaults f))
                (select (matches (with_defaults f)) w.db.services))
  follow_start n w text u stored enough =
      let rs = w.db.services in
      let g = with_defaults f in
      let (ss, are_rows, readable) =
        services_of env (sort_by (row_precedes codec g) (select (matches g) rs)) text (
          All-sort_by (row_precedes codec g) IsStored (select (matches g) rs)
            (select-All IsStored (matches g) rs stored)) in
      (
        ss,
        follow_from n "" [] ss w u readable are_rows (first_place ss w are_rows)
            (enough_calls n ss rs are_rows enough),
        sym are_rows,
      )

-- Where the server answers every call and the table holds sound services under keys of their own, a
-- client that starts without a cursor and has a call more than the table has rows reads all pages: it
-- gets exactly the services that match the filter, each once, in the order of the sort (newest first
-- where the filter names none), whatever the page size.
pub follow-matching :
    (env : Env) (codec : Codec) (f : ListFilter) (n : ℕ) (w : World)
    → IsCodec env codec
    → ((i : ℕ) → env.outcome i ≡ done)
    → IsUuidText env
    → UniqueKeys w.db.services
    → All IsStored w.db.services
    → f.cursor ≡ ""
    → length w.db.services < n
    → (ss : List Service) × (follow n env codec f w ≡ some (ok ss))
      × (map row_of ss
          ≡ sort_by (row_precedes codec (with_defaults f)) (select (matches f) w.db.services))
      × Chain (row_precedes codec (with_defaults f)) (map row_of ss)
unfolding matches with_defaults
follow-matching env codec f n w k up text u stored at_start enough =
    let g = with_defaults f in
    let rs = w.db.services in
    let (ss, followed, listed) = follow_start env codec k up f n w text u stored enough in
    let chain =
      sort_by-Chain (row_precedes codec g) (row_precedes-IsStrict env codec k g)
        (select (matches g) rs)
        (IsConnected-select (row_precedes codec g) (matches g) rs
          (row_precedes-IsConnected env codec k g rs u)) in
    (
      ss,
      ap (λ c. follow n env codec (record f { cursor = c }) w) at_start ∙ followed,
      listed,
      subst (Chain (row_precedes codec g)) (sym listed) chain,
    )
