-- ===== src/Catalog/Listing.antt =====
-- Listing services: List and its cursors in internal/modules/catalog/adapters/postgres/repository.go, and the
-- queries of app/queries.go over it.
pub mod Order
pub mod Pages
pub mod Follow
pub mod Bounds
use forge_platform.Base.{
  ℕ, zero, suc, String, ◌≡◌, Bool, true, false, not, ◌&&◌, ◌||◌, if◌then◌else◌, Option, none, some,
  List, [], ◌∷◌, str_eq, ◌==◌, ltb, select, take, length, get_elem?,
}
use forge_platform.Base.Words.{slt64}
use forge_platform.Base.Sorting.{sort_by, IsStrict}
use forge_platform.Platform.{Env}
use forge_platform.Apperr.{
  GoError, plain, wrapped, Result, ok, err, ◌>>=◌ as ◌then_ok◌, validation_error,
}
use forge_platform.Db.{ServiceRow, rows, refused, Statement, to_go, Act, ◌>>=◌, lift, query}
use forge_platform.Catalog.Values.{Lifecycle, lifecycle_text, Tier}
use forge_platform.Catalog.Service.{Service, service_id_from_string}
use forge_platform.Catalog.Repository.{scan_service, find_by_id}

-- SortField and SortOrder: the constants, and the zero value.
pub data SortField : Type 0 where
  no_sort by_created_at by_name : SortField

abbrev pub sort_text : SortField → String
sort_text no_sort = ""
sort_text by_created_at = "created_at"
sort_text by_name = "name"

pub data SortOrder : Type 0 where
  no_order ascending descending : SortOrder

abbrev pub order_text : SortOrder → String
order_text no_order = ""
order_text ascending = "asc"
order_text descending = "desc"

-- ListFilter; the limit is an int.
pub record ListFilter : Type 0 where
  pub tenant_id : Option ℕ
  pub lifecycle : Option Lifecycle
  pub tier : Option Tier
  pub sort : SortField
  pub order : SortOrder
  pub limit : ℕ
  pub cursor : String

-- cursor
pub record Cursor : Type 0 where
  pub sort : String
  pub order : String
  pub value : String
  pub id : String

-- What cursors and ORDER BY take from outside: a cursor as JSON in base64, and back; an instant as
-- text; what the server's casts to timestamptz and uuid read; and the server's order on texts.
pub record Codec : Type 0 where
  pub cursor_text : Cursor → String
  pub cursor_read : String → Option Cursor
  pub time_text : ℕ → String
  pub time_read : String → Option ℕ
  pub uuid_read : String → Option ℕ
  pub collate : String → String → Bool

-- Documented: what was encoded reads back as it was, a cursor is never the empty text, and the order
-- on texts is a strict order that tells different texts apart.
pub record IsCodec (env : Env) (codec : Codec) : Type 0 where
  pub cursor_back : (c : Cursor) → codec.cursor_read (codec.cursor_text c) ≡ some c
  pub cursor_some : (c : Cursor) → str_eq (codec.cursor_text c) "" ≡ false
  pub time_back : (t : ℕ) → codec.time_read (codec.time_text t) ≡ some t
  pub uuid_back : (u : ℕ) → codec.uuid_read (env.uuid_print u) ≡ some u
  pub collate_strict : IsStrict codec.collate
  pub collate_apart :
      (s t : String) → str_eq s t ≡ false → (codec.collate s t || codec.collate t s) ≡ true

-- encodeCursor
unfoldable pub encode_cursor : Env → Codec → ListFilter → Service → String
encode_cursor env codec f s = codec.cursor_text (record {
  sort = sort_text f.sort;
  order = order_text f.order;
  value = elim f.sort [ by_name ↦ s.name.v | _ ↦ codec.time_text s.created_at ];
  id = env.uuid_print s.id;
})

malformed : GoError
malformed = validation_error "INVALID_CURSOR" "cursor is malformed"

mismatched : GoError
mismatched = validation_error "INVALID_CURSOR" "cursor does not match the requested sort or order"

accepted_cursor : Option Cursor → SortField → SortOrder → Result Cursor
unfolding malformed mismatched
accepted_cursor none sort order = err malformed
accepted_cursor (some c) sort order =
    if not (str_eq c.sort (sort_text sort)) || not (str_eq c.order (order_text order))
    then err mismatched
    else ok c

-- decodeCursor
unfoldable pub decode_cursor : Codec → String → SortField → SortOrder → Result Cursor
unfolding accepted_cursor
decode_cursor codec encoded sort order = accepted_cursor (codec.cursor_read encoded) sort order

unfoldable pub equals {ℓ} : {A : Type ℓ} → (A → Bool) → Option A → Bool
equals test none = true
equals test (some a) = test a

-- The WHERE clauses of the filter.
unfoldable pub matches : ListFilter → ServiceRow → Bool
unfolding equals
matches f r =
    equals (λ (t : ℕ). r.tenant_id == t) f.tenant_id
    && equals (λ (l : Lifecycle). str_eq r.lifecycle (lifecycle_text l)) f.lifecycle
    && equals (λ (t : Tier). r.tier == t.v) f.tier

-- The columns that rows are ordered by.
pub record Position : Type 0 where
  pub created_at : ℕ
  pub name : String
  pub id : ℕ

abbrev pub position : ServiceRow → Position
position r = record { created_at = r.created_at; name = r.name; id = r.id }

-- (sort_col, id) < (sort_col, id)
unfoldable pub less : Codec → SortField → Position → Position → Bool
less codec by_name a b = codec.collate a.name b.name || (str_eq a.name b.name && ltb a.id b.id)
less codec by_created_at a b =
    ltb a.created_at b.created_at || (a.created_at == b.created_at && ltb a.id b.id)
less codec no_sort a b =
    ltb a.created_at b.created_at || (a.created_at == b.created_at && ltb a.id b.id)

-- Which of two positions comes first in the result: ASC or DESC on both columns.
unfoldable pub precedes : Codec → ListFilter → Position → Position → Bool
unfolding less
precedes codec f a b = elim f.order [
  | descending ↦ less codec f.sort b a
  | _ ↦ less codec f.sort a b
]

abbrev pub row_precedes : Codec → ListFilter → ServiceRow → ServiceRow → Bool
row_precedes codec f a b = precedes codec f (position a) (position b)

-- The position that a cursor names, after the casts; none where a cast fails.
unfoldable pub cursor_position : Codec → SortField → Cursor → Option Position
cursor_position codec by_name c = elim (codec.uuid_read c.id) [
  | none ↦ none
  | some u ↦ some (record { created_at = 0; name = c.value; id = u })
]
cursor_position codec _ c = elim (codec.uuid_read c.id) [
  | none ↦ none
  | some u ↦ elim (codec.time_read c.value) [
    | none ↦ none
    | some t ↦ some (record { created_at = t; name = ""; id = u })
  ]
]

-- The rows of a page and one more: WHERE …, ORDER BY …, LIMIT limit + 1.
abbrev pub page_rows : Codec → ListFilter → (ServiceRow → Bool) → List ServiceRow → List ServiceRow
page_rows codec f p rs = take (suc f.limit) (sort_by (row_precedes codec f) (select p rs))

after_position : Codec → ListFilter → Option Position → Statement (List ServiceRow)
after_position codec f none db = refused
after_position codec f (some p) db =
    rows (page_rows codec f (λ r. matches f r && precedes codec f p (position r)) db.services) db

-- The SELECT, from the start or from a cursor.
unfoldable pub select_page : Codec → ListFilter → Option Cursor → Statement (List ServiceRow)
unfolding after_position
select_page codec f none db = rows (page_rows codec f (matches f) db.services) db
select_page codec f (some c) db = after_position codec f (cursor_position codec f.sort c) db

-- The loop over rows.Next.
unfoldable pub scan_all : Env → List ServiceRow → Result (List Service)
scan_all env [] = ok []
scan_all env (r ∷ rs) = scan_service env r then_ok λ s. scan_all env rs then_ok λ ss. ok (s ∷ ss)

cut_at : Env → Codec → ListFilter → List Service → Option Service → Result (List Service × String)
cut_at env codec f ss none = err (plain "runtime error: index out of range")
cut_at env codec f ss (some last) = ok (take f.limit ss, encode_cursor env codec f last)

-- The page and the cursor of the next one. `services[f.Limit-1]` is out of range for a limit of 0,
-- which ListServices never passes on.
unfoldable pub cut : Env → Codec → ListFilter → List Service → Result (List Service × String)
unfolding cut_at
cut env codec f ss =
    let more = cut_at env codec f ss (elim f.limit [ zero ↦ none | suc n ↦ get_elem? ss n ]) in
    if ltb f.limit (length ss) then more else ok (ss, "")

unfoldable pub start_of : Codec → ListFilter → Result (Option Cursor)
start_of codec f =
    let given = decode_cursor codec f.cursor f.sort f.order then_ok λ c. ok (some c) in
    if str_eq f.cursor "" then ok none else given

-- Repository.List; an error of the rows that comes after the first is not told from one of the query.
unfoldable pub list : Env → Codec → ListFilter → Act (List Service × String)
unfolding start_of
list env codec f = do
  start ← lift (start_of codec f)
  found ← query env (λ e. wrapped "list services" (to_go e)) (select_page codec f start)
  services ← lift (scan_all env found)
  lift (cut env codec f services)

-- The defaults of ListServices.
unfoldable pub with_defaults : ListFilter → ListFilter
with_defaults f = record f {
  limit = if not (slt64 0 f.limit) || slt64 200 f.limit then 50 else f.limit;
  sort = elim f.sort [
    | no_sort ↦ by_created_at
    | by_created_at ↦ by_created_at
    | by_name ↦ by_name
  ];
  order = elim f.order [ no_order ↦ descending | ascending ↦ ascending | descending ↦ descending ];
}

-- ListServices
unfoldable pub list_services : Env → Codec → ListFilter → Act (List Service × String)
unfolding with_defaults
list_services env codec f = list env codec (with_defaults f)

-- GetService
unfoldable pub get_service : Env → String → Act Service
get_service env text = do id ← lift (service_id_from_string env text); find_by_id env id
