-- ===== src/Catalog/Listing/Order.antt =====
-- The order of a listing (repository.go, List): that of the rows under ORDER BY, and of a row and a cursor
-- under the row comparison of the WHERE clause.
use forge_platform.Base.{
  ◌≡◌, refl, sym, ◌∙◌, Bool, true, false, ◌||◌, any, List, [], ◌∷◌, arith, eq_iff, ◌==◌, some, All,
}
use forge_platform.Base.Sorting.{IsStrict, IsConnected}
use forge_platform.Platform.{column_time, Env}
use forge_platform.Db.{ServiceRow}
use forge_platform.Catalog.Repository.{row_clashes, row_of}
use forge_platform.Catalog.Repository.Keys.{UniqueKeys}
use forge_platform.Catalog.Service.{Service}
use forge_platform.Catalog.Listing.{
  SortField, no_sort, by_created_at, by_name, SortOrder, no_order, ascending, descending,
  ListFilter, Codec, IsCodec, Position, position, less, precedes, row_precedes, cursor_position,
  Cursor, sort_text, order_text,
}

-- Where the cursor of a service points: the position of its row, less the column that the sort does not use.
abbrev pub key : SortField → Position → Position
key by_name a = record { created_at = 0; name = a.name; id = a.id }
key _ a = record { created_at = a.created_at; name = ""; id = a.id }

abbrev pub cursor_by : Env → Codec → SortField → ListFilter → Service → Cursor
cursor_by env codec o f s = record {
  sort = sort_text f.sort;
  order = order_text f.order;
  value = elim o [ by_name ↦ s.name.v | _ ↦ codec.time_text s.created_at ];
  id = env.uuid_print s.id;
}

module _ (env : Env) (codec : Codec) (k : IsCodec env codec) where
  less_irrefl : (o : SortField) (a : Position) → less codec o a a ≡ false
  unfolding less
  less_irrefl no_sort a = ground arith
  less_irrefl by_created_at a = ground arith
  less_irrefl by_name a = ground (arith, k.collate_strict.irrefl a.name)

  names_trans :
      (a b c : Position)
      → less codec by_name a b ≡ true
      → less codec by_name b c ≡ true
      → less codec by_name a c ≡ true
  unfolding less
  names_trans a b c h g = ground (
    arith,
    k.collate_strict.trans a.name b.name c.name,
    eq_iff a.name b.name,
    eq_iff b.name c.name,
    eq_iff a.name c.name,
  )

  less_trans :
      (o : SortField) (a b c : Position)
      → less codec o a b ≡ true
      → less codec o b c ≡ true
      → less codec o a c ≡ true
  unfolding less
  less_trans no_sort a b c h g = ground arith
  less_trans by_created_at a b c h g = ground arith
  less_trans by_name a b c h g = names_trans a b c h g

  less_connected :
      (o : SortField) (a b : Position)
      → (a.id == b.id) ≡ false
      → (less codec o a b || less codec o b a) ≡ true
  unfolding less
  less_connected no_sort a b h = ground arith
  less_connected by_created_at a b h = ground arith
  less_connected by_name a b h =
      ground (arith, k.collate_apart a.name b.name, eq_iff a.name b.name, eq_iff b.name a.name)

  module _ (f : ListFilter) where
    -- `less`, in the direction of an order.
    abbrev directed : SortOrder → Position → Position → Bool
    directed no_order a b = less codec f.sort a b
    directed ascending a b = less codec f.sort a b
    directed descending a b = less codec f.sort b a

    precedes-directed :
        (o : SortOrder) (a b : Position)
        → elim o [ descending ↦ less codec f.sort b a | _ ↦ less codec f.sort a b ] ≡ directed o a b
    precedes-directed no_order a b = refl
    precedes-directed ascending a b = refl
    precedes-directed descending a b = refl

    precedes_eq : (a b : Position) → precedes codec f a b ≡ directed f.order a b
    unfolding precedes
    precedes_eq a b = precedes-directed f.order a b

    directed_irrefl : (o : SortOrder) (a : Position) → directed o a a ≡ false
    directed_irrefl no_order a = less_irrefl f.sort a
    directed_irrefl ascending a = less_irrefl f.sort a
    directed_irrefl descending a = less_irrefl f.sort a

    directed_trans :
        (o : SortOrder) (a b c : Position)
        → directed o a b ≡ true
        → directed o b c ≡ true
        → directed o a c ≡ true
    directed_trans no_order a b c h g = less_trans f.sort a b c h g
    directed_trans ascending a b c h g = less_trans f.sort a b c h g
    directed_trans descending a b c h g = less_trans f.sort c b a g h

    directed_connected :
        (o : SortOrder) (a b : Position)
        → (a.id == b.id) ≡ false
        → (directed o a b || directed o b a) ≡ true
    directed_connected no_order a b h = less_connected f.sort a b h
    directed_connected ascending a b h = less_connected f.sort a b h
    directed_connected descending a b h = less_connected f.sort b a (ground arith)

    -- The rows of a listing are strictly ordered.
    pub row_precedes-IsStrict : IsStrict (row_precedes codec f)
    row_precedes-IsStrict = record {
      irrefl = λ a. precedes_eq (position a) (position a) ∙ directed_irrefl f.order (position a);
      trans = λ a b c h g.
          precedes_eq (position a) (position c)
          ∙ directed_trans f.order (position a) (position b) (position c)
              (sym (precedes_eq (position a) (position b)) ∙ h)
              (sym (precedes_eq (position b) (position c)) ∙ g);
    }

    precedes_connected :
        (a b : Position)
        → (a.id == b.id) ≡ false
        → (precedes codec f a b || precedes codec f b a) ≡ true
    precedes_connected a b h =
        rw (precedes_eq a b, precedes_eq b a) (directed_connected f.order a b h)

    connects :
        (r : ServiceRow) (rs : List ServiceRow)
        → any (row_clashes r) rs ≡ false
        → All (λ q. (row_precedes codec f r q || row_precedes codec f q r) ≡ true) rs
    unfolding row_clashes
    connects r [] h = tt
    connects r (q ∷ rs) h =
        (precedes_connected (position r) (position q) (ground arith), connects r rs (ground arith))

    -- Rows with keys of their own can all be told apart by the order.
    pub row_precedes-IsConnected :
        (rs : List ServiceRow) → UniqueKeys rs → IsConnected (row_precedes codec f) rs
    row_precedes-IsConnected [] u = tt
    row_precedes-IsConnected (r ∷ rs) u = (connects r rs u.0, row_precedes-IsConnected rs u.1)

  cursor_position-cursor_by :
      (o : SortField) (f : ListFilter) (s : Service)
      → column_time s.created_at ≡ s.created_at
      → cursor_position codec o (cursor_by env codec o f s) ≡ some (key o (position (row_of s)))
  unfolding cursor_position
  cursor_position-cursor_by no_sort f s rest =
      rw (k.uuid_back s.id, k.time_back s.created_at, rest, cursor_position)
  cursor_position-cursor_by by_created_at f s rest =
      rw (k.uuid_back s.id, k.time_back s.created_at, rest, cursor_position)
  cursor_position-cursor_by by_name f s rest = rw (k.uuid_back s.id, cursor_position)

  -- The position that encodeCursor's cursor decodes to.
  pub cursor_position-cursor :
      (f : ListFilter) (s : Service)
      → column_time s.created_at ≡ s.created_at
      → cursor_position codec f.sort (cursor_by env codec f.sort f s)
        ≡ some (key f.sort (position (row_of s)))
  cursor_position-cursor f s rest = cursor_position-cursor_by f.sort f s rest

  less-key_left : (o : SortField) (a b : Position) → less codec o (key o a) b ≡ less codec o a b
  unfolding less
  less-key_left no_sort a b = refl
  less-key_left by_created_at a b = refl
  less-key_left by_name a b = refl

  less-key_right : (o : SortField) (a b : Position) → less codec o b (key o a) ≡ less codec o b a
  unfolding less
  less-key_right no_sort a b = refl
  less-key_right by_created_at a b = refl
  less-key_right by_name a b = refl

  -- The row comparison only reads the columns of the sort.
  pub precedes-key :
      (f : ListFilter) (a b : Position) → precedes codec f (key f.sort a) b ≡ precedes codec f a b
  precedes-key f a b = precedes_eq f (key f.sort a) b ∙ go f.order ∙ sym (precedes_eq f a b)
    where
      go : (o : SortOrder) → directed f o (key f.sort a) b ≡ directed f o a b
      go no_order = less-key_left f.sort a b
      go ascending = less-key_left f.sort a b
      go descending = less-key_right f.sort a b
