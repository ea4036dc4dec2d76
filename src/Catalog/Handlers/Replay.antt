-- ===== src/Catalog/Handlers/Replay.antt =====
-- A registration that is sent again under its Idempotency-Key (Register of api/handlers.go).
use forge_platform.Base.{
  ℕ, ◌+◌, String, ◌≡◌, refl, sym, ap, ◌∙◌, true, false, Option, some, none, List, [], ◌∷◌, ◌++◌,
  any, find, str_eq, eq_iff, ◌==◌, arith,
}
use forge_platform.Platform.{Env, done}
use forge_platform.Apperr.{Result, ok, err}
use forge_platform.Db.{World, Db, rows, IdempotencyRow}
use forge_platform.Db.Steps.{query_done}
use forge_platform.Idempotency
use forge_platform.Idempotency.{
  has_key, response_of, lookup_response, insert_cast, insert_response, save_response,
}
use forge_platform.Http.{Request, Response, value, error_answer}
use forge_platform.Catalog.Service.{Service}
use forge_platform.Catalog.Commands.{RegisterServiceInput, register_service}
use forge_platform.Catalog.Commands.Registering.{register_service-commits}
use forge_platform.Catalog.Handlers.{
  ServiceResponse, to_response, Coding, read, replay, created, remember, finish, looked_up,
  after_lookup, register_handler, is_keyed,
}

value-injective : {a b : ServiceResponse} → value a ≡ value b → a ≡ b
value-injective h = cc

find-snoc-key :
    (key : String) (row : IdempotencyRow) (qs : List IdempotencyRow)
    → response_of (find (has_key key) qs) ≡ none
    → has_key key row ≡ true
    → (any (has_key key) qs ≡ false) × (find (has_key key) (qs ++ row ∷ []) ≡ some row)
find-snoc-key key row [] h k = (refl, rw k refl)
find-snoc-key key row (q ∷ qs) h k = ground (arith, find-snoc-key key row qs)

inserted_row :
    (jsonb : String → Option String) (row : IdempotencyRow) (db : Db) {body : String}
    → jsonb row.response_body ≡ some body
    → any (has_key row.idem_key) db.idempotency ≡ false
    → any (λ (q : IdempotencyRow). q.id == row.id) db.idempotency ≡ false
    → insert_response jsonb row db
      ≡ rows tt
          (record db { idempotency = db.idempotency ++ record row { response_body = body } ∷ [] })
unfolding insert_response insert_cast
inserted_row jsonb row db {body} takes free fresh =
    ap (λ o. insert_cast row o db) takes ∙ rw (free, fresh) refl

module _ (env : Env) (up : (n : ℕ) → env.outcome n ≡ done) where
  looked_up_at :
      (r : Request) (w : World)
      → str_eq (r.header "Idempotency-Key") "" ≡ false
      → looked_up env true r w ≡ (
        ok (response_of (find (has_key (r.header "Idempotency-Key")) w.db.idempotency)),
        record w { calls = w.calls + 1 },
      )
  unfolding looked_up is_keyed lookup_response
  looked_up_at r w h = rw h (
      query_done env _
        (λ db. rows (response_of (find (has_key (r.header "Idempotency-Key")) db.idempotency)) db) w
        (up w.calls) refl)

  -- A registration that was answered with a service found no record, and RegisterService returned a
  -- service with that response.
  finish-created :
      (c : Coding) (r : Request) (body : String) (p : Result Service × World) (s : Service)
      → (finish env c true r body p).0 ≡ created env s
      → (s' : Service) × (p.0 ≡ ok s')
        × (to_response env s' ≡ to_response env s)
        × ((finish env c true r body p).1 ≡ remember env c true r body s' p.1)
  unfolding finish error_answer
  finish-created c r body (err e, w) s h = cc
  finish-created c r body (ok s', w) s h =
      (s', refl, value-injective (ap (λ (x : Response ServiceResponse). x.content) h), refl)

  after_lookup-created :
      (c : Coding) (r : Request) (body : String) (i : RegisterServiceInput)
      (o : Option Idempotency.Response) (w : World) (s : Service)
      → (after_lookup env c true r body i (ok o, w)).0 ≡ created env s
      → (o ≡ none)
        × (after_lookup env c true r body i (ok o, w)
            ≡ finish env c true r body (register_service env i w))
  unfolding after_lookup
  after_lookup-created c r body i none w s h = (refl, refl)
  after_lookup-created c r body i (some rec) w s h = cc

  -- A save that is carried out where the key has no record leaves one.
  remembered :
      (c : Coding) (r : Request) (body printed : String) (s : Service) (w : World)
      → c.jsonb (c.json_text (to_response env s)) ≡ some printed
      → str_eq (r.header "Idempotency-Key") "" ≡ false
      → response_of (find (has_key (r.header "Idempotency-Key")) w.db.idempotency) ≡ none
      → any (λ (q : IdempotencyRow). q.id == env.fresh_uuid w.calls) w.db.idempotency ≡ false
      → response_of (
          find
            (has_key (r.header "Idempotency-Key"))
            (remember env c true r body s w).db.idempotency)
        ≡ some (record { status = 201; body = printed })
  unfolding remember is_keyed save_response
  remembered c r body printed s w takes h unknown fresh =
      let key = r.header "Idempotency-Key" in
      let row : IdempotencyRow = record {
        id = env.fresh_uuid w.calls;
        idem_key = key;
        request_hash = c.sha256 body;
        response_status = 201;
        response_body = c.json_text (to_response env s);
      } in
      let (free, there) =
        find-snoc-key key (record row { response_body = printed }) w.db.idempotency unknown
          ((eq_iff key key).1 refl) in
      let inserted = inserted_row c.jsonb row w.db takes free fresh in
      rw h (
        rw (query_done env _ (insert_response c.jsonb row) w (up w.calls) inserted) (rw there refl))

-- Where the server answers every call, random identifiers are new and jsonb takes the JSON text of the
-- response: once a registration with an Idempotency-Key has been answered with the service that it
-- created, any request for a registration with that key, whatever its body says, is answered from the
-- store with status 201, the header Idempotency-Replayed and the same response, as jsonb prints it, and
-- changes no table.
pub register_handler-replay :
    (env : Env) (c : Coding) (r again : Request) (body other printed : String)
    (i j : RegisterServiceInput) (w : World) (s : Service)
    → ((n : ℕ) → env.outcome n ≡ done)
    → ((n : ℕ) → any (λ (q : IdempotencyRow). q.id == env.fresh_uuid n) w.db.idempotency ≡ false)
    → str_eq (r.header "Idempotency-Key") "" ≡ false
    → again.header "Idempotency-Key" ≡ r.header "Idempotency-Key"
    → (register_handler env c true r (read body (some i)) w).0 ≡ created env s
    → c.jsonb (c.json_text (to_response env s)) ≡ some printed
    → let after = (register_handler env c true r (read body (some i)) w).1 in
      register_handler env c true again (read other (some j)) after
      ≡ (replay (record { status = 201; body = printed }), record after { calls = after.calls + 1 })
unfolding register_handler after_lookup
register_handler-replay env c r again body other printed i j w s up fresh keyed same first takes =
    let key = r.header "Idempotency-Key" in
    let w0 : World = record w { calls = w.calls + 1 } in
    let looked = looked_up_at env up r w keyed in
    let found = response_of (find (has_key key) w.db.idempotency) in
    let start = ap (after_lookup env c true r body i) looked in
    let (unknown, went_on) =
      after_lookup-created env up c r body i found w0 s (sym (ap (λ p. p.0) start) ∙ first) in
    let (made, returned, response, world) =
      finish-created env up c r body (register_service env i w0) s
        (sym (ap (λ p. p.0) (start ∙ went_on)) ∙ first) in
    let v = (register_service env i w0).1 in
    let (_, _, _, _, committed) = register_service-commits env i w0 returned in
    let kept : v.db.idempotency ≡ w.db.idempotency = ap (λ (d : Db). d.idempotency) committed in
    let record_there =
      remembered env up c r body printed made v (ap (λ x. c.jsonb (c.json_text x)) response ∙ takes)
        keyed (ap (λ rs. response_of (find (has_key key) rs)) kept ∙ unknown)
        (ap (λ rs. any (λ (q : IdempotencyRow). q.id == env.fresh_uuid v.calls) rs) kept
          ∙ fresh v.calls) in
    let after = (register_handler env c true r (read body (some i)) w).1 in
    let is_after : after ≡ remember env c true r body made v =
      ap (λ p. p.1) (start ∙ went_on) ∙ world in
    let there =
      ap (λ (u : World). response_of (find (has_key key) u.db.idempotency)) is_after
      ∙ record_there in
    ap (after_lookup env c true again other j) (
      looked_up_at env up again after (ap (λ k. str_eq k "") same ∙ keyed)
      ∙ ap
          (λ k. (
            ok (response_of (find (has_key k) after.db.idempotency)),
            record after { calls = after.calls + 1 },
          ))
          same
      ∙ ap (λ x. (ok x, record after { calls = after.calls + 1 })) there)
