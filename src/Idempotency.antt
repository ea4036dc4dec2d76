-- ===== src/Idempotency.antt =====
-- The store of internal/platform/idempotency/idempotency.go: responses under the keys of their requests.
pub mod Saves
use forge_platform.Base.{
  ℕ, String, Bool, if◌then◌else◌, Option, none, some, [], ◌∷◌, ◌++◌, str_eq, any, find, ◌==◌,
}
use forge_platform.Platform.{Env}
use forge_platform.Apperr.{wrapped}
use forge_platform.Db.{IdempotencyRow, rows, duplicate, refused, Statement, to_go, Act, query}

-- Record
pub record Response : Type 0 where
  pub status : ℕ
  pub body : String

abbrev pub has_key : String → IdempotencyRow → Bool
has_key key r = str_eq r.idem_key key

abbrev pub response_of : Option IdempotencyRow → Option Response
response_of none = none
response_of (some r) = some (record { status = r.response_status; body = r.response_body })

-- Lookup: none where no row has the key.
unfoldable pub lookup_response : Env → String → Act (Option Response)
lookup_response env key =
    query env (λ e. wrapped "lookup idempotency key" (to_go e))
      (λ db. rows (response_of (find (has_key key) db.idempotency)) db)

-- The insertion of a row with the body that the cast gives, where it takes the text.
unfoldable pub insert_cast : IdempotencyRow → Option String → Statement (Unit {0})
insert_cast r none db = refused
insert_cast r (some body) db =
    if any (has_key r.idem_key) db.idempotency
    then rows tt db
    else if any (λ (q : IdempotencyRow). q.id == r.id) db.idempotency
    then duplicate
    else rows tt
        (record db { idempotency = db.idempotency ++ record r { response_body = body } ∷ [] })

-- INSERT … VALUES (…, $5::jsonb) ON CONFLICT (idem_key) DO NOTHING; another row with the identifier is an
-- error. `jsonb` is the cast of the server: the text as the column prints it, or none where it takes no such
-- text.
unfoldable pub insert_response : (String → Option String) → IdempotencyRow → Statement (Unit {0})
unfolding insert_cast
insert_response jsonb r = insert_cast r (jsonb r.response_body)

-- Save
unfoldable pub save_response :
    Env → (String → Option String) → String → String → ℕ → String → Act (Unit {0})
save_response env jsonb key request_hash status body w =
    query env (λ e. wrapped "save idempotency key" (to_go e))
      (insert_response jsonb (record {
        id = env.fresh_uuid w.calls;
        idem_key = key;
        request_hash = request_hash;
        response_status = status;
        response_body = body;
      }))
      w
