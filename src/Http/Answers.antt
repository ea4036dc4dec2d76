-- ===== src/Http/Answers.antt =====
-- What the body of an answer says of the handler that made it (internal/platform/httpx/response.go).
use forge_platform.Base.{◌≡◌, refl}
use forge_platform.Apperr.{Result, ok, err}
use forge_platform.Db.{World, Act}
use forge_platform.Http.{
  Request, Response, Decoded, decoded, undecodable, value, answered, answer, decode, error_answer,
}

pub answered_value :
    {A B : Type 0} (r : Request) (respond : A → Response B) (x : Result A) {b : B}
    → (answered r respond x).content ≡ value b
    → (a : A) × (x ≡ ok a) × ((respond a).content ≡ value b)
unfolding answered error_answer
answered_value r respond (ok a) h = (a, refl, h)
answered_value r respond (err e) h = cc

pub answer_value :
    {A B : Type 0} (r : Request) (m : Act A) (respond : A → Response B) (w : World) {b : B}
    → (answer r m respond w).0.content ≡ value b
    → (a : A) × ((m w).0 ≡ ok a) × ((respond a).content ≡ value b)
unfolding answer
answer_value r m respond w h = answered_value r respond (m w).0 h

pub decode_value :
    {A B : Type 0} (r : Request) (body : Decoded B) (next : B → World → Response A × World)
    (w : World) {a : A}
    → (decode r body next w).0.content ≡ value a
    → (b : B) × ((next b w).0.content ≡ value a)
unfolding decode error_answer
decode_value r (decoded b) next w h = (b, h)
decode_value r (undecodable reason) next w h = cc
