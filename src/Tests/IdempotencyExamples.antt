-- ===== src/Tests/IdempotencyExamples.antt =====
-- Examples of the theorems on the responses that are kept for retried requests.
use forge_platform.Base.{◌≢◌, ◌⊎◌, ◌≡◌, refl, some, none, Option, String, str_eq, if◌then◌else◌}
use forge_platform.Apperr.{ok}
use forge_platform.Db.{exec, query}
use forge_platform.Idempotency.{insert_cast, insert_response, save_response}
use forge_platform.Idempotency.Saves.{Kept, Unsaved, save_response-keeps}
use forge_platform.Tests.{calm, fresh_world}

-- A jsonb that takes the empty object and prints it with a space.
abbrev spaced : String → Option String
spaced t = if str_eq t "{}" then some "{ }" else none

first_saved : (save_response calm spaced "k1" "h1" 201 "{}" fresh_world).0 ≡ ok tt
unfolding exec query insert_cast insert_response save_response
first_saved = refl

save_response-keeps_example :
    (((save_response calm spaced "k1" "h1" 201 "{}" fresh_world).0 ≡ ok tt)
      × Kept spaced "k1" "k2" 201 "{}" fresh_world.db.idempotency
          (save_response calm spaced "k1" "h1" 201 "{}" fresh_world).1.db.idempotency)
    ⊎ (((save_response calm spaced "k1" "h1" 201 "{}" fresh_world).0 ≢ ok tt)
        × Unsaved calm spaced "{}" fresh_world)
save_response-keeps_example =
    save_response-keeps calm spaced "k1" "h1" 201 "{}" fresh_world "k2" refl
