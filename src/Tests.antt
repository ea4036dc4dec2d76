-- ===== src/Tests.antt =====
-- A world for the examples, in which every call of the database succeeds, and examples of the theorems.
mod Codecs
mod ListingExamples
mod HttpExamples
mod AuthExamples
mod ReconcileExamples
mod MigrationExamples
mod ConfigExamples
mod CatalogExamples
mod DomainExamples
mod IdempotencyExamples
mod TenantExamples
mod SagaExamples
mod RelayExamples
mod ControllerExamples
use Prim.Native.String.{len, ◌++◌ as ◌⧺◌}
use text.Mathlib.TextPositions.{len-append}
use forge_platform.Base.{arith, ℕ, zero, suc, ◌+◌, ◌*◌, String, ◌≡◌, refl, ap, ◌∙◌, some, []}
use forge_platform.Platform.{Env, done, IsUuidText}
use forge_platform.Db.{Db, World}

-- Identifiers written as a number of strokes.
abbrev pub strokes : ℕ → String
strokes zero = ""
strokes (suc n) = "i" ⧺ strokes n

pub len-strokes : (n : ℕ) → len (strokes n) ≡ n
len-strokes zero = refl
len-strokes (suc n) = len-append "i" (strokes n) ∙ omega (arith, len-strokes n)

abbrev pub calm : Env
calm = record {
  uuid_parse = λ s. some (len s);
  uuid_print = strokes;
  fresh_uuid = λ n. n + 1;
  now = λ n. 1000 * (n + 1);
  outcome = λ n. done;
  failure_text = λ n. "";
}

pub calm-IsUuidText : IsUuidText calm
calm-IsUuidText = record { parse_print = λ u. ap some (len-strokes u) }

abbrev pub no_rows : Db
no_rows = record { services = []; history = []; tenants = []; outbox = []; idempotency = [] }

abbrev pub fresh_world : World
fresh_world = record { db = no_rows; calls = 0; started = 0 }
