-- ===== src/Platform.antt =====
-- What the program takes from outside its repository: package uuid, the clock, random identifiers
-- and the answers of the database server.
use forge_platform.Base.{◌*◌, ◌/◌, arith, ℕ, String, Option, ◌≡◌, some}

-- How a call of the database server ends: it is carried out; it fails and has no effect; or it is
-- carried out and the client sees an error, as when the connection breaks before the answer.
pub data Outcome : Type 0 where
  done failed lost : Outcome

-- Everything is a function of a counter that each use advances, so a run is repeatable.
pub record Env : Type 0 where
  pub uuid_parse : String → Option ℕ  -- uuid.Parse
  pub uuid_print : ℕ → String  -- UUID.String
  pub fresh_uuid : ℕ → ℕ  -- id.New of internal/platform/id
  pub now : ℕ → ℕ  -- Clock.Now, in nanoseconds
  pub outcome : ℕ → Outcome
  pub failure_text : ℕ → String  -- the text of a driver error

-- Documented by package uuid: the printed form of an identifier parses back to it.
pub record IsUuidText (env : Env) : Type 0 where
  pub parse_print : (u : ℕ) → env.uuid_parse (env.uuid_print u) ≡ some u

-- What a TIMESTAMPTZ column holds of an instant: its resolution is the microsecond, and the driver sends
-- whole microseconds, rounded down.
unfoldable pub column_time : ℕ → ℕ
column_time t = t / 1000 * 1000

-- An instant that was read from a column is stored as it is.
pub column_time_idempotent : (t : ℕ) → column_time (column_time t) ≡ column_time t
unfolding column_time
column_time_idempotent t = omega arith
