-- ===== src/Migrations.antt =====
-- The migrations runner: internal/platform/postgres/migrate.go.
pub mod Prefix
use Prim.Native.Char.{code}
use Prim.Native.String.{◌++◌ as ◌⧺◌}
use forge_platform.Base.{
  ℕ, ◌+◌, String, Bool, true, false, not, ◌||◌, if◌then◌else◌, Option, none, some, List, [], ◌∷◌,
  ◌++◌, str_eq, ◌==◌, any, take,
}
use forge_platform.Base.Words.{slt64}
use forge_platform.Base.Decimal.{parse_int}
use forge_platform.Base.Sorting.{sort_by}
use forge_platform.Platform.{Env, Outcome, done, failed, lost}
use forge_platform.Apperr.{GoError, plain, wrapped, Result, ok, err, ◌>>=◌ as ◌then_ok◌}

pub record Migration : Type 0 where
  pub version : ℕ
  pub name : String

-- schema_migrations, and the files whose statements have taken effect.
pub record Schema : Type 0 where
  pub versions : List ℕ
  pub applied : List Migration

-- The schema and the number of calls of the server so far.
pub record Journal : Type 0 where
  pub schema : Schema
  pub calls : ℕ

-- strings.HasSuffix
unfoldable pub has_suffix : String → String → Bool
has_suffix suffix String.[] = str_eq "" suffix
has_suffix suffix (String.◌∷◌ c s) = str_eq (String.◌∷◌ c s) suffix || has_suffix suffix s

-- name[:idx] for the first '_' of a name; none where there is none.
unfoldable pub before_underscore : String → Option String
before_underscore String.[] = none
before_underscore (String.◌∷◌ c s) =
    let rest : Option String = elim (before_underscore s) [
      | none ↦ none
      | some t ↦ some (String.◌∷◌ c t)
    ] in
    if code c == b'_' then some "" else rest

misnamed : (String → String) → String → GoError
misnamed quote name = plain ("migration " ⧺ (quote name ⧺ " must be named <version>_<desc>.up.sql"))

numbered : (String → String) → String → Option ℕ → Result ℕ
numbered quote name none =
    err (
      wrapped ("migration " ⧺ (quote name ⧺ " has non-numeric version")) (plain "strconv.ParseInt"))
numbered quote name (some v) = ok v

version_of : (String → String) → String → Option String → Result ℕ
unfolding misnamed numbered
version_of quote name none = err (misnamed quote name)
version_of quote name (some prefix) =
    let read = numbered quote name (parse_int prefix) in
    if str_eq prefix "" then err (misnamed quote name) else read

-- parseVersion; `quote` is the verb %q.
unfoldable pub parse_version : (String → String) → String → Result ℕ
unfolding version_of
parse_version quote name = version_of quote name (before_underscore name)

-- The loop over the directory: the files whose versions were not among those that were read.
unfoldable pub pending_of : (String → String) → List ℕ → List String → Result (List Migration)
pending_of quote seen [] = ok []
pending_of quote seen (name ∷ names) =
    let rest = pending_of quote seen names in
    let here = parse_version quote name then_ok λ v. rest then_ok λ ms.
    ok (if any (λ (u : ℕ). u == v) seen then ms else record { version = v; name = name } ∷ ms) in
    if has_suffix ".up.sql" name then here else rest

-- sort.Slice by version
abbrev pub in_order : List Migration → List Migration
in_order = sort_by (λ (a : Migration) b. slt64 a.version b.version)

is_done : Outcome → Bool
is_done done = true
is_done failed = false
is_done lost = false

-- A call whose effect, if it has one, is undone with its transaction: whether it is reported as done.
unfoldable pub call : Env → Journal → Bool × Journal
unfolding is_done
call env j = (is_done (env.outcome j.calls), record j { calls = j.calls + 1 })

abbrev pub with_migration : Migration → Schema → Schema
with_migration m s = record {
  versions = s.versions ++ m.version ∷ [];
  applied = s.applied ++ m ∷ [];
}

-- Commit: it is carried out, or not, or carried out and reported as failed.
commit_at : Outcome → Migration → Journal → Result (Unit {0}) × Journal
commit_at done m j = (ok tt, record { schema = with_migration m j.schema; calls = j.calls + 1 })
commit_at failed m j = (err (plain "commit"), record j { calls = j.calls + 1 })
commit_at lost m j =
    (err (plain "commit"), record { schema = with_migration m j.schema; calls = j.calls + 1 })

-- Rollback, whose error is dropped.
abbrev rolled_back : Journal → Journal
rolled_back j = record j { calls = j.calls + 1 }

-- One migration in its transaction. The INSERT fails on a version that the table has.
unfoldable pub apply_one : Env → Migration → Journal → Result (Unit {0}) × Journal
unfolding commit_at
apply_one env m j =
    let (begun, j1) = call env j in
    let (ran, j2) = call env j1 in
    let (stored, j3) = call env j2 in
    if not begun
    then (err (plain "begin"), j1)
    else if not ran
    then (err (wrapped ("apply " ⧺ m.name) (plain "exec")), rolled_back j2)
    else if not stored || any (λ (v : ℕ). v == m.version) j.schema.versions
    then (err (plain "insert"), rolled_back j3)
    else commit_at (env.outcome j3.calls) m j3

after_one :
    Result (Unit {0}) × Journal
    → (Journal → Result (Unit {0}) × Journal)
    → Result (Unit {0}) × Journal
after_one (ok _, j) next = next j
after_one (err e, j) next = (err e, j)

-- The loop over the pending migrations.
unfoldable pub apply_all : Env → List Migration → Journal → Result (Unit {0}) × Journal
unfolding after_one
apply_all env [] j = (ok tt, j)
apply_all env (m ∷ ms) j = after_one (apply_one env m j) (apply_all env ms)

apply_pending : Env → Result (List Migration) → Journal → Result (Unit {0}) × Journal
apply_pending env (err e) j = (err e, j)
apply_pending env (ok ms) j = apply_all env (in_order ms) j

-- Migrate, for the names that the directory has. Of the versions that the SELECT answers with, the first
-- `arrived` reach the loop over rows.Next: what ends it early is not looked at (rows.Err).
unfoldable pub migrate :
    Env → (String → String) → ℕ → List String → Journal → Result (Unit {0}) × Journal
unfolding apply_pending
migrate env quote arrived names j =
    let (ensured, j1) = call env j in
    let (read, j2) = call env j1 in
    if not ensured
    then (err (wrapped "ensure migrations table" (plain "exec")), j1)
    else if not read
    then (err (wrapped "read applied migrations" (plain "query")), j2)
    else apply_pending env (pending_of quote (take arrived j.schema.versions) names) j2
