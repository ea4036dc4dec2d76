-- ===== src/Catalog/Values/Parsing.antt =====
-- What the constructors of internal/modules/catalog/domain/values.go accept, and that what they made
-- passes them again unchanged.
use Prim.Native.String.{len}
use forge_platform.Base.{ℕ, ◌≤◌, ◌<◌, String, ◌≡◌, refl, ◌≢◌, arith, eq_iff}
use forge_platform.Base.Words.{mod64}
use forge_platform.Base.Text.{trim_space, trim_space_idem}
use forge_platform.Base.Label.{Matches, dns1123_label, matches_label_iff}
use forge_platform.Apperr.{ok}
use forge_platform.Catalog.Values.{
  ServiceName, new_service_name, Tier, new_tier, Lifecycle, experimental, production, deprecated,
  retired, lifecycle_text, parse_lifecycle, Ownership, new_ownership,
}

-- An accepted service name is the trimmed text: 1 to 63 bytes that the DNS-1123 pattern matches.
pub new_service_name_accepts :
    (s : String) (n : ServiceName)
    → new_service_name s ≡ ok n
    → (n.v ≡ trim_space s) × (1 ≤ len n.v) × (len n.v ≤ 63) × Matches dns1123_label n.v
unfolding new_service_name
new_service_name_accepts s n h =
    (ground arith, ground arith, ground arith, (matches_label_iff n.v).0 (ground arith))

pub new_service_name_again :
    (s : String) (n : ServiceName) → new_service_name s ≡ ok n → new_service_name n.v ≡ ok n
unfolding new_service_name
new_service_name_again s n h = ground (arith, trim_space_idem s)

pub new_tier_accepts :
    (t : ℕ) (r : Tier) → t < mod64 → new_tier t ≡ ok r → (r.v ≡ t) × (1 ≤ t) × (t ≤ 4)
unfolding new_tier
new_tier_accepts t r b h = ground arith

pub new_tier_again : (t : ℕ) (r : Tier) → new_tier t ≡ ok r → new_tier r.v ≡ ok r
unfolding new_tier
new_tier_again t r h = ground arith

pub parse_lifecycle_text : (l : Lifecycle) → parse_lifecycle (lifecycle_text l) ≡ ok l
unfolding parse_lifecycle
parse_lifecycle_text experimental = refl
parse_lifecycle_text production = refl
parse_lifecycle_text deprecated = refl
parse_lifecycle_text retired = refl

-- The texts that are accepted are those of the four constants.
pub lifecycle_text-parse :
    (s : String) (l : Lifecycle) → parse_lifecycle s ≡ ok l → lifecycle_text l ≡ s
unfolding parse_lifecycle
lifecycle_text-parse s l h = ground (
  arith,
  eq_iff s "experimental",
  eq_iff s "production",
  eq_iff s "deprecated",
  eq_iff s "retired",
)

pub new_ownership_accepts :
    (team on_call : String) (o : Ownership)
    → new_ownership team on_call ≡ ok o
    → (o.owning_team ≡ trim_space team)
      × (o.on_call_ref ≡ trim_space on_call)
      × (o.owning_team ≢ "")
unfolding new_ownership
new_ownership_accepts team on_call o h = ground (arith, eq_iff (trim_space team) "")

pub new_ownership_again :
    (team on_call : String) (o : Ownership)
    → new_ownership team on_call ≡ ok o
    → new_ownership o.owning_team o.on_call_ref ≡ ok o
unfolding new_ownership
new_ownership_again team on_call o h = ground (arith, trim_space_idem team, trim_space_idem on_call)
