-- ===== src/Catalog/Service/Invariant.antt =====
-- What holds of a service between two calls of its methods.
use forge_platform.Base.{
  ℕ, ◌+◌, ◌<◌, String, ◌≡◌, refl, ◌⊎◌, true, none, List, [], ◌∷◌, arith, length, length-snoc, All,
}
use forge_platform.Base.Words.{mod64, inc64}
use forge_platform.Platform.{Env}
use forge_platform.Apperr.{ok}
use forge_platform.Catalog.Values.{
  ServiceName, new_service_name, Tier, new_tier, production, retired, Ownership, new_ownership,
  has_on_call,
}
use forge_platform.Catalog.Service.{
  Service, Change, ownership, lifecycle, retirement, change, changes, register,
}

-- The value objects of a service came out of their constructors, a production service has an
-- on-call reference, and the version is an int64.
pub record IsSound (s : Service) : Type 0 where
  pub name_valid : new_service_name s.name.v ≡ ok s.name
  pub tier_valid : new_tier s.tier.v ≡ ok s.tier
  pub owner_valid : new_ownership s.ownership.owning_team s.ownership.on_call_ref ≡ ok s.ownership
  pub on_call : s.lifecycle ≡ production → has_on_call s.ownership ≡ true
  pub version_word : s.version < mod64

-- The arguments of a call came out of their constructors too.
abbrev pub IsParsed : Change → Type 0
IsParsed (ownership o now) = new_ownership o.owning_team o.on_call_ref ≡ ok o
IsParsed (lifecycle l now) = Unit
IsParsed (retirement now) = Unit

pub change-IsSound :
    (env : Env) (c : Change) (s : Service) → IsParsed c → IsSound s → IsSound (change env c s).0
unfolding change
change-IsSound env (ownership o now) s p h = ground arith
change-IsSound env (lifecycle l now) s p h = ground arith
change-IsSound env (retirement now) s p h = ground arith

register-IsSound :
    (env : Env) (id tenant : ℕ) (n : ServiceName) (d : String) (t : Tier) (r : String)
    (o : Ownership) (now : ℕ)
    → new_service_name n.v ≡ ok n
    → new_tier t.v ≡ ok t
    → new_ownership o.owning_team o.on_call_ref ≡ ok o
    → IsSound (register env id tenant n d t r o now)
unfolding register
register-IsSound env id tenant n d t r o now hn ht ho = ground arith

changes-IsSound :
    (env : Env) (cs : List Change) (s : Service)
    → All IsParsed cs
    → IsSound s
    → IsSound (changes env cs s)
unfolding changes
changes-IsSound env [] s p h = h
changes-IsSound env (c ∷ cs) s p h =
    changes-IsSound env cs (change env c s).0 p.1 (change-IsSound env c s p.0 h)

-- A service that was registered with parsed values, and then changed by any calls with parsed
-- arguments, is sound: in production it has an on-call reference.
pub register-changes-IsSound :
    (env : Env) (id tenant : ℕ) (n : ServiceName) (d : String) (t : Tier) (r : String)
    (o : Ownership) (now : ℕ) (cs : List Change)
    → new_service_name n.v ≡ ok n
    → new_tier t.v ≡ ok t
    → new_ownership o.owning_team o.on_call_ref ≡ ok o
    → All IsParsed cs
    → IsSound (changes env cs (register env id tenant n d t r o now))
register-changes-IsSound env id tenant n d t r o now cs hn ht ho p =
    changes-IsSound env cs (register env id tenant n d t r o now) p
      (register-IsSound env id tenant n d t r o now hn ht ho)

-- A call that returns an error leaves the service as it was; one that returns none leaves it as it
-- was too, or adds one event and moves the version on by one.
pub change_cases :
    (env : Env) (c : Change) (s : Service)
    → ((change env c s).0 ≡ s)
      ⊎ (((change env c s).1 ≡ none)
          × (length (change env c s).0.events ≡ length s.events + 1)
          × ((change env c s).0.version ≡ inc64 s.version))
unfolding change
change_cases env (ownership o now) s = grind (arith, length-snoc)
change_cases env (lifecycle l now) s = grind (arith, length-snoc)
change_cases env (retirement now) s = grind (arith, length-snoc)

retired_absorbs_one :
    (env : Env) (c : Change) (s : Service) → s.lifecycle ≡ retired → (change env c s).0 ≡ s
unfolding change
retired_absorbs_one env (ownership o now) s h = ground arith
retired_absorbs_one env (lifecycle l now) s h = ground arith
retired_absorbs_one env (retirement now) s h = ground arith

-- No list of calls changes anything of a retired service.
pub retired_absorbs :
    (env : Env) (cs : List Change) (s : Service) → s.lifecycle ≡ retired → changes env cs s ≡ s
unfolding changes
retired_absorbs env [] s h = refl
retired_absorbs env (c ∷ cs) s h = rw (retired_absorbs_one env c s h) (retired_absorbs env cs s h)
