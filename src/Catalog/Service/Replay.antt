-- ===== src/Catalog/Service/Replay.antt =====
-- The events of a service tell its whole story: read in order they lead to the state it is in.
use forge_platform.Base.{
  ℕ, String, ◌≡◌, refl, ◌≢◌, ◌⊎◌, inl, inr, true, false, not, ◌&&◌, List, [], ◌∷◌, ◌++◌, arith,
  Bool-cases,
}
use forge_platform.Platform.{Env}
use forge_platform.Catalog.Values.{
  ServiceName, Tier, Lifecycle, experimental, production, retired, lifecycle_text, lifecycle_eq,
  Ownership, has_on_call, can_transition_to,
}
use forge_platform.Catalog.Service.{
  Service, Event, EventBase, service_registered, service_ownership_changed,
  service_lifecycle_changed, service_retired, Change, ownership, lifecycle, retirement, change,
  changes, register, change_ownership, change_lifecycle, retire,
}

-- A list of events that begins with a registration by `team`, in which each later event starts
-- from the state that the ones before it lead to: the lifecycle and the owning team.
pub data Story (team : String) : List Event → Lifecycle → String → Type 0 where
  begin :
      (b : EventBase) (t n : String) (r : ℕ)
      → Story team (service_registered b t n r ∷ []) experimental team
  owner :
      {es fs : List Event} {l : Lifecycle} {p q : String} (b : EventBase)
      → Story team es l p
      → l ≢ retired
      → fs ≡ es ++ service_ownership_changed b p q ∷ []
      → Story team fs l q
  move :
      {es fs : List Event} {l m : Lifecycle} {p : String} (b : EventBase)
      → Story team es l p
      → can_transition_to l m ≡ true
      → fs ≡ es ++ service_lifecycle_changed b (lifecycle_text l) (lifecycle_text m) ∷ []
      → Story team fs m p
  finish :
      {es fs : List Event} {l : Lifecycle} {p : String} (b : EventBase)
      → Story team es l p
      → l ≢ retired
      → fs ≡ es ++ service_retired b ∷ []
      → Story team fs retired p

abbrev Told : String → Service → Type 0
Told team s = Story team s.events s.lifecycle s.ownership.owning_team

eq_or_ne : (l m : Lifecycle) → (lifecycle_eq l m ≡ true) ⊎ ((lifecycle_eq l m ≡ false) × (l ≢ m))
eq_or_ne l m = ground arith

change_ownership-Told :
    (env : Env) (team : String) (o : Ownership) (now : ℕ) (s : Service)
    → Told team s
    → Told team (change_ownership env o now s).0
unfolding change_ownership
change_ownership-Told env team o now s h = elim (eq_or_ne s.lifecycle retired) [
  | inl old ↦ rw old h
  | inr (live, ne) ↦
      elim (Bool-cases (lifecycle_eq s.lifecycle production && not (has_on_call o))) [
        | inl no_call ↦ rw (live, no_call) h
        | inr call ↦
            rw (live, call) (owner (record { id = env.uuid_print s.id; at = now }) h ne refl)
      ]
]

change_lifecycle-Told :
    (env : Env) (team : String) (m : Lifecycle) (now : ℕ) (s : Service)
    → Told team s
    → Told team (change_lifecycle env m now s).0
unfolding change_lifecycle
change_lifecycle-Told env team m now s h = elim (Bool-cases (lifecycle_eq s.lifecycle m)) [
  | inl same ↦ rw same h
  | inr differs ↦ elim (Bool-cases (can_transition_to s.lifecycle m)) [
    | inr illegal ↦ rw (differs, illegal) h
    | inl legal ↦ elim (Bool-cases (lifecycle_eq m production && not (has_on_call s.ownership))) [
      | inl no_call ↦ rw (differs, legal, no_call) h
      | inr call ↦
          rw (differs, legal, call)
            (move (record { id = env.uuid_print s.id; at = now }) h legal refl)
    ]
  ]
]

retire-Told :
    (env : Env) (team : String) (now : ℕ) (s : Service)
    → Told team s
    → Told team (retire env now s).0
unfolding retire
retire-Told env team now s h = elim (eq_or_ne s.lifecycle retired) [
  | inl old ↦ rw old h
  | inr (live, ne) ↦ rw live (finish (record { id = env.uuid_print s.id; at = now }) h ne refl)
]

changes-Told :
    (env : Env) (team : String) (cs : List Change) (s : Service)
    → Told team s
    → Told team (changes env cs s)
unfolding changes change
changes-Told env team [] s h = h
changes-Told env team (ownership o now ∷ cs) s h =
    changes-Told env team cs (change_ownership env o now s).0
      (change_ownership-Told env team o now s h)
changes-Told env team (lifecycle m now ∷ cs) s h =
    changes-Told env team cs (change_lifecycle env m now s).0
      (change_lifecycle-Told env team m now s h)
changes-Told env team (retirement now ∷ cs) s h =
    changes-Told env team cs (retire env now s).0 (retire-Told env team now s h)

-- After any calls, the events of a service that was registered are a story that begins with the
-- registration and the registering team, moves only along permitted transitions, changes nothing
-- after retirement, and ends in the lifecycle and the owning team that the service has.
pub register-changes-Story :
    (env : Env) (id tenant : ℕ) (n : ServiceName) (d : String) (t : Tier) (r : String)
    (o : Ownership) (now : ℕ) (cs : List Change)
    → let s = changes env cs (register env id tenant n d t r o now) in
      Story o.owning_team s.events s.lifecycle s.ownership.owning_team
unfolding register
register-changes-Story env id tenant n d t r o now cs =
    changes-Told env o.owning_team cs (register env id tenant n d t r o now)
      (begin (record { id = env.uuid_print id; at = now }) (env.uuid_print tenant) n.v t.v)
