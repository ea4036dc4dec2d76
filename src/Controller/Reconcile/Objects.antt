-- ===== src/Controller/Reconcile/Objects.antt =====
-- The objects that a reconcile applies, one after the other (Reconcile of
-- internal/controller/application_controller.go): which are taken, and why it stops.
use mathlib.Core.Path.{subst}
use mathlib.Core.List.{append-nil, append_assoc}
use forge_platform.Base.{
  ℕ, String, ◌≡◌, ◌≢◌, refl, sym, ap, ◌∙◌, ◌⊎◌, inl, inr, Option, some, none, List, [], ◌∷◌, ◌++◌,
  map,
}
use forge_platform.Platform.{Outcome, done, failed, lost}
use forge_platform.Controller.Status.{ApiError, Store, Live, update_status}
use forge_platform.Controller.Reconcile.{
  Object, Cluster, Outside, Failure, sent, patch, owned, apply_object, unless_failed, apply_each,
  report, status_read, of_updated,
}

-- What makes a run fail: a call that the API server did not carry out with an answer, a refused owner
-- reference, a Deployment that is not there, or what updateStatus returns.
abbrev pub Blamed : {Quantity : Type 0} → Outside Quantity → Failure → Type 0
Blamed x f =
    ((n : ℕ) × ((x.api.outcome n ≢ done) ⊎ (x.reference_problem n ≢ none) ⊎ (x.live n ≡ none)))
    ⊎ ((live : Live) × (s : Store) × ((update_status x.api live s).error ≡ some f.cause))

-- One object is taken and no error is returned, or an error with a cause.
abbrev OneObject :
    {Quantity : Type 0}
    → Outside Quantity
    → Object Quantity
    → Cluster Quantity
    → Option Failure × Cluster Quantity
    → Type 0
OneObject x o c p =
    ((p.0 ≡ none) × (p.1.taken ≡ c.taken ++ o ∷ []))
    ⊎ ((f : Failure) × (p.0 ≡ some f)
        × Blamed x f
        × ((p.1.taken ≡ c.taken) ⊎ (p.1.taken ≡ c.taken ++ o ∷ [])))

sent_one :
    {Quantity : Type 0} (x : Outside Quantity) (n : ℕ) (r : Outcome) (t step : String)
    (o : Object Quantity) (c : Cluster Quantity)
    → x.api.outcome n ≡ r
    → OneObject x o c (sent r t step o c)
unfolding sent
sent_one x n done t step o c h = inl (refl, refl)
sent_one x n failed t step o c h =
    inr (_, refl, inl (n, inl (λ e. absurd (failed_done (sym h ∙ e)))), inl refl)
  where
    failed_done : ◌≢◌ {A = Outcome} failed done
    failed_done e = cc
sent_one x n lost t step o c h =
    inr (_, refl, inl (n, inl (λ e. absurd (lost_done (sym h ∙ e)))), inr refl)
  where
    lost_done : ◌≢◌ {A = Outcome} lost done
    lost_done e = cc

owned_one :
    {Quantity : Type 0} (e : Option ApiError) (x : Outside Quantity) (step : String)
    (o : Object Quantity) (c : Cluster Quantity) (n : ℕ)
    → x.reference_problem n ≡ e
    → OneObject x o c (owned e x step o c)
unfolding owned patch
owned_one (some e) x step o c n h =
    inr (_, refl, inl (n, inr (inl (λ q. absurd (is_some (sym h ∙ q))))), inl refl)
  where
    is_some : ◌≢◌ {A = Option ApiError} (some e) none
    is_some q = cc
owned_one none x step o c n h =
    sent_one x c.store.calls (x.api.outcome c.store.calls) _ step o _ refl

apply_object_one :
    {Quantity : Type 0} (x : Outside Quantity) (o : String × Object Quantity) (c : Cluster Quantity)
    → OneObject x o.1 c (apply_object x o c)
unfolding apply_object
apply_object_one x (step, o) c =
    owned_one (x.reference_problem c.store.calls) x step o c c.store.calls refl

-- No error is returned and nothing is left to do, or an error with a cause.
abbrev pub Ended :
    {Quantity : Type 0}
    → Outside Quantity
    → List (String × Object Quantity)
    → Option Failure
    → Type 0
Ended x rest e = ((rest ≡ []) × (e ≡ none)) ⊎ ((f : Failure) × (e ≡ some f) × Blamed x f)

-- An initial segment of the objects was taken, and all of them unless an error was returned.
abbrev pub Segment :
    {Quantity : Type 0}
    → Outside Quantity
    → List (String × Object Quantity)
    → List (Object Quantity)
    → Option Failure × Cluster Quantity
    → Type 0
Segment {Quantity} x os taken p =
    (before : List (String × Object Quantity)) × (rest : List (String × Object Quantity)) × (os
      ≡ before ++ rest)
    × (p.1.taken ≡ taken ++ map (λ (o : String × Object Quantity). o.1) before)
    × Ended x rest p.0

Segment-step :
    {Quantity : Type 0} (x : Outside Quantity) (o : String × Object Quantity)
    (os : List (String × Object Quantity)) (c : Cluster Quantity)
    (p : Option Failure × Cluster Quantity)
    (next : Cluster Quantity → Option Failure × Cluster Quantity)
    → OneObject x o.1 c p
    → ((d : Cluster Quantity) → Segment x os d.taken (next d))
    → Segment x (o ∷ os) c.taken (unless_failed p next)
unfolding unless_failed
Segment-step x o os c (some e, d) next (inl (good, _)) h = cc
Segment-step x o os c (some e, d) next (inr (f, is_f, why, inl same)) h =
    ([], o ∷ os, refl, same ∙ sym (append-nil c.taken), inr (f, is_f, why))
Segment-step x o os c (some e, d) next (inr (f, is_f, why, inr is)) h =
    (o ∷ [], os, refl, is, inr (f, is_f, why))
Segment-step x o os c (none, d) next (inr (f, is_f, _, _)) h = cc
Segment-step x o os c (none, d) next (inl (_, is)) h =
    let (before, rest, split, taken, end) = h d in
    (
      o ∷ before,
      rest,
      ap (λ r. o ∷ r) split,
      taken
          ∙ ap (λ ts. ts ++ map (λ q. q.1) before) is
          ∙ append_assoc c.taken (o.1 ∷ []) (map (λ q. q.1) before),
      end,
    )

pub apply_each-Segment :
    {Quantity : Type 0} (x : Outside Quantity) (os : List (String × Object Quantity))
    (c : Cluster Quantity)
    → Segment x os c.taken (apply_each x os c)
unfolding apply_each
apply_each-Segment x [] c = ([], [], refl, sym (append-nil c.taken), inl (refl, refl))
apply_each-Segment x (o ∷ os) c =
    Segment-step x o os c (apply_object x o c) (apply_each x os) (apply_object_one x o c)
      (λ d. apply_each-Segment x os d)

-- The status is reported after all objects: no error is returned, or an error with a cause.
updated-Ended :
    {Quantity : Type 0} (x : Outside Quantity) (live : Live) (s : Store) (o : Option ApiError)
    → (update_status x.api live s).error ≡ o
    → Ended x [] (elim o [ none ↦ none | some e ↦ some (record { step = ""; cause = e }) ])
updated-Ended x live s none h = inl (refl, refl)
updated-Ended x live s (some e) h = inr (_, refl, inr (live, s, h))

status_read-Ended :
    {Quantity : Type 0} (x : Outside Quantity) (n : ℕ) (r : Outcome) (t : String)
    (live : Option Live) (c : Cluster Quantity)
    → x.api.outcome n ≡ r
    → x.live n ≡ live
    → Ended x [] (status_read x r t live c).0
unfolding status_read of_updated
status_read-Ended x n done t none c h l = inr (_, refl, inl (n, inr (inr l)))
status_read-Ended x n done t (some live) c h l =
    updated-Ended x live c.store (update_status x.api live c.store).error refl
status_read-Ended x n failed t live c h l =
    inr (_, refl, inl (n, inl (λ e. absurd (failed_done (sym h ∙ e)))))
  where
    failed_done : ◌≢◌ {A = Outcome} failed done
    failed_done e = cc
status_read-Ended x n lost t live c h l =
    inr (_, refl, inl (n, inl (λ e. absurd (lost_done (sym h ∙ e)))))
  where
    lost_done : ◌≢◌ {A = Outcome} lost done
    lost_done e = cc

status_read_taken :
    {Quantity : Type 0} (x : Outside Quantity) (r : Outcome) (t : String) (live : Option Live)
    (c : Cluster Quantity)
    → (status_read x r t live c).1.taken ≡ c.taken
unfolding status_read of_updated
status_read_taken x done t none c = refl
status_read_taken x done t (some live) c = refl
status_read_taken x failed t live c = refl
status_read_taken x lost t live c = refl

report_taken :
    {Quantity : Type 0} (x : Outside Quantity) (c : Cluster Quantity)
    → (report x c).1.taken ≡ c.taken
unfolding report
report_taken x c = status_read_taken x (x.api.outcome c.store.calls) _ (x.live c.store.calls) _

report-Ended :
    {Quantity : Type 0} (x : Outside Quantity) (c : Cluster Quantity) → Ended x [] (report x c).0
unfolding report
report-Ended x c =
    status_read-Ended x c.store.calls (x.api.outcome c.store.calls) _ (x.live c.store.calls) _ refl
      refl

-- What follows the objects takes none, and no error of theirs is lost.
pub reported :
    {Quantity : Type 0} (x : Outside Quantity) (os : List (String × Object Quantity))
    (taken : List (Object Quantity)) (p : Option Failure × Cluster Quantity)
    → Segment x os taken p
    → Segment x os taken (unless_failed p (report x))
unfolding unless_failed
reported x os taken (some e, c) s = s
reported x os taken (none, c) (before, rest, split, is, inl (all, _)) = (
  before,
  rest,
  split,
  report_taken x c ∙ is,
  subst (λ r. Ended x r (report x c).0) (sym all) (report-Ended x c),
)
reported x os taken (none, c) (before, rest, split, is, inr (f, bad, _)) = cc
