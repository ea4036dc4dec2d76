-- ===== src/Base/Paging.antt =====
-- Keyset paging: what follows an element in a chain, and that selecting and sorting commute.
use forge_platform.Base.Tests.{if◌then◌else◌, Bool-cases}
use forge_platform.Base.Lists.{select, All}
use forge_platform.Base.Sorting.{insert_by, sort_by, IsStrict, Chain, IsConnected, sort_by-Chain}
use mathlib.Core.Path.{subst, ◌≡◌, refl, sym, ap, ◌∙◌}
use mathlib.Core.Bool.{Bool, true, false, ◌||◌, ◌&&◌}
use mathlib.Core.List.{List, [], ◌∷◌, ◌++◌}
use mathlib.Core.Logic.{inl, inr}

module _ {A : Type 0} where
  select_passing : (p : A → Bool) (xs : List A) → All (λ x. p x ≡ true) xs → select p xs ≡ xs
  select_passing p [] h = refl
  select_passing p (x ∷ xs) h = rw h.0 (ap (λ r. x ∷ r) (select_passing p xs h.1))

  pub All-append_right : (P : A → Type 0) (ps qs : List A) → All P (ps ++ qs) → All P qs
  All-append_right P [] qs h = h
  All-append_right P (p ∷ ps) qs h = All-append_right P ps qs h.1

  -- In a chain, the elements that come after one of them are those that follow it.
  pub select-Chain :
      (before : A → A → Bool) (l : A) (ps qs : List A)
      → IsStrict before
      → Chain before (ps ++ l ∷ qs)
      → select (before l) (ps ++ l ∷ qs) ≡ qs
  select-Chain before l [] qs o c = rw (o.irrefl l) (select_passing (before l) qs c.0)
  select-Chain before l (p ∷ ps) qs o c =
      let first : before p l ≡ true =
        (All-append_right (λ y. before p y ≡ true) ps (l ∷ qs) c.0).0 in
      elim (Bool-cases (before l p)) [
        | inl e ↦ let loop : true ≡ false = sym (o.trans p l p first e) ∙ o.irrefl p in cc
        | inr e ↦ rw e (select-Chain before l ps qs o c.1)
      ]

  select-select :
      (p q : A → Bool) (xs : List A) → select q (select p xs) ≡ select (λ x. p x && q x) xs
  select-select p q [] = refl
  select-select p q (x ∷ xs) = elim (Bool-cases (p x)) [
    | inl e ↦ rw e (ap (λ r. if q x then x ∷ r else r) (select-select p q xs))
    | inr e ↦ rw e (select-select p q xs)
  ]

  -- An element before the head of a chain goes to its front.
  insert_by_first :
      (before : A → A → Bool) (x : A) (ys : List A)
      → All (λ y. before y x ≡ false) ys
      → insert_by before x ys ≡ x ∷ ys
  unfolding insert_by
  insert_by_first before x [] h = refl
  insert_by_first before x (y ∷ ys) h = rw h.0 refl

  -- What a chain's head comes after, all of it comes after.
  none_before :
      (before : A → A → Bool) (x y : A) (ys : List A)
      → IsStrict before
      → before y x ≡ false
      → All (λ z. before y z ≡ true) ys
      → All (λ z. before z x ≡ false) ys
  none_before before x y [] o h c = tt
  none_before before x y (z ∷ zs) o h c = (
    elim (Bool-cases (before z x)) [
      | inl e ↦ let loop : true ≡ false = sym (o.trans y z x c.0 e) ∙ h in cc
      | inr e ↦ e
    ],
    none_before before x y zs o h c.1,
  )

  pub select-All : (P : A → Type 0) (q : A → Bool) (xs : List A) → All P xs → All P (select q xs)
  select-All P q [] h = tt
  select-All P q (x ∷ xs) h = elim (Bool-cases (q x)) [
    | inl e ↦ rw e (h.0, select-All P q xs h.1)
    | inr e ↦ rw e (select-All P q xs h.1)
  ]

  select-insert_by :
      (before : A → A → Bool) (q : A → Bool) (x : A) (ys : List A)
      → IsStrict before
      → Chain before ys
      → select q (insert_by before x ys)
        ≡ (if q x then insert_by before x (select q ys) else select q ys)
  unfolding insert_by
  select-insert_by before q x [] o c = refl
  select-insert_by before q x (y ∷ ys) o c = elim (Bool-cases (before y x)) [
    | inl e ↦
        let ih = select-insert_by before q x ys o c.1 in
        elim (Bool-cases (q x)) [
          | inl qx ↦ elim (Bool-cases (q y)) [
            | inl qy ↦ rw (e, qx, qy, e) (ap (λ r. y ∷ r) (ih ∙ rw qx refl))
            | inr qy ↦ rw (e, qx, qy) (ih ∙ rw qx refl)
          ]
          | inr qx ↦ rw (e, qx) (ap (λ r. if q y then y ∷ r else r) (ih ∙ rw qx refl))
        ]
    | inr e ↦
        let front = insert_by_first before x (select q (y ∷ ys)) (
          select-All (λ z. before z x ≡ false) q (y ∷ ys) (e, none_before before x y ys o e c.0)) in
        elim (Bool-cases (q x)) [ inl qx ↦ rw (e, qx) (sym front) | inr qx ↦ rw (e, qx) refl ]
  ]

  -- Sorting and selecting commute.
  pub select-sort_by :
      (before : A → A → Bool) (q : A → Bool) (xs : List A)
      → IsStrict before
      → IsConnected before xs
      → select q (sort_by before xs) ≡ sort_by before (select q xs)
  unfolding sort_by
  select-sort_by before q [] o c = refl
  select-sort_by before q (x ∷ xs) o c =
      let ih = select-sort_by before q xs o c.1 in
      let step =
        select-insert_by before q x (sort_by before xs) o (sort_by-Chain before o xs c.1) in
      elim (Bool-cases (q x)) [
        | inl e ↦ rw e (step ∙ rw e (ap (insert_by before x) ih))
        | inr e ↦ rw e (step ∙ rw e ih)
      ]

  pub IsConnected-select :
      (before : A → A → Bool) (q : A → Bool) (xs : List A)
      → IsConnected before xs
      → IsConnected before (select q xs)
  IsConnected-select before q [] c = tt
  IsConnected-select before q (x ∷ xs) c = elim (Bool-cases (q x)) [
    | inl e ↦ rw e (
      select-All (λ y. (before x y || before y x) ≡ true) q xs c.0,
      IsConnected-select before q xs c.1,
    )
    | inr e ↦ rw e (IsConnected-select before q xs c.1)
  ]

  -- A query for the rows that pass a test and come after `l`, in order, gives what follows `l` among
  -- those that pass the test, in order.
  pub select-after :
      (before : A → A → Bool) (p : A → Bool) (xs : List A) (l : A) (ps qs : List A)
      → IsStrict before
      → IsConnected before xs
      → sort_by before (select p xs) ≡ ps ++ l ∷ qs
      → sort_by before (select (λ x. p x && before l x) xs) ≡ qs
  select-after before p xs l ps qs o c h =
      let among = IsConnected-select before p xs c in
      ap (sort_by before) (sym (select-select p (before l) xs))
      ∙ sym (select-sort_by before (before l) (select p xs) o among)
      ∙ ap (select (before l)) h
      ∙ select-Chain before l ps qs o
          (subst (Chain before) h (sort_by-Chain before o (select p xs) among))
