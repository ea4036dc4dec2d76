-- ===== src/Base/Sorting.antt =====
-- ORDER BY as an insertion sort by a strict order, the chains that it makes, and where a row stands in one.
use forge_platform.Base.Tests.{if◌then◌else◌, Bool-cases}
use Prim.Native.Nat.{suc}
use forge_platform.Base.Lists.{any, All, length}
use mathlib.Core.Path.{◌≡◌, refl, ap, ◌∙◌}
use mathlib.Core.Bool.{Bool, true, false, ◌||◌}
use mathlib.Core.List.{List, [], ◌∷◌}
use mathlib.Core.Logic.{inl, inr}
use native.Mathlib.Omega.{arith}

module _ {A : Type 0} where
  unfoldable pub insert_by : (A → A → Bool) → A → List A → List A
  insert_by before x [] = x ∷ []
  insert_by before x (y ∷ ys) =
      let rest = insert_by before x ys in if before y x then y ∷ rest else x ∷ y ∷ ys

  unfoldable pub sort_by : (A → A → Bool) → List A → List A
  unfolding insert_by
  sort_by before [] = []
  sort_by before (x ∷ xs) = insert_by before x (sort_by before xs)

  pub any-insert_by :
      (before : A → A → Bool) (p : A → Bool) (x : A) (ys : List A)
      → any p (insert_by before x ys) ≡ p x || any p ys
  unfolding insert_by
  any-insert_by before p x [] = refl
  any-insert_by before p x (y ∷ ys) = ground (arith, any-insert_by before p x ys)

  pub any-sort_by :
      (before : A → A → Bool) (p : A → Bool) (xs : List A) → any p (sort_by before xs) ≡ any p xs
  unfolding sort_by
  any-sort_by before p [] = refl
  any-sort_by before p (x ∷ xs) =
      any-insert_by before p x (sort_by before xs) ∙ ap (λ b. p x || b) (any-sort_by before p xs)

  -- A strict order.
  pub record IsStrict (before : A → A → Bool) : Type 0 where
    pub irrefl : (a : A) → before a a ≡ false
    pub trans : (a b c : A) → before a b ≡ true → before b c ≡ true → before a c ≡ true

  -- Every element comes before all that follow it.
  abbrev pub Chain : (A → A → Bool) → List A → Type 0
  Chain before [] = Unit
  Chain before (x ∷ xs) = All (λ y. before x y ≡ true) xs × Chain before xs

  -- Of two elements at different positions, one comes before the other.
  abbrev pub IsConnected : (A → A → Bool) → List A → Type 0
  IsConnected before [] = Unit
  IsConnected before (x ∷ xs) =
      All (λ y. (before x y || before y x) ≡ true) xs × IsConnected before xs

  pub All-insert_by :
      (before : A → A → Bool) (P : A → Type 0) (x : A) (ys : List A)
      → P x
      → All P ys
      → All P (insert_by before x ys)
  unfolding insert_by
  All-insert_by before P x [] px h = (px, tt)
  All-insert_by before P x (y ∷ ys) px h = elim (Bool-cases (before y x)) [
    | inl e ↦ rw e (h.0, All-insert_by before P x ys px h.1)
    | inr e ↦ rw e (px, h)
  ]

  pub All-sort_by :
      (before : A → A → Bool) (P : A → Type 0) (xs : List A) → All P xs → All P (sort_by before xs)
  unfolding sort_by
  All-sort_by before P [] h = tt
  All-sort_by before P (x ∷ xs) h =
      All-insert_by before P x (sort_by before xs) h.0 (All-sort_by before P xs h.1)

  All-trans :
      (before : A → A → Bool)
      → IsStrict before
      → (x y : A) (ys : List A) → before x y ≡ true
      → All (λ z. before y z ≡ true) ys
      → All (λ z. before x z ≡ true) ys
  All-trans before o x y [] h a = tt
  All-trans before o x y (z ∷ zs) h a = (o.trans x y z h a.0, All-trans before o x y zs h a.1)

  insert_by-Chain :
      (before : A → A → Bool)
      → IsStrict before
      → (x : A) (ys : List A) → All (λ y. (before x y || before y x) ≡ true) ys
      → Chain before ys
      → Chain before (insert_by before x ys)
  unfolding insert_by
  insert_by-Chain before o x [] c h = (tt, tt)
  insert_by-Chain before o x (y ∷ ys) c h = elim (Bool-cases (before y x)) [
    | inl e ↦ rw e (
      All-insert_by before (λ z. before y z ≡ true) x ys e h.0,
      insert_by-Chain before o x ys c.1 h.1,
    )
    | inr e ↦
        let first : before x y ≡ true = ground (arith, c.0) in
        rw e ((first, All-trans before o x y ys first h.0), h)
  ]

  -- Sorting by a strict order that connects the elements makes a chain of them.
  pub sort_by-Chain :
      (before : A → A → Bool)
      → IsStrict before
      → (xs : List A) → IsConnected before xs
      → Chain before (sort_by before xs)
  unfolding sort_by
  sort_by-Chain before o [] c = tt
  sort_by-Chain before o (x ∷ xs) c =
      insert_by-Chain before o x (sort_by before xs)
        (All-sort_by before (λ y. (before x y || before y x) ≡ true) xs c.0)
        (sort_by-Chain before o xs c.1)

  length-insert_by :
      (before : A → A → Bool) (x : A) (ys : List A)
      → length (insert_by before x ys) ≡ suc (length ys)
  unfolding insert_by
  length-insert_by before x [] = refl
  length-insert_by before x (y ∷ ys) = ground (arith, length-insert_by before x ys)

  -- Sorting keeps the number of elements.
  pub length-sort_by :
      (before : A → A → Bool) (xs : List A) → length (sort_by before xs) ≡ length xs
  unfolding sort_by
  length-sort_by before [] = refl
  length-sort_by before (x ∷ xs) =
      length-insert_by before x (sort_by before xs) ∙ ap suc (length-sort_by before xs)
