-- ===== src/Base/Rows.antt =====
-- Tables as lists of rows, and what SQL does with them: a scan, a selection, a deletion and an
-- appended row.
pub mod Member
use mathlib.Core.Path.{◌≡◌, refl}
use mathlib.Core.Logic.{◌⊎◌, ◌↔◌, inl, inr}
use mathlib.Core.Bool.{Bool, true, false, ◌&&◌, ◌||◌}
use mathlib.Core.Option.{Option, none, some}
use mathlib.Core.List.{List, [], ◌∷◌, ◌++◌, map}
use native.Mathlib.Omega.{arith}
use scissy.Base.Tests.{if◌then◌else◌, is_some, Bool-cases}

module _ {ℓ} {A : Type ℓ} where
  -- Some row passes the test.
  unfoldable pub any : (A → Bool) → List A → Bool
  any p [] = false
  any p (x ∷ xs) = p x || any p xs

  -- The rows that pass the test, in order.
  unfoldable pub select : (A → Bool) → List A → List A
  select p [] = []
  select p (x ∷ xs) = let rest = select p xs in if p x then x ∷ rest else rest

  -- The rows that are left when those that pass the test are deleted.
  unfoldable pub delete : (A → Bool) → List A → List A
  delete p [] = []
  delete p (x ∷ xs) = let rest = delete p xs in if p x then rest else x ∷ rest

  -- The first row that passes the test.
  unfoldable pub first : (A → Bool) → List A → Option A
  first p [] = none
  first p (x ∷ xs) = if p x then some x else first p xs

  abbrev pub All {κ} : (A → Type κ) → List A → Type κ
  All P [] = Unit
  All P (x ∷ xs) = P x × All P xs

  -- No two rows have the same key.
  abbrev pub Unique : (A → A → Bool) → List A → Type 0
  Unique same [] = Unit
  Unique same (x ∷ xs) = All (λ y. same x y ≡ false) xs × Unique same xs

module _ {ℓ} {A : Type ℓ} (p : A → Bool) where
  pub any-append : (xs : List A) (y : A) → any p (xs ++ y ∷ []) ≡ any p xs || p y
  unfolding any
  any-append [] y = ground arith
  any-append (x ∷ xs) y = ground (arith, any-append xs y)

  pub first-append :
      (xs : List A) (y : A)
      → first p (xs ++ y ∷ []) ≡ (if any p xs then first p xs else if p y then some y else none)
  unfolding first any
  first-append [] y = ground arith
  first-append (x ∷ xs) y = ground (arith, first-append xs y)

  pub first-any : (xs : List A) → is_some (first p xs) ≡ any p xs
  unfolding first any
  first-any [] = refl
  first-any (x ∷ xs) = ground (arith, first-any xs)

  -- Deleting what passes the test undoes an append of a row that is alone in passing it.
  pub delete-append :
      (xs : List A) (y : A) → any p xs ≡ false → p y ≡ true → delete p (xs ++ y ∷ []) ≡ xs
  unfolding any delete
  delete-append [] y h t = ground arith
  delete-append (x ∷ xs) y h t = ground (arith, delete-append xs y)

  pub delete_nothing : (xs : List A) → any p xs ≡ false → delete p xs ≡ xs
  unfolding any delete
  delete_nothing [] h = refl
  delete_nothing (x ∷ xs) h = ground (arith, delete_nothing xs)

  pub any-delete_self : (xs : List A) → any p (delete p xs) ≡ false
  unfolding any delete
  any-delete_self [] = refl
  any-delete_self (x ∷ xs) = ground (arith, any-delete_self xs)

  -- A test that no deleted row passes finds the same afterwards.
  pub any-delete :
      (q : A → Bool) (xs : List A)
      → ((x : A) → q x ≡ true → p x ≡ false)
      → any q (delete p xs) ≡ any q xs
  unfolding any delete
  any-delete q [] h = refl
  any-delete q (x ∷ xs) h = ground (arith, h x, any-delete q xs h)

  -- So does one that no row passes together with the deletion's.
  pub any-delete_disjoint :
      (q : A → Bool) (xs : List A)
      → any (λ x. q x && p x) xs ≡ false
      → any q (delete p xs) ≡ any q xs
  unfolding any delete
  any-delete_disjoint q [] h = refl
  any-delete_disjoint q (x ∷ xs) h = ground (arith, any-delete_disjoint q xs)

  pub All-of-any : (xs : List A) → any p xs ≡ false → All (λ x. p x ≡ false) xs
  unfolding any
  All-of-any [] h = tt
  All-of-any (x ∷ xs) h = ground (arith, All-of-any xs)

  pub any-ext : (q : A → Bool) (xs : List A) → ((x : A) → q x ≡ p x) → any q xs ≡ any p xs
  unfolding any
  any-ext q [] h = refl
  any-ext q (x ∷ xs) h = ground (arith, h x, any-ext q xs h)

module _ {ℓ κ} {A : Type ℓ} (P : A → Type κ) where
  -- Two tests that agree on the rows at hand.
  pub any-ext_All :
      (p q : A → Bool) (xs : List A) → ((x : A) → P x → q x ≡ p x) → All P xs → any q xs ≡ any p xs
  unfolding any
  any-ext_All p q [] f h = refl
  any-ext_All p q (x ∷ xs) f h = ground (arith, f x h.0, any-ext_All p q xs f h.1)

  pub All-append : (xs : List A) (y : A) → All P xs → P y → All P (xs ++ y ∷ [])
  All-append [] y h t = (t, tt)
  All-append (x ∷ xs) y h t = (h.0, All-append xs y h.1 t)

  -- A found row passes the test, and has what all rows have.
  pub first-All :
      (p : A → Bool) (xs : List A) (x : A) → All P xs → first p xs ≡ some x → P x × (p x ≡ true)
  unfolding first
  first-All p [] x h e = ground arith
  first-All p (y ∷ ys) x h e = elim (Bool-cases (p y)) [
    | inl t ↦ let q : y ≡ x = ground arith in rw (← q) (h.0, t)
    | inr f ↦ first-All p ys x h.1 (ground arith)
  ]

module _ {ℓ κ} {A : Type ℓ} (P Q : A → Type κ) where
  pub All-mono : (xs : List A) → ((x : A) → P x → Q x) → All P xs → All Q xs
  All-mono [] f h = tt
  All-mono (x ∷ xs) f h = (f x h.0, All-mono xs f h.1)

  -- After a deletion, what is asked of the rows need follow only for those that were kept.
  pub All-delete :
      (p : A → Bool) (xs : List A)
      → ((x : A) → p x ≡ false → P x → Q x)
      → All P xs
      → All Q (delete p xs)
  unfolding delete
  All-delete p [] f h = tt
  All-delete p (x ∷ xs) f h = elim (Bool-cases (p x)) [
    | inl t ↦ rw t (All-delete p xs f h.1)
    | inr e ↦ rw e (f x e h.0, All-delete p xs f h.1)
  ]

module _ {ℓ} {A : Type ℓ} (same : A → A → Bool) where
  pub Unique-append :
      (xs : List A) (y : A)
      → Unique same xs
      → any (λ x. same x y) xs ≡ false
      → Unique same (xs ++ y ∷ [])
  unfolding any
  Unique-append [] y u h = (tt, tt)
  Unique-append (x ∷ xs) y u h = (
    All-append (λ z. same x z ≡ false) xs y u.0 (ground arith),
    Unique-append xs y u.1 (ground arith),
  )

  pub Unique-delete : (p : A → Bool) (xs : List A) → Unique same xs → Unique same (delete p xs)
  unfolding delete
  Unique-delete p [] u = tt
  Unique-delete p (x ∷ xs) u = elim (Bool-cases (p x)) [
    | inl t ↦ rw t (Unique-delete p xs u.1)
    | inr e ↦ rw e (
      All-delete (λ y. same x y ≡ false) (λ y. same x y ≡ false) p xs (λ y k h. h) u.0,
      Unique-delete p xs u.1,
    )
  ]
