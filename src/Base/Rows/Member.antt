-- ===== src/Base/Rows/Member.antt =====
-- Which rows a table holds.
use Prim.Native.Nat.{ℕ}
use mathlib.Core.Path.{◌≡◌, refl, sym, ap, ◌∙◌}
use mathlib.Core.Logic.{◌⊎◌, inl, inr}
use mathlib.Core.Bool.{Bool, true, false, false≢true}
use mathlib.Core.Option.{none, some}
use mathlib.Core.List.{List, [], ◌∷◌, ◌++◌, map}
use native.Mathlib.Omega.{arith}
use scissy.Base.Tests.{Bool-cases, ◌==◌}
use scissy.Base.Rows.{All, Unique, any, select, first, delete}

module _ {A : Type 0} where
  abbrev pub In : A → List A → Type 0
  In x [] = ⊥
  In x (y ∷ ys) = (x ≡ y) ⊎ In x ys

  pub In-append_left : (x : A) (xs ys : List A) → In x xs → In x (xs ++ ys)
  In-append_left x [] ys h = absurd h
  In-append_left x (y ∷ xs) ys (inl e) = inl e
  In-append_left x (y ∷ xs) ys (inr h) = inr (In-append_left x xs ys h)

  pub In-append_right : (x : A) (xs ys : List A) → In x ys → In x (xs ++ ys)
  In-append_right x [] ys h = h
  In-append_right x (y ∷ xs) ys h = inr (In-append_right x xs ys h)

  pub In-append : (x : A) (xs ys : List A) → In x (xs ++ ys) → In x xs ⊎ In x ys
  In-append x [] ys h = inr h
  In-append x (y ∷ xs) ys (inl e) = inl (inl e)
  In-append x (y ∷ xs) ys (inr h) = ground (arith, In-append x xs ys h)

  pub In-select : (p : A → Bool) (x : A) (xs : List A) → In x xs → p x ≡ true → In x (select p xs)
  unfolding select
  In-select p x [] h t = absurd h
  In-select p x (y ∷ xs) (inl e) t = rw (← e, t) (inl refl)
  In-select p x (y ∷ xs) (inr h) t = elim (Bool-cases (p y)) [
    | inl s ↦ rw s (inr (In-select p x xs h t))
    | inr s ↦ rw s (In-select p x xs h t)
  ]

  pub select-In : (p : A → Bool) (x : A) (xs : List A) → In x (select p xs) → In x xs × (p x ≡ true)
  unfolding select
  select-In p x [] h = absurd h
  select-In p x (y ∷ xs) h = elim (Bool-cases (p y)) [
    | inl t ↦ selected t (rw (t, select) at h) (select-In p x xs)
    | inr f ↦ let k = select-In p x xs (rw (f, select) at h) in (inr k.0, k.1)
  ]
    where
      selected :
          p y ≡ true
          → (x ≡ y) ⊎ In x (select p xs)
          → (In x (select p xs) → In x xs × (p x ≡ true))
          → In x (y ∷ xs) × (p x ≡ true)
      selected t (inl e) ih = (inl e, rw e t)
      selected t (inr k) ih = let r = ih k in (inr r.0, r.1)

  pub In-All {κ} : (P : A → Type κ) (x : A) (xs : List A) → All P xs → In x xs → P x
  In-All P x [] h i = absurd i
  In-All P x (y ∷ ys) h (inl e) = rw e h.0
  In-All P x (y ∷ ys) h (inr i) = In-All P x ys h.1 i

  pub All-of-In {κ} : (P : A → Type κ) (xs : List A) → ((x : A) → In x xs → P x) → All P xs
  All-of-In P [] f = tt
  All-of-In P (x ∷ xs) f = (f x (inl refl), All-of-In P xs (λ y i. f y (inr i)))

module _ {A : Type 0} (p : A → Bool) where
  pub any-In : (xs : List A) → any p xs ≡ true → (x : A) × In x xs × (p x ≡ true)
  unfolding any
  any-In [] h = absurd (false≢true h)
  any-In (x ∷ xs) h = elim (Bool-cases (p x)) [
    | inl t ↦ (x, inl refl, t)
    | inr f ↦ let r = any-In xs (ground arith) in (r.0, inr r.1, r.2)
  ]

  pub any-of-In : (x : A) (xs : List A) → In x xs → p x ≡ true → any p xs ≡ true
  unfolding any
  any-of-In x [] h t = absurd h
  any-of-In x (y ∷ xs) (inl e) t = ground arith
  any-of-In x (y ∷ xs) (inr h) t = ground (arith, any-of-In x xs h t)

  pub first-In : (xs : List A) (x : A) → first p xs ≡ some x → In x xs × (p x ≡ true)
  unfolding first
  first-In [] x e = ground arith
  first-In (y ∷ ys) x e = elim (Bool-cases (p y)) [
    | inl t ↦ let q : y ≡ x = ground arith in (inl (sym q), rw (← q) t)
    | inr f ↦ let r = first-In ys x (ground arith) in (inr r.0, r.1)
  ]

  pub first-none : (xs : List A) (x : A) → first p xs ≡ none → In x xs → p x ≡ false
  unfolding first
  first-none [] x e i = absurd i
  first-none (y ∷ ys) x e (inl q) = ground arith
  first-none (y ∷ ys) x e (inr i) = ground (arith, first-none ys x)

  pub first-none_of : (xs : List A) → ((x : A) → In x xs → p x ≡ false) → first p xs ≡ none
  unfolding first
  first-none_of [] f = refl
  first-none_of (x ∷ xs) f = rw (f x (inl refl)) (first-none_of xs (λ y i. f y (inr i)))

  pub delete-In : (x : A) (xs : List A) → In x (delete p xs) → In x xs × (p x ≡ false)
  unfolding delete
  delete-In x [] h = absurd h
  delete-In x (y ∷ ys) h = elim (Bool-cases (p y)) [
    | inl t ↦ let r = delete-In x ys (rw (t, delete) at h) in (inr r.0, r.1)
    | inr f ↦ kept f (rw (f, delete) at h) (delete-In x ys)
  ]
    where
      kept :
          p y ≡ false
          → (x ≡ y) ⊎ In x (delete p ys)
          → (In x (delete p ys) → In x ys × (p x ≡ false))
          → In x (y ∷ ys) × (p x ≡ false)
      kept f (inl e) ih = (inl e, rw e f)
      kept f (inr i) ih = let r = ih i in (inr r.0, r.1)

  pub In-delete : (x : A) (xs : List A) → In x xs → p x ≡ false → In x (delete p xs)
  unfolding delete
  In-delete x [] h f = absurd h
  In-delete x (y ∷ ys) (inl e) f = rw (← e, f) (inl refl)
  In-delete x (y ∷ ys) (inr h) f = elim (Bool-cases (p y)) [
    | inl t ↦ rw t (In-delete x ys h f)
    | inr g ↦ rw g (inr (In-delete x ys h f))
  ]

-- Two rows with one key are one row.
module _ {A : Type 0} (same : A → A → Bool) where
  pub Unique-eq :
      (xs : List A) (x y : A)
      → Unique same xs
      → In x xs
      → In y xs
      → same x y ≡ true
      → same y x ≡ true
      → x ≡ y
  Unique-eq [] x y u i j s t = absurd i
  Unique-eq (z ∷ zs) x y u (inl e) (inl f) s t = e ∙ sym f
  Unique-eq (z ∷ zs) x y u (inl e) (inr j) s t =
      let k = In-All (λ y. same z y ≡ false) y zs u.0 j in ground arith
  Unique-eq (z ∷ zs) x y u (inr i) (inl f) s t =
      let k = In-All (λ y. same z y ≡ false) x zs u.0 i in ground arith
  Unique-eq (z ∷ zs) x y u (inr i) (inr j) s t = Unique-eq zs x y u.1 i j s t

module _ {A B : Type 0} (f : A → B) where
  pub In-map : (x : A) (xs : List A) → In x xs → In (f x) (map f xs)
  In-map x [] h = absurd h
  In-map x (y ∷ xs) (inl e) = inl (ap f e)
  In-map x (y ∷ xs) (inr h) = inr (In-map x xs h)

  pub map-In : (b : B) (xs : List A) → In b (map f xs) → (x : A) × In x xs × (b ≡ f x)
  map-In b [] h = absurd h
  map-In b (y ∷ xs) (inl e) = (y, inl refl, e)
  map-In b (y ∷ xs) (inr h) = let r = map-In b xs h in (r.0, inr r.1, r.2)

-- A number is found by a scan if it is there.
pub In-any : (n : ℕ) (ns : List ℕ) → any (λ m. m == n) ns ≡ true → In n ns
unfolding any
In-any n [] h = ground arith
In-any n (m ∷ ns) h = ground (arith, In-any n ns)
