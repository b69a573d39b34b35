-- ===== src/Base/Order.antt =====
-- `order by` of SQL on a text column: the rows by the bytes of the text, as memcmp compares them.
use mathlib.Core.List.{Perm}
use mathlib.Core.List.Perm
use mathlib.Core.Path.{◌≡◌, refl}
use mathlib.Core.Logic.{inl, inr}
use mathlib.Core.Bool.{Bool, true, false, ◌||◌, ◌&&◌}
use mathlib.Core.List.{List, [], ◌∷◌}
use native.Mathlib.Omega.{arith}
use scissy.Base.Tests.{Bool-cases, ltb, ◌==◌, if◌then◌else◌}
use scissy.Base.Bytes.{Bytes}
use scissy.Base.Rows.{All}

unfoldable pub bytes_le : Bytes → Bytes → Bool
bytes_le [] t = true
bytes_le (x ∷ s) [] = false
bytes_le (x ∷ s) (y ∷ t) = ltb x y || (x == y && bytes_le s t)

pub bytes_le_total : (s t : Bytes) → bytes_le s t ≡ false → bytes_le t s ≡ true
unfolding bytes_le
bytes_le_total [] t h = ground arith
bytes_le_total (x ∷ s) [] h = refl
bytes_le_total (x ∷ s) (y ∷ t) h = ground (arith, bytes_le_total s t)

pub bytes_le_trans :
    (s t u : Bytes) → bytes_le s t ≡ true → bytes_le t u ≡ true → bytes_le s u ≡ true
unfolding bytes_le
bytes_le_trans [] t u h k = refl
bytes_le_trans (x ∷ s) [] u h k = ground arith
bytes_le_trans (x ∷ s) (y ∷ t) [] h k = ground arith
bytes_le_trans (x ∷ s) (y ∷ t) (z ∷ u) h k = ground (arith, bytes_le_trans s t u)

module _ {A : Type 0} (column : A → Bytes) where
  unfoldable pub insert_row : A → List A → List A
  unfolding bytes_le
  insert_row x [] = x ∷ []
  insert_row x (y ∷ ys) =
      let rest = insert_row x ys in if bytes_le (column x) (column y) then x ∷ y ∷ ys else y ∷ rest

  unfoldable pub order_by : List A → List A
  unfolding insert_row
  order_by [] = []
  order_by (x ∷ xs) = insert_row x (order_by xs)

  -- Each row's text is at most those of the rows after it.
  abbrev pub IsOrdered : List A → Type 0
  IsOrdered [] = Unit
  IsOrdered (x ∷ xs) = All (λ y. bytes_le (column x) (column y) ≡ true) xs × IsOrdered xs

  All-insert_row : (P : A → Type 0) (x : A) (ys : List A) → P x → All P ys → All P (insert_row x ys)
  unfolding insert_row
  All-insert_row P x [] p h = (p, tt)
  All-insert_row P x (y ∷ ys) p h = elim (Bool-cases (bytes_le (column x) (column y))) [
    | inl e ↦ rw e (p, h)
    | inr e ↦ rw e (h.0, All-insert_row P x ys p h.1)
  ]

  All-le :
      (x y : A) (ys : List A)
      → bytes_le (column x) (column y) ≡ true
      → All (λ z. bytes_le (column y) (column z) ≡ true) ys
      → All (λ z. bytes_le (column x) (column z) ≡ true) ys
  All-le x y [] e h = tt
  All-le x y (z ∷ ys) e h =
      (bytes_le_trans (column x) (column y) (column z) e h.0, All-le x y ys e h.1)

  insert_row-IsOrdered : (x : A) (ys : List A) → IsOrdered ys → IsOrdered (insert_row x ys)
  unfolding insert_row
  insert_row-IsOrdered x [] h = (tt, tt)
  insert_row-IsOrdered x (y ∷ ys) h = elim (Bool-cases (bytes_le (column x) (column y))) [
    | inl e ↦ rw e ((e, All-le x y ys e h.0), h)
    | inr e ↦ rw e (
      All-insert_row (λ z. bytes_le (column y) (column z) ≡ true) x ys
          (bytes_le_total (column x) (column y) e) h.0,
      insert_row-IsOrdered x ys h.1,
    )
  ]

  pub order_by-IsOrdered : (xs : List A) → IsOrdered (order_by xs)
  unfolding order_by
  order_by-IsOrdered [] = tt
  order_by-IsOrdered (x ∷ xs) = insert_row-IsOrdered x (order_by xs) (order_by-IsOrdered xs)

  insert_row-perm : (x : A) (ys : List A) → Perm (insert_row x ys) (x ∷ ys)
  unfolding insert_row
  insert_row-perm x [] = Perm.rfl
  insert_row-perm x (y ∷ ys) = elim (Bool-cases (bytes_le (column x) (column y))) [
    | inl e ↦ rw e Perm.rfl
    | inr e ↦ rw e (Perm.trans (Perm.cons y (insert_row-perm x ys)) (Perm.swap x y ys))
  ]

  pub order_by-perm : (xs : List A) → Perm (order_by xs) xs
  unfolding order_by
  order_by-perm [] = Perm.rfl
  order_by-perm (x ∷ xs) =
      Perm.trans (insert_row-perm x (order_by xs)) (Perm.cons x (order_by-perm xs))
