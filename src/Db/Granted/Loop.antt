-- ===== src/Db/Granted/Loop.antt =====
-- The loop of `repo_get_user_role`: the greatest of the rows.
use scissy.Base.{
  ℕ, ◌≤◌, ◌≡◌, refl, sym, subst, ◌⊎◌, inl, inr, Bool, true, List, [], ◌∷◌, ltb, arith, Bool-cases,
  if◌then◌else◌,
}
use scissy.Base.Rows.{All}
use scissy.Base.Rows.Member.{In}
use scissy.Pb.{role_is_valid}
use scissy.Db.{greatest_role}

-- One valid row.
greatest_role-cons :
    (n : ℕ) (ns : List ℕ) (role : ℕ)
    → role_is_valid n ≡ true
    → greatest_role (n ∷ ns) role ≡ greatest_role ns (if ltb role n then n else role)
unfolding greatest_role
greatest_role-cons n ns role h = rw h

-- What the loop is to return, from `role` on, over the rows `ns`.
abbrev pub IsGreatest : List ℕ → ℕ → Bool × ℕ → Type 0
IsGreatest ns role r = (r.0 ≡ true) × (role ≤ r.1) × ((r.1 ≡ role) ⊎ In r.1 ns)

IsGreatest-cons :
    (n : ℕ) (ns : List ℕ) (role : ℕ) (r : Bool × ℕ)
    → IsGreatest ns (if ltb role n then n else role) r
    → IsGreatest (n ∷ ns) role r
IsGreatest-cons n ns role r (t, le, inl e) = elim (Bool-cases (ltb role n)) [
  | inl less ↦ (t, ground arith, inr (inl (ground arith)))
  | inr more ↦ (t, ground arith, inl (ground arith))
]
IsGreatest-cons n ns role r (t, le, inr i) = (t, ground arith, inr (inr i))

pub greatest_role-IsGreatest :
    (rows : List ℕ) (role : ℕ)
    → All (λ n. role_is_valid n ≡ true) rows
    → IsGreatest rows role (greatest_role rows role)
unfolding greatest_role
greatest_role-IsGreatest [] role h = (refl, omega arith, inl refl)
greatest_role-IsGreatest (n ∷ ns) role h =
    subst (IsGreatest (n ∷ ns) role) (sym (greatest_role-cons n ns role h.0)) (
      IsGreatest-cons n ns role _
        (greatest_role-IsGreatest ns (if ltb role n then n else role) h.1))

pub greatest_role-ge :
    (rows : List ℕ) (role n : ℕ)
    → All (λ m. role_is_valid m ≡ true) rows
    → In n rows
    → n ≤ (greatest_role rows role).1
greatest_role-ge [] role n h i = absurd i
greatest_role-ge (m ∷ ms) role n h (inl e) =
    rw (greatest_role-cons m ms role h.0)
      (ground (arith, greatest_role-IsGreatest ms (if ltb role m then m else role) h.1))
greatest_role-ge (m ∷ ms) role n h (inr i) =
    rw (greatest_role-cons m ms role h.0)
      (greatest_role-ge ms (if ltb role m then m else role) n h.1 i)
