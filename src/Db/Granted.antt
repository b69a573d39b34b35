-- ===== src/Db/Granted.antt =====
-- `repo_get_user_role` finds the greatest role that the database grants.
mod Loop
mod Joins
use Loop.{greatest_role-IsGreatest, greatest_role-ge}
use Joins.{distinct-In, In-distinct, join_group-In, In-join_group, join_groups-In, In-join_groups}
use Prim.Native.Nat.{min}
use scissy.Base.{
  ℕ, ◌≤◌, ◌≡◌, refl, sym, subst, ◌⊎◌, inl, inr, Bool, true, ◌&&◌, List, [], ◌∷◌, ltb, ◌==◌, arith,
  Bool-cases, if◌then◌else◌,
}
use scissy.Base.Rows.{All}
use scissy.Base.Rows.Member.{
  In, In-append, In-append_left, In-append_right, In-select, select-In, In-All, All-of-In, In-map,
  map-In, In-any,
}
use scissy.Pb.{role_is_valid}
use scissy.Schema.{Database, RepoUser, RepoGroup, GroupUser}
use scissy.Schema.Valid.{IsValid}
use scissy.Db.{
  join_group, join_groups, distinct, member_roles, role_rows, greatest_role, repo_get_user_role,
}

-- Role `n` on repository `p` for user `u`: as a member, or through a group that has on the repository
-- the role that the user has in the group.
pub data Grants (d : Database) (p u n : ℕ) : Type 0 where
  direct :
      (r : RepoUser)
      → In r d.repos_users
      → r.repo_id ≡ p
      → r.user_id ≡ u
      → n ≡ r.role_id
      → Grants d p u n
  through_group :
      (rg : RepoGroup) (gu : GroupUser)
      → In rg d.repos_groups
      → In gu d.groups_users
      → rg.repo_id ≡ p
      → gu.user_id ≡ u
      → rg.group_id ≡ gu.group_id
      → n ≡ rg.role_id
      → n ≡ gu.role_id
      → Grants d p u n

-- The rows are the roles granted.
module _ (d : Database) (p u n : ℕ) where
  role_rows-Grants : In n (role_rows p u d) → Grants d p u n
  unfolding role_rows
  role_rows-Grants h = elim (In-append n (member_roles p u d) _ (distinct-In n _ h)) [
    | inl i ↦
        let (r, ir, e) = map-In _ n _ i in
        let k = select-In _ r d.repos_users ir in direct r k.0 (ground arith) (ground arith) e
    | inr i ↦
        let (rg, irg, ep, ij) = join_groups-In p u n d.groups_users d.repos_groups i in
        let (gu, igu, (eu, eg, e1, e2)) = join_group-In rg u n d.groups_users ij in
        through_group rg gu irg igu ep eu eg e1 e2
  ]

  Grants-role_rows : Grants d p u n → In n (role_rows p u d)
  unfolding role_rows
  Grants-role_rows (direct r i ep eu e) = In-distinct n _ (
      In-append_left n (member_roles p u d) _
        (rw e (In-map _ r _ (In-select _ r d.repos_users i (ground arith)))))
  Grants-role_rows (through_group rg gu irg igu ep eu eg e1 e2) = In-distinct n _ (
      In-append_right n (member_roles p u d) _ (
        In-join_groups p u n d.groups_users rg d.repos_groups irg ep
          (In-join_group rg u n gu d.groups_users igu (eu, eg, e1, e2))))

-- What a well-formed database grants is a role.
pub Grants-is_valid :
    (d : Database) (p u n : ℕ) → IsValid d → Grants d p u n → role_is_valid n ≡ true
Grants-is_valid d p u n v (direct r i ep eu e) =
    rw e (In-All _ r d.repos_users v.repo_users.fits i).2
Grants-is_valid d p u n v (through_group rg gu irg igu ep eu eg e1 e2) =
    rw e1 (In-All _ rg d.repos_groups v.repo_groups.fits irg).2

module _ (d : Database) (p u : ℕ) (v : IsValid d) where
  rows_valid : All (λ n. role_is_valid n ≡ true) (role_rows p u d)
  rows_valid =
      All-of-In _ (role_rows p u d) λ n i. Grants-is_valid d p u n v (role_rows-Grants d p u n i)

  -- Over a well-formed database the lookup succeeds; its result bounds every role that is granted,
  -- and is one of those unless it is the role `none`.
  pub repo_get_user_role-IsGreatest :
      ((repo_get_user_role p u d).0 ≡ true)
      × ((n : ℕ) → Grants d p u n → n ≤ (repo_get_user_role p u d).1)
      × (((repo_get_user_role p u d).1 ≡ 0) ⊎ Grants d p u (repo_get_user_role p u d).1)
  unfolding repo_get_user_role
  repo_get_user_role-IsGreatest =
      let g = greatest_role-IsGreatest (role_rows p u d) 0 rows_valid in
      (
        g.0,
        λ n h. greatest_role-ge (role_rows p u d) 0 n rows_valid (Grants-role_rows d p u n h),
        elim g.2 [ inl e ↦ inl e | inr i ↦ inr (role_rows-Grants d p u _ i) ],
      )
