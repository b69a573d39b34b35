-- ===== src/Access.antt =====
-- scissy/access.cc.
use scissy.Base.{
  ℕ, ◌≤◌, ◌≡◌, ◌↔◌, ◌⊎◌, inl, inr, sym, ◌∙◌, arith, Bool, true, false, ◌&&◌, Option, none, some,
  ltb, leb, ◌==◌, if◌then◌else◌,
}
use scissy.Pb.{Role, role_id}
use scissy.Schema.{Database}
use scissy.Session.{Session}
use scissy.Schema.Valid.{IsValid}
use scissy.Db.Granted.{Grants, repo_get_user_role-IsGreatest}
use scissy.Db.{repo_is_public, repo_get_user_role}

-- After `Db::repoGetUserRole`, which was given the parameter `role` to fill: `user_role` is still
-- `kNone`, and it is compared with what was filled in.
abbrev compare_roles : Bool × ℕ → Bool
compare_roles (false, role) = false
compare_roles (true, role) = leb role (role_id Role.k_none)

abbrev check_private : Session → ℕ → Role → Database → Bool → Bool
check_private session repo_id role d is_public =
    if is_public && role_id role == 1
    then true
    else if ltb session.user_id 1
    then false
    else compare_roles (repo_get_user_role repo_id session.user_id d)

abbrev check_found : Session → ℕ → Role → Database → Option Bool → Bool
check_found session repo_id role d none = false
check_found session repo_id role d (some is_public) = check_private session repo_id role d is_public

unfoldable pub access_check_repo : Session → ℕ → Role → Database → Bool
access_check_repo session repo_id role d =
    check_found session repo_id role d (repo_is_public repo_id d)

-- The check of a private repository comes down to the comparison.
private_check :
    (session : Session) (repo_id : ℕ) (role : Role) (d : Database)
    → repo_is_public repo_id d ≡ some false
    → 1 ≤ session.user_id
    → access_check_repo session repo_id role d
      ≡ compare_roles (repo_get_user_role repo_id session.user_id d)
unfolding access_check_repo
private_check session repo_id role d p u = rw p (ground arith)

compare_roles-true : (r : Bool × ℕ) → r.0 ≡ true → (compare_roles r ≡ true) ↔ (r.1 ≡ 0)
compare_roles-true (ok, role) e = (λ h. ground arith, λ h. ground arith)

-- Over a well-formed database, a signed-in user of a private repository is let in exactly if the
-- database grants the user no role on it but `none`, whatever role is asked for: the roles are compared
-- the wrong way round.
pub access_check_repo-Grants :
    (session : Session) (repo_id : ℕ) (role : Role) (d : Database)
    → IsValid d
    → repo_is_public repo_id d ≡ some false
    → 1 ≤ session.user_id
    → (access_check_repo session repo_id role d ≡ true)
      ↔ ((n : ℕ) → Grants d repo_id session.user_id n → n ≡ 0)
access_check_repo-Grants session repo_id role d v p u = (
  λ h n g.
      let z = c.0 (sym (private_check session repo_id role d p u) ∙ h) in
      let le = r.1 n g in omega arith,
  λ all. private_check session repo_id role d p u ∙ c.1 (none_granted r.2 all),
)
  where
    r :
        ((repo_get_user_role repo_id session.user_id d).0 ≡ true)
        × ((n : ℕ)
            → Grants d repo_id session.user_id n
            → n ≤ (repo_get_user_role repo_id session.user_id d).1)
        × (((repo_get_user_role repo_id session.user_id d).1 ≡ 0)
            ⊎ Grants d repo_id session.user_id (repo_get_user_role repo_id session.user_id d).1)
    r = repo_get_user_role-IsGreatest d repo_id session.user_id v

    c :
        (compare_roles (repo_get_user_role repo_id session.user_id d) ≡ true)
        ↔ ((repo_get_user_role repo_id session.user_id d).1 ≡ 0)
    c = compare_roles-true (repo_get_user_role repo_id session.user_id d) r.0

    none_granted :
        {m : ℕ}
        → (m ≡ 0) ⊎ Grants d repo_id session.user_id m
        → ((n : ℕ) → Grants d repo_id session.user_id n → n ≡ 0)
        → m ≡ 0
    none_granted (inl e) all = e
    none_granted {m} (inr g) all = all m g
