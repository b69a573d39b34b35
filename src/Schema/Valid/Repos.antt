-- ===== src/Schema/Valid/Repos.antt =====
-- The statements on repositories keep a database well-formed.
mod Rows
mod Update
use Rows.{
  RepoUsersValid-append, RepoGroupsValid-append, ReposValid-append, ReposValid-delete,
  RepoUsersValid-delete, RepoGroupsValid-delete, has_repo-delete, has_repo-delete_named,
  RepoUsersValid-add, RepoGroupsValid-add, RepoUsersValid-remove, RepoGroupsValid-remove,
}
use Update.{ReposValid-set_repo, RepoUsersValid-set_repo, RepoGroupsValid-set_repo}
use scissy.Base.{
  ℕ, suc, ◌≤◌, ◌≡◌, refl, inl, inr, Bool, true, false, not, ◌||◌, ◌&&◌, ◌==◌, arith, List, [], ◌∷◌,
  ◌++◌, ◌∙◌, Bool-cases, if◌then◌else◌,
}
use scissy.Base.Bytes.{Bytes, bytes_eq, bytes_eq_comm}
use scissy.Base.Rows.{
  any, delete, any-append, any-delete, any-ext_All, All, All-append, All-mono, All-delete, Unique,
  Unique-append, Unique-delete, any-delete_disjoint,
}
use scissy.Schema.{
  Database, User, Group, Repo, RepoUser, RepoGroup, has_user, has_group, has_repo, has_role,
}
use scissy.Schema.Repos.{
  insert_repo, set_repo, update_repo, delete_repo, delete_repo_by_name, is_repo_named,
  insert_repo_user, delete_repo_user, insert_repo_group, delete_repo_group, same_repo_user,
  same_repo_group,
}
use scissy.Schema.Valid.{
  IsValid, same_repo, Given, ReposValid, RepoUsersValid, RepoGroupsValid, RepoUserFits,
  RepoGroupFits,
}

module _ (d : Database) (v : IsValid d) where
  pub insert_repo-IsValid :
      (name desc : Bytes) (is_public : Bool) → IsValid (insert_repo name desc is_public d).1
  unfolding insert_repo
  insert_repo-IsValid name desc is_public =
      elim (Bool-cases (any (λ r. bytes_eq r.name name) d.repos)) [
        | inl taken ↦ rw taken v
        | inr fresh ↦
            let p : Repo = record {
              repo_id = suc d.seq_repos;
              name = name;
              desc = desc;
              is_public = is_public;
            } in
            rw fresh (
              assumption (
                ReposValid-append d.repos d.seq_repos name desc is_public v.repos fresh,
                RepoUsersValid-append d.repos p v.repo_users,
                RepoGroupsValid-append d.repos p v.repo_groups,
              ))
      ]

  pub update_repo-IsValid :
      (id : ℕ) (name desc : Bytes) (is_public : Bool)
      → IsValid (update_repo id name desc is_public d).1
  unfolding update_repo
  update_repo-IsValid id name desc is_public =
      elim (Bool-cases
        (has_repo d.repos id && any (λ r. bytes_eq r.name name && not (r.repo_id == id)) d.repos)) [
          | inl taken ↦ rw taken v
          | inr fresh ↦ rw fresh (
              assumption (
                ReposValid-set_repo d v id name desc is_public fresh,
                RepoUsersValid-set_repo d v id name desc is_public fresh,
                RepoGroupsValid-set_repo d v id name desc is_public fresh,
              ))
        ]

  pub delete_repo-IsValid : (p : ℕ) → IsValid (delete_repo p d).1
  unfolding delete_repo
  delete_repo-IsValid p =
      let this = λ (r : Repo). r.repo_id == p in
      let gone = λ (id : ℕ). id == p in
      let kept = has_repo-delete d.repos p in
      assumption (
        ReposValid-delete d.repos this gone kept v.repos,
        RepoUsersValid-delete d.repos this gone kept v.repo_users,
        RepoGroupsValid-delete d.repos this gone kept v.repo_groups,
      )

  pub delete_repo_by_name-IsValid : (name : Bytes) → IsValid (delete_repo_by_name name d).1
  unfolding delete_repo_by_name
  delete_repo_by_name-IsValid name =
      let this = λ (r : Repo). bytes_eq r.name name in
      let gone = is_repo_named d name in
      let kept = has_repo-delete_named d name in
      assumption (
        ReposValid-delete d.repos this gone kept v.repos,
        RepoUsersValid-delete d.repos this gone kept v.repo_users,
        RepoGroupsValid-delete d.repos this gone kept v.repo_groups,
      )

  pub insert_repo_user-IsValid : (p u role : ℕ) → IsValid (insert_repo_user p u role d).1
  unfolding insert_repo_user
  insert_repo_user-IsValid p u role =
      let row : RepoUser = record { repo_id = p; user_id = u; role_id = role } in
      elim (Bool-cases (
        not (has_repo d.repos p)
        || (not (has_user d.users u)
            || (not (has_role role) || any (λ r. same_repo_user r row) d.repos_users)))) [
              | inl refused ↦ rw refused v
              | inr fits ↦
                  rw fits (assumption (RepoUsersValid-add d.repos_users row v.repo_users fits))
            ]

  pub insert_repo_group-IsValid : (p g role : ℕ) → IsValid (insert_repo_group p g role d).1
  unfolding insert_repo_group
  insert_repo_group-IsValid p g role =
      let row : RepoGroup = record { repo_id = p; group_id = g; role_id = role } in
      elim (Bool-cases (
        not (has_repo d.repos p)
        || (not (has_group d.groups g)
            || (not (has_role role) || any (λ r. same_repo_group r row) d.repos_groups)))) [
              | inl refused ↦ rw refused v
              | inr fits ↦
                  rw fits (assumption (RepoGroupsValid-add d.repos_groups row v.repo_groups fits))
            ]

  pub delete_repo_user-IsValid : (p u : ℕ) → IsValid (delete_repo_user p u d).1
  unfolding delete_repo_user
  delete_repo_user-IsValid p u =
      let gone = λ (r : RepoUser). r.repo_id == p && r.user_id == u in
      assumption (RepoUsersValid-remove gone v.repo_users)

  pub delete_repo_group-IsValid : (p g : ℕ) → IsValid (delete_repo_group p g d).1
  unfolding delete_repo_group
  delete_repo_group-IsValid p g =
      let gone = λ (r : RepoGroup). r.repo_id == p && r.group_id == g in
      assumption (RepoGroupsValid-remove gone v.repo_groups)
