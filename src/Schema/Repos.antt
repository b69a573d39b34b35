-- ===== src/Schema/Repos.antt =====
-- The statements on the tables `repos`, `repos_users` and `repos_groups`.
use scissy.Base.{ℕ, suc, Bool, not, ◌&&◌, ◌||◌, List, [], ◌∷◌, ◌++◌, ◌==◌, if◌then◌else◌}
use scissy.Base.Bytes.{Bytes, bytes_eq}
use scissy.Base.Rows.{any, delete}
use scissy.Schema.{
  Database, Stmt, Repo, RepoGroup, RepoUser, done, unless_violated, has_user, has_group, has_repo,
  has_role, picked_rowid,
}

unfoldable pub insert_repo : Bytes → Bytes → Bool → Stmt
insert_repo name desc is_public d =
    unless_violated (any (λ r. bytes_eq r.name name) d.repos) d (record d {
      repos =
          d.repos
          ++ record { repo_id = suc d.seq_repos; name = name; desc = desc; is_public = is_public }
            ∷ [];
      seq_repos = suc d.seq_repos;
      last_rowid = suc d.seq_repos;
    })

-- The row with the given id, rewritten; the other rows as they are.
unfoldable pub set_repo : ℕ → Bytes → Bytes → Bool → List Repo → List Repo
set_repo id name desc is_public [] = []
set_repo id name desc is_public (r ∷ rs) =
    (if r.repo_id == id then record r { name = name; desc = desc; is_public = is_public } else r)
    ∷ set_repo id name desc is_public rs

-- The new name must not be that of another row, if there is a row to rewrite.
unfoldable pub update_repo : ℕ → Bytes → Bytes → Bool → Stmt
unfolding set_repo
update_repo id name desc is_public d =
    unless_violated
      (has_repo d.repos id && any (λ r. bytes_eq r.name name && not (r.repo_id == id)) d.repos) d
      (record d { repos = set_repo id name desc is_public d.repos })

-- `on delete cascade` takes the memberships along.
unfoldable pub delete_repo : ℕ → Stmt
delete_repo p d = (
  done,
  record d {
    repos = delete (λ r. r.repo_id == p) d.repos;
    repos_users = delete (λ r. r.repo_id == p) d.repos_users;
    repos_groups = delete (λ r. r.repo_id == p) d.repos_groups;
  },
)

abbrev pub is_repo_named : Database → Bytes → ℕ → Bool
is_repo_named d name p = any (λ r. r.repo_id == p && bytes_eq r.name name) d.repos

unfoldable pub delete_repo_by_name : Bytes → Stmt
delete_repo_by_name name d = (
  done,
  record d {
    repos = delete (λ r. bytes_eq r.name name) d.repos;
    repos_users = delete (λ r. is_repo_named d name r.repo_id) d.repos_users;
    repos_groups = delete (λ r. is_repo_named d name r.repo_id) d.repos_groups;
  },
)

abbrev pub same_repo_user : RepoUser → RepoUser → Bool
same_repo_user r s = r.repo_id == s.repo_id && r.user_id == s.user_id

unfoldable pub insert_repo_user : ℕ → ℕ → ℕ → Stmt
insert_repo_user p u role d =
    let row : RepoUser = record { repo_id = p; user_id = u; role_id = role } in
    unless_violated
      (not (has_repo d.repos p)
        || (not (has_user d.users u)
            || (not (has_role role) || any (λ r. same_repo_user r row) d.repos_users)))
      d (record (picked_rowid d) { repos_users = d.repos_users ++ row ∷ [] })

unfoldable pub delete_repo_user : ℕ → ℕ → Stmt
delete_repo_user p u d =
    (done, record d { repos_users = delete (λ r. r.repo_id == p && r.user_id == u) d.repos_users })

abbrev pub same_repo_group : RepoGroup → RepoGroup → Bool
same_repo_group r s = r.repo_id == s.repo_id && r.group_id == s.group_id

unfoldable pub insert_repo_group : ℕ → ℕ → ℕ → Stmt
insert_repo_group p g role d =
    let row : RepoGroup = record { repo_id = p; group_id = g; role_id = role } in
    unless_violated
      (not (has_repo d.repos p)
        || (not (has_group d.groups g)
            || (not (has_role role) || any (λ r. same_repo_group r row) d.repos_groups)))
      d (record (picked_rowid d) { repos_groups = d.repos_groups ++ row ∷ [] })

unfoldable pub delete_repo_group : ℕ → ℕ → Stmt
delete_repo_group p g d = (
  done,
  record d { repos_groups = delete (λ r. r.repo_id == p && r.group_id == g) d.repos_groups },
)
