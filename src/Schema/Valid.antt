-- ===== src/Schema/Valid.antt =====
-- Well-formed databases: what the schema's keys, its foreign keys and its counters keep true.
pub mod Users
pub mod Groups
pub mod Repos
use scissy.Base.{ℕ, ◌≤◌, ◌≡◌, Bool, true, false, ◌||◌, ◌==◌, List, [], refl}
use scissy.Base.Bytes.{bytes_eq}
use scissy.Base.Rows.{All, Unique}
use scissy.Schema.{
  Database, Code, User, UserSshKey, UserAuthRow, Group, GroupUser, Repo, RepoGroup, RepoUser,
  has_user, has_group, has_repo, has_role, unless_violated,
}
use scissy.Schema.Users.{same_ssh_key, same_auth}
use scissy.Schema.Groups.{same_group_user}
use scissy.Schema.Repos.{same_repo_user, same_repo_group}

abbrev pub same_user : User → User → Bool
same_user r s = r.user_id == s.user_id || (bytes_eq r.login s.login || bytes_eq r.email s.email)

abbrev pub same_group : Group → Group → Bool
same_group r s = r.group_id == s.group_id || bytes_eq r.name s.name

abbrev pub same_repo : Repo → Repo → Bool
same_repo r s = r.repo_id == s.repo_id || bytes_eq r.name s.name

-- An id that the counter has given out.
abbrev pub Given : ℕ → ℕ → Type 0
Given seq id = (1 ≤ id) × (id ≤ seq)

pub record UsersValid (users : List User) (seq : ℕ) : Type 0 where
  pub ids : All (λ r. Given seq r.user_id) users
  pub unique : Unique same_user users

pub record KeysValid (users : List User) (keys : List UserSshKey) (seq : ℕ) : Type 0 where
  pub fits : All (λ r. (has_user users r.user_id ≡ true) × Given seq r.ssh_key_id) keys
  pub unique : Unique same_ssh_key keys

pub record AuthsValid (users : List User) (auths : List UserAuthRow) : Type 0 where
  pub fits : All (λ r. has_user users r.user_id ≡ true) auths
  pub unique : Unique same_auth auths

pub record GroupsValid (groups : List Group) (seq : ℕ) : Type 0 where
  pub ids : All (λ r. Given seq r.group_id) groups
  pub unique : Unique same_group groups

abbrev pub GroupUserFits : List Group → List User → GroupUser → Type 0
GroupUserFits groups users r =
    (has_group groups r.group_id ≡ true)
    × (has_user users r.user_id ≡ true)
    × (has_role r.role_id ≡ true)

pub record GroupUsersValid (groups : List Group) (users : List User) (rows : List GroupUser)
    : Type 0 where
  pub fits : All (GroupUserFits groups users) rows
  pub unique : Unique same_group_user rows

pub record ReposValid (repos : List Repo) (seq : ℕ) : Type 0 where
  pub ids : All (λ r. Given seq r.repo_id) repos
  pub unique : Unique same_repo repos

abbrev pub RepoUserFits : List Repo → List User → RepoUser → Type 0
RepoUserFits repos users r =
    (has_repo repos r.repo_id ≡ true)
    × (has_user users r.user_id ≡ true)
    × (has_role r.role_id ≡ true)

pub record RepoUsersValid (repos : List Repo) (users : List User) (rows : List RepoUser)
    : Type 0 where
  pub fits : All (RepoUserFits repos users) rows
  pub unique : Unique same_repo_user rows

abbrev pub RepoGroupFits : List Repo → List Group → RepoGroup → Type 0
RepoGroupFits repos groups r =
    (has_repo repos r.repo_id ≡ true)
    × (has_group groups r.group_id ≡ true)
    × (has_role r.role_id ≡ true)

pub record RepoGroupsValid (repos : List Repo) (groups : List Group) (rows : List RepoGroup)
    : Type 0 where
  pub fits : All (RepoGroupFits repos groups) rows
  pub unique : Unique same_repo_group rows

pub record IsValid (d : Database) : Type 0 where
  pub users : UsersValid d.users d.seq_users
  pub keys : KeysValid d.users d.users_ssh_keys d.seq_keys
  pub auths : AuthsValid d.users d.users_auths
  pub groups : GroupsValid d.groups d.seq_groups
  pub group_users : GroupUsersValid d.groups d.users d.groups_users
  pub repos : ReposValid d.repos d.seq_repos
  pub repo_users : RepoUsersValid d.repos d.users d.repos_users
  pub repo_groups : RepoGroupsValid d.repos d.groups d.repos_groups
