-- ===== src/Schema.antt =====
-- The database of sql/model.sql: one list of rows for each table, and the statements that the
-- program prepares, with the meaning that SQL gives them over that schema. Foreign keys are enforced
-- and deletions cascade, since scissy/main.cc turns `foreign_keys` on. Nothing deletes a user.
pub mod Users
pub mod Groups
pub mod Repos
pub mod Valid
use scissy.Base.{ℕ, Bool, true, false, List, [], ◌∷◌, leb, ◌==◌}
use scissy.Base.Bytes.{Bytes}
use scissy.Base.Rows.{any}

pub record User : Type 0 where
  pub user_id : ℕ
  pub login : Bytes
  pub email : Bytes
  pub password_type : Bytes
  pub password_salt : Bytes
  pub password_hash : Bytes
  pub role_id : ℕ

pub record UserSshKey : Type 0 where
  pub ssh_key_id : ℕ
  pub user_id : ℕ
  pub key_type : ℕ
  pub key : Bytes
  pub desc : Bytes
  pub ts_created : ℕ

pub record UserAuthRow : Type 0 where
  pub user_id : ℕ
  pub token : Bytes
  pub ts_start : ℕ

pub record Group : Type 0 where
  pub group_id : ℕ
  pub name : Bytes
  pub desc : Bytes

pub record GroupUser : Type 0 where
  pub group_id : ℕ
  pub user_id : ℕ
  pub role_id : ℕ

pub record Repo : Type 0 where
  pub repo_id : ℕ
  pub name : Bytes
  pub desc : Bytes
  pub is_public : Bool

pub record RepoGroup : Type 0 where
  pub repo_id : ℕ
  pub group_id : ℕ
  pub role_id : ℕ

pub record RepoUser : Type 0 where
  pub repo_id : ℕ
  pub user_id : ℕ
  pub role_id : ℕ

-- The tables, the counters of the `autoincrement` columns, and the rowid of the last insert over the
-- connection. A table without an integer key has rowids too, which the engine picks: `rowids` holds
-- those of the inserts to come into such a table, and after these it is 1.
pub record Database : Type 0 where
  pub users : List User
  pub users_ssh_keys : List UserSshKey
  pub users_auths : List UserAuthRow
  pub groups : List Group
  pub groups_users : List GroupUser
  pub repos : List Repo
  pub repos_groups : List RepoGroup
  pub repos_users : List RepoUser
  pub seq_users : ℕ
  pub seq_keys : ℕ
  pub seq_groups : ℕ
  pub seq_repos : ℕ
  pub last_rowid : ℕ
  pub rowids : List ℕ

abbrev next_rowid : List ℕ → ℕ
next_rowid [] = 1
next_rowid (n ∷ ns) = n

abbrev later_rowids : List ℕ → List ℕ
later_rowids [] = []
later_rowids (n ∷ ns) = ns

-- An insert into a table without an integer key has picked its rowid.
abbrev pub picked_rowid : Database → Database
picked_rowid d = record d { last_rowid = next_rowid d.rowids; rowids = later_rowids d.rowids }

-- What `sqlite3_step` returns for a statement that yields no row. `error` stands for the codes other
-- than these two, none of which is zero.
pub data Code : Type 0 where
  done constraint error : Code

-- A code as a C++ condition: no code of a step is `SQLITE_OK`, which is zero.
abbrev pub code_to_bool : Code → Bool
code_to_bool done = true
code_to_bool constraint = true
code_to_bool error = true

abbrev pub is_done : Code → Bool
is_done done = true
is_done _ = false

abbrev pub Stmt : Type 0
Stmt = Database → Code × Database

-- A statement that a constraint refuses changes nothing.
abbrev pub unless_violated : Bool → Database → Database → Code × Database
unless_violated true d d' = (constraint, d)
unless_violated false d d' = (done, d')

unfoldable pub has_user : List User → ℕ → Bool
has_user rows u = any (λ r. r.user_id == u) rows

unfoldable pub has_group : List Group → ℕ → Bool
has_group rows g = any (λ r. r.group_id == g) rows

unfoldable pub has_repo : List Repo → ℕ → Bool
has_repo rows p = any (λ r. r.repo_id == p) rows

-- The rows of the table `roles`.
abbrev pub has_role : ℕ → Bool
has_role r = leb r 3
