-- ===== src/Db.antt =====
-- scissy/db.cc: the queries, and the statements whose codes the callers test.
pub mod Granted
use Prim.Native.Nat.{min}
use scissy.Base.{
  ℕ, Bool, true, false, ◌&&◌, Option, none, some, List, [], ◌∷◌, ◌++◌, map, String, ltb, ◌==◌,
  if◌then◌else◌,
}
use scissy.Base.Bytes.{Bytes, bytes_eq}
use scissy.Base.Rows.{any, select, first}
use scissy.Pb.{Role, role_id, role_is_valid}
use scissy.Schema.{
  Database, Code, done, constraint, error, code_to_bool, is_done, GroupUser, RepoGroup,
}
use scissy.Schema.Groups.{insert_group, delete_group, insert_group_user, delete_group_user}
use scissy.Schema.Repos.{insert_repo_user, delete_repo_user, insert_repo_group, delete_repo_group}
use scissy.World.{M, ◌>>=◌, ◌>>◌, pure, step}

abbrev column {ℓ κ} : {A : Type ℓ} {B : Type κ} → (A → B) → Option A → Option B
column f none = none
column f (some a) = some (f a)

unfoldable pub user_get_id : Bytes → Database → Option ℕ
user_get_id user d = column (λ r. r.user_id) (first (λ r. bytes_eq r.login user) d.users)

unfoldable pub user_is_admin : ℕ → Database → Option Bool
user_is_admin user_id d = column (λ r. r.role_id == 3) (first (λ r. r.user_id == user_id) d.users)

unfoldable pub group_get_user_role : ℕ → ℕ → Database → Option ℕ
group_get_user_role group_id user_id d =
    column (λ r. r.role_id)
      (first (λ r. r.group_id == group_id && r.user_id == user_id) d.groups_users)

unfoldable pub group_add_user : ℕ → ℕ → Role → M Bool
group_add_user grp_id user_id role = do
  c ← step (insert_group_user grp_id user_id (role_id role))
  pure (is_done c)

unfoldable pub group_remove_user : ℕ → ℕ → M (Unit {0})
group_remove_user grp_id user_id = do step (delete_group_user grp_id user_id); pure tt

-- What `Db::groupCreate` leaves in `*error`, if it returns false.
unfoldable pub create_error : Code → Option String
create_error done = none
create_error constraint = some "name already used"
create_error error = some "failed to register, internal error"

unfoldable pub group_create : Bytes → Bytes → M (Option String)
unfolding create_error
group_create group desc = do c ← step (insert_group group desc); pure (create_error c)

unfoldable pub group_get_id : Bytes → Database → Option ℕ
group_get_id group d = column (λ r. r.group_id) (first (λ r. bytes_eq r.name group) d.groups)

-- The code is returned as a bool.
unfoldable pub group_delete : ℕ → M Bool
group_delete grp_id = do c ← step (delete_group grp_id); pure (code_to_bool c)

unfoldable pub repo_get_id : Bytes → Database → Option ℕ
repo_get_id repo d = column (λ r. r.repo_id) (first (λ r. bytes_eq r.name repo) d.repos)

unfoldable pub repo_add_user : ℕ → ℕ → Role → M Bool
repo_add_user repo_id user_id role = do
  c ← step (insert_repo_user repo_id user_id (role_id role))
  pure (is_done c)

unfoldable pub repo_remove_user : ℕ → ℕ → M Bool
repo_remove_user repo_id user_id = do c ← step (delete_repo_user repo_id user_id); pure (is_done c)

unfoldable pub repo_add_group : ℕ → ℕ → Role → M Bool
repo_add_group repo_id group_id role = do
  c ← step (insert_repo_group repo_id group_id (role_id role))
  pure (is_done c)

unfoldable pub repo_remove_group : ℕ → ℕ → M Bool
repo_remove_group repo_id group_id = do
  c ← step (delete_repo_group repo_id group_id)
  pure (is_done c)

-- `repos_groups natural join groups_users`, for one row on the left: the two tables share the columns
-- `group_id` and `role_id`, and a natural join wants all shared columns equal.
unfoldable pub join_group : RepoGroup → ℕ → List GroupUser → List ℕ
join_group rg user_id [] = []
join_group rg user_id (gu ∷ gus) =
    let rest = join_group rg user_id gus in
    if (rg.group_id == gu.group_id && rg.role_id == gu.role_id) && gu.user_id == user_id
    then min rg.role_id gu.role_id ∷ rest
    else rest

unfoldable pub join_groups : ℕ → ℕ → List GroupUser → List RepoGroup → List ℕ
unfolding join_group
join_groups repo_id user_id gus [] = []
join_groups repo_id user_id gus (rg ∷ rgs) =
    let rest = join_groups repo_id user_id gus rgs in
    if rg.repo_id == repo_id then join_group rg user_id gus ++ rest else rest

-- `union` has no duplicates; its order is the engine's, and the loop below does not depend on it.
unfoldable pub distinct : List ℕ → List ℕ
distinct [] = []
distinct (n ∷ ns) = let rest = distinct ns in if any (λ m. m == n) ns then rest else n ∷ rest

-- The first `select` of the union.
abbrev pub member_roles : ℕ → ℕ → Database → List ℕ
member_roles repo_id user_id d =
    map (λ r. r.role_id) (select (λ r. r.repo_id == repo_id && r.user_id == user_id) d.repos_users)

unfoldable pub role_rows : ℕ → ℕ → Database → List ℕ
unfolding join_groups distinct
role_rows repo_id user_id d =
    distinct
      (member_roles repo_id user_id d ++ join_groups repo_id user_id d.groups_users d.repos_groups)

-- The loop of `Db::repoGetUserRole`: the function's result, and what is left in `*role`.
unfoldable pub greatest_role : List ℕ → ℕ → Bool × ℕ
greatest_role [] role = (true, role)
greatest_role (role1 ∷ rows) role =
    let rest = greatest_role rows (if ltb role role1 then role1 else role) in
    if role_is_valid role1 then rest else (false, role)

unfoldable pub repo_get_user_role : ℕ → ℕ → Database → Bool × ℕ
unfolding role_rows greatest_role
repo_get_user_role repo_id user_id d = greatest_role (role_rows repo_id user_id d) 0

unfoldable pub repo_is_public : ℕ → Database → Option Bool
repo_is_public repo_id d = column (λ r. r.is_public) (first (λ r. r.repo_id == repo_id) d.repos)
