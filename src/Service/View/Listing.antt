-- ===== src/Service/View/Listing.antt =====
-- scissy/service.cc, the view of the repositories.
use scissy.Base.{ℕ, Option, none, some, List, [], ◌∷◌, ◌++◌, map, ◌==◌, if◌then◌else◌}
use scissy.Base.Rows.{first}
use scissy.Base.Order.{order_by}
use scissy.Pb.{k_not_found, Selector}
use scissy.Pb.View.{Answer, shown, refused, Member, MemberList, RepoEntry}
use scissy.Git.{Git}
use scissy.Host.{Host}
use scissy.Config.{Config}
use scissy.Schema.{Database, User, Group, Repo, RepoGroup, RepoUser}
use scissy.World.{M}
use scissy.Repositories.{get_repo_path}
use scissy.Session.{Session}
use scissy.Service.{Reply, answered, ◌>>=◌, gets, or_stop, answer}
use scissy.Service.View.{in_repo}

-- A row of `repos_groups join groups using (group_id)`.
unfoldable pub with_group : List Group → RepoGroup → List Member
with_group [] rg = []
with_group (g ∷ gs) rg =
    let rest = with_group gs rg in
    if g.group_id == rg.group_id
    then record { id = g.group_id; name = g.name; role = rg.role_id } ∷ rest
    else rest

unfoldable pub repo_groups_of : ℕ → List Group → List RepoGroup → List Member
unfolding with_group
repo_groups_of p gs [] = []
repo_groups_of p gs (rg ∷ rgs) =
    let rest = repo_groups_of p gs rgs in if rg.repo_id == p then with_group gs rg ++ rest else rest

-- A row of `repos_users join users using (user_id)`.
unfoldable pub with_user : List User → RepoUser → List Member
with_user [] ru = []
with_user (u ∷ us) ru =
    let rest = with_user us ru in
    if u.user_id == ru.user_id
    then record { id = u.user_id; name = u.login; role = ru.role_id } ∷ rest
    else rest

unfoldable pub repo_users_of : ℕ → List User → List RepoUser → List Member
unfolding with_user
repo_users_of p us [] = []
repo_users_of p us (ru ∷ rus) =
    let rest = repo_users_of p us rus in if ru.repo_id == p then with_user us ru ++ rest else rest

-- Both queries, in the order of the names.
unfoldable pub member_list : ℕ → Database → MemberList
unfolding repo_groups_of repo_users_of
member_list p d = record {
  groups = order_by (λ m. m.name) (repo_groups_of p d.groups d.repos_groups);
  users = order_by (λ m. m.name) (repo_users_of p d.users d.repos_users);
}

unfoldable pub repo_list_members : Session → Selector → M (Reply (Answer MemberList))
repo_list_members s request =
    in_repo s request λ p. do list ← gets (member_list p); answer (shown list)

module _ (host : Host) (cfg : Config) (git : Git) where
  -- The time of the last commit is set if the repository opens.
  abbrev pub opened_time : Option git.Repo → Option ℕ
  opened_time none = none
  opened_time (some repo) = some (git.last_commit_time repo)

  unfoldable pub repo_entry : Repo → RepoEntry
  repo_entry r = record {
    id = r.repo_id;
    name = r.name;
    desc = r.desc;
    is_public = r.is_public;
    last_commit_time = opened_time (git.open_repo (get_repo_path host cfg r.repo_id));
  }

  -- Every repository, for every caller.
  unfoldable pub repos_list : Database → List RepoEntry
  unfolding repo_entry
  repos_list d = map repo_entry (order_by (λ r. r.name) d.repos)

  unfoldable pub repo_get_info : Session → Selector → M (Reply (Answer RepoEntry))
  unfolding repo_entry
  repo_get_info s request = in_repo s request λ p. do
    found ← gets (λ d. first (λ r. r.repo_id == p) d.repos)
    r ← or_stop found (answered (refused k_not_found "repository not found"))
    answer (shown (repo_entry r))
