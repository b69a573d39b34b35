-- ===== src/Service/View.antt =====
-- scissy/service.cc, the handlers that only read: the database's listings, and what they share with
-- the handlers on a repository's content.
pub mod Content
pub mod Listing
use scissy.Base.{
  ℕ, suc, ◌*◌, Bool, true, false, ◌&&◌, ◌||◌, Option, none, some, List, [], ◌∷◌, ◌++◌, map, String,
  get_or, ◌==◌, if◌then◌else◌,
}
use scissy.Base.Bytes.{Bytes, bytes_eq}
use scissy.Base.Rows.{first, select}
use scissy.Base.Order.{order_by}
use scissy.Pb.{Status, k_failed, k_not_found, k_internal_error, SshKey, Selector}
use scissy.Pb.View.{
  Answer, shown, refused, GroupEntry, Member, MemberList, RepoEntry, GroupSelector, SessionInfo,
  ServiceInfo,
}
use scissy.Git.{Git}
use scissy.Host.{Host}
use scissy.Config.{Config}
use scissy.Schema.{Database, User, UserSshKey, Group, GroupUser, Repo, RepoGroup, RepoUser}
use scissy.World.{M}
use scissy.Repositories.{get_repo_path}
use scissy.Session.{Session}
use scissy.Service.{
  Reply, Exec, answered, ◌>>=◌, ◌>>◌, gets, or_stop, answer, run, authenticate_user,
  check_public_repo,
}

-- A handler on the repositories' part that the session may read.
abbrev pub in_repo :
    {A : Type 0} → Session → Selector → (ℕ → Exec (Answer A) (Answer A)) → M (Reply (Answer A))
in_repo s sel body = run do repo_id ← check_public_repo refused s sel; body repo_id

-- `serviceInfo`; the version is the build's, and the time at which the server started the host's.
unfoldable pub service_info : Config → Bytes → ℕ → ServiceInfo
service_info cfg version start_time = record {
  clone_user = cfg.clone_user;
  clone_host = cfg.clone_host;
  version = version;
  start_time = start_time;
  is_register_enabled = cfg.is_register_enabled;
}

-- The handler `userGetSession`: the email is that of the message that the static function filled.
unfoldable pub get_session : Session → M (Reply (Answer SessionInfo))
get_session s = run do
  session ← authenticate_user s
  answer (
      shown (record {
        user = session.user;
        email = [];
        role = session.role;
        user_id = session.user_id;
      }))

abbrev pub key_info : UserSshKey → SshKey
key_info r = record {
  type = r.key_type;
  key = r.key;
  desc = some r.desc;
  key_id = some r.ssh_key_id;
}

unfoldable pub user_get_ssh_keys : Session → M (Reply (Answer (List SshKey)))
user_get_ssh_keys s = run do
  session ← authenticate_user s
  rows ← gets (λ d. select (λ r. r.user_id == session.user_id) d.users_ssh_keys)
  answer (shown (map key_info rows))

abbrev pub count : {A : Type 0} → List A → ℕ
count [] = 0
count (x ∷ xs) = suc (count xs)

-- The rows of a group in `groups_users`.
abbrev pub members_of : ℕ → List GroupUser → List GroupUser
members_of g rows = select (λ r. r.group_id == g) rows

-- A row of the left outer join, by group: `count(user_id)` does not count the row with no user.
abbrev pub group_entry : Database → Group → GroupEntry
group_entry d r = record {
  grp = r.name;
  grp_id = r.group_id;
  desc = r.desc;
  size = count (members_of r.group_id d.groups_users);
}

unfoldable pub groups_list : Database → List GroupEntry
groups_list d = map (group_entry d) (order_by (λ r. r.name) d.groups)

-- `group_id = ? or name = ?`, of which a field that is not set is its type's default.
abbrev pub is_selected : GroupSelector → Group → Bool
is_selected request r =
    r.group_id == get_or request.grp_id 0 || bytes_eq r.name (get_or request.grp [])

-- `groups natural join groups_users`: the tables share the column `group_id`.
unfoldable pub join_members : List Group → List GroupUser → List (Group × GroupUser)
join_members [] gus = []
join_members (g ∷ gs) gus = map (λ gu. (g, gu)) (members_of g.group_id gus) ++ join_members gs gus

unfoldable pub selected_members : GroupSelector → Database → List (Group × GroupUser)
unfolding join_members
selected_members request d = join_members (select (is_selected request) d.groups) d.groups_users

-- The columns beside an aggregate are those of a row that the engine picks, or null if there is none;
-- what a fetch makes of a null text is the host's.
abbrev pub aggregate : Host → Option (Group × GroupUser) → ℕ → GroupEntry
aggregate host none size = record {
  grp = host.null_text;
  grp_id = 0;
  desc = host.null_text;
  size = size;
}
aggregate host (some (g, gu)) size = record {
  grp = g.name;
  grp_id = g.group_id;
  desc = g.desc;
  size = size;
}

-- An aggregate with no `group by` has one row, whatever is selected: the fetch succeeds.
unfoldable pub group_get_info : Host → GroupSelector → Database → Answer GroupEntry
unfolding selected_members
group_get_info host request d =
    let rows = selected_members request d in
    shown (aggregate host (host.pick_row rows) (count rows))

-- A row of `join users using (user_id)`.
unfoldable pub with_login : List User → GroupUser → List Member
with_login [] gu = []
with_login (u ∷ us) gu =
    let rest = with_login us gu in
    if u.user_id == gu.user_id
    then record { id = u.user_id; name = u.login; role = gu.role_id } ∷ rest
    else rest

unfoldable pub logins : List User → List (Group × GroupUser) → List Member
unfolding with_login
logins us [] = []
logins us ((g, gu) ∷ rows) = with_login us gu ++ logins us rows

unfoldable pub group_list_members : GroupSelector → Database → List Member
unfolding selected_members logins
group_list_members request d = logins d.users (selected_members request d)
