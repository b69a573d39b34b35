-- ===== src/Server.antt =====
-- The requests that can change the state, and the server that runs them one after the other. A request
-- comes with its cookies; `SessionHandler` makes its session from them.
pub mod Stable
pub mod Valid
pub mod KeyFile
pub mod Authority
pub mod Members
pub mod Repos
pub mod Reveal
pub mod Threads
use scissy.Base.{ℕ, Bool, Option, List, [], ◌∷◌}
use scissy.Base.Bytes.{Bytes}
use scissy.Pb.{
  Selector, GroupCreate, GroupAddUser, GroupRemoveUser, RepoCreate, RepoUpdate, RepoAddUser,
  RepoRemoveUser, RepoAddGroup, RepoRemoveGroup, UserCreate, UserAuth, SshKey,
}
use scissy.Host.{Host}
use scissy.Config.{Config}
use scissy.World.{World}
use scissy.Session.{Session, Cookies, session, session_handle, logout}
use scissy.Service.Users.{user_create, user_set_password, user_add_ssh_key, user_remove_ssh_key}
use scissy.Service.Users.Auth.{user_auth}
use scissy.Service.Groups.{group_create, group_delete, group_add_user, group_remove_user}
use scissy.Service.Repos.{repo_create, repo_update, repo_delete}
use scissy.Service.Members.{repo_add_user, repo_remove_user, repo_add_group, repo_remove_group}

-- With each request, what it takes from outside: random bytes, and whether its channel is SSL.
pub data Request : Type 0 where
  register : Option Bytes → UserCreate → Request
  sign_in : Option Bytes → Bool → UserAuth → Request
  sign_out : Bool → Request
  set_password : Bytes → Bytes → Request
  add_ssh_key : SshKey → Request
  remove_ssh_key : SshKey → Request
  create_group : GroupCreate → Request
  delete_group : Selector → Request
  add_group_user : GroupAddUser → Request
  remove_group_user : GroupRemoveUser → Request
  create_repo : RepoCreate → Request
  update_repo : RepoUpdate → Request
  delete_repo : Selector → Request
  add_repo_user : RepoAddUser → Request
  remove_repo_user : RepoRemoveUser → Request
  add_repo_group : RepoAddGroup → Request
  remove_repo_group : RepoRemoveGroup → Request

module _ (host : Host) (cfg : Config) where
  -- The state after a request under a session.
  unfoldable pub serve_as : Session → Request → World → World
  serve_as s (register random r) w = (user_create host cfg random r w).1
  serve_as s (sign_in random is_ssl r) w = (user_auth host cfg random is_ssl r w).1
  serve_as s (sign_out is_ssl) w = w
  serve_as s (set_password user password) w = (user_set_password host cfg s user password w).1
  serve_as s (add_ssh_key key) w = (user_add_ssh_key host cfg s key w).1
  serve_as s (remove_ssh_key key) w = (user_remove_ssh_key host cfg s key w).1
  serve_as s (create_group r) w = (group_create s r w).1
  serve_as s (delete_group r) w = (group_delete s r w).1
  serve_as s (add_group_user r) w = (group_add_user s r w).1
  serve_as s (remove_group_user r) w = (group_remove_user s r w).1
  serve_as s (create_repo r) w = (repo_create host cfg s r w).1
  serve_as s (update_repo r) w = (repo_update s r w).1
  serve_as s (delete_repo r) w = (repo_delete host cfg s r w).1
  serve_as s (add_repo_user r) w = (repo_add_user s r w).1
  serve_as s (remove_repo_user r) w = (repo_remove_user s r w).1
  serve_as s (add_repo_group r) w = (repo_add_group s r w).1
  serve_as s (remove_repo_group r) w = (repo_remove_group s r w).1

  -- `LogoutHandler` makes its own session.
  unfoldable pub serve : Cookies → Request → World → World
  unfolding serve_as
  serve cookies (sign_out is_ssl) w = (logout cookies is_ssl w).1
  serve cookies r w = serve_as (session cookies w.db) r w

  unfoldable pub serve_all : List (Cookies × Request) → World → World
  unfolding serve
  serve_all [] w = w
  serve_all ((cookies, r) ∷ rs) w = serve_all rs (serve cookies r w)
