-- ===== src/Server/Stable/Requests.antt =====
-- Every request keeps a stable predicate, whatever it asks for and whichever statements the engine
-- refuses.
use scissy.Base.{Bool, List, [], ◌∷◌, Option}
use scissy.Base.Bytes.{Bytes}
use scissy.Pb.{
  Selector, GroupCreate, GroupAddUser, GroupRemoveUser, RepoCreate, RepoUpdate, RepoAddUser,
  RepoRemoveUser, RepoAddGroup, RepoRemoveGroup, UserCreate, UserAuth,
}
use scissy.Host.{Host}
use scissy.Config.{Config}
use scissy.World.{World}
use scissy.Session.{Session, Cookies, session, logout}
use scissy.Service.Keeps.{Keeps, KeepsM, keeps_rules}
use scissy.Service.Users.{user_create, user_set_password}
use scissy.Service.Users.Auth.{user_auth, Verdict, granted, refused, unless_denied}
use scissy.Service.Groups.{group_create, group_delete, group_add_user, group_remove_user}
use scissy.Service.Repos.{repo_create, repo_update, repo_delete}
use scissy.Service.Members.{repo_add_user, repo_remove_user, repo_add_group, repo_remove_group}
use scissy.Server.{
  Request, register, sign_in, sign_out, set_password, add_ssh_key, remove_ssh_key, create_group,
  delete_group, add_group_user, remove_group_user, create_repo, update_repo, delete_repo,
  add_repo_user, remove_repo_user, add_repo_group, remove_repo_group, serve_as, serve, serve_all,
}
use scissy.Server.Stable.{Stable}
use scissy.Server.Stable.Parts.{parts_rules, set_owner-Keeps}

unless_denied-Keeps : {P : World → Type 0} (v : Verdict) → Keeps P (unless_denied v)
unfolding unless_denied
unless_denied-Keeps granted = search keeps_rules
unless_denied-Keeps (refused msg) = search keeps_rules

module _ {host : Host} {cfg : Config} {P : World → Type 0} (stable : Stable host cfg P) where
  create_group-request : (s : Session) (r : GroupCreate) → KeepsM P (group_create s r)
  unfolding group_create
  create_group-request s r = search (parts_rules, set_owner-Keeps) depth 20

  delete_group-request : (s : Session) (r : Selector) → KeepsM P (group_delete s r)
  unfolding group_delete
  delete_group-request s r = search parts_rules depth 20

  add_group_user-request : (s : Session) (r : GroupAddUser) → KeepsM P (group_add_user s r)
  unfolding group_add_user
  add_group_user-request s r = search parts_rules depth 20

  remove_group_user-request : (s : Session) (r : GroupRemoveUser) → KeepsM P (group_remove_user s r)
  unfolding group_remove_user
  remove_group_user-request s r = search parts_rules depth 20

  update_repo-request : (s : Session) (r : RepoUpdate) → KeepsM P (repo_update s r)
  unfolding repo_update
  update_repo-request s r = search (parts_rules, stable.update_repo) depth 20

  pub add_repo_user-request : (s : Session) (r : RepoAddUser) → KeepsM P (repo_add_user s r)
  unfolding repo_add_user
  add_repo_user-request s r = search parts_rules depth 20

  pub remove_repo_user-request :
      (s : Session) (r : RepoRemoveUser) → KeepsM P (repo_remove_user s r)
  unfolding repo_remove_user
  remove_repo_user-request s r = search parts_rules depth 20

  pub add_repo_group-request : (s : Session) (r : RepoAddGroup) → KeepsM P (repo_add_group s r)
  unfolding repo_add_group
  add_repo_group-request s r = search parts_rules depth 20

  remove_repo_group-request : (s : Session) (r : RepoRemoveGroup) → KeepsM P (repo_remove_group s r)
  unfolding repo_remove_group
  remove_repo_group-request s r = search parts_rules depth 20

  register-request :
      (random : Option Bytes) (r : UserCreate) → KeepsM P (user_create host cfg random r)
  unfolding user_create
  register-request random r = search (parts_rules, stable.insert_user) depth 20

  sign_in-request :
      (random : Option Bytes) (is_ssl : Bool) (r : UserAuth)
      → KeepsM P (user_auth host cfg random is_ssl r)
  unfolding user_auth
  sign_in-request random is_ssl r =
      search (parts_rules, unless_denied-Keeps, stable.insert_auth) depth 20

  set_password-request :
      (s : Session) (user password : Bytes) → KeepsM P (user_set_password host cfg s user password)
  unfolding user_set_password
  set_password-request s user password = search parts_rules depth 20

  create_repo-request : (s : Session) (r : RepoCreate) → KeepsM P (repo_create host cfg s r)
  unfolding repo_create
  create_repo-request s r = search parts_rules depth 20

  delete_repo-request : (s : Session) (r : Selector) → KeepsM P (repo_delete host cfg s r)
  unfolding repo_delete
  delete_repo-request s r = search parts_rules depth 20

  serve_as-Keeps : (s : Session) (r : Request) (w : World) → P w → P (serve_as host cfg s r w)
  unfolding serve_as
  serve_as-Keeps s (register random r) w v = (register-request random r).at w v
  serve_as-Keeps s (sign_in random is_ssl r) w v = (sign_in-request random is_ssl r).at w v
  serve_as-Keeps s (sign_out is_ssl) w v = v
  serve_as-Keeps s (set_password user password) w v = (set_password-request s user password).at w v
  serve_as-Keeps s (add_ssh_key key) w v = (stable.add_key s key).at w v
  serve_as-Keeps s (remove_ssh_key key) w v = (stable.remove_key s key).at w v
  serve_as-Keeps s (create_group r) w v = (create_group-request s r).at w v
  serve_as-Keeps s (delete_group r) w v = (delete_group-request s r).at w v
  serve_as-Keeps s (add_group_user r) w v = (add_group_user-request s r).at w v
  serve_as-Keeps s (remove_group_user r) w v = (remove_group_user-request s r).at w v
  serve_as-Keeps s (create_repo r) w v = (create_repo-request s r).at w v
  serve_as-Keeps s (update_repo r) w v = (update_repo-request s r).at w v
  serve_as-Keeps s (delete_repo r) w v = (delete_repo-request s r).at w v
  serve_as-Keeps s (add_repo_user r) w v = (add_repo_user-request s r).at w v
  serve_as-Keeps s (remove_repo_user r) w v = (remove_repo_user-request s r).at w v
  serve_as-Keeps s (add_repo_group r) w v = (add_repo_group-request s r).at w v
  serve_as-Keeps s (remove_repo_group r) w v = (remove_repo_group-request s r).at w v

  logout-Keeps :
      (cookies : Cookies) (is_ssl : Bool) (w : World) → P w → P (logout cookies is_ssl w).1
  unfolding logout
  logout-Keeps cookies is_ssl w v = (stable.delete_auth _ _).at w v

  serve-Keeps : (cookies : Cookies) (r : Request) (w : World) → P w → P (serve host cfg cookies r w)
  unfolding serve
  serve-Keeps cookies (sign_out is_ssl) w v = logout-Keeps cookies is_ssl w v
  serve-Keeps cookies r w v = serve_as-Keeps (session cookies w.db) r w v

  pub serve_all-Keeps :
      (requests : List (Cookies × Request)) (w : World) → P w → P (serve_all host cfg requests w)
  unfolding serve_all
  serve_all-Keeps [] w v = v
  serve_all-Keeps ((cookies, r) ∷ rs) w v =
      serve_all-Keeps rs (serve host cfg cookies r w) (serve-Keeps cookies r w v)
