-- ===== src/Server/Members/Clients.antt =====
-- What scissy-shell lets a user do after a change of a repository's members.
use scissy.Base.{
  ℕ, ◌≤◌, ◌≡◌, ◌≢◌, ◌↔◌, refl, sym, subst, ◌∙◌, Bool, true, false, Option, none, some, List, [],
  ◌∷◌,
}
use scissy.Base.Bytes.{Bytes}
use scissy.Pb.{Role, role_id, RepoAddUser, RepoRemoveUser, ShellStatus}
use scissy.Host.{Host}
use scissy.Config.{Config}
use scissy.Schema.{Database, Stmt, User, Repo, unless_violated}
use scissy.Schema.Valid.{IsValid}
use scissy.Schema.Repos.{insert_repo_user, delete_repo_user}
use scissy.World.{World, step, step_with}
use scissy.Db
use scissy.Db.Granted.{Grants}
use scissy.Repositories.{get_repo_path}
use scissy.Session.{Session}
use scissy.Service.{answered, succeed}
use scissy.Service.Keeps.{KeepsM, keeps_rules}
use scissy.Service.Members.{repo_add_user, repo_remove_user}
use scissy.Service.Shell.{shell_control}
use scissy.Server.Authority.Reads.{Names, Names_unique}
use scissy.Server.Members.{repo_add_user-Grants}
use scissy.Server.Members.Remove.{GrantsThroughGroup, repo_remove_user-Grants}
use scissy.Server.Stable.Requests.{add_repo_user-request, remove_repo_user-request}
use scissy.Server.Valid.{IsValid-Stable}
use scissy.Shell.{Action, is_read, program, main}
use scissy.Shell.Quote.{command}
use scissy.Shell.Acl.{MayDo, wanted, as_admin, in_public, by_role}
use scissy.Shell.Exec.{main-MayDo, main_refused}

-- The users and the repositories are those.
module _ (users : List User) (repos : List Repo) where
  abbrev Same : World → Type 0
  Same w = (w.db.users ≡ users) × (w.db.repos ≡ repos)

  step-Same :
      (st : Stmt)
      → ((d : Database) → ((st d).1.users ≡ d.users) × ((st d).1.repos ≡ d.repos))
      → KeepsM Same (step st)
  unfolding step step_with
  step-Same st k = record { at = λ w. on w w.faults }
    where
      on : (w : World) (fs : List Bool) → Same w → Same (step_with fs st w).1
      on w [] v = ((k w.db).0 ∙ v.0, (k w.db).1 ∙ v.1)
      on w (false ∷ fs) v = ((k w.db).0 ∙ v.0, (k w.db).1 ∙ v.1)
      on w (true ∷ fs) v = v

  unless_violated-Same :
      (b : Bool) (d d' : Database)
      → (d'.users ≡ d.users) × (d'.repos ≡ d.repos)
      → ((unless_violated b d d').1.users ≡ d.users) × ((unless_violated b d d').1.repos ≡ d.repos)
  unless_violated-Same true d d' e = (refl, refl)
  unless_violated-Same false d d' e = e

  add-Same : (p u : ℕ) (role : Role) → KeepsM Same (Db.repo_add_user p u role)
  unfolding Db.repo_add_user insert_repo_user
  add-Same p u role = record {
    at =
        (step-Same (insert_repo_user p u (role_id role))
          (λ d. unless_violated-Same _ d _ (refl, refl))).at;
  }

  remove-Same : (p u : ℕ) → KeepsM Same (Db.repo_remove_user p u)
  unfolding Db.repo_remove_user delete_repo_user
  remove-Same p u = record { at = (step-Same (delete_repo_user p u) (λ d. (refl, refl))).at }

  repo_add_user-Same : (s : Session) (r : RepoAddUser) → KeepsM Same (repo_add_user s r)
  unfolding repo_add_user
  repo_add_user-Same s r = search (keeps_rules, add-Same) depth 14

  repo_remove_user-Same : (s : Session) (r : RepoRemoveUser) → KeepsM Same (repo_remove_user s r)
  unfolding repo_remove_user
  repo_remove_user-Same s r = search (keeps_rules, remove-Same) depth 14

module _ (d d' : Database) (users : d'.users ≡ d.users) (repos : d'.repos ≡ d.repos) where
  same-repo_get_id : (name : Bytes) → Db.repo_get_id name d' ≡ Db.repo_get_id name d
  unfolding Db.repo_get_id
  same-repo_get_id name = rw repos refl

  same-repo_is_public : (p : ℕ) → Db.repo_is_public p d' ≡ Db.repo_is_public p d
  unfolding Db.repo_is_public
  same-repo_is_public p = rw repos refl

  same-user_is_admin : (u : ℕ) → Db.user_is_admin u d' ≡ Db.user_is_admin u d
  unfolding Db.user_is_admin
  same-user_is_admin u = rw users refl

module _ (host : Host) (cfg : Config) (s : Session) (w : World) (v : IsValid w.db) (action : Action)
    (name : Bytes) (p u : ℕ) (found : Db.repo_get_id name w.db ≡ some p) where
  -- The server's answers on a user.
  abbrev pub answers : Database → Bytes → Option ShellStatus
  answers d repo_name =
      some (shell_control host cfg (record { user_id = u; repo_name = repo_name }) d)

  -- Over a well-formed database: after repoAddUser was answered with success, scissy-shell executes
  -- the program of an action, on the path of the repository, for the user who was added, if the role
  -- is at least reader and the action reads, or the role is at least writer.
  pub main_after_add :
      (r : RepoAddUser)
      → Names Db.repo_get_id r.repo w.db p
      → Names Db.user_get_id r.user w.db u
      → wanted action ≤ role_id r.role
      → (repo_add_user s r w).0 ≡ answered succeed
      → main (answers (repo_add_user s r w).1.db) (command action name)
        ≡ some (program action, get_repo_path host cfg p)
  main_after_add r np nu le h =
      let (p', u', np', nu', g) = repo_add_user-Grants s r w h in
      let ep : p' ≡ p = Names_unique Db.repo_get_id r.repo w.db p' p np' np in
      let eu : u' ≡ u = Names_unique Db.user_get_id r.user w.db u' u nu' nu in
      let d' = (repo_add_user s r w).1.db in
      let k = (repo_add_user-Same w.db.users w.db.repos s r).at w (refl, refl) in
      let v' = (add_repo_user-request (IsValid-Stable host cfg) s r).at w v in
      (main-MayDo host cfg d' v' u action name (get_repo_path host cfg p)).1 (
        p,
        same-repo_get_id w.db d' k.0 k.1 name ∙ found,
        refl,
        by_role (role_id r.role)
            (subst (λ x. Grants d' x u (role_id r.role)) ep
              (subst (λ x. Grants d' p' x (role_id r.role)) eu g))
            le,
      )

  no_reason :
      (d' : Database) (users : d'.users ≡ w.db.users) (repos : d'.repos ≡ w.db.repos)
      → Db.user_is_admin u w.db ≢ some true
      → (is_read action ≡ true → Db.repo_is_public p w.db ≢ some true)
      → ((n : ℕ) → wanted action ≤ n → ¬ Grants d' p u n)
      → ¬ MayDo d' p u action
  no_reason d' users repos no_admin no_public no_role (as_admin x) =
      no_admin (sym (same-user_is_admin w.db d' users repos u) ∙ x)
  no_reason d' users repos no_admin no_public no_role (in_public r x) =
      no_public r (sym (same-repo_is_public w.db d' users repos p) ∙ x)
  no_reason d' users repos no_admin no_public no_role (by_role n g le) = no_role n le g

  -- Over a well-formed database: after repoRemoveUser was answered with success, scissy-shell executes
  -- nothing for the user who was removed, unless the user is an administrator, or has through a group a
  -- role that is enough for the action, or the action reads and the repository is public.
  pub main_after_remove :
      (r : RepoRemoveUser)
      → Names Db.repo_get_id r.repo w.db p
      → Names Db.user_get_id r.user w.db u
      → Db.user_is_admin u w.db ≢ some true
      → (is_read action ≡ true → Db.repo_is_public p w.db ≢ some true)
      → ((n : ℕ) → wanted action ≤ n → ¬ GrantsThroughGroup w.db p u n)
      → (repo_remove_user s r w).0 ≡ answered succeed
      → main (answers (repo_remove_user s r w).1.db) (command action name) ≡ none
  main_after_remove r np nu no_admin no_public no_group h =
      let (p', u', np', nu', g, others) = repo_remove_user-Grants s r w h in
      let ep : p' ≡ p = Names_unique Db.repo_get_id r.repo w.db p' p np' np in
      let eu : u' ≡ u = Names_unique Db.user_get_id r.user w.db u' u nu' nu in
      let d' = (repo_remove_user s r w).1.db in
      let k = (repo_remove_user-Same w.db.users w.db.repos s r).at w (refl, refl) in
      let v' = (remove_repo_user-request (IsValid-Stable host cfg) s r).at w v in
      let iff =
        subst (λ x. (n : ℕ) → Grants d' x u n ↔ GrantsThroughGroup w.db x u n) ep
          (subst (λ x. (n : ℕ) → Grants d' p' x n ↔ GrantsThroughGroup w.db p' x n) eu g) in
      main_refused host cfg d' v' u action name λ q e m.
        let same : q ≡ p = cc (e, same-repo_get_id w.db d' k.0 k.1 name, found) in
        no_reason d' k.0 k.1 no_admin no_public (λ n le x. no_group n le ((iff n).0 x))
          (subst (λ y. MayDo d' y u action) same m)
