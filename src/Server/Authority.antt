-- ===== src/Server/Authority.antt =====
-- Who may change what: a request on a repository changes nothing unless it comes from an owner of the
-- repository.
pub mod Reads
pub mod Groups
pub use Reads.{Names}
use Reads.{
  same_target, OnlyIf, bind-OnlyIf, authenticate_user-Reads, authenticate_user-user_id,
  set_grp_id-Reads, set_grp_id-Names, set_repo_id-Reads, set_repo_id-Names, set_user_id-Reads,
  check_repo_role-Reads, check_repo_role-Grants, gets-Reads, unless_ok-Reads, gets-true,
}
use scissy.Base.{
  ℕ, ◌≤◌, ◌≡◌, refl, sym, subst, ◌∙◌, ap, ◌⊎◌, inl, inr, Bool, true, false, Option, none, some,
  String, ltb, ◌==◌, arith, Option-cases, Bool-cases, if◌then◌else◌,
}
use scissy.Base.Bytes.{Bytes}
use scissy.Pb.{
  RepoUpdate, RepoAddUser, RepoRemoveUser, RepoAddGroup, RepoRemoveGroup, GroupAddUser,
  GroupRemoveUser, Role, k_owner, role_id, role_is_valid, Status, Selector, PbSession,
}
use scissy.Host.{Host}
use scissy.Config.{Config}
use scissy.Schema.{Database}
use scissy.Schema.Valid.{IsValid}
use scissy.World.{World, M}
use scissy.Db.{repo_get_user_role, repo_get_id, group_get_id, group_get_user_role}
use scissy.Db.Granted.{Grants, Grants-is_valid, repo_get_user_role-IsGreatest}
use scissy.Session.{Session}
use scissy.Service.{
  Exec, Flow, next, stop, continue, ◌>>=◌, ◌>>◌, gets, given, or_stop, proceed, stop_with, run,
  answer, authenticate_user, user_get_session, set_repo_id, set_user_id, set_grp_id,
  check_repo_role, role_at_least, macros,
}
use scissy.Service.Groups.{group_delete, group_add_user, group_remove_user, is_group_owner}
use scissy.Service.Repos.{repo_update, repo_delete}
use scissy.Service.Members.{repo_add_user, repo_remove_user, repo_add_group, repo_remove_group}
use scissy.Service.{status_msg, unless_ok}
use scissy.Server.{
  Request, register, sign_in, sign_out, set_password, add_ssh_key, remove_ssh_key, create_group,
  delete_group, add_group_user, remove_group_user, create_repo, update_repo, delete_repo,
  add_repo_user, remove_repo_user, add_repo_group, remove_repo_group, serve_as,
}

-- The session's user is granted the role of an owner on the repository selected.
abbrev pub Owns : Session → Selector → Database → Type 0
Owns s sel d = (p : ℕ) × Names repo_get_id sel d p × Grants d p s.user_id 3

module _ (s : Session) (w : World) (v : IsValid w.db) where
  checked :
      {R : Type 0} (fail : Status → String → R) (sel : Selector) (session : PbSession) (p : ℕ)
      (rest : Exec R R)
      → (authenticate_user {R = R} s w).0 ≡ next session
      → (set_repo_id fail sel w).0 ≡ next p
      → OnlyIf (Owns s sel w.db) (check_repo_role fail p session.user_id k_owner >> rest) w
  checked fail sel session p rest es ep =
      bind-OnlyIf _ _ _ w (check_repo_role-Reads fail p session.user_id k_owner) λ a e. inr (
        p,
        set_repo_id-Names fail sel w p ep,
        rw (authenticate_user-user_id s w session es).0 at
            (check_repo_role-Grants fail p session.user_id w a v e),
      )

  update_repo-Owns : (r : RepoUpdate) → ((repo_update s r w).1 ≡ w) ⊎ Owns s r.repo w.db
  unfolding repo_update
  update_repo-Owns r = bind-OnlyIf _ _ _ w (authenticate_user-Reads s) λ session es.
      bind-OnlyIf _ _ _ w (set_repo_id-Reads status_msg r.repo)
        λ p ep. checked status_msg r.repo session p _ es ep

  delete_repo-Owns :
      (host : Host) (cfg : Config) (sel : Selector)
      → ((repo_delete host cfg s sel w).1 ≡ w) ⊎ Owns s sel w.db
  unfolding repo_delete
  delete_repo-Owns host cfg sel = bind-OnlyIf _ _ _ w (authenticate_user-Reads s) λ session es.
      bind-OnlyIf _ _ _ w (set_repo_id-Reads status_msg sel)
        λ p ep. checked status_msg sel session p _ es ep

  add_repo_user-Owns : (r : RepoAddUser) → ((repo_add_user s r w).1 ≡ w) ⊎ Owns s r.repo w.db
  unfolding repo_add_user
  add_repo_user-Owns r = bind-OnlyIf _ _ _ w (authenticate_user-Reads s) λ session es.
      bind-OnlyIf _ _ _ w (set_repo_id-Reads status_msg r.repo) λ p ep.
        bind-OnlyIf _ _ _ w (set_user_id-Reads status_msg r.user)
          λ u eu. checked status_msg r.repo session p _ es ep

  remove_repo_user-Owns :
      (r : RepoRemoveUser) → ((repo_remove_user s r w).1 ≡ w) ⊎ Owns s r.repo w.db
  unfolding repo_remove_user
  remove_repo_user-Owns r = bind-OnlyIf _ _ _ w (authenticate_user-Reads s) λ session es.
      bind-OnlyIf _ _ _ w (set_repo_id-Reads status_msg r.repo) λ p ep.
        bind-OnlyIf _ _ _ w (set_user_id-Reads status_msg r.user)
          λ u eu. checked status_msg r.repo session p _ es ep

  add_repo_group-Owns : (r : RepoAddGroup) → ((repo_add_group s r w).1 ≡ w) ⊎ Owns s r.repo w.db
  unfolding repo_add_group
  add_repo_group-Owns r = bind-OnlyIf _ _ _ w (authenticate_user-Reads s) λ session es.
      bind-OnlyIf _ _ _ w (set_repo_id-Reads status_msg r.repo) λ p ep.
        bind-OnlyIf _ _ _ w (set_grp_id-Reads r.grp)
          λ g eg. checked status_msg r.repo session p _ es ep

  remove_repo_group-Owns :
      (r : RepoRemoveGroup) → ((repo_remove_group s r w).1 ≡ w) ⊎ Owns s r.repo w.db
  unfolding repo_remove_group
  remove_repo_group-Owns r = bind-OnlyIf _ _ _ w (authenticate_user-Reads s) λ session es.
      bind-OnlyIf _ _ _ w (set_repo_id-Reads status_msg r.repo) λ p ep.
        bind-OnlyIf _ _ _ w (set_grp_id-Reads r.grp)
          λ g eg. checked status_msg r.repo session p _ es ep

-- The repository that a request is to change.
abbrev pub repo_target : Request → Option Selector
repo_target (update_repo r) = some r.repo
repo_target (delete_repo sel) = some sel
repo_target (add_repo_user r) = some r.repo
repo_target (remove_repo_user r) = some r.repo
repo_target (add_repo_group r) = some r.repo
repo_target (remove_repo_group r) = some r.repo
repo_target _ = none

-- Over a well-formed database, a request to change a repository or who has access to it leaves the
-- whole state as it is, unless the session's user is granted the role of an owner on that repository.
pub serve_as-Owns :
    (host : Host) (cfg : Config) (s : Session) (r : Request) (sel : Selector) (w : World)
    → IsValid w.db
    → repo_target r ≡ some sel
    → (serve_as host cfg s r w ≡ w) ⊎ Owns s sel w.db
unfolding serve_as
serve_as-Owns host cfg s (update_repo r) sel w v e =
    subst (λ t. ((repo_update s r w).1 ≡ w) ⊎ Owns s t w.db) (same_target e)
      (update_repo-Owns s w v r)
serve_as-Owns host cfg s (delete_repo sel') sel w v e =
    subst (λ t. ((repo_delete host cfg s sel' w).1 ≡ w) ⊎ Owns s t w.db) (same_target e)
      (delete_repo-Owns s w v host cfg sel')
serve_as-Owns host cfg s (add_repo_user r) sel w v e =
    subst (λ t. ((repo_add_user s r w).1 ≡ w) ⊎ Owns s t w.db) (same_target e)
      (add_repo_user-Owns s w v r)
serve_as-Owns host cfg s (remove_repo_user r) sel w v e =
    subst (λ t. ((repo_remove_user s r w).1 ≡ w) ⊎ Owns s t w.db) (same_target e)
      (remove_repo_user-Owns s w v r)
serve_as-Owns host cfg s (add_repo_group r) sel w v e =
    subst (λ t. ((repo_add_group s r w).1 ≡ w) ⊎ Owns s t w.db) (same_target e)
      (add_repo_group-Owns s w v r)
serve_as-Owns host cfg s (remove_repo_group r) sel w v e =
    subst (λ t. ((repo_remove_group s r w).1 ≡ w) ⊎ Owns s t w.db) (same_target e)
      (remove_repo_group-Owns s w v r)
serve_as-Owns host cfg s r sel w v e = cc
