-- ===== src/Service/Members.antt =====
-- scissy/service.cc, the handlers that change who has access to a repository.
use scissy.Pb.{
  k_failed, k_owner, StatusMsg, RepoAddUser, RepoRemoveUser, RepoAddGroup, RepoRemoveGroup,
}
use scissy.World.{M}
use scissy.Db
use scissy.Session.{Session}
use scissy.Service.{
  unless_ok, Reply, ◌>>=◌, ◌>>◌, lift, answer, run, status_msg, succeed, authenticate_user,
  set_repo_id, set_user_id, set_grp_id, check_repo_role,
}

unfoldable pub repo_add_user : Session → RepoAddUser → M (Reply StatusMsg)
repo_add_user s request = run do
  session ← authenticate_user s
  repo_id ← set_repo_id status_msg request.repo
  user_id ← set_user_id status_msg request.user
  check_repo_role status_msg repo_id session.user_id k_owner
  ok ← lift (Db.repo_add_user repo_id user_id request.role)
  unless_ok ok (status_msg k_failed "")
  answer succeed

unfoldable pub repo_remove_user : Session → RepoRemoveUser → M (Reply StatusMsg)
repo_remove_user s request = run do
  session ← authenticate_user s
  repo_id ← set_repo_id status_msg request.repo
  user_id ← set_user_id status_msg request.user
  check_repo_role status_msg repo_id session.user_id k_owner
  ok ← lift (Db.repo_remove_user repo_id user_id)
  unless_ok ok (status_msg k_failed "")
  answer succeed

unfoldable pub repo_add_group : Session → RepoAddGroup → M (Reply StatusMsg)
repo_add_group s request = run do
  session ← authenticate_user s
  repo_id ← set_repo_id status_msg request.repo
  grp_id ← set_grp_id request.grp
  check_repo_role status_msg repo_id session.user_id k_owner
  ok ← lift (Db.repo_add_group repo_id grp_id request.role)
  unless_ok ok (status_msg k_failed "")
  answer succeed

unfoldable pub repo_remove_group : Session → RepoRemoveGroup → M (Reply StatusMsg)
repo_remove_group s request = run do
  session ← authenticate_user s
  repo_id ← set_repo_id status_msg request.repo
  grp_id ← set_grp_id request.grp
  check_repo_role status_msg repo_id session.user_id k_owner
  ok ← lift (Db.repo_remove_group repo_id grp_id)
  unless_ok ok (status_msg k_failed "")
  answer succeed
