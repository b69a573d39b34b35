-- ===== src/Service/Repos.antt =====
-- scissy/service.cc, the handlers that create, update and delete repositories.
use scissy.Base.{none, some}
use scissy.Pb.{
  k_succeed, k_failed, k_owner, StatusMsg, RepoInfo, repo_info_failed, RepoCreate, RepoUpdate,
  Selector,
}
use scissy.Host.{Host}
use scissy.Config.{Config}
use scissy.Schema.Repos.{update_repo}
use scissy.World.{M, step}
use scissy.Repositories.{Created, created, failed}
use scissy.Repositories
use scissy.Session.{Session}
use scissy.Service.{
  unless_ok, Reply, ◌>>=◌, ◌>>◌, lift, answer, run, status_msg, succeed, authenticate_user,
  set_repo_id, check_repo_role,
}

unfoldable pub created_info : RepoCreate → Created → RepoInfo
created_info request (created repo_id) = record {
  status = k_succeed;
  msg = none;
  id = repo_id;
  name = request.name;
  desc = request.desc;
  is_public = request.is_public;
}
created_info request (failed errmsg) = repo_info_failed k_failed (some errmsg)

unfoldable pub repo_create : Host → Config → Session → RepoCreate → M (Reply RepoInfo)
repo_create host cfg s request = run do
  session ← authenticate_user s
  result ←
      lift
        (Repositories.create host cfg request.name request.desc request.is_public session.user_id)
  answer (created_info request result)

-- The code of the update is not looked at.
unfoldable pub repo_update : Session → RepoUpdate → M (Reply StatusMsg)
repo_update s request = run do
  session ← authenticate_user s
  repo_id ← set_repo_id status_msg request.repo
  check_repo_role status_msg repo_id session.user_id k_owner
  lift (step (update_repo repo_id request.name request.desc request.is_public))
  answer succeed

unfoldable pub repo_delete : Host → Config → Session → Selector → M (Reply StatusMsg)
repo_delete host cfg s request = run do
  session ← authenticate_user s
  repo_id ← set_repo_id status_msg request
  check_repo_role status_msg repo_id session.user_id k_owner
  ok ← lift (Repositories.remove host cfg repo_id)
  unless_ok ok (status_msg k_failed "database error")
  answer succeed
