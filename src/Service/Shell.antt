-- ===== src/Service/Shell.antt =====
-- `shellControl` of scissy/service.cc: what the server tells scissy-shell about a repository.
use scissy.Base.{ℕ, Bool, true, false, Option, none, some, []}
use scissy.Pb.{k_succeed, k_not_found, ShellControl, ShellStatus}
use scissy.Host.{Host}
use scissy.Config.{Config}
use scissy.Schema.{Database}
use scissy.Db.{repo_get_id, user_is_admin, repo_get_user_role, repo_is_public}
use scissy.Repositories.{get_repo_path}

-- What a failed lookup leaves.
abbrev pub or_false : Option Bool → Bool
or_false none = false
or_false (some b) = b

abbrev pub or_none : Bool × ℕ → ℕ
or_none (false, role) = 0
or_none (true, role) = role

abbrev pub shell_status : Host → Config → ShellControl → Database → Option ℕ → ShellStatus
shell_status host cfg request d none = record {
  status = k_not_found;
  repo_path = [];
  role = 0;
  is_public = false;
  is_admin = false;
}
shell_status host cfg request d (some repo_id) = record {
  status = k_succeed;
  repo_path = get_repo_path host cfg repo_id;
  role = or_none (repo_get_user_role repo_id request.user_id d);
  is_public = or_false (repo_is_public repo_id d);
  is_admin = or_false (user_is_admin request.user_id d);
}

-- The handler only reads; it always returns true.
unfoldable pub shell_control : Host → Config → ShellControl → Database → ShellStatus
shell_control host cfg request d = shell_status host cfg request d (repo_get_id request.repo_name d)
