-- ===== src/Service/Groups.antt =====
-- scissy/service.cc, the handlers that change groups.
pub mod Create
use scissy.Base.{ℕ, Bool, true, false, Option, none, some, [], ◌==◌, if◌then◌else◌, get_or}
use scissy.Pb.{
  k_succeed, k_failed, k_owner, StatusMsg, PbSession, GroupInfo, group_info_failed, GroupCreate,
  Selector, GroupAddUser, GroupRemoveUser,
}
use scissy.Schema.{Database}
use scissy.World.{M}
use scissy.Db
use scissy.Session.{Session}
use scissy.Service.{
  Reply, answered, Exec, ◌>>=◌, ◌>>◌, lift, gets, or_stop, answer, run, status_msg, succeed,
  authenticate_user, set_grp_id, set_user_id, unless_ok, unless_error,
}

-- What `isGroupOwner` makes of the row of the user in the group.
abbrev is_owner_role : Option ℕ → Bool
is_owner_role none = false
is_owner_role (some role) = role == 3

unfoldable pub is_group_owner : PbSession → ℕ → Database → Bool
is_group_owner session grp_id d =
    if session.role == 3
    then true
    else is_owner_role (Db.group_get_user_role grp_id session.user_id d)

-- After the group's row is there: its id, and its owner.
unfoldable pub set_owner : PbSession → GroupCreate → ℕ → Bool → Exec GroupInfo GroupInfo
set_owner session request grp_id true = answer (record {
  grp = get_or request.grp [];
  size = 1;
  grp_id = grp_id;
  desc = request.desc;
  status = k_succeed;
  msg = none;
})
set_owner session request grp_id false = do
  lift (Db.group_delete grp_id)
  answer (group_info_failed k_failed "failed to set owner")

unfoldable pub group_create : Session → GroupCreate → M (Reply GroupInfo)
group_create s request = run do
  session ← authenticate_user s
  err ← lift (Db.group_create (get_or request.grp []) request.desc)
  unless_error err (group_info_failed k_failed)
  found ← gets (Db.group_get_id (get_or request.grp []))
  or_stop found (answered (group_info_failed k_failed "failed to get group id"))
  again ← gets (Db.group_get_id (get_or request.grp []))
  grp_id ← or_stop again (answered (group_info_failed k_failed "failed to get group id"))
  ok ← lift (Db.group_add_user grp_id session.user_id k_owner)
  set_owner session request grp_id ok

unfoldable pub group_delete : Session → Selector → M (Reply StatusMsg)
group_delete s request = run do
  session ← authenticate_user s
  grp_id ← set_grp_id request
  owner ← gets (is_group_owner session grp_id)
  unless_ok owner (status_msg k_failed "insufficient rights")
  ok ← lift (Db.group_delete grp_id)
  unless_ok ok (status_msg k_failed "failed to delete group")
  answer succeed

unfoldable pub group_add_user : Session → GroupAddUser → M (Reply StatusMsg)
group_add_user s request = run do
  session ← authenticate_user s
  grp_id ← set_grp_id request.grp
  user_id ← set_user_id status_msg request.user
  owner ← gets (is_group_owner session grp_id)
  unless_ok owner (status_msg k_failed "insufficient rights")
  ok ← lift (Db.group_add_user grp_id user_id request.role)
  unless_ok ok (status_msg k_failed "failed to add user to group")
  answer succeed

unfoldable pub group_remove_user : Session → GroupRemoveUser → M (Reply StatusMsg)
group_remove_user s request = run do
  session ← authenticate_user s
  grp_id ← set_grp_id request.grp
  user_id ← set_user_id status_msg request.user
  owner ← gets (is_group_owner session grp_id)
  unless_ok owner (status_msg k_failed "insufficient rights")
  lift (Db.group_remove_user grp_id user_id)
  answer succeed
