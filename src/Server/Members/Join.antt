-- ===== src/Server/Members/Join.antt =====
-- What `Service::groupAddUser` has done when it answers with success.
use scissy.Base.{
  ℕ, ◌≡◌, refl, ◌∙◌, true, false, ◌&&◌, none, some, [], ◌∷◌, ◌++◌, ◌==◌, ==_iff, arith,
}
use scissy.Base.Rows.{any, first, first-append, All-of-any}
use scissy.Base.Rows.Member.{In-All, first-none_of}
use scissy.Pb.{Role, role_id, Selector, GroupAddUser}
use scissy.Schema.{Database, GroupUser, is_done}
use scissy.Schema.Groups.{insert_group_user}
use scissy.World.{World, step, step_with}
use scissy.Db
use scissy.Session.{Session}
use scissy.Service.{answered, gets, status_msg, succeed, macros, set_grp_id}
use scissy.Service.Groups.{group_add_user, is_group_owner}
use scissy.Server.Authority.Reads.{
  Names, authenticate_user-Reads, set_grp_id-Reads, set_grp_id-Names, set_user_id-Reads, gets-Reads,
  unless_ok-Reads,
}
use scissy.Server.Members.{
  Careful, bind-Went, authenticate_user-Careful, set_user_id-Careful, unless_ok-Careful,
  set_user_id-Names, ending_succeeds,
}

pub set_grp_id-Careful : (sel : Selector) → Careful (set_grp_id sel)
unfolding macros
set_grp_id-Careful sel = record { at = λ w r e z. ground arith }

pub gets-Careful : {A : Type 0} (f : Database → A) → Careful (gets f)
unfolding macros
gets-Careful f = record { at = λ w r e. cc }

-- A member that was added was none before.
joined :
    (w : World) (g u role : ℕ)
    → is_done (step (insert_group_user g u role) w).0 ≡ true
    → (any (λ r. r.group_id == g && r.user_id == u) w.db.groups_users ≡ false)
      × ((step (insert_group_user g u role) w).1.db.groups_users
          ≡ w.db.groups_users ++ record { group_id = g; user_id = u; role_id = role } ∷ [])
unfolding step step_with insert_group_user
joined w g u role h = (ground arith, ground arith)

==_refl : (n : ℕ) → n == n ≡ true
==_refl n = (==_iff n n).1 refl

joined-role :
    (w : World) (g u role : ℕ)
    → is_done (step (insert_group_user g u role) w).0 ≡ true
    → (Db.group_get_user_role g u w.db ≡ none)
      × (Db.group_get_user_role g u (step (insert_group_user g u role) w).1.db ≡ some role)
unfolding Db.group_get_user_role
joined-role w g u role h =
    let (free, rows) = joined w g u role h in
    let e : first (λ (r : GroupUser). r.group_id == g && r.user_id == u) w.db.groups_users ≡ none =
      first-none_of _ w.db.groups_users λ x i.
        In-All (λ r. r.group_id == g && r.user_id == u ≡ false) x w.db.groups_users
          (All-of-any _ w.db.groups_users free) i in
    let row : GroupUser = record { group_id = g; user_id = u; role_id = role } in
    (
      rw e refl,
      rw
          (
            rows,
            first-append (λ (r : GroupUser). r.group_id == g && r.user_id == u) w.db.groups_users
                row,
            free,
            ==_refl g,
            ==_refl u,
          )
          refl,
    )

added-role :
    (w : World) (g u : ℕ) (role : Role)
    → (Db.group_add_user g u role w).0 ≡ true
    → (Db.group_get_user_role g u w.db ≡ none)
      × (Db.group_get_user_role g u (Db.group_add_user g u role w).1.db ≡ some (role_id role))
unfolding Db.group_add_user
added-role w g u role t = joined-role w g u (role_id role) t

-- When `groupAddUser` answers with success, the user that the request names had no role in the group
-- that it names, and has the role that it names now.
pub group_add_user-role :
    (s : Session) (r : GroupAddUser) (w : World)
    → (group_add_user s r w).0 ≡ answered succeed
    → (g u : ℕ) × Names Db.group_get_id r.grp w.db g
      × Names Db.user_get_id r.user w.db u
      × (Db.group_get_user_role g u w.db ≡ none)
      × (Db.group_get_user_role g u (group_add_user s r w).1.db ≡ some (role_id r.role))
unfolding group_add_user
group_add_user-role s r w h =
    let g1 = bind-Went _ _ w w (authenticate_user-Careful s) ((authenticate_user-Reads s).at w) h in
    let g2 =
      bind-Went _ _ w w (set_grp_id-Careful r.grp) ((set_grp_id-Reads r.grp).at w) g1.succeeds in
    let g3 =
      bind-Went _ _ w w (set_user_id-Careful r.user) ((set_user_id-Reads status_msg r.user).at w)
        g2.succeeds in
    let g4 =
      bind-Went _ _ w w (gets-Careful (is_group_owner g1.value g2.value))
        ((gets-Reads (is_group_owner g1.value g2.value)).at w) g3.succeeds in
    let g5 =
      bind-Went _ _ w w (unless_ok-Careful g4.value "insufficient rights")
        ((unless_ok-Reads g4.value _).at w) g4.succeeds in
    let (t, e) =
      ending_succeeds (Db.group_add_user g2.value g3.value r.role) "failed to add user to group" w
        g5.succeeds in
    let (before, after) = added-role w g2.value g3.value r.role t in
    (
      g2.value,
      g3.value,
      set_grp_id-Names r.grp w g2.value g2.by,
      set_user_id-Names r.user w g3.value g3.by,
      before,
      rw (g1.on ∙ g2.on ∙ g3.on ∙ g4.on ∙ g5.on ∙ e) after,
    )
