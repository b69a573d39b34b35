-- ===== src/Server/Authority/Groups.antt =====
-- Who may change what: a request on a group changes nothing unless it comes from an owner of the
-- group or from an administrator.
use scissy.Server.Authority.Reads.{Names, same_target}
use scissy.Server.Authority.Reads.{
  OnlyIf, bind-OnlyIf, authenticate_user-Reads, authenticate_user-user_id, set_grp_id-Reads,
  set_grp_id-Names, set_user_id-Reads, gets-Reads, unless_ok-Reads, gets-true,
}
use scissy.Base.{ℕ, ◌≡◌, subst, ◌⊎◌, inl, inr, true, Option, none, some, ◌==◌, arith, Bool-cases}
use scissy.Pb.{GroupAddUser, GroupRemoveUser, Selector, PbSession}
use scissy.Host.{Host}
use scissy.Config.{Config}
use scissy.Schema.{Database}
use scissy.World.{World}
use scissy.Db.{group_get_id, group_get_user_role}
use scissy.Session.{Session}
use scissy.Service.{Exec, next, ◌>>=◌, ◌>>◌, gets, authenticate_user, set_grp_id}
use scissy.Service.Groups.{group_delete, group_add_user, group_remove_user, is_group_owner}
use scissy.Service.{status_msg, unless_ok}
use scissy.Server.{Request, delete_group, add_group_user, remove_group_user, serve_as}

-- The session's user is an administrator, or an owner of the group selected.
abbrev pub OwnsGroup : Session → Selector → Database → Type 0
OwnsGroup s sel d =
    (g : ℕ) × Names group_get_id sel d g
    × ((s.role ≡ 3) ⊎ (group_get_user_role g s.user_id d ≡ some 3))

module _ (s : Session) (w : World) where
  is_group_owner-lem :
      (session : PbSession) (g : ℕ)
      → (session.user_id ≡ s.user_id) × (session.role ≡ s.role)
      → is_group_owner session g w.db ≡ true
      → (s.role ≡ 3) ⊎ (group_get_user_role g s.user_id w.db ≡ some 3)
  unfolding is_group_owner
  is_group_owner-lem session g (eu, er) t = elim (Bool-cases (session.role == 3)) [
    | inl admin ↦ inl (ground arith)
    | inr other ↦ inr (rw (← eu) (ground arith))
  ]

  -- After the test of `isGroupOwner`.
  checked_group :
      {R : Type 0} (sel : Selector) (session : PbSession) (g : ℕ) (refusal : R) (rest : Exec R R)
      → (authenticate_user {R = R} s w).0 ≡ next session
      → (set_grp_id {R = R} sel w).0 ≡ next g
      → OnlyIf
          (OwnsGroup s sel w.db)
          (gets (is_group_owner session g) >>= λ owner. unless_ok owner refusal >> rest)
          w
  checked_group sel session g refusal rest es eg =
      bind-OnlyIf _ _ _ w (gets-Reads (is_group_owner session g)) λ owner eo.
        bind-OnlyIf _ _ _ w (unless_ok-Reads owner refusal) λ a ea. inr (
          g,
          set_grp_id-Names sel w g eg,
          is_group_owner-lem session g (authenticate_user-user_id s w session es)
              (gets-true (is_group_owner session g) owner refusal w a eo ea),
        )

module _ (s : Session) (w : World) where
  delete_group-OwnsGroup : (sel : Selector) → ((group_delete s sel w).1 ≡ w) ⊎ OwnsGroup s sel w.db
  unfolding group_delete
  delete_group-OwnsGroup sel = bind-OnlyIf _ _ _ w (authenticate_user-Reads s) λ session es.
      bind-OnlyIf _ _ _ w (set_grp_id-Reads sel) λ g eg. checked_group s w sel session g _ _ es eg

  add_group_user-OwnsGroup :
      (r : GroupAddUser) → ((group_add_user s r w).1 ≡ w) ⊎ OwnsGroup s r.grp w.db
  unfolding group_add_user
  add_group_user-OwnsGroup r = bind-OnlyIf _ _ _ w (authenticate_user-Reads s) λ session es.
      bind-OnlyIf _ _ _ w (set_grp_id-Reads r.grp) λ g eg.
        bind-OnlyIf _ _ _ w (set_user_id-Reads status_msg r.user)
          λ u eu. checked_group s w r.grp session g _ _ es eg

  remove_group_user-OwnsGroup :
      (r : GroupRemoveUser) → ((group_remove_user s r w).1 ≡ w) ⊎ OwnsGroup s r.grp w.db
  unfolding group_remove_user
  remove_group_user-OwnsGroup r = bind-OnlyIf _ _ _ w (authenticate_user-Reads s) λ session es.
      bind-OnlyIf _ _ _ w (set_grp_id-Reads r.grp) λ g eg.
        bind-OnlyIf _ _ _ w (set_user_id-Reads status_msg r.user)
          λ u eu. checked_group s w r.grp session g _ _ es eg

-- The group that a request is to change.
abbrev pub group_target : Request → Option Selector
group_target (delete_group sel) = some sel
group_target (add_group_user r) = some r.grp
group_target (remove_group_user r) = some r.grp
group_target _ = none

-- A request to delete a group or to change its members leaves the whole state as it is, unless the
-- session has the role of an administrator or the session's user is an owner of that group.
pub serve_as-OwnsGroup :
    (host : Host) (cfg : Config) (s : Session) (r : Request) (sel : Selector) (w : World)
    → group_target r ≡ some sel
    → (serve_as host cfg s r w ≡ w) ⊎ OwnsGroup s sel w.db
unfolding serve_as
serve_as-OwnsGroup host cfg s (delete_group sel') sel w e =
    subst (λ t. ((group_delete s sel' w).1 ≡ w) ⊎ OwnsGroup s t w.db) (same_target e)
      (delete_group-OwnsGroup s w sel')
serve_as-OwnsGroup host cfg s (add_group_user r) sel w e =
    subst (λ t. ((group_add_user s r w).1 ≡ w) ⊎ OwnsGroup s t w.db) (same_target e)
      (add_group_user-OwnsGroup s w r)
serve_as-OwnsGroup host cfg s (remove_group_user r) sel w e =
    subst (λ t. ((group_remove_user s r w).1 ≡ w) ⊎ OwnsGroup s t w.db) (same_target e)
      (remove_group_user-OwnsGroup s w r)
serve_as-OwnsGroup host cfg s r sel w e = cc
