-- ===== src/Server/Members/Leave.antt =====
-- What `Service::groupRemoveUser` has done when it answers with success.
use scissy.Base.{ℕ, ◌≡◌, ◌≢◌, ◌↔◌, refl, ap, ◌∙◌, ◌&&◌, none, [], arith, ◌==◌}
use scissy.Base.Rows.Member.{In, delete-In, In-delete, first-none_of}
use scissy.Pb.{GroupRemoveUser}
use scissy.Schema.{Database, RepoUser, RepoGroup, GroupUser}
use scissy.Schema.Groups.{delete_group_user}
use scissy.World.{World, M, step-no_faults}
use scissy.Db
use scissy.Db.Granted.{Grants, direct, through_group}
use scissy.Session.{Session}
use scissy.Service.{answered, status_msg, succeed, macros, ◌>>◌, lift, answer, run}
use scissy.Service.Groups.{group_remove_user, is_group_owner}
use scissy.Server.Authority.Reads.{
  Names, Names_unique, authenticate_user-Reads, set_grp_id-Reads, set_grp_id-Names,
  set_user_id-Reads, gets-Reads, unless_ok-Reads,
}
use scissy.Server.Members.{
  bind-Went, authenticate_user-Careful, set_user_id-Careful, unless_ok-Careful, set_user_id-Names,
}
use scissy.Server.Members.Join.{set_grp_id-Careful, gets-Careful}

-- A role on a repository that a user has on their own, or through a group other than `g`.
pub data GrantsBesides (d : Database) (g p u n : ℕ) : Type 0 where
  own :
      (r : RepoUser)
      → In r d.repos_users
      → r.repo_id ≡ p
      → r.user_id ≡ u
      → n ≡ r.role_id
      → GrantsBesides d g p u n
  by_other :
      (rg : RepoGroup) (gu : GroupUser)
      → In rg d.repos_groups
      → In gu d.groups_users
      → rg.repo_id ≡ p
      → gu.user_id ≡ u
      → rg.group_id ≡ gu.group_id
      → gu.group_id ≢ g
      → n ≡ rg.role_id
      → n ≡ gu.role_id
      → GrantsBesides d g p u n

module _ (g u : ℕ) (d : Database) where
  abbrev left : Database
  left = (delete_group_user g u d).1

  left-role : Db.group_get_user_role g u left ≡ none
  unfolding Db.group_get_user_role delete_group_user
  left-role =
      let e =
        first-none_of (λ r. r.group_id == g && r.user_id == u) left.groups_users
          λ x i. (delete-In (λ r. r.group_id == g && r.user_id == u) x d.groups_users i).1 in
      rw e refl

  left-Grants : (p n : ℕ) → Grants left p u n ↔ GrantsBesides d g p u n
  unfolding delete_group_user
  left-Grants p n = (back, forth)
    where
      back : Grants left p u n → GrantsBesides d g p u n
      back (direct r i ep eu e) = own r i ep eu e
      back (through_group rg gu irg igu ep eu eg e1 e2) =
          let (k, f) = delete-In (λ r. r.group_id == g && r.user_id == u) gu d.groups_users igu in
          by_other rg gu irg k ep eu eg (λ same. absurd (ground arith)) e1 e2

      forth : GrantsBesides d g p u n → Grants left p u n
      forth (own r i ep eu e) = direct r i ep eu e
      forth (by_other rg gu irg igu ep eu eg other e1 e2) =
          through_group rg gu irg
            (In-delete (λ r. r.group_id == g && r.user_id == u) gu d.groups_users igu
              (ground arith))
            ep eu eg e1 e2

  others-Grants : (p v n : ℕ) → v ≢ u → Grants left p v n ↔ Grants d p v n
  unfolding delete_group_user
  others-Grants p v n other = (back, forth)
    where
      back : Grants left p v n → Grants d p v n
      back (direct r i ep eu e) = direct r i ep eu e
      back (through_group rg gu irg igu ep eu eg e1 e2) =
          through_group rg gu irg
            (delete-In (λ r. r.group_id == g && r.user_id == u) gu d.groups_users igu).0 ep eu eg e1
            e2

      forth : Grants d p v n → Grants left p v n
      forth (direct r i ep eu e) = direct r i ep eu e
      forth (through_group rg gu irg igu ep eu eg e1 e2) =
          through_group rg gu irg
            (In-delete (λ r. r.group_id == g && r.user_id == u) gu d.groups_users igu
              (ground arith))
            ep eu eg e1 e2

lifted : {A : Type 0} (m : M A) (w : World) → (run (lift m >> answer succeed) w).1 ≡ (m w).1
unfolding macros
lifted m w = refl

removed-left :
    (g u : ℕ) (w : World) → w.faults ≡ [] → (Db.group_remove_user g u w).1.db ≡ left g u w.db
unfolding Db.group_remove_user
removed-left g u w plain = (step-no_faults (delete_group_user g u) w plain).1

-- When `groupRemoveUser` answers with success, and the engine has no fault, the user that the request
-- names has no role in the group that it names. On every repository the roles of the user are those
-- that the user had on their own or through another group, and the roles of others are those that were.
pub group_remove_user-Grants :
    (s : Session) (r : GroupRemoveUser) (w : World) (g u : ℕ)
    → Names Db.group_get_id r.grp w.db g
    → Names Db.user_get_id r.user w.db u
    → w.faults ≡ []
    → (group_remove_user s r w).0 ≡ answered succeed
    → (Db.group_get_user_role g u (group_remove_user s r w).1.db ≡ none)
      × ((p n : ℕ) → Grants (group_remove_user s r w).1.db p u n ↔ GrantsBesides w.db g p u n)
      × ((p v n : ℕ) → v ≢ u → Grants (group_remove_user s r w).1.db p v n ↔ Grants w.db p v n)
unfolding group_remove_user
group_remove_user-Grants s r w g u ng nu plain h =
    let g1 = bind-Went _ _ w w (authenticate_user-Careful s) ((authenticate_user-Reads s).at w) h in
    let g2 =
      bind-Went _ _ w w (set_grp_id-Careful r.grp) ((set_grp_id-Reads r.grp).at w) g1.succeeds in
    let g3 =
      bind-Went _ _ w w (set_user_id-Careful r.user) ((set_user_id-Reads status_msg r.user).at w)
        g2.succeeds in
    let g4 =
      bind-Went _ _ w w (gets-Careful (is_group_owner g1.value g2.value))
        ((gets-Reads (is_group_owner g1.value g2.value)).at w) g3.succeeds in
    let g5 =
      bind-Went _ _ w w (unless_ok-Careful g4.value "insufficient rights")
        ((unless_ok-Reads g4.value _).at w) g4.succeeds in
    let eg : g2.value ≡ g =
      Names_unique Db.group_get_id r.grp w.db g2.value g (set_grp_id-Names r.grp w g2.value g2.by)
        ng in
    let eu : g3.value ≡ u =
      Names_unique Db.user_get_id r.user w.db g3.value u (set_user_id-Names r.user w g3.value g3.by)
        nu in
    let db : (group_remove_user s r w).1.db ≡ left g u w.db =
      ap (λ x. x.db)
        (g1.on ∙ g2.on ∙ g3.on ∙ g4.on ∙ g5.on ∙ lifted (Db.group_remove_user g2.value g3.value) w)
      ∙ ap (λ x. (Db.group_remove_user x g3.value w).1.db) eg
      ∙ ap (λ x. (Db.group_remove_user g x w).1.db) eu
      ∙ removed-left g u w plain in
    (rw db (left-role g u w.db), rw db (left-Grants g u w.db), rw db (others-Grants g u w.db))
