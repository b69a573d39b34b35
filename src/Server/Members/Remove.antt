-- ===== src/Server/Members/Remove.antt =====
-- What a member of a repository that was removed may still do there.
use scissy.Base.{
  ℕ, ◌≡◌, ◌≢◌, ◌↔◌, refl, ap, ◌∙◌, Bool, true, false, List, [], ◌∷◌, ◌&&◌, arith, ◌==◌,
}
use scissy.Base.Rows.{delete}
use scissy.Base.Rows.Member.{In, delete-In, In-delete}
use scissy.Pb.{RepoRemoveUser}
use scissy.Schema.{Database, RepoGroup, GroupUser, is_done}
use scissy.Schema.Repos.{delete_repo_user}
use scissy.World.{World, step, step_with}
use scissy.Db
use scissy.Db.Granted.{Grants, direct, through_group}
use scissy.Session.{Session}
use scissy.Service.{set_user_id, answered, status_msg, succeed}
use scissy.Service.Members.{repo_remove_user}
use scissy.Server.Authority.Reads.{Names, set_user_id-Reads}
use scissy.Server.Members.{
  set_user_id-Careful, set_user_id-Names, ending, ending_succeeds, owner_handler-Passed,
}

-- A role on a repository that a user has through a group.
pub data GrantsThroughGroup (d : Database) (p u n : ℕ) : Type 0 where
  by_group :
      (rg : RepoGroup) (gu : GroupUser)
      → In rg d.repos_groups
      → In gu d.groups_users
      → rg.repo_id ≡ p
      → gu.user_id ≡ u
      → rg.group_id ≡ gu.group_id
      → n ≡ rg.role_id
      → n ≡ gu.role_id
      → GrantsThroughGroup d p u n

-- The database without the member.
abbrev without : ℕ → ℕ → Database → Database
without p u d = record d {
  repos_users = delete (λ r. r.repo_id == p && r.user_id == u) d.repos_users;
}

removed_member :
    (w : World) (p u : ℕ)
    → is_done (step (delete_repo_user p u) w).0 ≡ true
    → (step (delete_repo_user p u) w).1.db ≡ without p u w.db
unfolding step step_with delete_repo_user
removed_member w p u h = cases w.faults h
  where
    cases :
        (fs : List Bool)
        → is_done (step_with fs (delete_repo_user p u) w).0 ≡ true
        → (step_with fs (delete_repo_user p u) w).1.db ≡ without p u w.db
    cases [] h = refl
    cases (false ∷ fs) h = refl
    cases (true ∷ fs) h = absurd (cc h)

without-Grants :
    (p u n : ℕ) (d : Database) → Grants (without p u d) p u n → GrantsThroughGroup d p u n
without-Grants p u n d (direct r i ep eu e) =
    let k = delete-In (λ r. r.repo_id == p && r.user_id == u) r d.repos_users i in
    let f = k.1 in absurd (ground arith)
without-Grants p u n d (through_group rg gu irg igu ep eu eg e1 e2) =
    by_group rg gu irg igu ep eu eg e1 e2

Grants-without_group :
    (p u n : ℕ) (d : Database) → GrantsThroughGroup d p u n → Grants (without p u d) p u n
Grants-without_group p u n d (by_group rg gu irg igu ep eu eg e1 e2) =
    through_group rg gu irg igu ep eu eg e1 e2

Grants-without :
    (p u v n : ℕ) (d : Database) → u ≢ v → Grants d p v n → Grants (without p u d) p v n
Grants-without p u v n d h (direct r i ep eu e) =
    direct r (In-delete (λ r. r.repo_id == p && r.user_id == u) r d.repos_users i (ground arith)) ep
      eu e
Grants-without p u v n d h (through_group rg gu irg igu ep eu eg e1 e2) =
    through_group rg gu irg igu ep eu eg e1 e2

removed-without :
    (w : World) (p u : ℕ)
    → (Db.repo_remove_user p u w).0 ≡ true
    → (Db.repo_remove_user p u w).1.db ≡ without p u w.db
unfolding Db.repo_remove_user
removed-without w p u t = removed_member w p u t

-- When `repoRemoveUser` answers with success, the user that the request names has on the repository
-- that it names exactly the roles that were granted through a group, and every other user has the
-- roles there that were granted before.
pub repo_remove_user-Grants :
    (s : Session) (r : RepoRemoveUser) (w : World)
    → (repo_remove_user s r w).0 ≡ answered succeed
    → (p u : ℕ) × Names Db.repo_get_id r.repo w.db p
      × Names Db.user_get_id r.user w.db u
      × ((n : ℕ) → Grants (repo_remove_user s r w).1.db p u n ↔ GrantsThroughGroup w.db p u n)
      × ((v n : ℕ) → u ≢ v → Grants w.db p v n → Grants (repo_remove_user s r w).1.db p v n)
unfolding repo_remove_user
repo_remove_user-Grants s r w h =
    let k =
      owner_handler-Passed s r.repo (set_user_id status_msg r.user)
        (λ p u. ending (Db.repo_remove_user p u) "") w (set_user_id-Careful r.user)
        (set_user_id-Reads status_msg r.user) h in
    let (t, e) = ending_succeeds (Db.repo_remove_user k.repo_id k.other) "" w k.succeeds in
    let after : (repo_remove_user s r w).1.db ≡ without k.repo_id k.other w.db =
      ap (λ x. x.db) (k.on ∙ e) ∙ removed-without w k.repo_id k.other t in
    (
      k.repo_id,
      k.other,
      k.named,
      set_user_id-Names r.user w k.other k.found,
      λ n. (
        λ g. without-Grants k.repo_id k.other n w.db (rw after at g),
        λ g. rw after (Grants-without_group k.repo_id k.other n w.db g),
      ),
      λ v n ne g. rw after (Grants-without k.repo_id k.other v n w.db ne g),
    )
