-- ===== src/Tests/Members.antt =====
-- A member is added to a repository, on the sample.
use scissy.Base.{ℕ, ◌≤◌, ◌≡◌, ◌≢◌, ◌↔◌, refl, ap, inl, inr, false, some, none, arith}
use scissy.Base.Bytes.{codes}
use scissy.Pb.{k_writer, RepoAddUser, RepoRemoveUser}
use scissy.Db
use scissy.Db.{repo_get_id, user_get_id}
use scissy.Schema.Repos.{delete_repo_user}
use scissy.Schema.{Database}
use scissy.Repositories.{get_repo_path}
use scissy.Service.Shell.{shell_control}
use scissy.Shell.{git_receive_pack, program, main}
use scissy.Shell.Quote.{command}
use scissy.Server.Members.Clients.{main_after_add, main_after_remove}
use scissy.Db.Granted.{Grants}
use scissy.Session.{session}
use scissy.Service.{answered, succeed}
use scissy.Service.Members.{repo_add_user, repo_remove_user}
use scissy.Server.Authority.Reads.{Names}
use scissy.Server.Members.Remove.{GrantsThroughGroup, by_group, repo_remove_user-Grants}
use scissy.Tests.Sample.{host, cfg, alice_cookies, alice, bob, by_name, world, world-IsValid, runs}

abbrev request : RepoAddUser
request = record { repo = by_name (codes "lib"); user = by_name bob; role = k_writer }

added : (repo_add_user (session alice_cookies world.db) request world).0 ≡ answered succeed
unfolding runs repo_add_user
added = refl

-- Alice removes herself.
abbrev removal : RepoRemoveUser
removal = record { repo = by_name (codes "lib"); user = by_name alice }

removed : (repo_remove_user (session alice_cookies world.db) removal world).0 ≡ answered succeed
unfolding runs repo_remove_user Db.repo_remove_user delete_repo_user
removed = refl

repo_remove_user-Grants_example :
    (p u : ℕ) × Names repo_get_id removal.repo world.db p
    × Names user_get_id removal.user world.db u
    × ((n : ℕ)
        → Grants (repo_remove_user (session alice_cookies world.db) removal world).1.db p u n
          ↔ GrantsThroughGroup world.db p u n)
    × ((v n : ℕ)
        → u ≢ v
        → Grants world.db p v n
        → Grants (repo_remove_user (session alice_cookies world.db) removal world).1.db p v n)
repo_remove_user-Grants_example =
    repo_remove_user-Grants (session alice_cookies world.db) removal world removed

lib_found : repo_get_id (codes "lib") world.db ≡ some 1
unfolding runs
lib_found = refl

lib_named : Names repo_get_id (by_name (codes "lib")) world.db 1
lib_named = inr (refl, (codes "lib", refl, lib_found))

bob_named : Names user_get_id (by_name bob) world.db 2
unfolding runs
bob_named = inr (refl, (bob, refl, refl))

alice_named : Names user_get_id (by_name alice) world.db 1
unfolding runs
alice_named = inr (refl, (alice, refl, refl))

alice_is_no_admin : Db.user_is_admin 1 world.db ≡ some false
unfolding runs
alice_is_no_admin = refl

-- The only group has the role of a reader.
no_writer : (n : ℕ) → 2 ≤ n → ¬ GrantsThroughGroup world.db 1 1 n
unfolding runs
no_writer n le (by_group rg gu (inl e) igu ep eu eg e1 e2) =
    absurd (omega (arith, ap (λ r. r.role_id) e))
no_writer n le (by_group rg gu (inr z) igu ep eu eg e1 e2) = absurd z

abbrev after_add : Database
after_add = (repo_add_user (session alice_cookies world.db) request world).1.db

main_after_add_example :
    main
      (λ repo_name.
        some (shell_control host cfg (record { user_id = 2; repo_name = repo_name }) after_add))
      (command git_receive_pack (codes "lib"))
    ≡ some (program git_receive_pack, get_repo_path host cfg 1)
main_after_add_example =
    main_after_add host cfg (session alice_cookies world.db) world world-IsValid git_receive_pack
      (codes "lib") 1 2 lib_found request lib_named bob_named (omega arith) added

abbrev after_remove : Database
after_remove = (repo_remove_user (session alice_cookies world.db) removal world).1.db

main_after_remove_example :
    main
      (λ repo_name.
        some (shell_control host cfg (record { user_id = 1; repo_name = repo_name }) after_remove))
      (command git_receive_pack (codes "lib"))
    ≡ none
main_after_remove_example =
    main_after_remove host cfg (session alice_cookies world.db) world world-IsValid git_receive_pack
      (codes "lib") 1 1 lib_found removal lib_named alice_named
      (λ e. absurd (cc (e, alice_is_no_admin))) (λ e. absurd (cc e)) no_writer removed
