-- ===== src/Tests/Access.antt =====
-- Roles and the access check, on the sample.
use scissy.Base.{ℕ, ◌≤◌, ◌≡◌, refl, ◌⊎◌, Bool, true, some}
use scissy.Db.{repo_get_user_role, repo_is_public}
use scissy.Db.Granted.{Grants, repo_get_user_role-IsGreatest}
use scissy.Tests.Sample.{world, world-IsValid, runs}

-- Bob reads the repository through the group, and Alice owns it.
roles :
    (repo_get_user_role 1 2 world.db ≡ (true, 1)) × (repo_get_user_role 1 1 world.db ≡ (true, 3))
unfolding runs
roles = (refl, refl)

repo_get_user_role-IsGreatest_example :
    ((repo_get_user_role 1 2 world.db).0 ≡ true)
    × ((n : ℕ) → Grants world.db 1 2 n → n ≤ (repo_get_user_role 1 2 world.db).1)
    × (((repo_get_user_role 1 2 world.db).1 ≡ 0)
        ⊎ Grants world.db 1 2 (repo_get_user_role 1 2 world.db).1)
repo_get_user_role-IsGreatest_example = repo_get_user_role-IsGreatest world.db 1 2 world-IsValid

private : repo_is_public 1 world.db ≡ some Bool.false
unfolding runs
private = refl
