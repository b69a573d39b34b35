-- ===== src/Tests/Creations.antt =====
-- A repository is created, on the sample.
use scissy.Base.{◌≡◌, refl, true, some, none, []}
use scissy.Base.Bytes.{codes}
use scissy.Base.Rows.Member.{In}
use scissy.Db.{repo_get_id}
use scissy.Db.Granted.{Grants}
use scissy.Repositories.{created, failed, create, get_repo_path}
use scissy.Repositories.Create.{create-Grants}
use scissy.Repositories.Undo.{SameRepos, create-SameRepos}
use scissy.Tests.Sample.{host, cfg, world, world-IsValid, runs}

second : (create host cfg (codes "app") [] true 1 world).0 ≡ created 2
unfolding runs
second = refl

create-Grants_example :
    (repo_get_id (codes "app") world.db ≡ none)
    × (repo_get_id (codes "app") (create host cfg (codes "app") [] true 1 world).1.db ≡ some 2)
    × In (get_repo_path host cfg 2) (create host cfg (codes "app") [] true 1 world).1.disk
    × Grants (create host cfg (codes "app") [] true 1 world).1.db 2 1 3
create-Grants_example = create-Grants host cfg (codes "app") [] true 1 world 2 second

-- A user that does not exist cannot own.
not_owned : (create host cfg (codes "app") [] true 9 world).0 ≡ failed "failed to set owner"
unfolding runs
not_owned = refl

no_faults : world.faults ≡ []
unfolding runs
no_faults = refl

create-SameRepos_example : SameRepos (create host cfg (codes "app") [] true 9 world).1.db world.db
create-SameRepos_example =
    create-SameRepos host cfg (codes "app") [] true 9 world world-IsValid no_faults
      "failed to set owner" not_owned
