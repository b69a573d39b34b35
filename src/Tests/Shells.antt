-- ===== src/Tests/Shells.antt =====
-- scissy-shell, on the sample.
use scissy.Base.{ℕ, ◌≡◌, refl, ◌↔◌, some, none}
use scissy.Base.Bytes.{codes}
use scissy.Db.{repo_get_id}
use scissy.Repositories.{get_repo_path}
use scissy.Service.Shell.{shell_control}
use scissy.Shell.{git_upload_pack, git_receive_pack, check_acl, check_response, program, main}
use scissy.Shell.Quote.{command}
use scissy.Shell.Acl.{MayDo}
use scissy.Shell.Exec.{server, main-MayDo}
use scissy.Tests.Sample.{host, cfg, world, world-IsValid, runs}

-- Bob may read, and not push.
bob_reads :
    (check_acl git_upload_pack
        (some (shell_control host cfg (record { user_id = 2; repo_name = codes "lib" }) world.db))
      ≡ some (codes "/repos/1"))
    × (check_acl git_receive_pack
          (some (shell_control host cfg (record { user_id = 2; repo_name = codes "lib" }) world.db))
        ≡ none)
unfolding runs check_acl shell_control check_response
bob_reads = (refl, refl)

main-MayDo_example :
    (main
        (server host cfg world.db world-IsValid 1 git_receive_pack (codes "lib"))
        (command git_receive_pack (codes "lib"))
      ≡ some (program git_receive_pack, codes "/repos/1"))
    ↔ ((p : ℕ) × (repo_get_id (codes "lib") world.db ≡ some p)
        × (codes "/repos/1" ≡ get_repo_path host cfg p)
        × MayDo world.db p 1 git_receive_pack)
main-MayDo_example =
    main-MayDo host cfg world.db world-IsValid 1 git_receive_pack (codes "lib") (codes "/repos/1")
