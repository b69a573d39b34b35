-- ===== src/Tests/Requests.antt =====
-- The server, on the sample.
use scissy.Base.{◌≡◌, refl, ◌⊎◌}
use scissy.Base.Bytes.{codes}
use scissy.Pb.{k_owner}
use scissy.Schema.Valid.{IsValid}
use scissy.Session.{session}
use scissy.Server.{add_repo_user, delete_group, serve_as, serve_all}
use scissy.Server.Valid.{serve_all-IsValid}
use scissy.Server.Authority.{Owns, serve_as-Owns}
use scissy.Server.Authority.Groups.{OwnsGroup, serve_as-OwnsGroup}
use scissy.Tests.Sample.{
  host, cfg, open_host, bob, bob_cookies, by_id, by_name, blank, empty-IsValid, requests, world,
  world-IsValid,
}

serve_all-IsValid_example : IsValid (serve_all open_host cfg requests blank).db
serve_all-IsValid_example = serve_all-IsValid open_host cfg requests blank empty-IsValid

-- Bob tries to make himself an owner.
serve_as-Owns_example :
    (serve_as host cfg
        (session bob_cookies world.db)
        (add_repo_user
          (record { repo = by_name (codes "lib"); user = by_name bob; role = k_owner }))
        world
      ≡ world)
    ⊎ Owns (session bob_cookies world.db) (by_name (codes "lib")) world.db
serve_as-Owns_example =
    serve_as-Owns host cfg (session bob_cookies world.db)
      (add_repo_user (record { repo = by_name (codes "lib"); user = by_name bob; role = k_owner }))
      (by_name (codes "lib")) world world-IsValid refl

-- Bob tries to delete the group.
serve_as-OwnsGroup_example :
    (serve_as host cfg (session bob_cookies world.db) (delete_group (by_id 1)) world ≡ world)
    ⊎ OwnsGroup (session bob_cookies world.db) (by_id 1) world.db
serve_as-OwnsGroup_example =
    serve_as-OwnsGroup host cfg (session bob_cookies world.db) (delete_group (by_id 1)) (by_id 1)
      world refl
