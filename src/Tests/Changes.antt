-- ===== src/Tests/Changes.antt =====
-- A repository is renamed, and one is deleted, on the sample.
use scissy.Base.{inr, List, ◌∷◌, ℕ, ◌≡◌, ◌↔◌, refl, true, false, some, inl, [], arith}
use scissy.Base.Bytes.{codes}
use scissy.Base.Rows.Member.{In}
use scissy.Pb.{RepoUpdate}
use scissy.Schema.{has_repo}
use scissy.Schema.Repos
use scissy.World.{World}
use scissy.Schema.Valid.{IsValid}
use scissy.Server.Valid.{serve_all-IsValid}
use scissy.Db.{repo_get_id}
use scissy.Db.Granted.{Grants, direct}
use scissy.Repositories
use scissy.Repositories.{get_repo_path}
use scissy.Session.{Cookies, session}
use scissy.Service.{answered, succeed}
use scissy.Service.Repos.{repo_update, repo_delete}
use scissy.Server.{Request, create_repo, serve_all}
use scissy.Server.Repos.{repo_delete-Grants}
use scissy.Server.Repos.Update.{repo_update-repo_get_id}
use scissy.Tests.Sample.{host, cfg, alice_cookies, by_id, world, world-IsValid, runs}

-- With a second repository.
abbrev creation : List (Cookies × Request)
creation =
    (alice_cookies, create_repo (record { name = codes "app"; desc = []; is_public = true })) ∷ []

abbrev two : World
two = serve_all host cfg creation world

two-IsValid : IsValid two.db
two-IsValid = serve_all-IsValid host cfg creation world world-IsValid

-- The name is taken.
abbrev renaming : RepoUpdate
renaming = record { repo = by_id 2; name = codes "lib"; desc = []; is_public = true }

alice_owns : Grants two.db 2 (session alice_cookies two.db).user_id 3
unfolding runs
alice_owns =
    direct (record { repo_id = 2; user_id = 1; role_id = 3 }) (inr (inl refl)) refl refl refl

plain : two.faults ≡ []
unfolding runs
plain = refl

before : repo_get_id (codes "lib") two.db ≡ some 1
unfolding runs
before = refl

repo_update-repo_get_id_example :
    ((repo_update (session alice_cookies two.db) renaming two).0 ≡ answered succeed)
    × (repo_get_id (codes "lib") (repo_update (session alice_cookies two.db) renaming two).1.db
        ≡ some 1)
unfolding runs
repo_update-repo_get_id_example =
    repo_update-repo_get_id (session alice_cookies two.db) renaming two 2 two-IsValid (inl refl)
      alice_owns plain

deleted : (repo_delete host cfg (session alice_cookies two.db) (by_id 1) two).0 ≡ answered succeed
unfolding runs repo_delete Repositories.remove Repositories.remove_path Repos.delete_repo
deleted = refl

repo_delete-Grants_example :
    (has_repo (repo_delete host cfg (session alice_cookies two.db) (by_id 1) two).1.db.repos 1
      ≡ false)
    × (¬ In
        (get_repo_path host cfg 1)
        (repo_delete host cfg (session alice_cookies two.db) (by_id 1) two).1.disk)
    × ((u n : ℕ)
        → ¬ Grants (repo_delete host cfg (session alice_cookies two.db) (by_id 1) two).1.db 1 u n)
    × (has_repo (repo_delete host cfg (session alice_cookies two.db) (by_id 1) two).1.db.repos 2
        ≡ has_repo two.db.repos 2)
    × ((u n : ℕ)
        → Grants (repo_delete host cfg (session alice_cookies two.db) (by_id 1) two).1.db 2 u n
          ↔ Grants two.db 2 u n)
repo_delete-Grants_example =
    repo_delete-Grants host cfg (session alice_cookies two.db) (by_id 1) two 1 2 (inl refl)
      (λ e. absurd (omega arith)) plain deleted
