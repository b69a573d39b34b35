-- ===== src/Tests/Threads.antt =====
-- Threads, on the sample.
use scissy.Base.{ℕ, ◌≡◌, ◌≢◌, refl, true, false, none, some, List, [], ◌∷◌, arith}
use scissy.Base.Bytes.{Bytes, codes}
use scissy.Schema.{done}
use scissy.Schema.Repos.{insert_repo}
use scissy.World.{step}
use scissy.Db.{repo_get_id}
use scissy.Repositories.{created}
use scissy.Server.Threads.{
  Call, Event, System, inserting, returned, move, arrive, statement, delete_repo, play,
}
use scissy.Server.Threads.Calls.{get_elem?}
use scissy.Server.Threads.Prompt.{play_own_row}
use scissy.Server.Threads.Race.{create_race}
use scissy.Schema.Repos
use scissy.Tests.Sample.{host, cfg, world, runs}

abbrev app : Bytes
app = codes "app"

abbrev web : Bytes
web = codes "web"

abbrev first_call : Call
first_call = record { name = app; desc = []; is_public = true; user_id = 1; stage = inserting }

abbrev second_call : Call
second_call = record { name = web; desc = []; is_public = false; user_id = 2; stage = inserting }

abbrev two : System
two = record { world = world; calls = first_call ∷ second_call ∷ [] }

-- The first call reads at once; the second comes after.
abbrev later : List Event
later = move 1 ∷ move 0 ∷ move 1 ∷ move 0 ∷ []

prompt_call :
    get_elem? (play host cfg (move 0 ∷ move 0 ∷ later) two).calls 0
    ≡ some (record first_call { stage = returned (created 2) })
unfolding runs play
prompt_call = refl

play_own_row_example :
    (repo_get_id app world.db ≡ none)
    × (repo_get_id app (step (insert_repo app [] true) world).1.db ≡ some 2)
play_own_row_example =
    play_own_row host cfg two 0 first_call refl refl later
      (record first_call { stage = returned (created 2) }) 2 prompt_call refl

-- The second call inserts before the first one reads, and another thread deletes a repository.
abbrev overtaking : List Event
overtaking =
    statement (delete_repo 1) ∷ move 1 ∷ move 0 ∷ arrive web [] true 2 ∷ move 0 ∷ move 2 ∷ []

overtaken_call :
    get_elem? (play host cfg (move 0 ∷ move 1 ∷ move 0 ∷ overtaking) two).calls 0
    ≡ some (record first_call { stage = returned (created 3) })
unfolding runs play Repos.delete_repo
overtaken_call = refl

second_inserted :
    (step (insert_repo web [] false) (step (insert_repo app [] true) world).1).0 ≡ done
unfolding runs
second_inserted = refl

create_race_example :
    (repo_get_id web (step (insert_repo web [] false) (step (insert_repo app [] true) world).1).1.db
      ≡ some 3)
    × ((q : ℕ) × (repo_get_id app
            (step (insert_repo web [] false) (step (insert_repo app [] true) world).1).1.db
          ≡ some q)
        × (q ≢ 3))
create_race_example =
    create_race host cfg two 0 1 first_call second_call (λ e. absurd (omega (arith, e))) refl refl
      refl refl overtaking (record first_call { stage = returned (created 3) }) 3 overtaken_call
      refl second_inserted
