-- ===== src/Tests/Groups.antt =====
-- Groups, on the sample.
use scissy.Base.{List, ◌∷◌, ℕ, ◌≡◌, ◌≢◌, ◌↔◌, inr, refl, none, some, []}
use scissy.Base.Bytes.{codes}
use scissy.Base.Rows.Member.{In}
use scissy.Pb.{
  k_succeed, k_writer, GroupCreate, GroupInfo, GroupAddUser, GroupRemoveUser, RepoAddGroup,
}
use scissy.Db
use scissy.Session.{Cookies, session}
use scissy.Schema.Valid.{IsValid}
use scissy.Server.Valid.{serve_all-IsValid}
use scissy.Db.Granted.{Grants}
use scissy.Service.Members.{repo_add_group}
use scissy.Server.Members.Share.{let_in, repo_add_group-repo_get_user_role}
use scissy.Service.{answered, succeed}
use scissy.Service.Groups.{group_create, group_add_user, group_remove_user}
use scissy.Schema.Groups.{delete_group_user}
use scissy.Server.Members.Leave.{GrantsBesides, group_remove_user-Grants}
use scissy.Service.Groups.Create.{group_create-owner}
use scissy.Server.Authority.Reads.{Names}
use scissy.Server.Members.Join.{group_add_user-role}
use scissy.Server.{Request, create_group, add_group_user, serve, serve_all}
use scissy.World.{World}
use scissy.Tests.Sample.{
  host, cfg, alice_cookies, bob, bob_cookies, by_name, world, world-IsValid, runs,
}

abbrev request : GroupCreate
request = record { grp = some (codes "ops"); desc = [] }

abbrev info : GroupInfo
info = record { grp = codes "ops"; size = 1; grp_id = 2; desc = []; status = k_succeed; msg = none }

second : (group_create (session bob_cookies world.db) request world).0 ≡ answered info
unfolding runs
second = refl

group_create-owner_example :
    (Db.group_get_id (codes "ops") world.db ≡ none)
    × (Db.group_get_id
          (codes "ops")
          (group_create (session bob_cookies world.db) request world).1.db
        ≡ some 2)
    × In
        (record { group_id = 2; user_id = (session bob_cookies world.db).user_id; role_id = 3 })
        (group_create (session bob_cookies world.db) request world).1.db.groups_users
group_create-owner_example =
    group_create-owner (session bob_cookies world.db) request world info second refl

-- Alice makes a group and adds Bob.
abbrev with_ops : World
with_ops = serve host cfg alice_cookies (create_group request) world

abbrev addition : GroupAddUser
addition = record { grp = by_name (codes "ops"); user = by_name bob; role = k_writer }

added : (group_add_user (session alice_cookies with_ops.db) addition with_ops).0 ≡ answered succeed
unfolding runs
added = refl

group_add_user-role_example :
    (g u : ℕ) × Names Db.group_get_id addition.grp with_ops.db g
    × Names Db.user_get_id addition.user with_ops.db u
    × (Db.group_get_user_role g u with_ops.db ≡ none)
    × (Db.group_get_user_role g u
          (group_add_user (session alice_cookies with_ops.db) addition with_ops).1.db
        ≡ some 2)
group_add_user-role_example =
    group_add_user-role (session alice_cookies with_ops.db) addition with_ops added

-- Alice lets the writers of the second group, of whom Bob is one, write to the repository.
abbrev sharing : RepoAddGroup
sharing = record { repo = by_name (codes "lib"); grp = by_name (codes "ops"); role = k_writer }

abbrev joining : List (Cookies × Request)
joining = (alice_cookies, create_group request) ∷ (alice_cookies, add_group_user addition) ∷ []

abbrev with_bob : World
with_bob = serve_all host cfg joining world

with_bob-IsValid : IsValid with_bob.db
with_bob-IsValid = serve_all-IsValid host cfg joining world world-IsValid

shared : (repo_add_group (session alice_cookies with_bob.db) sharing with_bob).0 ≡ answered succeed
unfolding runs
shared = refl

lib_named : Names Db.repo_get_id (by_name (codes "lib")) with_bob.db 1
unfolding runs
lib_named = inr (refl, (codes "lib", refl, refl))

ops_named : Names Db.group_get_id (by_name (codes "ops")) with_bob.db 2
unfolding runs
ops_named = inr (refl, (codes "ops", refl, refl))

reads_before : (Db.repo_get_user_role 1 2 with_bob.db).1 ≡ 1
unfolding runs
reads_before = refl

writes_in_group : Db.group_get_user_role 2 2 with_bob.db ≡ some 2
unfolding runs
writes_in_group = refl

repo_add_group-repo_get_user_role_example :
    (Db.repo_get_user_role 1 2
      (repo_add_group (session alice_cookies with_bob.db) sharing with_bob).1.db).1
    ≡ let_in (Db.group_get_user_role 2 2 with_bob.db) 2 (Db.repo_get_user_role 1 2 with_bob.db).1
repo_add_group-repo_get_user_role_example =
    repo_add_group-repo_get_user_role host cfg (session alice_cookies with_bob.db) sharing with_bob
      1 2 2 with_bob-IsValid lib_named ops_named shared

-- Alice removes Bob from the first group, through which he read the repository.
abbrev removal : GroupRemoveUser
removal = record { grp = by_name (codes "dev"); user = by_name bob }

dev_named : Names Db.group_get_id (by_name (codes "dev")) world.db 1
unfolding runs
dev_named = inr (refl, (codes "dev", refl, refl))

bob_named : Names Db.user_get_id (by_name bob) world.db 2
unfolding runs
bob_named = inr (refl, (bob, refl, refl))

plain : world.faults ≡ []
unfolding runs
plain = refl

removed : (group_remove_user (session alice_cookies world.db) removal world).0 ≡ answered succeed
unfolding runs group_remove_user Db.group_remove_user delete_group_user
removed = refl

group_remove_user-Grants_example :
    (Db.group_get_user_role 1 2
        (group_remove_user (session alice_cookies world.db) removal world).1.db
      ≡ none)
    × ((p n : ℕ)
        → Grants (group_remove_user (session alice_cookies world.db) removal world).1.db p 2 n
          ↔ GrantsBesides world.db 1 p 2 n)
    × ((p v n : ℕ)
        → v ≢ 2
        → Grants (group_remove_user (session alice_cookies world.db) removal world).1.db p v n
          ↔ Grants world.db p v n)
group_remove_user-Grants_example =
    group_remove_user-Grants (session alice_cookies world.db) removal world 1 2 dev_named bob_named
      plain removed
