-- ===== src/Tests/Sample.antt =====
-- A small installation: two users, a group that both are in, and a private repository.
use scissy.Base.{Option, ℕ, ◌+◌, ◌%◌, ◌≡◌, refl, true, false, none, some, List, [], ◌∷◌}
use scissy.Base.Bytes.{Bytes, codes, bytes_eq}
use scissy.Base.Rows.{any, select, delete, first}
use scissy.Pb.{k_reader, Selector, SshKey}
use scissy.Host.{Host}
use scissy.Config.{Config, AuthMethod}
use scissy.Schema.{Database, has_user, has_group, has_repo}
use scissy.Schema.Users
use scissy.Schema.Groups
use scissy.Schema.Repos
use scissy.Schema.Valid.{IsValid}
use scissy.World.{World, step, step_with}
use scissy.Db
use scissy.Session.{Cookies, session}
use scissy.Repositories
use scissy.Keys
use scissy.Service.{macros}
use scissy.Service.Users.{user_create, user_add_ssh_key, registered}
use scissy.Service.Users.Auth.{user_auth, unless_denied}
use scissy.Service.Groups.{group_create, group_add_user, is_group_owner, set_owner}
use scissy.Service.Repos.{repo_create, created_info}
use scissy.Service.Members.{repo_add_group}
use scissy.Server.{
  Request, register, sign_in, create_group, add_group_user, create_repo, add_repo_group,
  add_ssh_key, serve_all,
}
use scissy.Server.Valid.{serve_all-IsValid}

abbrev tail : Bytes → Bytes
tail [] = []
tail (c ∷ s) = s

abbrev head : {A : Type 0} → List A → Option A
head [] = none
head (x ∷ xs) = some x

abbrev pub host : Host
host = record {
  hex = λ n. (b'0' + n % 10) ∷ [];
  decimal = λ n. (b'0' + n % 10) ∷ [];
  base16_encode = λ s. b'x' ∷ s;
  base16_decode = tail;
  sha3_512 = λ s. s;
  fascist_check = λ s. none;
  http_time = λ n. [];
  null_text = [];
  pick_row = head;
  git_init = λ path. true;
  run_auth = λ user password. none;
}

abbrev pub cfg : Config
cfg = record {
  www = [];
  css = [];
  js = [];
  vendor = [];
  html = [];
  repos = codes "/repos";
  db = [];
  auth_keys = [];
  socket = codes "/s";
  crack_passwords = false;
  clone_user = [];
  clone_host = [];
  listens = [];
  git_log_limit = 64;
  user = [];
  group = [];
  cookie_duration = 24;
  authenticator = AuthMethod.process;
  is_register_enabled = true;
}

-- The program that accepts everyone.
abbrev pub open_host : Host
open_host = record host { run_auth = λ user password. some 0 }

abbrev pub empty : Database
empty = record {
  users = [];
  users_ssh_keys = [];
  users_auths = [];
  groups = [];
  groups_users = [];
  repos = [];
  repos_groups = [];
  repos_users = [];
  seq_users = 0;
  seq_keys = 0;
  seq_groups = 0;
  seq_repos = 0;
  last_rowid = 0;
  rowids = [];
}

pub empty-IsValid : IsValid empty
empty-IsValid = record {
  users = record { ids = tt; unique = tt };
  keys = record { fits = tt; unique = tt };
  auths = record { fits = tt; unique = tt };
  groups = record { ids = tt; unique = tt };
  group_users = record { fits = tt; unique = tt };
  repos = record { ids = tt; unique = tt };
  repo_users = record { fits = tt; unique = tt };
  repo_groups = record { fits = tt; unique = tt };
}

abbrev pub blank : World
blank = record {
  db = empty;
  disk = [];
  authorized_keys = [];
  faults = [];
  key_file_faults = [];
  now = 1000;
}

abbrev pub alice : Bytes
alice = codes "alice"

abbrev pub bob : Bytes
bob = codes "bob"

abbrev pub by_id : ℕ → Selector
by_id n = record { id = some n; name = none }

abbrev pub by_name : Bytes → Selector
by_name s = record { id = none; name = some s }

-- The cookies that a user's sign-in below sets.
abbrev pub alice_cookies : Cookies
alice_cookies = (codes "user", alice) ∷ (codes "token", codes "xA") ∷ []

abbrev pub bob_cookies : Cookies
bob_cookies = (codes "token", codes "xB") ∷ (codes "user", bob) ∷ []

abbrev pub key : Bytes → SshKey
key k = record { type = 0; key = k; desc = none; key_id = none }

abbrev pub requests : List (Cookies × Request)
requests =
    (
      [],
      register (some (codes "s"))
          (record { user = alice; password = codes "secret"; email = codes "a@b.c" }),
    )
    ∷ (
      [],
      register (some (codes "t"))
          (record { user = bob; password = codes "hidden"; email = codes "b@b.c" }),
    )
    ∷ ([], sign_in (some (codes "A")) true (record { user = alice; password = codes "secret" }))
    ∷ ([], sign_in (some (codes "B")) true (record { user = bob; password = codes "hidden" }))
    ∷ (alice_cookies, create_group (record { grp = some (codes "dev"); desc = [] }))
    ∷ (
      alice_cookies,
      add_group_user (record { grp = by_name (codes "dev"); user = by_name bob; role = k_reader }),
    )
    ∷ (alice_cookies, create_repo (record { name = codes "lib"; desc = []; is_public = false }))
    ∷ (
      alice_cookies,
      add_repo_group (record { repo = by_name (codes "lib"); grp = by_id 1; role = k_reader }),
    )
    ∷ (alice_cookies, add_ssh_key (key (codes "AAA")))
    ∷ (bob_cookies, add_ssh_key (key (codes "BBB")))
    ∷ []

-- After the requests.
abbrev pub world : World
world = serve_all open_host cfg requests blank

pub world-IsValid : IsValid world.db
world-IsValid = serve_all-IsValid open_host cfg requests blank empty-IsValid

-- A proof that runs the requests unfolds this name.
unfoldable pub runs : Unit {0}
unfolding macros serve_all any select delete first bytes_eq has_user has_group has_repo
    Users.insert_user Users.insert_ssh_key Users.insert_auth Groups.insert_group
    Groups.insert_group_user Repos.insert_repo Repos.insert_repo_user Repos.insert_repo_group step
    step_with Db.user_get_id Db.user_is_admin Db.group_get_user_role Db.group_add_user
    Db.group_create Db.group_get_id Db.repo_get_id Db.repo_add_user Db.repo_add_group
    Db.repo_get_user_role Db.repo_is_public session Repositories.create Repositories.get_repo_path
    Keys.gen_authorized_keys Keys.open_and_write Keys.authorized_keys_of user_create
    user_add_ssh_key registered user_auth unless_denied group_create group_add_user is_group_owner
    set_owner repo_create created_info repo_add_group
runs = tt

users_registered : (Db.user_get_id alice world.db ≡ some 1) × (Db.user_get_id bob world.db ≡ some 2)
unfolding runs
users_registered = (refl, refl)
