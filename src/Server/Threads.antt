-- ===== src/Server/Threads.antt =====
-- scissy/main.cc serves each address, and the socket, in a thread of its own, over one connection to the
-- database. The engine runs one statement at a time (`SQLITE_OPEN_FULLMUTEX`), so what threads do to
-- the state is a sequence of statements, of which each thread's are in the order of its program. Here
-- `Repositories::create` is cut at its statements, and other requests are any statements.
pub mod Calls
pub mod Race
pub mod Prompt
use scissy.Base.{ℕ, zero, suc, Bool, true, false, List, [], ◌∷◌, ◌++◌, String}
use scissy.Base.Bytes.{Bytes}
use scissy.Pb.{k_owner}
use scissy.Host.{Host}
use scissy.Config.{Config}
use scissy.Schema.{Code, done, constraint, error, Stmt}
use scissy.Schema.Users
use scissy.Schema.Groups
use scissy.Schema.Repos
use scissy.World.{World, step}
use scissy.Db.{repo_add_user}
use scissy.Repositories.{Created, created, failed, init_repository, remove_path, get_repo_path}

-- The statements that the program prepares and that write.
pub data Prepared : Type 0 where
  insert_user : Bytes → Bytes → Bytes → Bytes → Bytes → Prepared
  insert_ssh_key : ℕ → ℕ → Bytes → Bytes → ℕ → Prepared
  delete_ssh_key : ℕ → ℕ → Prepared
  insert_auth : ℕ → Bytes → ℕ → Prepared
  delete_auth : ℕ → Bytes → Prepared
  insert_group : Bytes → Bytes → Prepared
  delete_group : ℕ → Prepared
  insert_group_user : ℕ → ℕ → ℕ → Prepared
  delete_group_user : ℕ → ℕ → Prepared
  insert_repo : Bytes → Bytes → Bool → Prepared
  update_repo : ℕ → Bytes → Bytes → Bool → Prepared
  delete_repo : ℕ → Prepared
  delete_repo_by_name : Bytes → Prepared
  insert_repo_user : ℕ → ℕ → ℕ → Prepared
  delete_repo_user : ℕ → ℕ → Prepared
  insert_repo_group : ℕ → ℕ → ℕ → Prepared
  delete_repo_group : ℕ → ℕ → Prepared

abbrev pub stmt_of : Prepared → Stmt
stmt_of (insert_user login email type salt hash) = Users.insert_user login email type salt hash
stmt_of (insert_ssh_key u type key desc now) = Users.insert_ssh_key u type key desc now
stmt_of (delete_ssh_key u k) = Users.delete_ssh_key u k
stmt_of (insert_auth u token now) = Users.insert_auth u token now
stmt_of (delete_auth u token) = Users.delete_auth u token
stmt_of (insert_group name desc) = Groups.insert_group name desc
stmt_of (delete_group g) = Groups.delete_group g
stmt_of (insert_group_user g u role) = Groups.insert_group_user g u role
stmt_of (delete_group_user g u) = Groups.delete_group_user g u
stmt_of (insert_repo name desc is_public) = Repos.insert_repo name desc is_public
stmt_of (update_repo p name desc is_public) = Repos.update_repo p name desc is_public
stmt_of (delete_repo p) = Repos.delete_repo p
stmt_of (delete_repo_by_name name) = Repos.delete_repo_by_name name
stmt_of (insert_repo_user p u role) = Repos.insert_repo_user p u role
stmt_of (delete_repo_user p u) = Repos.delete_repo_user p u
stmt_of (insert_repo_group p g role) = Repos.insert_repo_group p g role
stmt_of (delete_repo_group p g) = Repos.delete_repo_group p g

-- Where a call of `Repositories::create` stands: before the insertion, before the id is read, before
-- `git_repository_init` and before the owner is added, with the id that was read, before the deletion
-- that undoes the insertion, and at its end.
pub data Stage : Type 0 where
  inserting : Stage
  reading : Stage
  initializing : ℕ → Stage
  owning : ℕ → Stage
  undoing : String → Stage
  returned : Created → Stage

pub record Call : Type 0 where
  pub name : Bytes
  pub desc : Bytes
  pub is_public : Bool
  pub user_id : ℕ
  pub stage : Stage

abbrev pub after_insert : Code → Stage
after_insert done = reading
after_insert constraint = returned (failed "name already used")
after_insert error = returned (failed "failed to register, internal error")

abbrev pub after_init : ℕ → Bool → Stage
after_init p true = owning p
after_init p false = undoing "failed to initialize git repository"

abbrev pub after_owner : ℕ → Bool → Stage
after_owner p true = returned (created p)
after_owner p false = undoing "failed to set owner"

-- All that other threads do on the way: a step of the call at a place in the list, a new call, and for
-- the other requests a statement, or the removal of a repository's directory.
pub data Event : Type 0 where
  move : ℕ → Event
  arrive : Bytes → Bytes → Bool → ℕ → Event
  statement : Prepared → Event
  remove_directory : Bytes → Event

pub record System : Type 0 where
  pub world : World
  pub calls : List Call

module _ (host : Host) (cfg : Config) where
  -- The next step of a call.
  unfoldable pub call_step : Call → Stage → World → Stage × World
  unfolding init_repository get_repo_path repo_add_user
  call_step c inserting w =
      let (code, w') = step (Repos.insert_repo c.name c.desc c.is_public) w in
      (after_insert code, w')
  call_step c reading w = (initializing w.db.last_rowid, w)
  call_step c (initializing p) w =
      let (ok, w') = init_repository host (get_repo_path host cfg p) w in (after_init p ok, w')
  call_step c (owning p) w =
      let (ok, w') = repo_add_user p c.user_id k_owner w in (after_owner p ok, w')
  call_step c (undoing message) w =
      let (code, w') = step (Repos.delete_repo_by_name c.name) w in (returned (failed message), w')
  call_step c (returned r) w = (returned r, w)

  unfoldable pub move_call : ℕ → List Call → World → List Call × World
  unfolding call_step
  move_call i [] w = ([], w)
  move_call zero (c ∷ cs) w =
      let (stage, w') = call_step c c.stage w in (record c { stage = stage } ∷ cs, w')
  move_call (suc i) (c ∷ cs) w = let (cs', w') = move_call i cs w in (c ∷ cs', w')

  unfoldable pub happen : Event → System → System
  unfolding move_call remove_path
  happen (move i) s = let (cs, w) = move_call i s.calls s.world in record { world = w; calls = cs }
  happen (arrive name desc is_public user_id) s = record s {
    calls =
        s.calls
        ++ record {
          name = name;
          desc = desc;
          is_public = is_public;
          user_id = user_id;
          stage = inserting;
        }
          ∷ [];
  }
  happen (statement q) s = record s { world = (step (stmt_of q) s.world).1 }
  happen (remove_directory path) s = record s { world = (remove_path path s.world).1 }

  -- A schedule: what happens, in order.
  unfoldable pub play : List Event → System → System
  unfolding happen
  play [] s = s
  play (e ∷ es) s = play es (happen e s)
