-- ===== src/Repositories.antt =====
-- scissy/repositories.cc: a repository is a row and a directory.
pub mod Create
pub mod Undo
use scissy.Base.{ℕ, Bool, true, false, ◌++◌, ◌∷◌, String, if◌then◌else◌}
use scissy.Base.Bytes.{Bytes, bytes_eq, codes}
use scissy.Base.Rows.{any, delete}
use scissy.Pb.{k_owner}
use scissy.Host.{Host}
use scissy.Config.{Config}
use scissy.Schema.{Code, done, constraint, error}
use scissy.Schema.Repos.{insert_repo, delete_repo, delete_repo_by_name}
use scissy.World.{World, M, ◌>>=◌, ◌>>◌, pure, query, step}
use scissy.Db.{repo_add_user}

-- What `create` returns: true with the id, or false with the message.
pub data Created : Type 0 where
  created : ℕ → Created
  failed : String → Created

-- Adds a path to the disk; initialising a repository anew changes nothing.
abbrev pub add_path : Bytes → World → World
add_path path w = if any (bytes_eq path) w.disk then w else record w { disk = path ∷ w.disk }

-- `git_repository_init`, which creates nothing if it fails.
unfoldable pub init_repository : Host → Bytes → M Bool
init_repository host path w = if host.git_init path then (true, add_path path w) else (false, w)

-- The insertion is undone by name.
unfoldable pub undo : Bytes → String → M Created
undo name message = do step (delete_repo_by_name name); pure (failed message)

-- After the owner was set, or was not.
unfoldable pub create_owned : Bytes → ℕ → Bool → M Created
unfolding undo
create_owned name repo_id true = pure (created repo_id)
create_owned name repo_id false = undo name "failed to set owner"

-- After the directory was created, or was not.
unfoldable pub create_on_disk : Bytes → ℕ → ℕ → Bool → M Created
unfolding undo create_owned
create_on_disk name user_id repo_id true = do
  ok ← repo_add_user repo_id user_id k_owner
  create_owned name repo_id ok
create_on_disk name user_id repo_id false = undo name "failed to initialize git repository"

-- `mimosa::fs::rm`, recursive and forced.
unfoldable pub remove_path : Bytes → M (Unit {0})
remove_path path w = (tt, record w { disk = delete (bytes_eq path) w.disk })

module _ (host : Host) (cfg : Config) where
  unfoldable pub get_repo_path : ℕ → Bytes
  get_repo_path repo_id = cfg.repos ++ codes "/" ++ host.hex repo_id

  -- After the row was inserted, or was not.
  unfoldable pub create_row : Bytes → ℕ → Code → M Created
  unfolding get_repo_path init_repository create_on_disk
  create_row name user_id constraint = pure (failed "name already used")
  create_row name user_id error = pure (failed "failed to register, internal error")
  create_row name user_id done = do
    repo_id ← query (λ d. d.last_rowid)
    ok ← init_repository host (get_repo_path repo_id)
    create_on_disk name user_id repo_id ok

  unfoldable pub create : Bytes → Bytes → Bool → ℕ → M Created
  unfolding create_row
  create name desc is_public user_id = do
    code ← step (insert_repo name desc is_public)
    create_row name user_id code

  unfoldable pub remove : ℕ → M Bool
  unfolding get_repo_path remove_path
  remove repo_id = do step (delete_repo repo_id); remove_path (get_repo_path repo_id); pure true
