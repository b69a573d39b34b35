-- ===== src/Server/Valid.antt =====
-- Every request keeps the database well-formed, whatever it asks for and whichever statements the engine
-- refuses.
use scissy.Base.{Bool, true, false, List, [], ◌∷◌}
use scissy.Pb.{SshKey}
use scissy.Host.{Host}
use scissy.Config.{Config}
use scissy.Schema.{Database, Stmt}
use scissy.Schema.Valid.{IsValid}
use scissy.Schema.Valid.Users.{
  insert_user-IsValid, insert_ssh_key-IsValid, delete_ssh_key-IsValid, insert_auth-IsValid,
  delete_auth-IsValid,
}
use scissy.Schema.Valid.Groups.{
  insert_group-IsValid, delete_group-IsValid, insert_group_user-IsValid, delete_group_user-IsValid,
}
use scissy.Schema.Valid.Repos.{
  insert_repo-IsValid, update_repo-IsValid, delete_repo-IsValid, delete_repo_by_name-IsValid,
  insert_repo_user-IsValid, insert_repo_group-IsValid, delete_repo_user-IsValid,
  delete_repo_group-IsValid,
}
use scissy.World.{World, step, step-keeps}
use scissy.Keys.{open_and_write, gen_authorized_keys}
use scissy.Session.{Session, Cookies}
use scissy.Service.Keeps.{KeepsM, keeps_rules}
use scissy.Service.Users.{user_add_ssh_key, user_remove_ssh_key}
use scissy.Server.{Request, serve_all}
use scissy.Server.Stable.{Stable}
use scissy.Server.Stable.Requests.{serve_all-Keeps}

abbrev pub DbIsValid : World → Type 0
DbIsValid w = IsValid w.db

step-IsValid :
    (st : Stmt) → ((d : Database) → IsValid d → IsValid (st d).1) → KeepsM DbIsValid (step st)
step-IsValid st k = record { at = λ w v. step-keeps IsValid st w v (k w.db v) }

module _ (host : Host) (cfg : Config) where
  gen_authorized_keys-IsValid : KeepsM DbIsValid (gen_authorized_keys host cfg)
  unfolding gen_authorized_keys open_and_write
  gen_authorized_keys-IsValid = record { at = λ w. written w w.key_file_faults }
    where
      written :
          (w : World) (fs : List Bool) → DbIsValid w → DbIsValid (open_and_write host cfg fs w).1
      written w [] v = v
      written w (false ∷ fs) v = v
      written w (true ∷ fs) v = v

  add_ssh_key-IsValid :
      (s : Session) (key : SshKey) → KeepsM DbIsValid (user_add_ssh_key host cfg s key)
  unfolding user_add_ssh_key
  add_ssh_key-IsValid s key =
      search (keeps_rules, step-IsValid, insert_ssh_key-IsValid, gen_authorized_keys-IsValid) depth
        14

  remove_ssh_key-IsValid :
      (s : Session) (key : SshKey) → KeepsM DbIsValid (user_remove_ssh_key host cfg s key)
  unfolding user_remove_ssh_key
  remove_ssh_key-IsValid s key =
      search (keeps_rules, step-IsValid, delete_ssh_key-IsValid, gen_authorized_keys-IsValid) depth
        14

  pub IsValid-Stable : Stable host cfg DbIsValid
  IsValid-Stable = record {
    insert_user = λ l e t s h. step-IsValid _ (λ d v. insert_user-IsValid d v l e t s h);
    insert_auth = λ u t n. step-IsValid _ (λ d v. insert_auth-IsValid d v u t n);
    delete_auth = λ u t. step-IsValid _ (λ d v. delete_auth-IsValid d v u t);
    insert_group = λ n e. step-IsValid _ (λ d v. insert_group-IsValid d v n e);
    delete_group = λ g. step-IsValid _ (λ d v. delete_group-IsValid d v g);
    insert_group_user = λ g u r. step-IsValid _ (λ d v. insert_group_user-IsValid d v g u r);
    delete_group_user = λ g u. step-IsValid _ (λ d v. delete_group_user-IsValid d v g u);
    insert_repo = λ n e b. step-IsValid _ (λ d v. insert_repo-IsValid d v n e b);
    update_repo = λ p n e b. step-IsValid _ (λ d v. update_repo-IsValid d v p n e b);
    delete_repo = λ p. step-IsValid _ (λ d v. delete_repo-IsValid d v p);
    delete_repo_by_name = λ n. step-IsValid _ (λ d v. delete_repo_by_name-IsValid d v n);
    insert_repo_user = λ p u r. step-IsValid _ (λ d v. insert_repo_user-IsValid d v p u r);
    delete_repo_user = λ p u. step-IsValid _ (λ d v. delete_repo_user-IsValid d v p u);
    insert_repo_group = λ p g r. step-IsValid _ (λ d v. insert_repo_group-IsValid d v p g r);
    delete_repo_group = λ p g. step-IsValid _ (λ d v. delete_repo_group-IsValid d v p g);
    on_disk = λ paths w v. v;
    add_key = add_ssh_key-IsValid;
    remove_key = remove_ssh_key-IsValid;
  }

-- Whatever the requests, their cookies and the engine's faults, a well-formed database stays
-- well-formed: its keys are unique, its foreign keys refer to rows that are there, its ids are below
-- the counters, and its roles are roles.
pub serve_all-IsValid :
    (host : Host) (cfg : Config) (requests : List (Cookies × Request)) (w : World)
    → IsValid w.db
    → IsValid (serve_all host cfg requests w).db
serve_all-IsValid host cfg requests w v = serve_all-Keeps (IsValid-Stable host cfg) requests w v
