-- ===== src/Server/KeyFile.antt =====
-- The file of authorized keys, over the requests: it is written when the server starts, and anew by the
-- two handlers that change keys.
use scissy.Base.{arith, ℕ, ◌≡◌, refl, sym, ap, ◌∙◌, Bool, true, false, List, [], ◌∷◌}
use scissy.Base.Bytes.{Bytes}
use scissy.Pb.{StatusMsg, SshKey, k_failed}
use scissy.Host.{Host}
use scissy.Config.{Config}
use scissy.Schema.{Database, Code, done, constraint, error, Stmt, unless_violated, code_to_bool}
use scissy.Schema.Users.{insert_user, insert_auth, delete_auth}
use scissy.Schema.Groups.{insert_group, delete_group, insert_group_user, delete_group_user}
use scissy.Schema.Repos.{
  insert_repo, update_repo, delete_repo, delete_repo_by_name, insert_repo_user, delete_repo_user,
  insert_repo_group, delete_repo_group,
}
use scissy.World.{World, step, step_with}
use scissy.Keys.{authorized_keys_of, open_and_write, gen_authorized_keys}
use scissy.Session.{Session, Cookies}
use scissy.Service.{◌>>◌, lift, unless_ok, answer, run, succeed, status_msg, Exec, macros}
use scissy.Service.Keeps.{KeepsM}
use scissy.Service.Users.{user_add_ssh_key, user_remove_ssh_key}
use scissy.Server.{Request, serve_all}
use scissy.Server.Stable.{Stable}
use scissy.Server.Stable.Requests.{serve_all-Keeps}
use scissy.Start.{Thread, serving, start, started}

unless_violated-keys :
    (b : Bool) (d d' : Database)
    → d'.users_ssh_keys ≡ d.users_ssh_keys
    → (unless_violated b d d').1.users_ssh_keys ≡ d.users_ssh_keys
unless_violated-keys true d d' e = refl
unless_violated-keys false d d' e = e

module _ (host : Host) (cfg : Config) where
  -- The file is that of the keys that the database holds.
  abbrev pub IsWritten : World → Type 0
  IsWritten w = w.authorized_keys ≡ authorized_keys_of host cfg w.db.users_ssh_keys

  -- That, and the file can always be opened.
  abbrev pub StaysWritten : World → Type 0
  StaysWritten w = (w.key_file_faults ≡ []) × IsWritten w

  step-IsWritten :
      (st : Stmt)
      → ((d : Database) → (st d).1.users_ssh_keys ≡ d.users_ssh_keys)
      → KeepsM StaysWritten (step st)
  unfolding step step_with
  step-IsWritten st k = record { at = λ w. on w w.faults }
    where
      on : (w : World) (fs : List Bool) → StaysWritten w → StaysWritten (step_with fs st w).1
      on w [] v = (v.0, v.1 ∙ ap (authorized_keys_of host cfg) (sym (k w.db)))
      on w (false ∷ fs) v = (v.0, v.1 ∙ ap (authorized_keys_of host cfg) (sym (k w.db)))
      on w (true ∷ fs) v = v

  opened :
      (w : World) (fs : List Bool)
      → fs ≡ []
      → w.key_file_faults ≡ []
      → StaysWritten (open_and_write host cfg fs w).1
  unfolding open_and_write
  opened w [] e k = (k, refl)
  opened w (f ∷ fs) e k = absurd (cc e)

  step-key_file_faults : (st : Stmt) (w : World) → (step st w).1.key_file_faults ≡ w.key_file_faults
  unfolding step step_with
  step-key_file_faults st w = ground arith

  -- How the two handlers end, whatever the code.
  abbrev ending : Code → Exec StatusMsg StatusMsg
  ending code = do
    unless_ok (code_to_bool code) (status_msg k_failed "SQL error")
    lift (gen_authorized_keys host cfg)
    answer succeed

  ending-IsWritten :
      (code : Code) (w : World) → w.key_file_faults ≡ [] → StaysWritten (run (ending code) w).1
  unfolding macros gen_authorized_keys open_and_write
  ending-IsWritten done w e = opened w w.key_file_faults e e
  ending-IsWritten constraint w e = opened w w.key_file_faults e e
  ending-IsWritten error w e = opened w w.key_file_faults e e

  add_key-IsWritten :
      (s : Session) (key : SshKey) → KeepsM StaysWritten (user_add_ssh_key host cfg s key)
  unfolding user_add_ssh_key macros
  add_key-IsWritten s key = record {
    at = λ w v. ending-IsWritten _ _ (step-key_file_faults _ w ∙ v.0);
  }

  remove_key-IsWritten :
      (s : Session) (key : SshKey) → KeepsM StaysWritten (user_remove_ssh_key host cfg s key)
  unfolding user_remove_ssh_key macros
  remove_key-IsWritten s key = record {
    at = λ w v. ending-IsWritten _ _ (step-key_file_faults _ w ∙ v.0);
  }

  IsWritten-Stable : Stable host cfg StaysWritten
  unfolding insert_user insert_auth delete_auth insert_group delete_group insert_group_user
      delete_group_user insert_repo update_repo delete_repo delete_repo_by_name insert_repo_user
      delete_repo_user insert_repo_group delete_repo_group
  IsWritten-Stable = record {
    insert_user = λ l e t s h. step-IsWritten _ (λ d. unless_violated-keys _ d _ refl);
    insert_auth = λ u t n. step-IsWritten _ (λ d. unless_violated-keys _ d _ refl);
    delete_auth = λ u t. step-IsWritten _ (λ d. refl);
    insert_group = λ n e. step-IsWritten _ (λ d. unless_violated-keys _ d _ refl);
    delete_group = λ g. step-IsWritten _ (λ d. refl);
    insert_group_user = λ g u r. step-IsWritten _ (λ d. unless_violated-keys _ d _ refl);
    delete_group_user = λ g u. step-IsWritten _ (λ d. refl);
    insert_repo = λ n e b. step-IsWritten _ (λ d. unless_violated-keys _ d _ refl);
    update_repo = λ p n e b. step-IsWritten _ (λ d. unless_violated-keys _ d _ refl);
    delete_repo = λ p. step-IsWritten _ (λ d. refl);
    delete_repo_by_name = λ n. step-IsWritten _ (λ d. refl);
    insert_repo_user = λ p u r. step-IsWritten _ (λ d. unless_violated-keys _ d _ refl);
    delete_repo_user = λ p u. step-IsWritten _ (λ d. refl);
    insert_repo_group = λ p g r. step-IsWritten _ (λ d. unless_violated-keys _ d _ refl);
    delete_repo_group = λ p g. step-IsWritten _ (λ d. refl);
    on_disk = λ paths w v. v;
    add_key = add_key-IsWritten;
    remove_key = remove_key-IsWritten;
  }

  gen-IsWritten :
      (w : World) → w.key_file_faults ≡ [] → StaysWritten (gen_authorized_keys host cfg w).1
  unfolding gen_authorized_keys open_and_write
  gen-IsWritten w e = opened w w.key_file_faults e e

  start-IsWritten :
      (user_version : ℕ) (listens : ℕ → Bool) (drop : Bytes → Bytes → Bool) (w : World)
      (threads : List Thread) (dropped : Bool)
      → w.key_file_faults ≡ []
      → (start host cfg user_version listens drop w).0 ≡ serving threads dropped
      → StaysWritten (start host cfg user_version listens drop w).1
  start-IsWritten user_version listens drop w threads dropped e h =
      rw (started host cfg user_version listens drop w threads dropped h).1 (gen-IsWritten w e)

  -- From when the server comes to serve, whatever requests it serves, one after the other, and
  -- whichever statements the engine refuses, the file of authorized keys is that of the keys that the
  -- database holds, if the file can be opened whenever it is to be written, also after the privileges
  -- were dropped.
  pub serve_all-IsWritten :
      (user_version : ℕ) (listens : ℕ → Bool) (drop : Bytes → Bytes → Bool) (w : World)
      (threads : List Thread) (dropped : Bool) (requests : List (Cookies × Request))
      → w.key_file_faults ≡ []
      → (start host cfg user_version listens drop w).0 ≡ serving threads dropped
      → IsWritten (serve_all host cfg requests (start host cfg user_version listens drop w).1)
  serve_all-IsWritten user_version listens drop w threads dropped requests e h =
      (serve_all-Keeps IsWritten-Stable requests _
        (start-IsWritten user_version listens drop w threads dropped e h)).1
