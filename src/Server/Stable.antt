-- ===== src/Server/Stable.antt =====
-- What every request keeps: a predicate on states that each statement keeps, and the two handlers that
-- write the file of authorized keys. One that is kept in these cases is kept by all requests.
pub mod Parts
pub mod Requests
use scissy.Base.{ℕ, Bool, List}
use scissy.Base.Bytes.{Bytes}
use scissy.Pb.{SshKey}
use scissy.Host.{Host}
use scissy.Config.{Config}
use scissy.Schema.Users
use scissy.Schema.Groups
use scissy.Schema.Repos
use scissy.World.{World, step}
use scissy.Session.{Session}
use scissy.Service.Keeps.{KeepsM}
use scissy.Service.Users.{user_add_ssh_key, user_remove_ssh_key}

pub record Stable (host : Host) (cfg : Config) (P : World → Type 0) : Type 0 where
  pub insert_user :
      (login email type salt hash : Bytes)
      → KeepsM P (step (Users.insert_user login email type salt hash))
  pub insert_auth :
      (u : ℕ) (token : Bytes) (now : ℕ) → KeepsM P (step (Users.insert_auth u token now))
  pub delete_auth : (u : ℕ) (token : Bytes) → KeepsM P (step (Users.delete_auth u token))
  pub insert_group : (name desc : Bytes) → KeepsM P (step (Groups.insert_group name desc))
  pub delete_group : (g : ℕ) → KeepsM P (step (Groups.delete_group g))
  pub insert_group_user : (g u role : ℕ) → KeepsM P (step (Groups.insert_group_user g u role))
  pub delete_group_user : (g u : ℕ) → KeepsM P (step (Groups.delete_group_user g u))
  pub insert_repo :
      (name desc : Bytes) (is_public : Bool)
      → KeepsM P (step (Repos.insert_repo name desc is_public))
  pub update_repo :
      (p : ℕ) (name desc : Bytes) (is_public : Bool)
      → KeepsM P (step (Repos.update_repo p name desc is_public))
  pub delete_repo : (p : ℕ) → KeepsM P (step (Repos.delete_repo p))
  pub delete_repo_by_name : (name : Bytes) → KeepsM P (step (Repos.delete_repo_by_name name))
  pub insert_repo_user : (p u role : ℕ) → KeepsM P (step (Repos.insert_repo_user p u role))
  pub delete_repo_user : (p u : ℕ) → KeepsM P (step (Repos.delete_repo_user p u))
  pub insert_repo_group : (p g role : ℕ) → KeepsM P (step (Repos.insert_repo_group p g role))
  pub delete_repo_group : (p g : ℕ) → KeepsM P (step (Repos.delete_repo_group p g))
  pub on_disk : (paths : List Bytes) (w : World) → P w → P (record w { disk = paths })
  pub add_key : (s : Session) (key : SshKey) → KeepsM P (user_add_ssh_key host cfg s key)
  pub remove_key : (s : Session) (key : SshKey) → KeepsM P (user_remove_ssh_key host cfg s key)
