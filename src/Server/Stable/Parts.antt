-- ===== src/Server/Stable/Parts.antt =====
-- What the handlers call keeps a stable predicate.
use scissy.Base.{ℕ, ◌∷◌, inl, inr, Bool, true, false, Bool-cases, String}
use scissy.Base.Bytes.{Bytes, bytes_eq}
use scissy.Base.Rows.{any}
use scissy.Pb.{Role, role_id, k_owner, PbSession, GroupCreate}
use scissy.Host.{Host}
use scissy.Config.{Config}
use scissy.Schema.{Code, done, constraint, error}
use scissy.Schema.Repos.{insert_repo}
use scissy.World.{World, step}
use scissy.Db
use scissy.Repositories
use scissy.Service.Keeps.{Keeps, KeepsM, keeps_rules}
use scissy.Service.Groups.{set_owner}
use scissy.Server.Stable.{Stable}

module _ {host : Host} {cfg : Config} {P : World → Type 0} (stable : Stable host cfg P) where
  pub group_create-Keeps : (name desc : Bytes) → KeepsM P (Db.group_create name desc)
  unfolding Db.group_create
  group_create-Keeps name desc = record { at = (stable.insert_group name desc).at }

  pub group_delete-Keeps : (g : ℕ) → KeepsM P (Db.group_delete g)
  unfolding Db.group_delete
  group_delete-Keeps g = record { at = (stable.delete_group g).at }

  pub group_add_user-Keeps : (g u : ℕ) (role : Role) → KeepsM P (Db.group_add_user g u role)
  unfolding Db.group_add_user
  group_add_user-Keeps g u role = record { at = (stable.insert_group_user g u (role_id role)).at }

  pub group_remove_user-Keeps : (g u : ℕ) → KeepsM P (Db.group_remove_user g u)
  unfolding Db.group_remove_user
  group_remove_user-Keeps g u = record { at = (stable.delete_group_user g u).at }

  pub repo_add_user-Keeps : (p u : ℕ) (role : Role) → KeepsM P (Db.repo_add_user p u role)
  unfolding Db.repo_add_user
  repo_add_user-Keeps p u role = record { at = (stable.insert_repo_user p u (role_id role)).at }

  pub repo_remove_user-Keeps : (p u : ℕ) → KeepsM P (Db.repo_remove_user p u)
  unfolding Db.repo_remove_user
  repo_remove_user-Keeps p u = record { at = (stable.delete_repo_user p u).at }

  pub repo_add_group-Keeps : (p g : ℕ) (role : Role) → KeepsM P (Db.repo_add_group p g role)
  unfolding Db.repo_add_group
  repo_add_group-Keeps p g role = record { at = (stable.insert_repo_group p g (role_id role)).at }

  pub repo_remove_group-Keeps : (p g : ℕ) → KeepsM P (Db.repo_remove_group p g)
  unfolding Db.repo_remove_group
  repo_remove_group-Keeps p g = record { at = (stable.delete_repo_group p g).at }

  undo-Keeps : (name : Bytes) (message : String) → KeepsM P (Repositories.undo name message)
  unfolding Repositories.undo
  undo-Keeps name message = record { at = (stable.delete_repo_by_name name).at }

  create_owned-Keeps :
      (name : Bytes) (p : ℕ) (ok : Bool) → KeepsM P (Repositories.create_owned name p ok)
  unfolding Repositories.create_owned
  create_owned-Keeps name p true = record { at = λ w v. v }
  create_owned-Keeps name p false = undo-Keeps name _

  create_on_disk-Keeps :
      (name : Bytes) (u p : ℕ) (ok : Bool) → KeepsM P (Repositories.create_on_disk name u p ok)
  unfolding Repositories.create_on_disk
  create_on_disk-Keeps name u p true = record {
    at = λ w v.
        let w' = Db.repo_add_user p u k_owner w in
        (create_owned-Keeps name p w'.0).at w'.1 ((repo_add_user-Keeps p u k_owner).at w v);
  }
  create_on_disk-Keeps name u p false = undo-Keeps name _

  pub init_repository-Keeps : (path : Bytes) → KeepsM P (Repositories.init_repository host path)
  unfolding Repositories.init_repository
  init_repository-Keeps path = record {
    at = λ w v. elim (Bool-cases (host.git_init path)) [
      | inr no_disk ↦ rw no_disk v
      | inl made ↦ elim (Bool-cases (any (bytes_eq path) w.disk)) [
        | inl old ↦ rw (made, old) v
        | inr new ↦ rw (made, new) (stable.on_disk (path ∷ w.disk) w v)
      ]
    ];
  }

  create_row-Keeps :
      (name : Bytes) (u : ℕ) (code : Code) → KeepsM P (Repositories.create_row host cfg name u code)
  unfolding Repositories.create_row
  create_row-Keeps name u constraint = record { at = λ w v. v }
  create_row-Keeps name u error = record { at = λ w v. v }
  create_row-Keeps name u done = record {
    at = λ w v.
        let path = Repositories.get_repo_path host cfg w.db.last_rowid in
        let w' = Repositories.init_repository host path w in
        (create_on_disk-Keeps name u w.db.last_rowid w'.0).at w'.1
          ((init_repository-Keeps path).at w v);
  }

  pub create-Keeps :
      (name desc : Bytes) (is_public : Bool) (u : ℕ)
      → KeepsM P (Repositories.create host cfg name desc is_public u)
  unfolding Repositories.create
  create-Keeps name desc is_public u = record {
    at = λ w v.
        let w' = step (insert_repo name desc is_public) w in
        (create_row-Keeps name u w'.0).at w'.1 ((stable.insert_repo name desc is_public).at w v);
  }

  pub remove-Keeps : (p : ℕ) → KeepsM P (Repositories.remove host cfg p)
  unfolding Repositories.remove
  remove-Keeps p = record { at = λ w v. stable.on_disk _ _ ((stable.delete_repo p).at w v) }

pub ruleset parts_rules = (
  keeps_rules, group_create-Keeps, group_delete-Keeps, group_add_user-Keeps,
  group_remove_user-Keeps, repo_add_user-Keeps, repo_remove_user-Keeps, repo_add_group-Keeps,
  repo_remove_group-Keeps, create-Keeps, remove-Keeps,
)

pub set_owner-Keeps :
    {host : Host} {cfg : Config} {P : World → Type 0} (stable : Stable host cfg P)
    (session : PbSession) (r : GroupCreate) (g : ℕ) (ok : Bool)
    → Keeps P (set_owner session r g ok)
unfolding set_owner
set_owner-Keeps stable session r g true = search parts_rules
set_owner-Keeps stable session r g false = search parts_rules
