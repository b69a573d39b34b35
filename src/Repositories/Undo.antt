-- ===== src/Repositories/Undo.antt =====
-- What `Repositories::create` leaves when it fails.
use scissy.Base.{
  ℕ, ◌≡◌, ◌≢◌, ◌≤◌, refl, ◌∙◌, ap, inl, inr, Bool, true, false, ◌&&◌, List, [], ◌∷◌, ◌++◌, arith,
  ◌==◌, Bool-cases, suc, String,
}
use scissy.Base.Bytes.{Bytes, bytes_eq, bytes_eq_refl}
use scissy.Base.Rows.{any, delete, delete-append, All}
use scissy.Base.Rows.Member.{In-All, All-of-In, any-In}
use scissy.Host.{Host}
use scissy.Config.{Config}
use scissy.Schema.{
  Database, Code, done, constraint, error, is_done, Repo, RepoUser, RepoGroup, Stmt, has_repo,
}
use scissy.Schema.Repos.{insert_repo, insert_repo_user, delete_repo_by_name, is_repo_named}
use scissy.Schema.Valid.{IsValid, Given}
use scissy.World.{World, step, step_with, step-no_faults}
use scissy.Db.{repo_add_user}
use scissy.Repositories.{
  created, failed, add_path, init_repository, undo, create_owned, create_on_disk, get_repo_path,
  create_row, create,
}

-- The tables of the repositories and of their members.
abbrev pub SameRepos : Database → Database → Type 0
SameRepos d d' =
    (d.repos ≡ d'.repos) × (d.repos_users ≡ d'.repos_users) × (d.repos_groups ≡ d'.repos_groups)

-- A new row.
abbrev row_of : Database → Bytes → Bytes → Bool → Repo
row_of d name desc is_public = record {
  repo_id = suc d.seq_repos;
  name = name;
  desc = desc;
  is_public = is_public;
}

delete_none :
    {A : Type 0} (p : A → Bool) (xs : List A) → All (λ x. p x ≡ false) xs → delete p xs ≡ xs
unfolding delete
delete_none p [] h = refl
delete_none p (x ∷ xs) h = rw h.0 (ap (λ t. x ∷ t) (delete_none p xs h.1))

-- Rows that refer to the repositories that were there do not refer to a new one.
not_named :
    (rows : List Repo) (row : Repo) (name : Bytes) (seq p : ℕ)
    → All (λ r. Given seq r.repo_id) rows
    → any (λ r. bytes_eq r.name name) rows ≡ false
    → row.repo_id ≡ suc seq
    → p ≤ seq
    → any (λ r. r.repo_id == p && bytes_eq r.name name) (rows ++ row ∷ []) ≡ false
unfolding any
not_named [] row name seq p g f e le = ground arith
not_named (r ∷ rs) row name seq p g f e le =
    ground (arith, not_named rs row name seq p g.1 (ground arith) e le)

pub has_repo-le :
    (rows : List Repo) (seq p : ℕ)
    → All (λ r. Given seq r.repo_id) rows
    → has_repo rows p ≡ true
    → p ≤ seq
unfolding has_repo
has_repo-le rows seq p g h =
    let (r, i, e) = any-In (λ r. r.repo_id == p) rows h in
    let k = In-All (λ r. Given seq r.repo_id) r rows g i in ground arith

-- A database with one repository more.
record Extends (d d' : Database) (name : Bytes) : Type 0 where
  row : Repo
  id : row.repo_id ≡ suc d.seq_repos
  named : row.name ≡ name
  free : any (λ r. bytes_eq r.name name) d.repos ≡ false
  repos : d'.repos ≡ d.repos ++ row ∷ []
  users : d'.repos_users ≡ d.repos_users
  groups : d'.repos_groups ≡ d.repos_groups

module _ (d d' : Database) (name : Bytes) (v : IsValid d) (x : Extends d d' name) where
  unnamed : (p : ℕ) → has_repo d.repos p ≡ true → is_repo_named d' name p ≡ false
  unnamed p h = rw x.repos (
      not_named d.repos x.row name d.seq_repos p v.repos.ids x.free x.id
        (has_repo-le d.repos d.seq_repos p v.repos.ids h))

  deleted-SameRepos : SameRepos (delete_repo_by_name name d').1 d
  unfolding delete_repo_by_name
  deleted-SameRepos = (
    rw x.repos (
        delete-append (λ r. bytes_eq r.name name) d.repos x.row x.free
          (rw x.named (bytes_eq_refl name))),
    rw x.users (
        delete_none (λ (r : RepoUser). is_repo_named d' name r.repo_id) d.repos_users
          (All-of-In _ d.repos_users
            λ r i. unnamed r.repo_id (In-All _ r d.repos_users v.repo_users.fits i).0)),
    rw x.groups (
        delete_none (λ (r : RepoGroup). is_repo_named d' name r.repo_id) d.repos_groups
          (All-of-In _ d.repos_groups
            λ r i. unnamed r.repo_id (In-All _ r d.repos_groups v.repo_groups.fits i).0)),
  )

pub step-faults : (st : Stmt) (w : World) → w.faults ≡ [] → (step st w).1.faults ≡ []
unfolding step step_with
step-faults st w e = ground arith

inserted-Extends :
    (w : World) (name desc : Bytes) (is_public : Bool)
    → (step (insert_repo name desc is_public) w).0 ≡ done
    → Extends w.db (step (insert_repo name desc is_public) w).1.db name
unfolding step step_with insert_repo
inserted-Extends w name desc is_public h = record {
  row = row_of w.db name desc is_public;
  id = refl;
  named = refl;
  free = ground arith;
  repos = ground arith;
  users = ground arith;
  groups = ground arith;
}

refused-SameRepos :
    (w : World) (name desc : Bytes) (is_public : Bool)
    → is_done (step (insert_repo name desc is_public) w).0 ≡ false
    → SameRepos (step (insert_repo name desc is_public) w).1.db w.db
unfolding step step_with insert_repo
refused-SameRepos w name desc is_public h = (ground arith, ground arith, ground arith)

refused_member-db :
    (w : World) (p u role : ℕ)
    → is_done (step (insert_repo_user p u role) w).0 ≡ false
    → (step (insert_repo_user p u role) w).1.db ≡ w.db
unfolding step step_with insert_repo_user
refused_member-db w p u role h = ground arith

add_path-db : (path : Bytes) (w : World) → (add_path path w).db ≡ w.db
add_path-db path w = ground arith

pub add_path-faults : (path : Bytes) (w : World) → (add_path path w).faults ≡ w.faults
add_path-faults path w = ground arith

undo-SameRepos :
    (d : Database) (w : World) (name : Bytes) (message : String)
    → IsValid d
    → w.faults ≡ []
    → Extends d w.db name
    → SameRepos (undo name message w).1.db d
unfolding undo
undo-SameRepos d w name message v no_faults x =
    rw (step-no_faults (delete_repo_by_name name) w no_faults).1 (deleted-SameRepos d w.db name v x)

created_not_failed : {m : String} {p : ℕ} → created p ≢ failed m
created_not_failed h = cc

module _ (host : Host) (cfg : Config) (name desc : Bytes) (is_public : Bool) (user_id : ℕ)
    (w : World) (v : IsValid w.db) (no_faults : w.faults ≡ []) where
  abbrev insertion : Code × World
  insertion = step (insert_repo name desc is_public) w

  create_row-SameRepos :
      (c : Code) (m : String)
      → insertion.0 ≡ c
      → (create host cfg name desc is_public user_id w).0 ≡ failed m
      → SameRepos (create host cfg name desc is_public user_id w).1.db w.db
  unfolding create create_row init_repository create_on_disk repo_add_user create_owned
  create_row-SameRepos constraint m e h = rw e (refused-SameRepos w name desc is_public (rw e refl))
  create_row-SameRepos error m e h = rw e (refused-SameRepos w name desc is_public (rw e refl))
  create_row-SameRepos done m e h =
      let x = inserted-Extends w name desc is_public e in
      let q : ℕ = insertion.1.db.last_rowid in
      let f : insertion.1.faults ≡ [] = step-faults (insert_repo name desc is_public) w no_faults in
      let w2 : World = add_path (get_repo_path host cfg q) insertion.1 in
      elim (Bool-cases (host.git_init (get_repo_path host cfg q))) [
        | inr n ↦
            rw (e, n)
              (undo-SameRepos w.db insertion.1 name "failed to initialize git repository" v f x)
        | inl t ↦ elim (Bool-cases (is_done (step (insert_repo_user q user_id 3) w2).0)) [
          | inl o ↦ absurd (created_not_failed (rw (e, t, o) at h))
          | inr o ↦
              let db : (step (insert_repo_user q user_id 3) w2).1.db ≡ insertion.1.db =
                refused_member-db w2 q user_id 3 o
                ∙ add_path-db (get_repo_path host cfg q) insertion.1 in
              rw (e, t, o)
                (undo-SameRepos w.db (step (insert_repo_user q user_id 3) w2).1 name
                  "failed to set owner" v
                  (step-faults (insert_repo_user q user_id 3) w2
                    (add_path-faults (get_repo_path host cfg q) insertion.1 ∙ f))
                  (rw db x))
        ]
      ]

  -- Over a well-formed database, with no fault of the engine, a creation that fails leaves the tables
  -- of the repositories, of their members and of their groups as they were.
  pub create-SameRepos :
      (m : String)
      → (create host cfg name desc is_public user_id w).0 ≡ failed m
      → SameRepos (create host cfg name desc is_public user_id w).1.db w.db
  create-SameRepos m h = create_row-SameRepos insertion.0 m refl h
