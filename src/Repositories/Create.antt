-- ===== src/Repositories/Create.antt =====
-- What `Repositories::create` leaves when it succeeds.
use scissy.Base.{
  ℕ, ◌≡◌, ◌≢◌, refl, sym, ◌∙◌, ap, inl, inr, Bool, true, false, none, some, [], ◌∷◌, ◌++◌, arith,
  Bool-cases, suc, String, subst,
}
use scissy.Base.Bytes.{Bytes, bytes_eq, bytes_eq_iff, bytes_eq_refl}
use scissy.Base.Rows.{any, first, first-append, All-of-any}
use scissy.Base.Rows.Member.{In, In-append_right, In-All, any-In, first-none_of}
use scissy.Host.{Host}
use scissy.Config.{Config}
use scissy.Schema.{Code, done, constraint, error, is_done, Repo, RepoUser, Stmt}
use scissy.Schema.Repos.{insert_repo, insert_repo_user}
use scissy.World.{World, step, step_with}
use scissy.Db.{repo_add_user, repo_get_id}
use scissy.Db.Granted.{Grants, direct}
use scissy.Repositories.{
  created, failed, add_path, init_repository, undo, create_owned, create_on_disk, get_repo_path,
  create_row, create,
}

step-disk : (st : Stmt) (w : World) → (step st w).1.disk ≡ w.disk
unfolding step step_with
step-disk st w = ground arith

pub created_repo :
    (w : World) (name desc : Bytes) (is_public : Bool)
    → (step (insert_repo name desc is_public) w).0 ≡ done
    → (any (λ r. bytes_eq r.name name) w.db.repos ≡ false)
      × ((step (insert_repo name desc is_public) w).1.db.repos
          ≡ w.db.repos
            ++ record {
              repo_id = suc w.db.seq_repos;
              name = name;
              desc = desc;
              is_public = is_public;
            }
              ∷ [])
      × ((step (insert_repo name desc is_public) w).1.db.last_rowid ≡ suc w.db.seq_repos)
unfolding step step_with insert_repo
created_repo w name desc is_public h = (ground arith, ground arith, ground arith)

pub created_member :
    (w : World) (p u role : ℕ)
    → is_done (step (insert_repo_user p u role) w).0 ≡ true
    → ((step (insert_repo_user p u role) w).1.db.repos ≡ w.db.repos)
      × ((step (insert_repo_user p u role) w).1.db.repos_users
          ≡ w.db.repos_users ++ record { repo_id = p; user_id = u; role_id = role } ∷ [])
unfolding step step_with insert_repo_user
created_member w p u role h = (ground arith, ground arith)

add_path-In : (path : Bytes) (w : World) → In path (add_path path w).disk
add_path-In path w = elim (Bool-cases (any (bytes_eq path) w.disk)) [
  | inl t ↦ let (x, i, e) = any-In (bytes_eq path) w.disk t in rw (t, (bytes_eq_iff path x).0 e) i
  | inr f ↦ rw f (inl refl)
]

pub add_path-db : (path : Bytes) (w : World) → (add_path path w).db ≡ w.db
add_path-db path w = ground arith

created_injective : {p q : ℕ} → created p ≡ created q → p ≡ q
created_injective h = cc

not_created : {m : String} {p : ℕ} → failed m ≢ created p
not_created h = cc

module _ (host : Host) (cfg : Config) (name desc : Bytes) (is_public : Bool) (user_id : ℕ)
    (w : World) where
  abbrev insertion : Code × World
  insertion = step (insert_repo name desc is_public) w

  abbrev prepared : ℕ → World
  prepared p = add_path (get_repo_path host cfg p) insertion.1

  abbrev membership : ℕ → Code × World
  membership p = step (insert_repo_user p user_id 3) (prepared p)

  -- What a creation went through that did not fail.
  record Done (p : ℕ) : Type 0 where
    stored : insertion.0 ≡ done
    id : p ≡ insertion.1.db.last_rowid
    owned : is_done (membership p).0 ≡ true
    result : (create host cfg name desc is_public user_id w).1 ≡ (membership p).1

  create-row :
      (p : ℕ)
      → (c : Code) → insertion.0 ≡ c
      → (create host cfg name desc is_public user_id w).0 ≡ created p
      → Done p
  unfolding create create_row init_repository create_on_disk repo_add_user create_owned undo
  create-row p constraint e h = absurd (not_created (rw e at h))
  create-row p error e h = absurd (not_created (rw e at h))
  create-row p done e h =
      let q : ℕ = insertion.1.db.last_rowid in
      elim (Bool-cases (host.git_init (get_repo_path host cfg q))) [
        | inr f ↦ absurd (not_created (rw (e, f) at h))
        | inl t ↦ elim (Bool-cases (is_done (membership q).0)) [
          | inr f ↦ absurd (not_created (rw (e, t, f) at h))
          | inl o ↦
              subst Done (created_injective (rw (e, t, o) at h))
                (record { stored = e; id = refl; owned = o; result = rw (e, t, o) refl })
        ]
      ]

  -- A creation that succeeds gives a repository whose name was free: the name is found with the id
  -- that is returned, the repository's directory is on the disk, and the user who asked for it is
  -- granted the role of an owner.
  pub create-Grants :
      (p : ℕ)
      → (create host cfg name desc is_public user_id w).0 ≡ created p
      → (repo_get_id name w.db ≡ none)
        × (repo_get_id name (create host cfg name desc is_public user_id w).1.db ≡ some p)
        × In (get_repo_path host cfg p) (create host cfg name desc is_public user_id w).1.disk
        × Grants (create host cfg name desc is_public user_id w).1.db p user_id 3
  unfolding repo_get_id
  create-Grants p h =
      let c = create-row p insertion.0 refl h in
      let (free, repos, rowid) = created_repo w name desc is_public c.stored in
      let (kept, users) = created_member (prepared p) p user_id 3 c.owned in
      let row : RepoUser = record { repo_id = p; user_id = user_id; role_id = 3 } in
      let none_first : first (λ r. bytes_eq r.name name) w.db.repos ≡ none =
        first-none_of _ w.db.repos λ x i.
          In-All (λ r. bytes_eq r.name name ≡ false) x w.db.repos (All-of-any _ w.db.repos free)
            i in
      (
        rw none_first refl,
        rw
            (
              c.result,
              kept,
              add_path-db (get_repo_path host cfg p) insertion.1,
              repos,
              first-append (λ (r : Repo). bytes_eq r.name name) w.db.repos _,
              free,
              bytes_eq_refl name,
            )
            (ap some (sym (c.id ∙ rowid))),
        rw (c.result, step-disk (insert_repo_user p user_id 3) (prepared p))
            (add_path-In (get_repo_path host cfg p) insertion.1),
        rw c.result
            (direct row (rw users (In-append_right row _ (row ∷ []) (inl refl))) refl refl refl),
      )
