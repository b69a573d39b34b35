-- ===== src/Schema/Valid/Repos/Update.antt =====
-- An update of a repository keeps the rows well-formed.
use scissy.Base.{
  ℕ, ◌≡◌, refl, inl, inr, Bool, true, false, not, ◌&&◌, ◌==◌, arith, List, [], ◌∷◌, ◌∙◌, Bool-cases,
}
use scissy.Base.Bytes.{Bytes, bytes_eq, bytes_eq_comm}
use scissy.Base.Rows.{any, All, All-mono, Unique}
use scissy.Schema.{Database, Repo, has_repo}
use scissy.Schema.Repos.{set_repo}
use scissy.Schema.Valid.{IsValid, same_repo, Given, ReposValid, RepoUsersValid, RepoGroupsValid}

-- An update of one row, to a name that no other row has.
module _ (id : ℕ) (name desc : Bytes) (is_public : Bool) where
  pub has_repo-set_repo :
      (repos : List Repo) (p : ℕ)
      → has_repo (set_repo id name desc is_public repos) p ≡ has_repo repos p
  unfolding has_repo set_repo any
  has_repo-set_repo [] p = refl
  has_repo-set_repo (r ∷ rs) p = ground (arith, has_repo-set_repo rs p)

  set_repo_absent :
      (repos : List Repo)
      → has_repo repos id ≡ false
      → set_repo id name desc is_public repos ≡ repos
  unfolding has_repo set_repo any
  set_repo_absent [] h = refl
  set_repo_absent (r ∷ rs) h = ground (arith, set_repo_absent rs)

  ids-set_repo :
      (seq : ℕ) (repos : List Repo)
      → All (λ r. Given seq r.repo_id) repos
      → All (λ r. Given seq r.repo_id) (set_repo id name desc is_public repos)
  unfolding set_repo
  ids-set_repo seq [] h = tt
  ids-set_repo seq (r ∷ rs) h = (ground arith, ids-set_repo seq rs h.1)

  unlike-set_repo :
      (x : Repo) (repos : List Repo)
      → x.repo_id == id ≡ false
      → bytes_eq x.name name ≡ false
      → All (λ y. same_repo x y ≡ false) repos
      → All (λ y. same_repo x y ≡ false) (set_repo id name desc is_public repos)
  unfolding set_repo
  unlike-set_repo x [] e n h = tt
  unlike-set_repo x (r ∷ rs) e n h = (ground arith, unlike-set_repo x rs e n h.1)

  unlike-set_repo_self :
      (x : Repo) (repos : List Repo)
      → x.repo_id == id ≡ true
      → any (λ r. bytes_eq r.name name && not (r.repo_id == id)) repos ≡ false
      → All (λ y. same_repo x y ≡ false) repos
      → All
          (λ y. same_repo (record x { name = name; desc = desc; is_public = is_public }) y ≡ false)
          (set_repo id name desc is_public repos)
  unfolding set_repo any
  unlike-set_repo_self x [] e n h = tt
  unlike-set_repo_self x (r ∷ rs) e n h =
      (ground (arith, bytes_eq_comm name r.name), unlike-set_repo_self x rs e (ground arith) h.1)

  Unique-set_repo :
      (repos : List Repo)
      → any (λ r. bytes_eq r.name name && not (r.repo_id == id)) repos ≡ false
      → Unique same_repo repos
      → Unique same_repo (set_repo id name desc is_public repos)
  unfolding set_repo any
  Unique-set_repo [] n u = tt
  Unique-set_repo (r ∷ rs) n u = elim (Bool-cases (r.repo_id == id)) [
    | inl hit ↦
        rw hit
          (unlike-set_repo_self r rs hit (ground arith) u.0, Unique-set_repo rs (ground arith) u.1)
    | inr miss ↦
        rw miss
          (unlike-set_repo r rs miss (ground arith) u.0, Unique-set_repo rs (ground arith) u.1)
  ]

-- The rows after an update that the schema admits.
module _ (d : Database) (v : IsValid d) (id : ℕ) (name desc : Bytes) (is_public : Bool)
    (admitted : (has_repo d.repos id
        && any (λ r. bytes_eq r.name name && not (r.repo_id == id)) d.repos)
      ≡ false) where
  pub ReposValid-set_repo : ReposValid (set_repo id name desc is_public d.repos) d.seq_repos
  ReposValid-set_repo = elim (Bool-cases (has_repo d.repos id)) [
    | inl here ↦ record {
      ids = ids-set_repo id name desc is_public d.seq_repos d.repos v.repos.ids;
      unique = Unique-set_repo id name desc is_public d.repos (ground arith) v.repos.unique;
    }
    | inr absent ↦ rw (set_repo_absent id name desc is_public d.repos absent) v.repos
  ]

  pub RepoUsersValid-set_repo :
      RepoUsersValid (set_repo id name desc is_public d.repos) d.users d.repos_users
  RepoUsersValid-set_repo = record {
    fits =
        All-mono _ _ _
          (λ r h. (has_repo-set_repo id name desc is_public d.repos r.repo_id ∙ h.0, h.1, h.2))
          v.repo_users.fits;
    unique = v.repo_users.unique;
  }

  pub RepoGroupsValid-set_repo :
      RepoGroupsValid (set_repo id name desc is_public d.repos) d.groups d.repos_groups
  RepoGroupsValid-set_repo = record {
    fits =
        All-mono _ _ _
          (λ r h. (has_repo-set_repo id name desc is_public d.repos r.repo_id ∙ h.0, h.1, h.2))
          v.repo_groups.fits;
    unique = v.repo_groups.unique;
  }
