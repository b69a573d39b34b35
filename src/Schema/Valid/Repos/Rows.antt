-- ===== src/Schema/Valid/Repos/Rows.antt =====
-- The rows of repositories and of their members, after an append or a deletion.
use scissy.Base.{ℕ, suc, ◌≡◌, Bool, true, false, not, ◌||◌, ◌==◌, arith, List, [], ◌∷◌, ◌++◌, ◌∙◌}
use scissy.Base.Bytes.{Bytes, bytes_eq}
use scissy.Base.Rows.{
  any, delete, any-append, any-delete, any-ext_All, All-append, All-mono, All-delete, Unique-append,
  Unique-delete, any-delete_disjoint,
}
use scissy.Schema.{
  Database, User, Group, Repo, RepoUser, RepoGroup, has_user, has_group, has_repo, has_role,
}
use scissy.Schema.Repos.{is_repo_named, same_repo_user, same_repo_group}
use scissy.Schema.Valid.{same_repo, ReposValid, RepoUsersValid, RepoGroupsValid}

module _ (repos : List Repo) (p : Repo) where
  pub has_repo-append : (id : ℕ) → has_repo repos id ≡ true → has_repo (repos ++ p ∷ []) id ≡ true
  unfolding has_repo
  has_repo-append id h = ground (arith, any-append (λ r. r.repo_id == id) repos p)

  pub RepoUsersValid-append :
      {users : List User} {rows : List RepoUser}
      → RepoUsersValid repos users rows
      → RepoUsersValid (repos ++ p ∷ []) users rows
  RepoUsersValid-append v = record {
    fits = All-mono _ _ _ (λ r h. (has_repo-append r.repo_id h.0, h.1, h.2)) v.fits;
    unique = v.unique;
  }

  pub RepoGroupsValid-append :
      {groups : List Group} {rows : List RepoGroup}
      → RepoGroupsValid repos groups rows
      → RepoGroupsValid (repos ++ p ∷ []) groups rows
  RepoGroupsValid-append v = record {
    fits = All-mono _ _ _ (λ r h. (has_repo-append r.repo_id h.0, h.1, h.2)) v.fits;
    unique = v.unique;
  }

-- A new repository has an id that no repository has.
pub ReposValid-append :
    (repos : List Repo) (seq : ℕ) (name desc : Bytes) (is_public : Bool)
    → ReposValid repos seq
    → any (λ r. bytes_eq r.name name) repos ≡ false
    → ReposValid
        (repos
          ++ record { repo_id = suc seq; name = name; desc = desc; is_public = is_public } ∷ [])
        (suc seq)
ReposValid-append repos seq name desc is_public v fresh = record {
  ids = All-append _ repos _ (All-mono _ _ repos (λ r h. omega arith) v.ids) (omega arith);
  unique =
      Unique-append same_repo repos _ v.unique
        (any-ext_All _ _ _ repos (λ r h. ground arith) v.ids ∙ fresh);
}

-- A deletion of repositories, with the memberships of what it deletes.
module _ (repos : List Repo) (p : Repo → Bool) (gone : ℕ → Bool)
    (kept : (id : ℕ)
      → gone id ≡ false
      → has_repo repos id ≡ true
      → has_repo (delete p repos) id ≡ true) where
  pub ReposValid-delete : {seq : ℕ} → ReposValid repos seq → ReposValid (delete p repos) seq
  ReposValid-delete v = record {
    ids = All-delete _ _ _ _ (λ r e h. h) v.ids;
    unique = Unique-delete same_repo _ _ v.unique;
  }

  pub RepoUsersValid-delete :
      {users : List User} {rows : List RepoUser}
      → RepoUsersValid repos users rows
      → RepoUsersValid (delete p repos) users (delete (λ r. gone r.repo_id) rows)
  RepoUsersValid-delete v = record {
    fits = All-delete _ _ _ _ (λ r e h. (kept r.repo_id e h.0, h.1, h.2)) v.fits;
    unique = Unique-delete same_repo_user _ _ v.unique;
  }

  pub RepoGroupsValid-delete :
      {groups : List Group} {rows : List RepoGroup}
      → RepoGroupsValid repos groups rows
      → RepoGroupsValid (delete p repos) groups (delete (λ r. gone r.repo_id) rows)
  RepoGroupsValid-delete v = record {
    fits = All-delete _ _ _ _ (λ r e h. (kept r.repo_id e h.0, h.1, h.2)) v.fits;
    unique = Unique-delete same_repo_group _ _ v.unique;
  }

pub has_repo-delete :
    (repos : List Repo) (p id : ℕ)
    → id == p ≡ false
    → has_repo repos id ≡ true
    → has_repo (delete (λ r. r.repo_id == p) repos) id ≡ true
unfolding has_repo
has_repo-delete repos p id ne h =
    any-delete (λ r. r.repo_id == p) (λ r. r.repo_id == id) repos (λ r e. ground arith) ∙ h

pub has_repo-delete_named :
    (d : Database) (name : Bytes) (id : ℕ)
    → is_repo_named d name id ≡ false
    → has_repo d.repos id ≡ true
    → has_repo (delete (λ r. bytes_eq r.name name) d.repos) id ≡ true
unfolding has_repo
has_repo-delete_named d name id ne h =
    any-delete_disjoint (λ r. bytes_eq r.name name) (λ r. r.repo_id == id) d.repos ne ∙ h

-- A membership that fits, and that no row has.
pub RepoUsersValid-add :
    {repos : List Repo} {users : List User} (rows : List RepoUser) (row : RepoUser)
    → RepoUsersValid repos users rows
    → (not (has_repo repos row.repo_id)
        || (not (has_user users row.user_id)
            || (not (has_role row.role_id) || any (λ r. same_repo_user r row) rows)))
      ≡ false
    → RepoUsersValid repos users (rows ++ row ∷ [])
RepoUsersValid-add rows row v h = record {
  fits = All-append _ rows row v.fits (ground arith, ground arith, ground arith);
  unique = Unique-append same_repo_user rows row v.unique (ground arith);
}

pub RepoGroupsValid-add :
    {repos : List Repo} {groups : List Group} (rows : List RepoGroup) (row : RepoGroup)
    → RepoGroupsValid repos groups rows
    → (not (has_repo repos row.repo_id)
        || (not (has_group groups row.group_id)
            || (not (has_role row.role_id) || any (λ r. same_repo_group r row) rows)))
      ≡ false
    → RepoGroupsValid repos groups (rows ++ row ∷ [])
RepoGroupsValid-add rows row v h = record {
  fits = All-append _ rows row v.fits (ground arith, ground arith, ground arith);
  unique = Unique-append same_repo_group rows row v.unique (ground arith);
}

pub RepoUsersValid-remove :
    {repos : List Repo} {users : List User} (p : RepoUser → Bool) {rows : List RepoUser}
    → RepoUsersValid repos users rows
    → RepoUsersValid repos users (delete p rows)
RepoUsersValid-remove p v = record {
  fits = All-delete _ _ p _ (λ r e h. h) v.fits;
  unique = Unique-delete same_repo_user p _ v.unique;
}

pub RepoGroupsValid-remove :
    {repos : List Repo} {groups : List Group} (p : RepoGroup → Bool) {rows : List RepoGroup}
    → RepoGroupsValid repos groups rows
    → RepoGroupsValid repos groups (delete p rows)
RepoGroupsValid-remove p v = record {
  fits = All-delete _ _ p _ (λ r e h. h) v.fits;
  unique = Unique-delete same_repo_group p _ v.unique;
}
