-- ===== src/Schema/Valid/Groups.antt =====
-- The statements on groups keep a database well-formed.
use scissy.Base.{
  ℕ, suc, ◌≡◌, inl, inr, Bool, true, false, not, ◌||◌, ◌&&◌, ◌==◌, arith, List, [], ◌∷◌, ◌++◌, ◌∙◌,
  Bool-cases,
}
use scissy.Base.Bytes.{Bytes, bytes_eq}
use scissy.Base.Rows.{
  any, delete, any-append, any-delete, any-ext_All, All-append, All-mono, All-delete, Unique-append,
  Unique-delete,
}
use scissy.Schema.{Database, User, Group, GroupUser, RepoGroup, Repo, has_user, has_group, has_role}
use scissy.Schema.Groups.{
  insert_group, delete_group, insert_group_user, delete_group_user, same_group_user,
}
use scissy.Schema.Repos.{same_repo_group}
use scissy.Schema.Valid.{IsValid, same_group, GroupsValid, GroupUsersValid, RepoGroupsValid}

module _ (groups : List Group) (g : Group) where
  has_group-append : (id : ℕ) → has_group groups id ≡ true → has_group (groups ++ g ∷ []) id ≡ true
  unfolding has_group
  has_group-append id h = ground (arith, any-append (λ r. r.group_id == id) groups g)

  GroupUsersValid-append :
      {users : List User} {rows : List GroupUser}
      → GroupUsersValid groups users rows
      → GroupUsersValid (groups ++ g ∷ []) users rows
  GroupUsersValid-append v = record {
    fits = All-mono _ _ _ (λ r h. (has_group-append r.group_id h.0, h.1, h.2)) v.fits;
    unique = v.unique;
  }

  RepoGroupsValid-append :
      {repos : List Repo} {rows : List RepoGroup}
      → RepoGroupsValid repos groups rows
      → RepoGroupsValid repos (groups ++ g ∷ []) rows
  RepoGroupsValid-append v = record {
    fits = All-mono _ _ _ (λ r h. (h.0, has_group-append r.group_id h.1, h.2)) v.fits;
    unique = v.unique;
  }

-- A new group has an id that no group has.
GroupsValid-append :
    (groups : List Group) (seq : ℕ) (name desc : Bytes)
    → GroupsValid groups seq
    → any (λ r. bytes_eq r.name name) groups ≡ false
    → GroupsValid (groups ++ record { group_id = suc seq; name = name; desc = desc } ∷ []) (suc seq)
GroupsValid-append groups seq name desc v fresh = record {
  ids = All-append _ groups _ (All-mono _ _ groups (λ r h. omega arith) v.ids) (omega arith);
  unique =
      Unique-append same_group groups _ v.unique
        (any-ext_All _ _ _ groups (λ r h. ground arith) v.ids ∙ fresh);
}

module _ (groups : List Group) (g : ℕ) where
  -- Deleting a group leaves the others.
  has_group-delete :
      (id : ℕ)
      → id == g ≡ false
      → has_group groups id ≡ true
      → has_group (delete (λ r. r.group_id == g) groups) id ≡ true
  unfolding has_group
  has_group-delete id ne h =
      any-delete (λ r. r.group_id == g) (λ r. r.group_id == id) groups (λ r e. ground arith) ∙ h

  GroupUsersValid-delete :
      {users : List User} {rows : List GroupUser}
      → GroupUsersValid groups users rows
      → GroupUsersValid
          (delete (λ r. r.group_id == g) groups)
          users
          (delete (λ r. r.group_id == g) rows)
  GroupUsersValid-delete v = record {
    fits = All-delete _ _ _ _ (λ r e h. (has_group-delete r.group_id e h.0, h.1, h.2)) v.fits;
    unique = Unique-delete same_group_user _ _ v.unique;
  }

  RepoGroupsValid-delete :
      {repos : List Repo} {rows : List RepoGroup}
      → RepoGroupsValid repos groups rows
      → RepoGroupsValid repos
          (delete (λ r. r.group_id == g) groups)
          (delete (λ r. r.group_id == g) rows)
  RepoGroupsValid-delete v = record {
    fits = All-delete _ _ _ _ (λ r e h. (h.0, has_group-delete r.group_id e h.1, h.2)) v.fits;
    unique = Unique-delete same_repo_group _ _ v.unique;
  }

  GroupsValid-delete :
      {seq : ℕ} → GroupsValid groups seq → GroupsValid (delete (λ r. r.group_id == g) groups) seq
  GroupsValid-delete v = record {
    ids = All-delete _ _ _ _ (λ r e h. h) v.ids;
    unique = Unique-delete same_group _ _ v.unique;
  }

-- A membership that fits, and that no row has.
GroupUsersValid-add :
    {groups : List Group} {users : List User} (rows : List GroupUser) (row : GroupUser)
    → GroupUsersValid groups users rows
    → (not (has_group groups row.group_id)
        || (not (has_user users row.user_id)
            || (not (has_role row.role_id) || any (λ r. same_group_user r row) rows)))
      ≡ false
    → GroupUsersValid groups users (rows ++ row ∷ [])
GroupUsersValid-add rows row v h = record {
  fits = All-append _ rows row v.fits (ground arith, ground arith, ground arith);
  unique = Unique-append same_group_user rows row v.unique (ground arith);
}

GroupUsersValid-remove :
    {groups : List Group} {users : List User} (p : GroupUser → Bool) {rows : List GroupUser}
    → GroupUsersValid groups users rows
    → GroupUsersValid groups users (delete p rows)
GroupUsersValid-remove p v = record {
  fits = All-delete _ _ p _ (λ r e h. h) v.fits;
  unique = Unique-delete same_group_user p _ v.unique;
}

module _ (d : Database) (v : IsValid d) where
  pub insert_group-IsValid : (name desc : Bytes) → IsValid (insert_group name desc d).1
  unfolding insert_group
  insert_group-IsValid name desc = elim (Bool-cases (any (λ r. bytes_eq r.name name) d.groups)) [
    | inl taken ↦ rw taken v
    | inr fresh ↦
        let g : Group = record { group_id = suc d.seq_groups; name = name; desc = desc } in
        rw fresh (
          assumption (
            GroupsValid-append d.groups d.seq_groups name desc v.groups fresh,
            GroupUsersValid-append d.groups g v.group_users,
            RepoGroupsValid-append d.groups g v.repo_groups,
          ))
  ]

  pub delete_group-IsValid : (g : ℕ) → IsValid (delete_group g d).1
  unfolding delete_group
  delete_group-IsValid g = assumption (
    GroupsValid-delete d.groups g v.groups,
    GroupUsersValid-delete d.groups g v.group_users,
    RepoGroupsValid-delete d.groups g v.repo_groups,
  )

  pub insert_group_user-IsValid : (g u role : ℕ) → IsValid (insert_group_user g u role d).1
  unfolding insert_group_user
  insert_group_user-IsValid g u role =
      let row : GroupUser = record { group_id = g; user_id = u; role_id = role } in
      elim (Bool-cases (
        not (has_group d.groups g)
        || (not (has_user d.users u)
            || (not (has_role role) || any (λ r. same_group_user r row) d.groups_users)))) [
              | inl refused ↦ rw refused v
              | inr fits ↦
                  rw fits (assumption (GroupUsersValid-add d.groups_users row v.group_users fits))
            ]

  pub delete_group_user-IsValid : (g u : ℕ) → IsValid (delete_group_user g u d).1
  unfolding delete_group_user
  delete_group_user-IsValid g u =
      let p = λ (r : GroupUser). r.group_id == g && r.user_id == u in
      assumption (GroupUsersValid-remove p v.group_users)
