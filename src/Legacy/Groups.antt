-- ===== src/Legacy/Groups.antt =====
-- scissy/groups.cc: the groups by name.
use scissy.Base.{
  ℕ, ◌≡◌, ◌≢◌, refl, inl, inr, Bool, true, false, ◌&&◌, Option, none, some, [], ◌∷◌, ◌++◌, String,
  ◌==◌, arith, Bool-cases, Option-cases,
}
use scissy.Base.Bytes.{Bytes, bytes_eq}
use scissy.Base.Rows.{delete, any}
use scissy.Base.Rows.Member.{In, In-append_right}
use scissy.Schema.{Database, Code, done, constraint, error, Stmt, GroupUser, is_done}
use scissy.Schema.Groups.{insert_group, insert_group_user, delete_group_user}
use scissy.World.{World, M, ◌>>=◌, ◌>>◌, pure, step, step_with}
use scissy.Db
use scissy.Legacy.{Role, k_administrator, role_id}

-- The subselects give null for a name that is not there, which the columns do not take.
abbrev insert_found : Option ℕ → Option ℕ → Role → Stmt
insert_found (some g) (some u) role = insert_group_user g u (role_id role)
insert_found _ _ role = λ d. (constraint, d)

unfoldable pub insert_named_user : Bytes → Bytes → Role → Stmt
insert_named_user group user role d =
    insert_found (Db.group_get_id group d) (Db.user_get_id user d) role d

unfoldable pub add_user : Bytes → Bytes → Role → M Bool
unfolding insert_named_user
add_user group user role = do code ← step (insert_named_user group user role); pure (is_done code)

-- No row has a null key.
abbrev delete_found : Option ℕ → Option ℕ → Stmt
delete_found (some g) (some u) = delete_group_user g u
delete_found _ _ = λ d. (done, d)

unfoldable pub remove_user : Bytes → Bytes → M (Unit {0})
remove_user group user = do
  step (λ d. delete_found (Db.group_get_id group d) (Db.user_get_id user d) d)
  pure tt

unfoldable pub delete_group_by_name : Bytes → Stmt
delete_group_by_name name d =
    let is_named = λ (g : ℕ). any (λ r. r.group_id == g && bytes_eq r.name name) d.groups in
    (
      done,
      record d {
        groups = delete (λ r. bytes_eq r.name name) d.groups;
        groups_users = delete (λ r. is_named r.group_id) d.groups_users;
        repos_groups = delete (λ r. is_named r.group_id) d.repos_groups;
      },
    )

-- What `create` leaves in `*error`, if it returns false.
unfoldable pub create_owned : Bytes → Bool → M (Option String)
create_owned group true = pure none
create_owned group false = do step (delete_group_by_name group); pure (some "failed to set owner")

unfoldable pub create_row : Bytes → Bytes → Code → M (Option String)
unfolding add_user create_owned
create_row group owner constraint = pure (some "name already used")
create_row group owner error = pure (some "failed to register, internal error")
create_row group owner done = do ok ← add_user group owner k_administrator; create_owned group ok

unfoldable pub create : Bytes → Bytes → Bytes → M (Option String)
unfolding create_row
create group desc owner = do code ← step (insert_group group desc); create_row group owner code

unfoldable pub get_id : Bytes → Database → Option ℕ
get_id group d = Db.group_get_id group d

named-In :
    (w : World) (group user : Bytes) (role : Role)
    → is_done (step (insert_named_user group user role) w).0 ≡ true
    → (g u : ℕ) × (Db.group_get_id group w.db ≡ some g)
      × (Db.user_get_id user w.db ≡ some u)
      × In
          (record { group_id = g; user_id = u; role_id = role_id role })
          (step (insert_named_user group user role) w).1.db.groups_users
unfolding step step_with insert_named_user insert_group_user
named-In w group user role h = elim (Option-cases (Db.group_get_id group w.db)) [
  | inl e ↦ absurd (ground arith)
  | inr (g, e) ↦ elim (Option-cases (Db.user_get_id user w.db)) [
    | inl f ↦ absurd (ground arith)
    | inr (u, f) ↦
        let row : GroupUser = record { group_id = g; user_id = u; role_id = role_id role } in
        let rows : (step (insert_named_user group user role) w).1.db.groups_users
            ≡ w.db.groups_users ++ row ∷ [] =
          ground arith in
        (g, u, e, f, rw rows (In-append_right row w.db.groups_users (row ∷ []) (inl refl)))
  ]
]

step-users :
    (w : World) (group desc : Bytes) → (step (insert_group group desc) w).1.db.users ≡ w.db.users
unfolding step step_with insert_group
step-users w group desc = ground arith

some_not_none : {m : String} → some m ≢ none
some_not_none h = cc

module _ (group desc owner : Bytes) (w : World) where
  abbrev inserted : Code × World
  inserted = step (insert_group group desc) w

  create_row-owner :
      (c : Code)
      → inserted.0 ≡ c
      → (create group desc owner w).0 ≡ none
      → (g u : ℕ) × (Db.group_get_id group inserted.1.db ≡ some g)
        × (Db.user_get_id owner inserted.1.db ≡ some u)
        × In
            (record { group_id = g; user_id = u; role_id = 0 })
            (create group desc owner w).1.db.groups_users
  unfolding create create_row add_user create_owned
  create_row-owner constraint e h = absurd (some_not_none (rw e at h))
  create_row-owner error e h = absurd (some_not_none (rw e at h))
  create_row-owner done e h =
      elim (Bool-cases
        (is_done (step (insert_named_user group owner k_administrator) inserted.1).0)) [
          | inl t ↦
              let (g, u, a, b, i) = named-In inserted.1 group owner k_administrator t in
              (g, u, a, b, rw (e, t) i)
          | inr f ↦ absurd (some_not_none (rw (e, f) at h))
        ]

  -- The older code makes the owner of a new group one by the number 0, which stands for no role in the
  -- database: where it succeeds, the user of that login has the role `none` in the group.
  pub create-owner :
      (create group desc owner w).0 ≡ none
      → (g u : ℕ) × (Db.user_get_id owner w.db ≡ some u)
        × In
            (record { group_id = g; user_id = u; role_id = 0 })
            (create group desc owner w).1.db.groups_users
  unfolding Db.user_get_id
  create-owner h =
      let (g, u, a, b, i) = create_row-owner inserted.0 refl h in
      (g, u, rw (step-users w group desc) at b, i)
