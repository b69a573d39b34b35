-- ===== src/Schema/Groups.antt =====
-- The statements on the tables `groups` and `groups_users`.
use scissy.Base.{ℕ, suc, Bool, not, ◌&&◌, ◌||◌, [], ◌∷◌, ◌++◌, ◌==◌}
use scissy.Base.Bytes.{Bytes, bytes_eq}
use scissy.Base.Rows.{any, delete}
use scissy.Schema.{
  Stmt, GroupUser, done, unless_violated, has_user, has_group, has_role, picked_rowid,
}

unfoldable pub insert_group : Bytes → Bytes → Stmt
insert_group name desc d = unless_violated (any (λ r. bytes_eq r.name name) d.groups) d (record d {
  groups = d.groups ++ record { group_id = suc d.seq_groups; name = name; desc = desc } ∷ [];
  seq_groups = suc d.seq_groups;
  last_rowid = suc d.seq_groups;
})

unfoldable pub delete_group : ℕ → Stmt
delete_group g d = (
  done,
  record d {
    groups = delete (λ r. r.group_id == g) d.groups;
    groups_users = delete (λ r. r.group_id == g) d.groups_users;
    repos_groups = delete (λ r. r.group_id == g) d.repos_groups;
  },
)

abbrev pub same_group_user : GroupUser → GroupUser → Bool
same_group_user r s = r.group_id == s.group_id && r.user_id == s.user_id

unfoldable pub insert_group_user : ℕ → ℕ → ℕ → Stmt
insert_group_user g u role d =
    let row : GroupUser = record { group_id = g; user_id = u; role_id = role } in
    unless_violated
      (not (has_group d.groups g)
        || (not (has_user d.users u)
            || (not (has_role role) || any (λ r. same_group_user r row) d.groups_users)))
      d (record (picked_rowid d) { groups_users = d.groups_users ++ row ∷ [] })

unfoldable pub delete_group_user : ℕ → ℕ → Stmt
delete_group_user g u d = (
  done,
  record d { groups_users = delete (λ r. r.group_id == g && r.user_id == u) d.groups_users },
)
