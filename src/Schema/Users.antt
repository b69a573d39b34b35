-- ===== src/Schema/Users.antt =====
-- The statements on the tables `users`, `users_ssh_keys` and `users_auths`.
use scissy.Base.{ℕ, suc, Bool, not, ◌&&◌, ◌||◌, [], ◌∷◌, ◌++◌, ◌==◌}
use scissy.Base.Bytes.{Bytes, bytes_eq}
use scissy.Base.Rows.{any, delete}
use scissy.Schema.{Stmt, UserSshKey, UserAuthRow, done, unless_violated, has_user, picked_rowid}

unfoldable pub insert_user : Bytes → Bytes → Bytes → Bytes → Bytes → Stmt
insert_user login email type salt hash d =
    unless_violated (any (λ r. bytes_eq r.login login || bytes_eq r.email email) d.users) d
      (record d {
        users =
            d.users
            ++ record {
              user_id = suc d.seq_users;
              login = login;
              email = email;
              password_type = type;
              password_salt = salt;
              password_hash = hash;
              role_id = 2;
            }
              ∷ [];
        seq_users = suc d.seq_users;
        last_rowid = suc d.seq_users;
      })

abbrev pub same_ssh_key : UserSshKey → UserSshKey → Bool
same_ssh_key r s = r.user_id == s.user_id && (bytes_eq r.key s.key && r.key_type == s.key_type)

unfoldable pub insert_ssh_key : ℕ → ℕ → Bytes → Bytes → ℕ → Stmt
insert_ssh_key user_id type key desc now d =
    let row : UserSshKey = record {
      ssh_key_id = suc d.seq_keys;
      user_id = user_id;
      key_type = type;
      key = key;
      desc = desc;
      ts_created = now;
    } in
    unless_violated
      (not (has_user d.users user_id) || any (λ r. same_ssh_key r row) d.users_ssh_keys) d
      (record d {
        users_ssh_keys = d.users_ssh_keys ++ row ∷ [];
        seq_keys = suc d.seq_keys;
        last_rowid = suc d.seq_keys;
      })

unfoldable pub delete_ssh_key : ℕ → ℕ → Stmt
delete_ssh_key user_id key_id d = (
  done,
  record d {
    users_ssh_keys = delete (λ r. r.user_id == user_id && r.ssh_key_id == key_id) d.users_ssh_keys;
  },
)

abbrev pub same_auth : UserAuthRow → UserAuthRow → Bool
same_auth r s = bytes_eq r.token s.token && r.user_id == s.user_id

unfoldable pub insert_auth : ℕ → Bytes → ℕ → Stmt
insert_auth user_id token now d =
    let row : UserAuthRow = record { user_id = user_id; token = token; ts_start = now } in
    unless_violated (not (has_user d.users user_id) || any (λ r. same_auth r row) d.users_auths) d
      (record (picked_rowid d) { users_auths = d.users_auths ++ row ∷ [] })

unfoldable pub delete_auth : ℕ → Bytes → Stmt
delete_auth user_id token d = (
  done,
  record d {
    users_auths = delete (λ r. r.user_id == user_id && bytes_eq r.token token) d.users_auths;
  },
)
