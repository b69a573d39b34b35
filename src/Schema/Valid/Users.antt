-- ===== src/Schema/Valid/Users.antt =====
-- The statements on users, keys and tokens keep a database well-formed.
use scissy.Base.{
  ℕ, suc, ◌≡◌, refl, inl, inr, Bool, true, false, not, ◌||◌, ◌&&◌, ◌==◌, arith, List, [], ◌∷◌, ◌++◌,
  ◌∙◌, Bool-cases,
}
use scissy.Base.Bytes.{Bytes, bytes_eq}
use scissy.Base.Rows.{
  any, delete, any-append, any-ext_All, All-append, All-mono, All-delete, Unique-append,
  Unique-delete,
}
use scissy.Schema.{
  Database, User, UserSshKey, UserAuthRow, Group, GroupUser, Repo, RepoUser, has_user,
}
use scissy.Schema.Users.{
  insert_user, insert_ssh_key, delete_ssh_key, insert_auth, delete_auth, same_ssh_key, same_auth,
}
use scissy.Schema.Valid.{
  IsValid, same_user, UsersValid, KeysValid, AuthsValid, GroupUsersValid, RepoUsersValid,
}

module _ (users : List User) (u : User) where
  has_user-append : (id : ℕ) → has_user users id ≡ true → has_user (users ++ u ∷ []) id ≡ true
  unfolding has_user
  has_user-append id h = ground (arith, any-append (λ r. r.user_id == id) users u)

  KeysValid-append :
      {keys : List UserSshKey} {seq : ℕ}
      → KeysValid users keys seq
      → KeysValid (users ++ u ∷ []) keys seq
  KeysValid-append v = record {
    fits = All-mono _ _ _ (λ r h. (has_user-append r.user_id h.0, h.1)) v.fits;
    unique = v.unique;
  }

  AuthsValid-append :
      {auths : List UserAuthRow} → AuthsValid users auths → AuthsValid (users ++ u ∷ []) auths
  AuthsValid-append v = record {
    fits = All-mono _ _ _ (λ r h. has_user-append r.user_id h) v.fits;
    unique = v.unique;
  }

  GroupUsersValid-append_user :
      {groups : List Group} {rows : List GroupUser}
      → GroupUsersValid groups users rows
      → GroupUsersValid groups (users ++ u ∷ []) rows
  GroupUsersValid-append_user v = record {
    fits = All-mono _ _ _ (λ r h. (h.0, has_user-append r.user_id h.1, h.2)) v.fits;
    unique = v.unique;
  }

  RepoUsersValid-append_user :
      {repos : List Repo} {rows : List RepoUser}
      → RepoUsersValid repos users rows
      → RepoUsersValid repos (users ++ u ∷ []) rows
  RepoUsersValid-append_user v = record {
    fits = All-mono _ _ _ (λ r h. (h.0, has_user-append r.user_id h.1, h.2)) v.fits;
    unique = v.unique;
  }

-- A new user has an id that no user has.
UsersValid-append :
    (users : List User) (seq : ℕ) (u : User)
    → u.user_id ≡ suc seq
    → UsersValid users seq
    → any (λ r. bytes_eq r.login u.login || bytes_eq r.email u.email) users ≡ false
    → UsersValid (users ++ u ∷ []) (suc seq)
UsersValid-append users seq u next v fresh = record {
  ids = All-append _ users _ (All-mono _ _ users (λ r h. omega arith) v.ids) (omega arith);
  unique =
      Unique-append same_user users _ v.unique
        (any-ext_All _ _ _ users (λ r h. ground arith) v.ids ∙ fresh);
}

KeysValid-add :
    {users : List User} (keys : List UserSshKey) (seq : ℕ) (row : UserSshKey)
    → row.ssh_key_id ≡ suc seq
    → KeysValid users keys seq
    → (not (has_user users row.user_id) || any (λ r. same_ssh_key r row) keys) ≡ false
    → KeysValid users (keys ++ row ∷ []) (suc seq)
KeysValid-add keys seq row next v h = record {
  fits =
      All-append _ keys row (All-mono _ _ keys (λ r k. (k.0, (omega arith, omega arith))) v.fits)
        (ground arith, (omega arith, omega arith));
  unique = Unique-append same_ssh_key keys row v.unique (ground arith);
}

AuthsValid-add :
    {users : List User} (auths : List UserAuthRow) (row : UserAuthRow)
    → AuthsValid users auths
    → (not (has_user users row.user_id) || any (λ r. same_auth r row) auths) ≡ false
    → AuthsValid users (auths ++ row ∷ [])
AuthsValid-add auths row v h = record {
  fits = All-append _ auths row v.fits (ground arith);
  unique = Unique-append same_auth auths row v.unique (ground arith);
}

KeysValid-remove :
    {users : List User} (p : UserSshKey → Bool) {keys : List UserSshKey} {seq : ℕ}
    → KeysValid users keys seq
    → KeysValid users (delete p keys) seq
KeysValid-remove p v = record {
  fits = All-delete _ _ p _ (λ r e h. h) v.fits;
  unique = Unique-delete same_ssh_key p _ v.unique;
}

AuthsValid-remove :
    {users : List User} (p : UserAuthRow → Bool) {auths : List UserAuthRow}
    → AuthsValid users auths
    → AuthsValid users (delete p auths)
AuthsValid-remove p v = record {
  fits = All-delete _ _ p _ (λ r e h. h) v.fits;
  unique = Unique-delete same_auth p _ v.unique;
}

module _ (d : Database) (v : IsValid d) where
  pub insert_user-IsValid :
      (login email type salt hash : Bytes) → IsValid (insert_user login email type salt hash d).1
  unfolding insert_user
  insert_user-IsValid login email type salt hash =
      elim (Bool-cases (any (λ r. bytes_eq r.login login || bytes_eq r.email email) d.users)) [
        | inl taken ↦ rw taken v
        | inr fresh ↦
            let u : User = record {
              user_id = suc d.seq_users;
              login = login;
              email = email;
              password_type = type;
              password_salt = salt;
              password_hash = hash;
              role_id = 2;
            } in
            rw fresh (
              assumption (
                UsersValid-append d.users d.seq_users u refl v.users fresh,
                KeysValid-append d.users u v.keys,
                AuthsValid-append d.users u v.auths,
                GroupUsersValid-append_user d.users u v.group_users,
                RepoUsersValid-append_user d.users u v.repo_users,
              ))
      ]

  pub insert_ssh_key-IsValid :
      (user_id type : ℕ) (key desc : Bytes) (now : ℕ)
      → IsValid (insert_ssh_key user_id type key desc now d).1
  unfolding insert_ssh_key
  insert_ssh_key-IsValid user_id type key desc now =
      let row : UserSshKey = record {
        ssh_key_id = suc d.seq_keys;
        user_id = user_id;
        key_type = type;
        key = key;
        desc = desc;
        ts_created = now;
      } in
      elim (Bool-cases
        (not (has_user d.users user_id) || any (λ r. same_ssh_key r row) d.users_ssh_keys)) [
          | inl refused ↦ rw refused v
          | inr fits ↦
              rw fits (assumption (KeysValid-add d.users_ssh_keys d.seq_keys row refl v.keys fits))
        ]

  pub delete_ssh_key-IsValid : (user_id key_id : ℕ) → IsValid (delete_ssh_key user_id key_id d).1
  unfolding delete_ssh_key
  delete_ssh_key-IsValid user_id key_id =
      let gone = λ (r : UserSshKey). r.user_id == user_id && r.ssh_key_id == key_id in
      assumption (KeysValid-remove gone v.keys)

  pub insert_auth-IsValid :
      (user_id : ℕ) (token : Bytes) (now : ℕ) → IsValid (insert_auth user_id token now d).1
  unfolding insert_auth
  insert_auth-IsValid user_id token now =
      let row : UserAuthRow = record { user_id = user_id; token = token; ts_start = now } in
      elim (Bool-cases
        (not (has_user d.users user_id) || any (λ r. same_auth r row) d.users_auths)) [
          | inl refused ↦ rw refused v
          | inr fits ↦ rw fits (assumption (AuthsValid-add d.users_auths row v.auths fits))
        ]

  pub delete_auth-IsValid : (user_id : ℕ) (token : Bytes) → IsValid (delete_auth user_id token d).1
  unfolding delete_auth
  delete_auth-IsValid user_id token =
      let gone = λ (r : UserAuthRow). r.user_id == user_id && bytes_eq r.token token in
      assumption (AuthsValid-remove gone v.auths)
