-- ===== src/Service/Users/Register.antt =====
-- From a registration to the passwords that the account takes.
use mathlib.Core.Bool.{false≢true}
use scissy.Base.{
  ℕ, ◌↔◌, ◌≡◌, ◌≢◌, String, is_some, refl, sym, ◌∙◌, inl, inr, Bool, true, false, ◌||◌, Option,
  none, some, List, [], ◌∷◌, ◌++◌, arith, Bool-cases, Option-cases, if◌then◌else◌, suc,
}
use scissy.Base.Bytes.{Bytes, codes, bytes_eq, bytes_eq_iff, bytes_eq_refl}
use scissy.Base.Rows.{any, first-append}
use scissy.Pb.{k_failed, StatusMsg, UserCreate}
use scissy.Host.{Host}
use scissy.Config.{Config}
use scissy.Schema.{Database, Code, done, constraint, error, is_done, User}
use scissy.Schema.Users.{insert_user}
use scissy.World.{World, step, step_with}
use scissy.Service.{answered, macros, succeed, status_msg}
use scissy.Service.Users.{
  user_create_check, user_check_password, registered, user_create, hash_name,
}
use scissy.Service.Users.Auth.{granted, refused, check_password, builtin_auth}

-- The row of a new account.
abbrev pub account : Host → UserCreate → Bytes → ℕ → User
account host r salt id = record {
  user_id = id;
  login = r.user;
  email = r.email;
  password_type = hash_name;
  password_salt = host.base16_encode salt;
  password_hash = host.base16_encode (host.sha3_512 (salt ++ r.password));
  role_id = 2;
}

any-or :
    {A : Type 0} (p q : A → Bool) (xs : List A)
    → any (λ x. p x || q x) xs ≡ false
    → any p xs ≡ false
unfolding any
any-or p q [] h = refl
any-or p q (x ∷ xs) h = ground (arith, any-or p q xs)

-- A row that was inserted.
inserted :
    (w : World) (login email type salt hash : Bytes)
    → is_done (step (insert_user login email type salt hash) w).0 ≡ true
    → (any (λ r. bytes_eq r.login login || bytes_eq r.email email) w.db.users ≡ false)
      × ((step (insert_user login email type salt hash) w).1.db.users
          ≡ w.db.users
            ++ record {
              user_id = suc w.db.seq_users;
              login = login;
              email = email;
              password_type = type;
              password_salt = salt;
              password_hash = hash;
              role_id = 2;
            }
              ∷ [])
unfolding step step_with insert_user
inserted w login email type salt hash h = (ground arith, ground arith)

answered_injective : {m m' : StatusMsg} → answered m ≡ answered m' → m ≡ m'
answered_injective h = cc

not_succeed : {msg : String} → answered (status_msg k_failed msg) ≢ answered succeed
not_succeed h = cc

done_of_registered : (c : Code) → registered c ≡ succeed → is_done c ≡ true
unfolding registered
done_of_registered done h = refl
done_of_registered constraint h = cc
done_of_registered error h = cc

-- A registration that is refused is told why.
user_create_check_explains :
    (host : Host) (cfg : Config) (r : UserCreate) (m : StatusMsg)
    → user_create_check host cfg r ≡ some m
    → is_some m.msg ≡ true
unfolding user_create_check user_check_password
user_create_check_explains host cfg r m h = ground arith

-- A comparison of hashes.
if_granted :
    (s t : Bytes)
    → ((if bytes_eq s t then granted else refused (some (codes "invalid password"))) ≡ granted)
      ↔ (t ≡ s)
if_granted s t = (λ h. ground (arith, bytes_eq_iff s t), λ h. ground (arith, bytes_eq_iff s t))

module _ (host : Host) (cfg : Config) (random : Option Bytes) (r : UserCreate) (w : World) where
  abbrev insertion : Bytes → Code × World
  insertion salt =
      step
        (insert_user r.user r.email hash_name (host.base16_encode salt)
          (host.base16_encode (host.sha3_512 (salt ++ r.password))))
        w

  -- What a registration went through that did not fail.
  record Registered : Type 0 where
    passed : user_create_check host cfg r ≡ none
    salt : Bytes
    drawn : random ≡ some salt
    stored : is_done (insertion salt).0 ≡ true
    result : (user_create host cfg random r w).1 ≡ (insertion salt).1

  succeed-Registered : (user_create host cfg random r w).0 ≡ answered succeed → Registered
  unfolding user_create registered macros
  succeed-Registered h = elim (Option-cases (user_create_check host cfg r)) [
    | inr (m, e) ↦
        let same : m ≡ succeed = answered_injective (rw e at h) in
        absurd (false≢true (rw same at (user_create_check_explains host cfg r m e)))
    | inl e ↦ elim (Option-cases random) [
      | inl f ↦ absurd (not_succeed (rw (e, f) at h))
      | inr (salt, f) ↦ elim (Bool-cases (is_done (insertion salt).0)) [
        | inl g ↦ record { passed = e; salt = salt; drawn = f; stored = g; result = rw (e, f) refl }
        | inr g ↦
            absurd (false≢true (sym g ∙ done_of_registered _ (answered_injective (rw (e, f) at h))))
      ]
    ]
  ]

  -- The lookup of the new account.
  builtin_auth-account :
      (salt password : Bytes) (d : Database)
      → d.users ≡ w.db.users ++ account host r salt (suc w.db.seq_users) ∷ []
      → any (λ u. bytes_eq u.login r.user) w.db.users ≡ false
      → builtin_auth host (record { user = r.user; password = password }) d
        ≡ check_password host
            (record { user = r.user; password = password })
            (account host r salt (suc w.db.seq_users))
  unfolding builtin_auth
  builtin_auth-account salt password d users free =
      rw
        (
          users,
          first-append (λ u. bytes_eq u.login r.user) w.db.users
              (account host r salt (suc w.db.seq_users)),
          free,
          bytes_eq_refl r.user,
        )
        refl

  check_password-account :
      ((s : Bytes) → host.base16_decode (host.base16_encode s) ≡ s)
      → (salt password : Bytes) (id : ℕ)
      → (check_password host
            (record { user = r.user; password = password })
            (account host r salt id)
          ≡ granted)
        ↔ (host.sha3_512 (salt ++ password) ≡ host.sha3_512 (salt ++ r.password))
  unfolding check_password
  check_password-account decoded salt password id =
      rw (bytes_eq_refl hash_name, decoded salt, decoded (host.sha3_512 (salt ++ r.password)))
        (if_granted (host.sha3_512 (salt ++ r.password)) (host.sha3_512 (salt ++ password)))

  -- If the decoder undoes the encoder, after a registration that succeeds the password that was sent
  -- is granted, and another password is refused unless it has the same hash under the salt that was
  -- drawn. The request had passed the checks on its login, its password and its email, and no account
  -- had its login.
  pub builtin_auth-user_create :
      ((s : Bytes) → host.base16_decode (host.base16_encode s) ≡ s)
      → (user_create host cfg random r w).0 ≡ answered succeed
      → (user_create_check host cfg r ≡ none)
        × (any (λ u. bytes_eq u.login r.user) w.db.users ≡ false)
        × ((salt : Bytes) × (random ≡ some salt)
            × ((password : Bytes)
                → (builtin_auth host
                      (record { user = r.user; password = password })
                      (user_create host cfg random r w).1.db
                    ≡ granted)
                  ↔ (host.sha3_512 (salt ++ password) ≡ host.sha3_512 (salt ++ r.password))))
  builtin_auth-user_create decoded h =
      let g = succeed-Registered h in
      let (fresh, users) =
        inserted w r.user r.email hash_name (host.base16_encode g.salt)
          (host.base16_encode (host.sha3_512 (g.salt ++ r.password))) g.stored in
      let free =
        any-or (λ u. bytes_eq u.login r.user) (λ u. bytes_eq u.email r.email) w.db.users fresh in
      (
        g.passed,
        free,
        (
          g.salt,
          g.drawn,
          λ password.
              rw (g.result, builtin_auth-account g.salt password (insertion g.salt).1.db users free)
                (check_password-account decoded g.salt password (suc w.db.seq_users)),
        ),
      )
