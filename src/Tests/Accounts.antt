-- ===== src/Tests/Accounts.antt =====
-- Registrations and sign-ins, on the sample.
use scissy.Base.{◌<◌, ◌^◌, ◌≡◌, ◌≢◌, ◌↔◌, refl, inl, true, false, some, none, [], ◌++◌, arith}
use scissy.Base.Bytes.{Bytes, codes, bytes_eq, bytes_eq_iff}
use scissy.Base.Rows.{any, All}
use scissy.Base.Rows.Member.{In}
use scissy.Pb.{UserAuth, UserCreate}
use scissy.Schema.{User}
use scissy.Session.{session}
use scissy.Session.Revoke.{signed_in}
use scissy.Service.{answered, succeed}
use scissy.Service.Users.{user_create, user_create_check}
use scissy.Service.Users.Auth.{user_auth, accepted, granted, builtin_auth, authenticator_auth}
use scissy.Service.Users.SignIn.{sent_back, session-user_auth}
use scissy.Service.Users.SignIn.Succeed.{user_auth_succeeds}
use scissy.Service.Users.Register.{builtin_auth-user_create}
use scissy.Tests.Sample.{host, open_host, cfg, alice, world, world-IsValid, runs}

abbrev request : UserAuth
request = record { user = alice; password = codes "secret" }

few : world.db.seq_users < 2 ^ 31
unfolding runs
few = omega arith

no_faults : world.faults ≡ []
unfolding runs
no_faults = refl

abbrev alice_row : User
alice_row = record {
  user_id = 1;
  login = alice;
  email = codes "a@b.c";
  password_type = codes "SHA3-512";
  password_salt = codes "xs";
  password_hash = codes "xssecret";
  role_id = 2;
}

alice-In : In alice_row world.db.users
unfolding runs
alice-In = inl refl

checked : authenticator_auth open_host cfg.authenticator request world.db ≡ granted
unfolding runs authenticator_auth
checked = refl

differ : (s t : Bytes) → bytes_eq s t ≡ false → s ≢ t
differ s t h e = ground (arith, bytes_eq_iff s t)

fresh : All (λ r. r.token ≢ codes "xC") world.db.users_auths
unfolding runs
fresh = (differ (codes "xA") (codes "xC") refl, (differ (codes "xB") (codes "xC") refl, tt))

user_auth_succeeds_example :
    (user_auth open_host cfg (some (codes "C")) true request world).0
    ≡ answered (accepted open_host cfg true request (codes "C") world.now)
user_auth_succeeds_example =
    user_auth_succeeds open_host cfg (some (codes "C")) true request world alice_row (codes "C")
      world-IsValid few no_faults alice-In refl checked refl fresh

answer :
    (user_auth open_host cfg (some (codes "C")) true request world).0
    ≡ answered (accepted open_host cfg true request (codes "C") world.now)
answer =
    user_auth_succeeds open_host cfg (some (codes "C")) true request world alice_row (codes "C")
      world-IsValid few no_faults alice-In refl checked refl fresh

session-user_auth_example :
    (authenticator_auth open_host cfg.authenticator request world.db ≡ granted)
    × ((u : User) × (auth : Bytes) × In u world.db.users
        × (u.login ≡ alice)
        × (some (codes "C") ≡ some auth)
        × (session
              (sent_back (accepted open_host cfg true request (codes "C") world.now).cookies)
              (user_auth open_host cfg (some (codes "C")) true request world).1.db
            ≡ signed_in (open_host.base16_encode auth) u))
session-user_auth_example =
    session-user_auth open_host cfg (some (codes "C")) true request world world-IsValid few
      (accepted open_host cfg true request (codes "C") world.now) answer refl

abbrev carol : UserCreate
carol = record { user = codes "carol"; password = codes "sesame"; email = codes "c@b.c" }

decoded : (s : Bytes) → host.base16_decode (host.base16_encode s) ≡ s
decoded s = refl

carol_registered : (user_create host cfg (some (codes "u")) carol world).0 ≡ answered succeed
unfolding runs
carol_registered = refl

builtin_auth-user_create_example :
    (user_create_check host cfg carol ≡ none)
    × (any (λ u. bytes_eq u.login (codes "carol")) world.db.users ≡ false)
    × ((salt : Bytes) × (some (codes "u") ≡ some salt)
        × ((password : Bytes)
            → (builtin_auth host
                  (record { user = codes "carol"; password = password })
                  (user_create host cfg (some (codes "u")) carol world).1.db
                ≡ granted)
              ↔ (host.sha3_512 (salt ++ password) ≡ host.sha3_512 (salt ++ codes "sesame"))))
builtin_auth-user_create_example =
    builtin_auth-user_create host cfg (some (codes "u")) carol world decoded carol_registered
