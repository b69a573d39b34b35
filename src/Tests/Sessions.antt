-- ===== src/Tests/Sessions.antt =====
-- Sessions and logouts, on the sample.
use scissy.Base.{◌≡◌, ◌≢◌, refl, inl, inr, [], true, arith}
use scissy.Base.Bytes.{codes}
use scissy.Schema.{User}
use scissy.Session.{session, anonymous, find_cookie, logout}
use scissy.Session.Revoke.{Decides, session-Decides, Authenticates, by_token}
use scissy.Session.Logout.{logout_revokes, logout-Authenticates}
use scissy.Tests.Sample.{bob, alice_cookies, bob_cookies, world, world-IsValid, runs}

user_ids :
    ((session alice_cookies world.db).user_id ≡ 1) × ((session bob_cookies world.db).user_id ≡ 2)
unfolding runs
user_ids = (refl, refl)

session-Decides_example : Decides bob_cookies world.db (session bob_cookies world.db)
session-Decides_example = session-Decides bob_cookies world.db

no_faults : world.faults ≡ []
unfolding runs
no_faults = refl

logout_revokes_example : session bob_cookies (logout bob_cookies true world).1.db ≡ anonymous
logout_revokes_example = logout_revokes bob_cookies true world no_faults world-IsValid

abbrev bob_row : User
bob_row = record {
  user_id = 2;
  login = bob;
  email = codes "b@b.c";
  password_type = codes "SHA3-512";
  password_salt = codes "xt";
  password_hash = codes "xthidden";
  role_id = 2;
}

bob-Authenticates : Authenticates bob_cookies world.db (codes "xB") bob_row
unfolding runs find_cookie
bob-Authenticates =
    by_token (record { user_id = 2; token = codes "xB"; ts_start = 1000 }) refl refl
      (inr (inl refl)) (inr (inl refl)) refl refl

other : bob_row.user_id ≢ (session alice_cookies world.db).user_id
unfolding runs
other = omega arith

logout-Authenticates_example :
    Authenticates bob_cookies (logout alice_cookies true world).1.db (codes "xB") bob_row
logout-Authenticates_example =
    logout-Authenticates alice_cookies true world no_faults bob_cookies (codes "xB") bob_row
      bob-Authenticates (inl other)
