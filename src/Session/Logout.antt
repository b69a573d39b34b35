-- ===== src/Session/Logout.antt =====
-- What `logout` does to the sessions.
use mathlib.Core.Bool.{false≢true}
use scissy.Base.{◌≡◌, ◌≢◌, sym, ap, ◌∙◌, ◌⊎◌, inl, inr, Bool, false, ◌&&◌, [], ◌==◌, arith}
use scissy.Base.Bytes.{Bytes, bytes_eq, bytes_eq_iff}
use scissy.Base.Rows.Member.{delete-In, In-delete}
use scissy.Schema.{Database, User, UserAuthRow}
use scissy.Schema.Users.{delete_auth}
use scissy.Schema.Valid.{IsValid}
use scissy.World.{World, step-no_faults}
use scissy.Session.{Session, anonymous, Cookies, session, logout}
use scissy.Session.Revoke.{Authenticates, by_token, Decides, session-Decides, same_login}

-- The deleted row is the session's.
abbrev revoked : Session → UserAuthRow → Bool
revoked s r = r.user_id == s.user_id && bytes_eq r.token s.token

db-logout :
    (cookies : Cookies) (is_ssl : Bool) (w : World)
    → w.faults ≡ []
    → (logout cookies is_ssl w).1.db
      ≡ (delete_auth (session cookies w.db).user_id (session cookies w.db).token w.db).1
unfolding logout
db-logout cookies is_ssl w e = (step-no_faults _ w e).1

-- What authenticates after the deletion did so before, by a row of another session.
before :
    {cookies : Cookies} (s : Session) (d : Database) {token : Bytes} {u : User}
    → Authenticates cookies (delete_auth s.user_id s.token d).1 token u
    → Authenticates cookies d token u × (u.user_id == s.user_id && bytes_eq token s.token ≡ false)
unfolding delete_auth
before s d (by_token a eu et iu ia ea er) =
    let r = delete-In (revoked s) a d.users_auths ia in
    (by_token a eu et iu r.0 ea er, rw (← ea, ← er) r.1)

after :
    {cookies : Cookies} (s : Session) (d : Database) {token : Bytes} {u : User}
    → Authenticates cookies d token u
    → (u.user_id == s.user_id && bytes_eq token s.token ≡ false)
    → Authenticates cookies (delete_auth s.user_id s.token d).1 token u
unfolding delete_auth
after s d (by_token a eu et iu ia ea er) f =
    by_token a eu et iu (In-delete (revoked s) a d.users_auths ia (rw (ea, er) f)) ea er

-- The cookies name one user and one token.
pub one_session :
    {cookies : Cookies} {d : Database} {token token' : Bytes} {u u' : User}
    → IsValid d
    → Authenticates cookies d token u
    → Authenticates cookies d token' u'
    → (u.user_id ≡ u'.user_id) × (token ≡ token')
one_session {u} {u'} v (by_token a eu et iu ia ea er) (by_token a' eu' et' iu' ia' ea' er') =
    let e : u.login ≡ u'.login = ground arith in
    (ap (λ x. x.user_id) (same_login _ u u' v iu iu' e), ground arith)

-- After the session's own row is deleted its cookies authenticate no one.
revoked_lem :
    (cookies : Cookies) (d : Database)
    → IsValid d
    → Decides cookies d (session cookies d)
    → (token : Bytes) (u : User)
    → ¬ Authenticates cookies
        (delete_auth (session cookies d).user_id (session cookies d).token d).1
        token
        u
revoked_lem cookies d v (inr (e, none_in)) token u h =
    none_in token u (before (session cookies d) d h).0
revoked_lem cookies d v (inl (token', u', au, e)) token u h =
    let (ab, f) = before (session cookies d) d h in
    let (eu, et) = one_session v ab au in
    false≢true (
      sym f
      ∙ ground (
        arith,
        eu,
        ap (λ s. s.user_id) e,
        bytes_eq_iff token (session cookies d).token,
        et ∙ sym (ap (λ s. s.token) e),
      ))

module _ (cookies : Cookies) (is_ssl : Bool) (w : World) (no_faults : w.faults ≡ []) where
  -- After a logout over a well-formed database, with no fault of the engine, the cookies that were
  -- sent with it give the anonymous session.
  pub logout_revokes : IsValid w.db → session cookies (logout cookies is_ssl w).1.db ≡ anonymous
  logout_revokes v = rw (db-logout cookies is_ssl w no_faults) (
      anonymous_of (session-Decides cookies _)
        (revoked_lem cookies w.db v (session-Decides cookies w.db)))
    where
      anonymous_of :
          {d : Database}
          → Decides cookies d (session cookies d)
          → ((token : Bytes) (u : User) → ¬ Authenticates cookies d token u)
          → session cookies d ≡ anonymous
      anonymous_of (inl (token, u, a, e)) h = absurd (h token u a)
      anonymous_of (inr (e, _)) h = e

  -- A logout, with no fault of the engine, ends no session but its own: what authenticates before it,
  -- for another user or by another token, does so after it.
  pub logout-Authenticates :
      (cookies' : Cookies) (token : Bytes) (u : User)
      → Authenticates cookies' w.db token u
      → (u.user_id ≢ (session cookies w.db).user_id) ⊎ (token ≢ (session cookies w.db).token)
      → Authenticates cookies' (logout cookies is_ssl w).1.db token u
  logout-Authenticates cookies' token u a other = rw (db-logout cookies is_ssl w no_faults) (
      after (session cookies w.db) w.db a
        (ground (arith, other, bytes_eq_iff token (session cookies w.db).token)))
