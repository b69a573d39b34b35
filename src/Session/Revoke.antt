-- ===== src/Session/Revoke.antt =====
-- Who is authenticated, and until when.
use mathlib.Core.Bool.{false≢true}
use scissy.Base.{
  ◌≡◌, refl, sym, ◌∙◌, ◌⊎◌, inl, inr, true, ◌&&◌, none, some, ◌==◌, arith, Option-cases,
}
use scissy.Base.Bytes.{Bytes, bytes_eq, bytes_eq_iff, bytes_eq_refl, codes}
use scissy.Base.Rows.{first}
use scissy.Base.Rows.Member.{In, any-In, any-of-In, first-In, first-none, Unique-eq}
use scissy.Schema.{Database, User, UserAuthRow}
use scissy.Schema.Valid.{IsValid, same_user}
use scissy.Session.{
  Session, anonymous, Cookies, find_cookie, has_token, session_of, auth_with, session,
}

-- The cookies name user `u` and a token that the database holds for that user.
pub data Authenticates (cookies : Cookies) (d : Database) (token : Bytes) (u : User) : Type 0 where
  by_token :
      (a : UserAuthRow)
      → find_cookie (codes "user") cookies ≡ some u.login
      → find_cookie (codes "token") cookies ≡ some token
      → In u d.users
      → In a d.users_auths
      → a.user_id ≡ u.user_id
      → a.token ≡ token
      → Authenticates cookies d token u

-- The session that stands for a user.
abbrev pub signed_in : Bytes → User → Session
signed_in token u = record {
  user = u.login;
  user_id = u.user_id;
  role = u.role_id;
  email = u.email;
  token = token;
}

-- A row with the user's login and a token of the user is what the query looks for.
has_token_of :
    (d : Database) (u : User) (a : UserAuthRow) (token : Bytes)
    → In a d.users_auths
    → a.user_id ≡ u.user_id
    → a.token ≡ token
    → has_token u.login token d u ≡ true
has_token_of d u a token ia eu et = ground (
  arith,
  bytes_eq_refl u.login,
  any-of-In (λ r. r.user_id == u.user_id && bytes_eq r.token token) a d.users_auths ia,
  bytes_eq_iff a.token token,
)

-- Logins are unique.
pub same_login :
    (d : Database) (x y : User)
    → IsValid d
    → In x d.users
    → In y d.users
    → x.login ≡ y.login
    → x ≡ y
same_login d x y v ix iy e =
    Unique-eq same_user d.users x y v.users.unique ix iy
      (ground (arith, bytes_eq_iff x.login y.login)) (ground (arith, bytes_eq_iff y.login x.login))

-- A row that the query fetched authenticates.
fetched :
    (cookies : Cookies) (d : Database) (user token : Bytes) (u : User)
    → find_cookie (codes "user") cookies ≡ some user
    → find_cookie (codes "token") cookies ≡ some token
    → first (has_token user token d) d.users ≡ some u
    → Authenticates cookies d token u × (user ≡ u.login)
fetched cookies d user token u eu et e =
    let (iu, t) = first-In (has_token user token d) d.users u e in
    let el : u.login ≡ user = (bytes_eq_iff u.login user).0 (ground arith) in
    let (a, ia, ta) =
      any-In (λ r. r.user_id == u.user_id && bytes_eq r.token token) d.users_auths (ground arith) in
    (
      by_token a (rw el eu) et iu ia (ground arith) ((bytes_eq_iff a.token token).0 (ground arith)),
      sym el,
    )

-- Whether the cookies authenticate decides the session: that of the user, or the anonymous one.
abbrev pub Decides : Cookies → Database → Session → Type 0
Decides cookies d s =
    ((token : Bytes) × (u : User) × Authenticates cookies d token u × (s ≡ signed_in token u))
    ⊎ ((s ≡ anonymous) × ((token : Bytes) (u : User) → ¬ Authenticates cookies d token u))

module _ (cookies : Cookies) (d : Database) where
  no_user :
      find_cookie (codes "user") cookies ≡ none
      → (token : Bytes) (u : User) → ¬ Authenticates cookies d token u
  no_user e token u (by_token a eu et iu ia ea er) = cc

  no_token :
      find_cookie (codes "token") cookies ≡ none
      → (token : Bytes) (u : User) → ¬ Authenticates cookies d token u
  no_token e token u (by_token a eu et iu ia ea er) = cc

  no_row :
      (user token : Bytes)
      → find_cookie (codes "user") cookies ≡ some user
      → find_cookie (codes "token") cookies ≡ some token
      → first (has_token user token d) d.users ≡ none
      → (token' : Bytes) (u : User) → ¬ Authenticates cookies d token' u
  no_row user token eu et e token' u (by_token a fu ft iu ia ea er) =
      let n = first-none (has_token user token d) d.users u e iu in
      let el : user ≡ u.login = ground arith in
      let ek : token' ≡ token = ground arith in
      false≢true (sym (rw el at n) ∙ has_token_of d u a token ia ea (er ∙ ek))

  -- A request runs under the session of a user, with that user's id, role and login, exactly when its
  -- cookies name the user and a token that the database holds for the user; otherwise it runs under
  -- the anonymous session.
  pub session-Decides : Decides cookies d (session cookies d)
  unfolding session
  session-Decides = elim (Option-cases (find_cookie (codes "user") cookies)) [
    | inl e ↦ inr (rw (e, auth_with) refl, no_user e)
    | inr (user, eu) ↦ elim (Option-cases (find_cookie (codes "token") cookies)) [
      | inl e ↦ inr (rw (eu, e, auth_with) refl, no_token e)
      | inr (token, et) ↦ elim (Option-cases (first (has_token user token d) d.users)) [
        | inl e ↦ inr (rw (eu, et, auth_with, e, session_of) refl, no_row user token eu et e)
        | inr (u, e) ↦
            let f = fetched cookies d user token u eu et e in
            inl (token, u, f.0, rw (eu, et, auth_with, e, session_of, f.1) refl)
      ]
    ]
  ]
