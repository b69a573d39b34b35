-- ===== src/Session.antt =====
-- scissy/session.cc, scissy/session-handler.cc and scissy/logout-handler.cc: who a request comes from.
pub mod Revoke
pub mod Logout
use scissy.Base.{ℕ, Bool, true, false, ◌&&◌, Option, none, some, List, [], ◌∷◌, ◌==◌, if◌then◌else◌}
use scissy.Base.Bytes.{Bytes, bytes_eq, codes}
use scissy.Base.Rows.{any, first}
use scissy.Schema.{Database, User}
use scissy.Schema.Users.{delete_auth}
use scissy.World.{World, M, ◌>>=◌, ◌>>◌, pure, query, step}

pub record Session : Type 0 where
  pub user : Bytes
  pub user_id : ℕ
  pub role : ℕ
  pub email : Bytes
  pub token : Bytes

-- What the constructor sets before `auth`.
abbrev pub anonymous : Session
anonymous = record { user = []; user_id = 0; role = 0; email = []; token = [] }

-- The request's cookies.
abbrev pub Cookies : Type 0
Cookies = List (Bytes × Bytes)

unfoldable pub find_cookie : Bytes → Cookies → Option Bytes
find_cookie key [] = none
find_cookie key ((k, v) ∷ cookies) = if bytes_eq k key then some v else find_cookie key cookies

-- A row of `users natural join users_auths`: the shared column is `user_id`.
abbrev pub has_token : Bytes → Bytes → Database → User → Bool
has_token user token d u =
    bytes_eq u.login user
    && any (λ a. a.user_id == u.user_id && bytes_eq a.token token) d.users_auths

-- The session of the row that the query of `Session::auth` fetched.
unfoldable pub session_of : Bytes → Bytes → Option User → Session
session_of user token none = anonymous
session_of user token (some u) = record {
  user = user;
  user_id = u.user_id;
  role = u.role_id;
  email = u.email;
  token = token;
}

unfoldable pub auth_with : Option Bytes → Option Bytes → Database → Session
unfolding session_of
auth_with (some user) (some token) d =
    session_of user token (first (has_token user token d) d.users)
auth_with _ _ d = anonymous

-- `Session::Session`.
unfoldable pub session : Cookies → Database → Session
unfolding auth_with find_cookie
session cookies d =
    auth_with (find_cookie (codes "user") cookies) (find_cookie (codes "token") cookies) d

-- `SessionHandler::handle` runs a handler under the session of its request.
unfoldable pub session_handle {ℓ} : {A : Type ℓ} → (Session → M A) → Cookies → M A
unfolding session
session_handle handler cookies = do s ← query (session cookies); handler s

pub record SetCookie : Type 0 where
  pub key : Bytes
  pub value : Bytes
  pub http_only : Bool
  pub secure : Bool
  pub path : Option Bytes
  pub expires : Bytes

abbrev expired_cookie : Bytes → Bool → SetCookie
expired_cookie key secure = record {
  key = key;
  value = [];
  http_only = true;
  secure = secure;
  path = none;
  expires = codes "Tue Feb 11 21:42:42 CET 2000";
}

-- `LogoutHandler::handle`: the cookies that it sets.
unfoldable pub logout : Cookies → Bool → M (List SetCookie)
unfolding session
logout cookies is_ssl = do
  s ← query (session cookies)
  step (delete_auth s.user_id s.token)
  pure (expired_cookie (codes "user") is_ssl ∷ expired_cookie (codes "token") is_ssl ∷ [])
