-- ===== src/Service/Users/Auth.antt =====
-- `userAuth` of scissy/service.cc, and the two authenticators: scissy/builtin-authenticator.cc and
-- scissy/process-authenticator.cc.
use scissy.Base.{
  ℕ, ◌+◌, ◌*◌, ◌%◌, ◌^◌, Bool, true, not, Option, none, some, List, [], ◌∷◌, ◌++◌, ltb, ◌==◌,
  if◌then◌else◌,
}
use scissy.Base.Bytes.{Bytes, codes, bytes_eq}
use scissy.Base.Rows.{first}
use scissy.Pb.{Status, k_succeed, k_failed, UserAuth}
use scissy.Host.{Host}
use scissy.Config.{Config, AuthMethod, builtin, process}
use scissy.Schema.{Database, User, is_done}
use scissy.Schema.Users.{insert_auth}
use scissy.World.{M, step}
use scissy.Db
use scissy.Session.{SetCookie}
use scissy.Service.{
  unless_ok, Reply, answered, clock, proceed, stop_with, Exec, ◌>>=◌, ◌>>◌, lift, gets, or_stop,
  answer, run,
}
use scissy.Service.Users.{hash_name}

-- The response, a `pb::Session`, and the cookies that are set.
pub record AuthResponse : Type 0 where
  pub user : Bytes
  pub status : Status
  pub msg : Option Bytes
  pub cookies : List SetCookie

-- A failure with what the authenticator left in the response's message.
abbrev pub denied : Option Bytes → AuthResponse
denied msg = record { user = []; status = k_failed; msg = msg; cookies = [] }

-- An authenticator returns true, or false with the message of the response.
pub data Verdict : Type 0 where
  granted : Verdict
  refused : Option Bytes → Verdict

-- The comparison of the hashes, for the row that was fetched.
unfoldable pub check_password : Host → UserAuth → User → Verdict
check_password host request u =
    if not (bytes_eq u.password_type hash_name)
    then refused (
        some (
          codes "unsupported hash type: "
          ++ (u.password_type ++ (codes " for user " ++ request.user))))
    else if bytes_eq (host.base16_decode u.password_hash)
        (host.sha3_512 (host.base16_decode u.password_salt ++ request.password))
    then granted
    else refused (some (codes "invalid password"))

abbrev check_row : Host → UserAuth → Option User → Verdict
check_row host request none = refused (some (codes "user not found"))
check_row host request (some u) = check_password host request u

unfoldable pub builtin_auth : Host → UserAuth → Database → Verdict
unfolding check_password
builtin_auth host request d =
    check_row host request (first (λ r. bytes_eq r.login request.user) d.users)

abbrev exit_verdict : Option ℕ → Verdict
exit_verdict none = refused (some (codes "auth failed"))
exit_verdict (some code) = if code == 0 then granted else refused none

unfoldable pub process_auth : Host → UserAuth → Verdict
process_auth host request = exit_verdict (host.run_auth request.user request.password)

unfoldable pub authenticator_auth : Host → AuthMethod → UserAuth → Database → Verdict
unfolding builtin_auth process_auth
authenticator_auth host builtin request d = builtin_auth host request d
authenticator_auth host process request d = process_auth host request

unfoldable pub unless_denied : Verdict → Exec AuthResponse (Unit {0})
unless_denied granted = proceed tt
unless_denied (refused msg) = stop_with (answered (denied msg))

-- `(int)user_id`, of 32 bits; a negative id selects no user, as 0 does not.
abbrev pub to_int : ℕ → ℕ
to_int user_id = if ltb (user_id % 2 ^ 32) (2 ^ 31) then user_id % 2 ^ 32 else 0

-- The product is unsigned, of 32 bits.
abbrev pub expiry : Config → ℕ → ℕ
expiry cfg now = now + (7 * 60 * 60 * cfg.cookie_duration) % 2 ^ 32

abbrev pub cookie : Bytes → Bytes → Bool → Bytes → SetCookie
cookie key value secure expire = record {
  key = key;
  value = value;
  http_only = true;
  secure = secure;
  path = some (codes "/");
  expires = expire;
}

-- The response to a sign-in that succeeds, with its cookies.
abbrev pub accepted : Host → Config → Bool → UserAuth → Bytes → ℕ → AuthResponse
accepted host cfg is_ssl request auth now = record {
  user = request.user;
  status = k_succeed;
  msg = none;
  cookies =
      cookie (codes "user") request.user is_ssl (host.http_time (expiry cfg now))
      ∷ cookie (codes "token") (host.base16_encode auth) is_ssl (host.http_time (expiry cfg now))
      ∷ [];
}

-- `random` is what `gnutls_rnd` gives for the token, if it does not fail.
unfoldable pub user_auth : Host → Config → Option Bytes → Bool → UserAuth → M (Reply AuthResponse)
unfolding authenticator_auth
user_auth host cfg random is_ssl request = run do
  verdict ← gets (authenticator_auth host cfg.authenticator request)
  unless_denied verdict
  found ← gets (Db.user_get_id request.user)
  user_id ←
      or_stop found
        (answered (denied (some (codes "2 internal error, please contact your administrator"))))
  auth ←
      or_stop random
        (answered (denied (some (codes "internal error, please contact your administrator"))))
  now ← clock
  code ← lift (step (insert_auth (to_int user_id) (host.base16_encode auth) now))
  unless_ok (is_done code)
      (denied (some (codes "3 internal error, please contact your administrator")))
  answer (accepted host cfg is_ssl request auth now)
