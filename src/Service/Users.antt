-- ===== src/Service/Users.antt =====
-- scissy/service.cc, the handlers on users and their keys, and the authenticators behind `userAuth`.
pub mod Auth
pub mod SignIn
pub mod Register
use scissy.Base.{
  ℕ, Bool, true, false, not, ◌&&◌, ◌||◌, Option, none, some, List, [], ◌∷◌, String, leb, ltb, ◌==◌,
  ◌+◌, ◌++◌, ◌*◌, if◌then◌else◌, get_or, suc,
}
use scissy.Base.Bytes.{Bytes, codes, bytes_eq}
use scissy.Pb.{
  Status, k_succeed, k_failed, k_forbidden, k_not_found, StatusMsg, PbSession, UserCreate, SshKey,
}
use scissy.Host.{Host}
use scissy.Config.{Config}
use scissy.Schema.{Code, done, constraint, error, code_to_bool}
use scissy.Schema.Users.{insert_user, insert_ssh_key, delete_ssh_key}
use scissy.World.{World, M, step}
use scissy.Db
use scissy.Session.{Session}
use scissy.Keys.{gen_authorized_keys}
use scissy.Service.{
  unless_ok, unless_refused, Reply, answered, clock, proceed, Exec, ◌>>=◌, ◌>>◌, lift, gets,
  or_stop, stop_with, answer, run, status_msg, succeed, authenticate_user,
}

abbrev pub length : Bytes → ℕ
length [] = 0
length (c ∷ s) = suc (length s)

-- cracklib's objection, if it has one.
abbrev cracked : Option String → Option StatusMsg
cracked none = none
cracked (some errmsg) = some (status_msg k_failed errmsg)

-- What `userCheckPassword` sets the response to, if it returns false.
unfoldable pub user_check_password : Host → Config → Bytes → Option StatusMsg
user_check_password host cfg password =
    if ltb (length password) 5
    then some (status_msg k_failed "password too short (5 characters at least)")
    else if ltb 32 (length password)
    then some (status_msg k_failed "password too long (32 characters at most)")
    else if cfg.crack_passwords
    then cracked (host.fascist_check password)
    else none

abbrev within : ℕ → ℕ → ℕ → Bool
within lo hi c = leb lo c && leb c hi

-- `[[:alnum:]]`
abbrev is_alnum : ℕ → Bool
is_alnum c = within b'0' b'9' c || (within b'A' b'Z' c || within b'a' b'z' c)

-- `[-._a-zA-Z0-9]`
abbrev is_email_char : ℕ → Bool
is_email_char c = is_alnum c || (c == b'-' || (c == b'.' || c == b'_'))

-- One character or more of a class: `[...]+`.
unfoldable pub some_of : (ℕ → Bool) → Bytes → Bool
some_of p [] = false
some_of p (c ∷ []) = p c
some_of p (c ∷ d ∷ s) = p c && some_of p (d ∷ s)

-- `^[[:alnum:]]+$`
unfoldable pub login_match : Bytes → Bool
unfolding some_of
login_match login = some_of is_alnum login

-- `^[-._a-zA-Z0-9]+@[-._a-zA-Z0-9]+$`, on what is left after `local` was read.
unfoldable pub email_match_from : Bytes → Bytes → Bool
unfolding some_of
email_match_from local [] = false
email_match_from local (c ∷ s) =
    let rest = email_match_from (local ++ c ∷ []) s in
    if c == b'@' then some_of is_email_char local && some_of is_email_char s else rest

unfoldable pub email_match : Bytes → Bool
unfolding email_match_from
email_match email = email_match_from [] email

-- The guards at the head of `userCreate`, in order: the response of the first that fails.
unfoldable pub user_create_check : Host → Config → UserCreate → Option StatusMsg
unfolding user_check_password login_match email_match
user_create_check host cfg request =
    if not cfg.is_register_enabled
    then some (status_msg k_forbidden "registration disabled")
    else if ltb 64 (length request.user)
    then some (status_msg k_failed "login too long (64 characters at most)")
    else elim (user_check_password host cfg request.password) [
      | some refused ↦ some refused
      | none ↦
          if not (login_match request.user)
          then some (status_msg k_failed "login contains invalid characters")
          else if not (email_match request.email)
          then some (status_msg k_failed "invalid email")
          else none
    ]

-- The response to the code of the insertion.
unfoldable pub registered : Code → StatusMsg
registered done = succeed
registered constraint = status_msg k_failed "failed to register, try another username/email"
registered error = status_msg k_failed "failed to register, internal error"

abbrev pub hash_name : Bytes
hash_name = codes "SHA3-512"

-- `random` is what `gnutls_rnd` gives for the salt, if it does not fail.
unfoldable pub user_create : Host → Config → Option Bytes → UserCreate → M (Reply StatusMsg)
unfolding user_create_check registered
user_create host cfg random request = run do
  unless_refused (user_create_check host cfg request)
  salt ←
      or_stop random
        (answered (status_msg k_failed "internal error, please contact your administrator"))
  err ← lift (
      step (
        insert_user request.user request.email hash_name (host.base16_encode salt)
          (host.base16_encode (host.sha3_512 (salt ++ request.password)))))
  answer (registered err)

abbrev as_response : Option StatusMsg → Option (Option StatusMsg)
as_response none = none
as_response (some refused) = some (some refused)

-- What is left of `userSetPassword`: a user who may set the password gets a response with no status.
unfoldable pub user_set_password :
    Host → Config → Session → Bytes → Bytes → M (Reply (Option StatusMsg))
user_set_password host cfg s user new_password = run do
  unless_refused (as_response (user_check_password host cfg new_password))
  session ← authenticate_user s
  found ← gets (Db.user_get_id user)
  or_stop found (answered (some (record { status = k_not_found; msg = none })))
  if session.role == 3
      then answer none
      else answer (some (record { status = k_forbidden; msg = none }))

-- The code of the insertion is taken as a bool.
unfoldable pub user_add_ssh_key : Host → Config → Session → SshKey → M (Reply StatusMsg)
user_add_ssh_key host cfg s key = run do
  session ← authenticate_user s
  now ← clock
  code ← lift (step (insert_ssh_key session.user_id key.type key.key (get_or key.desc []) now))
  unless_ok (code_to_bool code) (status_msg k_failed "SQL error")
  lift (gen_authorized_keys host cfg)
  answer succeed

unfoldable pub user_remove_ssh_key : Host → Config → Session → SshKey → M (Reply StatusMsg)
user_remove_ssh_key host cfg s key = run do
  session ← authenticate_user s
  code ← lift (step (delete_ssh_key session.user_id (get_or key.key_id 0)))
  unless_ok (code_to_bool code) (status_msg k_failed "SQL error")
  lift (gen_authorized_keys host cfg)
  answer succeed
