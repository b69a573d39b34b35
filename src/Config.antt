-- ===== src/Config.antt =====
-- scissy/config.hh: the configuration that the handlers read.
pub mod Load
use scissy.Base.{ℕ, Bool, not, ◌&&◌, List, []}
use scissy.Base.Bytes.{Bytes, bytes_eq}

pub record Listen : Type 0 where
  pub addr : Bytes
  pub port : ℕ
  pub ssl_key : Bytes
  pub ssl_cert : Bytes

unfoldable pub is_ssl_enabled : Listen → Bool
is_ssl_enabled l = not (bytes_eq l.ssl_key []) && not (bytes_eq l.ssl_cert [])

-- The classes behind `Authenticator`.
pub data AuthMethod : Type 0 where
  builtin process : AuthMethod

pub record Config : Type 0 where
  pub www : Bytes
  pub css : Bytes
  pub js : Bytes
  pub vendor : Bytes
  pub html : Bytes
  pub repos : Bytes
  pub db : Bytes
  pub auth_keys : Bytes
  pub socket : Bytes
  pub crack_passwords : Bool
  pub clone_user : Bytes
  pub clone_host : Bytes
  pub listens : List Listen
  pub git_log_limit : ℕ
  pub user : Bytes
  pub group : Bytes
  pub cookie_duration : ℕ
  pub authenticator : AuthMethod
  pub is_register_enabled : Bool
