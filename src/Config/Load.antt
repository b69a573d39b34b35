-- ===== src/Config/Load.antt =====
-- scissy/config.cc: the configuration, from the message of scissy/config.proto that the file decodes
-- to; where the file is missing or does not decode, what is decoded is given all the same.
use scissy.Base.{
  ℕ, ◌%◌, ◌^◌, ◌<◌, Bool, false, Option, none, some, List, [], ◌∷◌, ◌++◌, map, get_or, arith,
  if◌then◌else◌,
}
use scissy.Base.Bytes.{Bytes, codes, bytes_eq}
use scissy.Base.Rows.{All}
use scissy.Config.{Config, Listen, AuthMethod, builtin, process}

-- Integers with a sign are patterns of 32 bits.
pub record ListenAddr : Type 0 where
  pub addr : Bytes
  pub port : ℕ
  pub ssl_key : Option Bytes
  pub ssl_cert : Option Bytes

pub record AuthProcess : Type 0 where
  pub program : Bytes
  pub env : List (Bytes × Bytes)
  pub args : List Bytes
  pub working_directory : Option Bytes

pub record Auth : Type 0 where
  pub method : Option AuthMethod
  pub process : Option AuthProcess

pub record PbConfig : Type 0 where
  pub repos_root : Option Bytes
  pub www_root : Option Bytes
  pub db : Option Bytes
  pub socket : Option Bytes
  pub crack_passwords : Option Bool
  pub clone_user : Option Bytes
  pub clone_host : Option Bytes
  pub listen : List ListenAddr
  pub authorized_keys : Option Bytes
  pub git_log_limit : Option ℕ
  pub user : Option Bytes
  pub group : Option Bytes
  pub cookie_duration : Option ℕ
  pub auth : Option Auth
  pub enable_register : Option Bool

-- The entry of the password file that `getpwent` gives.
pub record Passwd : Type 0 where
  pub name : Bytes
  pub dir : Bytes

-- The calls on `mimosa::ProcessConfig`, in order.
pub record ProcessConfig : Type 0 where
  pub executable : Bytes
  pub working_directory : Bytes
  pub env : List (Bytes × Bytes)
  pub args : List Bytes

-- What the authenticator is made of.
pub data Authenticator : Type 0 where
  builtin_authenticator : Authenticator
  process_authenticator : ProcessConfig → Authenticator

-- An entry with an empty key is skipped.
unfoldable pub set_env : List (Bytes × Bytes) → List (Bytes × Bytes)
set_env [] = []
set_env ((key, value) ∷ env) =
    let rest = set_env env in if bytes_eq key [] then rest else (key, value) ∷ rest

abbrev no_process : AuthProcess
no_process = record { program = []; env = []; args = []; working_directory = none }

unfoldable pub process_config : AuthProcess → ProcessConfig
unfolding set_env
process_config p = record {
  executable = p.program;
  working_directory = get_or p.working_directory [];
  env = set_env p.env;
  args = p.program ∷ p.args;
}

abbrev pub method_of : Option Auth → AuthMethod
method_of none = builtin
method_of (some auth) = get_or auth.method builtin

abbrev process_of : Option Auth → AuthProcess
process_of none = no_process
process_of (some auth) = get_or auth.process no_process

abbrev authenticator_for : AuthMethod → AuthProcess → Authenticator
authenticator_for builtin p = builtin_authenticator
authenticator_for process p = process_authenticator (process_config p)

unfoldable pub parse_auth : PbConfig → Authenticator
unfolding process_config
parse_auth cfg = authenticator_for (method_of cfg.auth) (process_of cfg.auth)

-- The port is cut to 16 bits.
unfoldable pub listen_of : ListenAddr → Listen
listen_of l = record {
  addr = l.addr;
  port = l.port % 2 ^ 16;
  ssl_key = get_or l.ssl_key [];
  ssl_cert = get_or l.ssl_cert [];
}

-- The constructor; `install` is the prefix that the build was configured with.
unfoldable pub load : Bytes → Passwd → PbConfig → Config
unfolding listen_of
load install pw cfg =
    let www = get_or cfg.www_root (install ++ codes "/share/scissy/www") in
    record {
      www = www;
      css = www ++ codes "/css";
      js = www ++ codes "/js";
      vendor = www ++ codes "/vendor";
      html = www ++ codes "/html";
      repos = get_or cfg.repos_root (codes "/var/lib/scissy");
      db = get_or cfg.db (codes "/var/lib/scissy/db.sqlite");
      auth_keys = get_or cfg.authorized_keys (pw.dir ++ codes "/.ssh/authorized_keys");
      socket = get_or cfg.socket (codes "/var/run/scissy/socket");
      crack_passwords = get_or cfg.crack_passwords false;
      clone_user = get_or cfg.clone_user pw.name;
      clone_host = get_or cfg.clone_host (codes "localhost");
      listens = map listen_of cfg.listen;
      git_log_limit = get_or cfg.git_log_limit 200;
      user = get_or cfg.user [];
      group = get_or cfg.group [];
      cookie_duration = get_or cfg.cookie_duration 7;
      authenticator = method_of cfg.auth;
      is_register_enabled = get_or cfg.enable_register false;
    }

-- A number of 32 bits, if it is there.
abbrev pub Fits : Option ℕ → Type 0
Fits none = Unit
Fits (some n) = n < 2 ^ 32

ports : (ls : List ListenAddr) → All (λ l. l.port < 2 ^ 16) (map listen_of ls)
unfolding listen_of
ports [] = tt
ports (l ∷ ls) = (omega arith, ports ls)

get_or-lt : (o : Option ℕ) (n : ℕ) → Fits o → n < 2 ^ 32 → get_or o n < 2 ^ 32
get_or-lt none n h k = k
get_or-lt (some m) n h k = h

-- Whatever the file holds, the ports that are listened on have 16 bits, and the limit of the log and
-- the cookies' duration, which the file gives in 32 bits, have 32.
pub load_bounds :
    (install : Bytes) (pw : Passwd) (cfg : PbConfig)
    → Fits cfg.git_log_limit
    → Fits cfg.cookie_duration
    → All (λ l. l.port < 2 ^ 16) (load install pw cfg).listens
      × ((load install pw cfg).git_log_limit < 2 ^ 32)
      × ((load install pw cfg).cookie_duration < 2 ^ 32)
unfolding load
load_bounds install pw cfg h k = (
  ports cfg.listen,
  get_or-lt cfg.git_log_limit 200 h (omega arith),
  get_or-lt cfg.cookie_duration 7 k (omega arith),
)
