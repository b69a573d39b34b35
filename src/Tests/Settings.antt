-- ===== src/Tests/Settings.antt =====
-- A configuration, and a start with it.
use scissy.Base.{◌↔◌, ℕ, ◌≡◌, refl, true, false, none, some, List, [], ◌∷◌, ◌++◌, map}
use scissy.Base.Bytes.{codes, bytes_eq}
use scissy.Base.Rows.{All}
use scissy.Config.{Config, is_ssl_enabled}
use scissy.Config.Load.{PbConfig, Passwd, load, listen_of}
use scissy.Keys.{authorized_keys_of, gen_authorized_keys}
use scissy.Server.{serve_all}
use scissy.Server.KeyFile.{serve_all-IsWritten}
use scissy.Start.{
  Thread, http, rpc, threads_of, server_of, listen_all, drops_privileges, after_listen, serving,
  start,
}
use scissy.Start.Serving.{expected_threads, Drops, start-serving}
use scissy.Tests.Sample.{host, requests, world, runs}

abbrev file : PbConfig
file = record {
  repos_root = none;
  www_root = some (codes "/www");
  db = none;
  socket = none;
  crack_passwords = none;
  clone_user = none;
  clone_host = none;
  listen = record { addr = codes "::"; port = 65616; ssl_key = none; ssl_cert = none } ∷ [];
  authorized_keys = none;
  git_log_limit = some 50;
  user = none;
  group = none;
  cookie_duration = none;
  auth = none;
  enable_register = none;
}

abbrev root : Passwd
root = record { name = codes "root"; dir = codes "/root" }

abbrev loaded : Config
loaded = load (codes "/usr") root file

port_cut : map (λ l. l.port) loaded.listens ≡ 80 ∷ []
unfolding load listen_of
port_cut = refl

abbrev served : List Thread
served = map (λ l. http (server_of l)) loaded.listens ++ rpc loaded.socket ∷ []

starts : (start host loaded 2 (λ port. true) (λ user group. false) world).0 ≡ serving served false
unfolding start after_listen threads_of listen_all server_of drops_privileges load listen_of
    is_ssl_enabled bytes_eq
starts = refl

start-serving_example :
    (start host loaded 2 (λ port. true) (λ user group. false) world
      ≡ (serving served false, (gen_authorized_keys host loaded world).1))
    ↔ ((◌≡◌ {A = ℕ} 2 2)
        × All (λ l. true ≡ true) loaded.listens
        × (served ≡ expected_threads loaded)
        × Drops loaded (λ user group. false) false)
start-serving_example =
    start-serving host loaded 2 (λ port. true) (λ user group. false) world served false

openable : world.key_file_faults ≡ []
unfolding runs
openable = refl

-- The requests of the sample, from the start on.
serve_all-IsWritten_example :
    (serve_all host loaded requests
      (start host loaded 2 (λ port. true) (λ user group. false) world).1).authorized_keys
    ≡ authorized_keys_of host loaded
        (serve_all host loaded requests
          (start host loaded 2 (λ port. true) (λ user group. false) world).1).db.users_ssh_keys
serve_all-IsWritten_example =
    serve_all-IsWritten host loaded 2 (λ port. true) (λ user group. false) world served false
      requests openable starts
