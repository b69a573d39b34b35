-- ===== src/Start.antt =====
-- scissy/main.cc: what the server does before it serves.
pub mod Serving
use scissy.Base.{
  ℕ, ◌≡◌, refl, sym, ap, ◌∙◌, inl, inr, Bool, true, false, not, ◌||◌, Option, none, some, List, [],
  ◌∷◌, ◌++◌, map, ◌==◌, arith, Bool-cases, Option-cases, if◌then◌else◌,
}
use scissy.Base.Bytes.{Bytes, codes, bytes_eq}
use scissy.Base.Rows.{All}
use scissy.Host.{Host}
use scissy.Config.{Config, Listen, is_ssl_enabled}
use scissy.World.{World, M}
use scissy.Keys.{gen_authorized_keys}

-- The handlers that paths are given to.
pub data Handler : Type 0 where
  fs : Bytes → Handler
  root logout api archive : Handler

-- The registrations, in order; how a pattern is matched is mimosa's.
unfoldable pub routes : Config → List (Bytes × Handler)
routes cfg =
    (codes "/css/*.css", fs cfg.css)
    ∷ (codes "/js/*", fs cfg.js)
    ∷ (codes "/vendor/*", fs cfg.vendor)
    ∷ (codes "/html/*", fs cfg.html)
    ∷ (codes "/", root)
    ∷ (codes "/logout", logout)
    ∷ (codes "/api/*", api)
    ∷ (codes "/repo/archive/*", archive)
    ∷ []

-- The file that `RootHandler` streams.
unfoldable pub root_page : Config → Bytes
root_page cfg = cfg.html ++ codes "/page.html"

-- A server that listens: the port, and the certificate and the key if it is secure. The address of the
-- configuration is not used.
pub record HttpServer : Type 0 where
  pub port : ℕ
  pub secure : Option (Bytes × Bytes)

unfoldable pub server_of : Listen → HttpServer
unfolding is_ssl_enabled
server_of l = record {
  port = l.port;
  secure = if is_ssl_enabled l then some (l.ssl_cert, l.ssl_key) else none;
}

-- The loop over the addresses to listen on; `listens` says which ports can be.
unfoldable pub listen_all : (ℕ → Bool) → List Listen → Option (List HttpServer)
unfolding server_of
listen_all listens [] = some []
listen_all listens (l ∷ ls) =
    let rest = listen_all listens ls in
    if listens l.port
    then elim rest [ none ↦ none | some servers ↦ some (server_of l ∷ servers) ]
    else none

unfoldable pub drops_privileges : Config → Bool
drops_privileges cfg = not (bytes_eq cfg.user []) || not (bytes_eq cfg.group [])

-- The threads that serve: one for each of the servers, and the main thread for the remote calls on the
-- socket. What `listenUnix` returns is ignored.
pub data Thread : Type 0 where
  http : HttpServer → Thread
  rpc : Bytes → Thread

unfoldable pub threads_of : Config → List HttpServer → List Thread
threads_of cfg servers = map http servers ++ rpc cfg.socket ∷ []

-- The end of `main`: it returns 1, or it serves in its threads, maybe as a user and a group that it
-- became.
pub data Started : Type 0 where
  failed : Started
  serving : List Thread → Bool → Started

-- `drop` says whether `mimosa::priviledgeDrop` succeeds.
unfoldable pub after_listen : Config → (Bytes → Bytes → Bool) → Option (List HttpServer) → Started
unfolding drops_privileges threads_of
after_listen cfg drop none = failed
after_listen cfg drop (some servers) =
    if drops_privileges cfg
    then if drop cfg.user cfg.group then serving (threads_of cfg servers) true else failed
    else serving (threads_of cfg servers) false

-- `user_version` is the database's.
unfoldable pub start : Host → Config → ℕ → (ℕ → Bool) → (Bytes → Bytes → Bool) → M Started
unfolding after_listen listen_all
start host cfg user_version listens drop w =
    if user_version == 2
    then (
      after_listen cfg drop (listen_all listens cfg.listens),
      (gen_authorized_keys host cfg w).1,
    )
    else (failed, w)

pub map-map : (ls : List Listen) → map http (map server_of ls) ≡ map (λ l. http (server_of l)) ls
map-map [] = refl
map-map (l ∷ ls) = ap (λ xs. http (server_of l) ∷ xs) (map-map ls)

pub listen_all-servers :
    (listens : ℕ → Bool) (ls : List Listen) (servers : List HttpServer)
    → listen_all listens ls ≡ some servers
    → (servers ≡ map server_of ls) × All (λ l. listens l.port ≡ true) ls
unfolding listen_all
listen_all-servers listens [] servers h = (cc, tt)
listen_all-servers listens (l ∷ ls) servers h = elim (Bool-cases (listens l.port)) [
  | inl t ↦ elim (Option-cases (listen_all listens ls)) [
    | inl e ↦ absurd (ground arith)
    | inr (rest, e) ↦
        let k = listen_all-servers listens ls rest e in
        let q : server_of l ∷ rest ≡ servers = ground arith in
        (sym q ∙ ap (λ x. server_of l ∷ x) k.0, (t, k.1))
  ]
  | inr f ↦ absurd (ground arith)
]

-- What a server that serves has been through.
pub started :
    (host : Host) (cfg : Config) (user_version : ℕ) (listens : ℕ → Bool)
    (drop : Bytes → Bytes → Bool) (w : World) (threads : List Thread) (dropped : Bool)
    → (start host cfg user_version listens drop w).0 ≡ serving threads dropped
    → (user_version ≡ 2)
      × ((start host cfg user_version listens drop w).1 ≡ (gen_authorized_keys host cfg w).1)
      × (threads ≡ map (λ l. http (server_of l)) cfg.listens ++ rpc cfg.socket ∷ [])
      × All (λ l. listens l.port ≡ true) cfg.listens
      × (dropped ≡ drops_privileges cfg)
unfolding start after_listen threads_of
started host cfg user_version listens drop w threads dropped h =
    elim (Bool-cases (user_version == 2)) [
      | inr f ↦ absurd (ground arith)
      | inl t ↦ elim (Option-cases (listen_all listens cfg.listens)) [
        | inl e ↦ absurd (ground arith)
        | inr (found, e) ↦
            let k = listen_all-servers listens cfg.listens found e in
            let same : map http found ++ rpc cfg.socket ∷ [] ≡ threads = ground arith in
            (
              ground arith,
              rw t refl,
              sym same ∙ rw (k.0, map-map cfg.listens) refl,
              k.1,
              ground arith,
            )
      ]
    ]
