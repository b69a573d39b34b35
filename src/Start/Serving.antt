-- ===== src/Start/Serving.antt =====
-- scissy/main.cc: when the server comes to serve, and in which threads.
use mathlib.Core.Bool.{false≢true}
use scissy.Base.{
  ℕ, ◌≡◌, ◌≢◌, ◌↔◌, ◌⊎◌, refl, sym, ap, ◌∙◌, inl, inr, Bool, true, false, not, ◌&&◌, ◌||◌, Option,
  none, some, List, [], ◌∷◌, ◌++◌, map, ◌==◌, arith, Bool-cases, Option-cases, if◌then◌else◌,
}
use scissy.Base.Bytes.{Bytes, bytes_eq}
use scissy.Base.Rows.{All}
use scissy.Host.{Host}
use scissy.Config.{Config, Listen, is_ssl_enabled}
use scissy.World.{World}
use scissy.Keys.{gen_authorized_keys}
use scissy.Start.{
  HttpServer, Thread, http, rpc, server_of, listen_all, drops_privileges, threads_of, serving,
  after_listen, start, map-map, listen_all-servers,
}

-- The certificate and the key, if both are given.
abbrev pub both : Bytes → Bytes → Option (Bytes × Bytes)
both [] key = none
both (c ∷ cert) [] = none
both (c ∷ cert) (k ∷ key) = some (c ∷ cert, k ∷ key)

abbrev on_port : ℕ → Option (Bytes × Bytes) → Thread
on_port port secure = http (record { port = port; secure = secure })

abbrev pub expected_threads : Config → List Thread
expected_threads cfg =
    map (λ l. on_port l.port (both l.ssl_cert l.ssl_key)) cfg.listens ++ rpc cfg.socket ∷ []

-- The server becomes another user if the configuration names a user or a group, and can.
abbrev pub Drops : Config → (Bytes → Bytes → Bool) → Bool → Type 0
Drops cfg drop true = (cfg.user ≢ [] ⊎ cfg.group ≢ []) × (drop cfg.user cfg.group ≡ true)
Drops cfg drop false = (cfg.user ≡ []) × (cfg.group ≡ [])

if-both :
    (cert key : Bytes)
    → (if not (bytes_eq key []) && not (bytes_eq cert []) then some (cert, key) else none)
      ≡ both cert key
unfolding bytes_eq
if-both [] [] = refl
if-both [] (k ∷ key) = refl
if-both (c ∷ cert) [] = refl
if-both (c ∷ cert) (k ∷ key) = refl

threads-both :
    (ls : List Listen)
    → map (λ l. http (server_of l)) ls ≡ map (λ l. on_port l.port (both l.ssl_cert l.ssl_key)) ls
unfolding server_of is_ssl_enabled
threads-both [] = refl
threads-both (l ∷ ls) =
    ap (λ t. on_port l.port t ∷ map (λ l. http (server_of l)) ls) (if-both l.ssl_cert l.ssl_key)
    ∙ ap (λ ts. on_port l.port (both l.ssl_cert l.ssl_key) ∷ ts) (threads-both ls)

-- The test that `drops_privileges` makes.
abbrev is_named : Bytes → Bytes → Bool
is_named user group = not (bytes_eq user []) || not (bytes_eq group [])

named_true : (user group : Bytes) → is_named user group ≡ true → user ≢ [] ⊎ group ≢ []
unfolding bytes_eq
named_true [] [] h = absurd (false≢true h)
named_true [] (c ∷ group) h = inr (λ e. cc e)
named_true (c ∷ user) group h = inl (λ e. cc e)

true_named : (user group : Bytes) → user ≢ [] ⊎ group ≢ [] → is_named user group ≡ true
unfolding bytes_eq
true_named [] [] (inl n) = absurd (n refl)
true_named [] [] (inr n) = absurd (n refl)
true_named [] (c ∷ group) h = refl
true_named (c ∷ user) group h = refl

named_false : (user group : Bytes) → is_named user group ≡ false → (user ≡ []) × (group ≡ [])
unfolding bytes_eq
named_false [] [] h = (refl, refl)
named_false [] (c ∷ group) h = absurd (false≢true (sym h))
named_false (c ∷ user) group h = absurd (false≢true (sym h))

module _ (cfg : Config) (drop : Bytes → Bytes → Bool) (servers : List HttpServer) where
  after_listen-Drops :
      (threads : List Thread) (dropped : Bool)
      → after_listen cfg drop (some servers) ≡ serving threads dropped
      → (threads ≡ threads_of cfg servers) × Drops cfg drop dropped
  unfolding after_listen drops_privileges
  after_listen-Drops threads true h = elim (Bool-cases (is_named cfg.user cfg.group)) [
    | inl t ↦ elim (Bool-cases (drop cfg.user cfg.group)) [
      | inl d ↦ (ground arith, (named_true cfg.user cfg.group t, d))
      | inr f ↦ absurd (ground arith)
    ]
    | inr f ↦ absurd (ground arith)
  ]
  after_listen-Drops threads false h = elim (Bool-cases (is_named cfg.user cfg.group)) [
    | inl t ↦ elim (Bool-cases (drop cfg.user cfg.group)) [
      | inl d ↦ absurd (ground arith)
      | inr f ↦ absurd (ground arith)
    ]
    | inr f ↦ (ground arith, named_false cfg.user cfg.group f)
  ]

  Drops-after_listen :
      (dropped : Bool)
      → Drops cfg drop dropped
      → after_listen cfg drop (some servers) ≡ serving (threads_of cfg servers) dropped
  unfolding after_listen drops_privileges bytes_eq
  Drops-after_listen true (n, d) = rw (true_named cfg.user cfg.group n, d) refl
  Drops-after_listen false (u, g) = rw (u, g) refl

listen_all-every :
    (listens : ℕ → Bool) (ls : List Listen)
    → All (λ l. listens l.port ≡ true) ls
    → listen_all listens ls ≡ some (map server_of ls)
unfolding listen_all
listen_all-every listens [] h = refl
listen_all-every listens (l ∷ ls) h = rw (h.0, listen_all-every listens ls h.1) refl

threads_of-expected :
    (cfg : Config) → threads_of cfg (map server_of cfg.listens) ≡ expected_threads cfg
unfolding threads_of
threads_of-expected cfg =
    ap (λ ts. ts ++ rpc cfg.socket ∷ []) (map-map cfg.listens ∙ threads-both cfg.listens)

module _ (host : Host) (cfg : Config) (user_version : ℕ) (listens : ℕ → Bool)
    (drop : Bytes → Bytes → Bool) (w : World) (threads : List Thread) (dropped : Bool) where
  abbrev WillServe : Type 0
  WillServe =
      (user_version ≡ 2)
      × All (λ l. listens l.port ≡ true) cfg.listens
      × (threads ≡ expected_threads cfg)
      × Drops cfg drop dropped

  abbrev Serves : Type 0
  Serves =
      start host cfg user_version listens drop w
      ≡ (serving threads dropped, (gen_authorized_keys host cfg w).1)

  Serves-WillServe : Serves → WillServe
  unfolding start
  Serves-WillServe h = elim (Bool-cases (user_version == 2)) [
    | inr f ↦ absurd (ground arith)
    | inl t ↦ elim (Option-cases (listen_all listens cfg.listens)) [
      | inl e ↦ unfold after_listen in absurd (ground arith)
      | inr (found, e) ↦
          let k = listen_all-servers listens cfg.listens found e in
          let q : after_listen cfg drop (some found) ≡ serving threads dropped =
            ap (after_listen cfg drop) (sym e) ∙ ap (λ x. x.0) (rw t at h) in
          let a = after_listen-Drops cfg drop found threads dropped q in
          (ground arith, k.1, a.0 ∙ ap (threads_of cfg) k.0 ∙ threads_of-expected cfg, a.1)
    ]
  ]

  WillServe-Serves : WillServe → Serves
  unfolding start
  WillServe-Serves (v, all, e, d) =
      rw
        (
          v,
          listen_all-every listens cfg.listens all,
          Drops-after_listen cfg drop (map server_of cfg.listens) dropped d,
          threads_of-expected cfg,
          e,
        )
        refl

  -- The server comes to serve, once the file of authorized keys was to be written from the database,
  -- exactly if the database is of version 2, every port of the configuration can be listened on, and,
  -- if the configuration names a user or a group, the server can become it, which it then does. It
  -- serves in one thread for each address of the configuration, in order, on its port and secure
  -- exactly where both a certificate and a key are given, and one for the remote calls on the socket.
  pub start-serving :
      (start host cfg user_version listens drop w
        ≡ (serving threads dropped, (gen_authorized_keys host cfg w).1))
      ↔ ((user_version ≡ 2)
          × All (λ l. listens l.port ≡ true) cfg.listens
          × (threads ≡ expected_threads cfg)
          × Drops cfg drop dropped)
  start-serving = (Serves-WillServe, WillServe-Serves)
