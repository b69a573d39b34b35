-- ===== src/Service/Users/SignIn.antt =====
-- From a sign-in to the session of the requests that follow it.
pub mod Succeed
use mathlib.Core.Bool.{false≢true}
use scissy.Base.{
  ℕ, ◌≡◌, ◌≢◌, ◌≤◌, ◌<◌, ◌^◌, refl, sym, ◌∙◌, ap, ◌⊎◌, inl, inr, Bool, true, false, Option, some,
  List, [], ◌∷◌, ◌++◌, map, arith, Bool-cases, Option-cases, ◌==◌,
}
use scissy.Base.Bytes.{Bytes, codes, bytes_eq, bytes_eq_iff}
use scissy.Base.Rows.{any, first, All}
use scissy.Base.Rows.Member.{In, first-none, any-of-In, In-All, In-append_right, first-In}
use scissy.Pb.{k_succeed, k_failed, UserAuth}
use scissy.Host.{Host}
use scissy.Config.{Config}
use scissy.Schema.{picked_rowid, Database, Code, is_done, User, UserAuthRow, has_user}
use scissy.Schema.Users.{insert_auth, same_auth}
use scissy.Schema.Valid.{IsValid, Given}
use scissy.Schema.Valid.Users.{insert_auth-IsValid}
use scissy.World.{World, step, step_with, step-keeps, step-no_faults}
use scissy.Db.{user_get_id}
use scissy.Session.{SetCookie, Cookies, find_cookie, session}
use scissy.Session.Revoke.{Authenticates, by_token, signed_in, Decides, session-Decides, same_login}
use scissy.Session.Logout.{one_session}
use scissy.Service.{Reply, answered, macros}
use scissy.Service.Users.Auth.{
  AuthResponse, denied, Verdict, granted, refused, authenticator_auth, unless_denied, to_int,
  accepted, user_auth,
}

-- The cookies that a browser sends back.
abbrev pub sent_back : List SetCookie → Cookies
sent_back cookies = map (λ c. (c.key, c.value)) cookies

answered_injective : {r r' : AuthResponse} → answered r ≡ answered r' → r ≡ r'
answered_injective h = cc

Verdict-cases : (v : Verdict) → (v ≡ granted) ⊎ ((msg : Option Bytes) × (v ≡ refused msg))
Verdict-cases granted = inl refl
Verdict-cases (refused msg) = inr (msg, refl)

-- An authenticated session.
session-signed_in :
    (cookies : Cookies) (d : Database) (token : Bytes) (u : User)
    → IsValid d
    → Authenticates cookies d token u
    → session cookies d ≡ signed_in token u
session-signed_in cookies d token u v a = on (session-Decides cookies d) a
  where
    on :
        Decides cookies d (session cookies d)
        → Authenticates cookies d token u
        → session cookies d ≡ signed_in token u
    on (inr (e, n)) h = absurd (n token u h)
    on (inl (token', u', h', e)) h = e ∙ same h' h (one_session v h' h).1
      where
        same :
            Authenticates cookies d token' u'
            → Authenticates cookies d token u
            → token' ≡ token
            → signed_in token' u' ≡ signed_in token u
        same (by_token a' eu' et' iu' ia' ea' er') (by_token a eu et iu ia ea er) same_token =
            let el : u'.login ≡ u.login = ground arith in
            rw (same_login d u' u v iu' iu el, same_token) refl

-- A token that was saved.
saved :
    (w : World) (user_id : ℕ) (token : Bytes) (now : ℕ)
    → is_done (step (insert_auth user_id token now) w).0 ≡ true
    → (step (insert_auth user_id token now) w).1.db ≡ record (picked_rowid w.db) {
      users_auths =
          w.db.users_auths ++ record { user_id = user_id; token = token; ts_start = now } ∷ [];
    }
unfolding step step_with insert_auth
saved w user_id token now h = ground arith

module _ (host : Host) (cfg : Config) (random : Option Bytes) (is_ssl : Bool) (request : UserAuth)
    (w : World) where
  abbrev FailedWith : Reply AuthResponse → Type 0
  FailedWith reply = (resp : AuthResponse) × (reply ≡ answered resp) × (resp.status ≡ k_failed)

  abbrev insertion : ℕ → Bytes → Code × World
  insertion id auth = step (insert_auth (to_int id) (host.base16_encode auth) w.now) w

  -- What a sign-in went through that did not fail.
  record Accepted : Type 0 where
    checked : authenticator_auth host cfg.authenticator request w.db ≡ granted
    id : ℕ
    account : user_get_id request.user w.db ≡ some id
    auth : Bytes
    drawn : random ≡ some auth
    stored : is_done (insertion id auth).0 ≡ true
    result :
        user_auth host cfg random is_ssl request w
        ≡ (answered (accepted host cfg is_ssl request auth w.now), (insertion id auth).1)

  user_auth-cases : FailedWith (user_auth host cfg random is_ssl request w).0 ⊎ Accepted
  unfolding user_auth unless_denied macros
  user_auth-cases = elim (Verdict-cases (authenticator_auth host cfg.authenticator request w.db)) [
    | inr (msg, e) ↦ inl (denied msg, rw e refl, refl)
    | inl e ↦ elim (Option-cases (user_get_id request.user w.db)) [
      | inl f ↦ inl (
        denied (some (codes "2 internal error, please contact your administrator")),
        rw (e, f) refl,
        refl,
      )
      | inr (id, f) ↦ elim (Option-cases random) [
        | inl g ↦ inl (
          denied (some (codes "internal error, please contact your administrator")),
          rw (e, f, g) refl,
          refl,
        )
        | inr (auth, g) ↦ elim (Bool-cases (is_done (insertion id auth).0)) [
          | inr h ↦ inl (
            denied (some (codes "3 internal error, please contact your administrator")),
            rw (e, f, g, h) refl,
            refl,
          )
          | inl h ↦ inr (record {
            checked = e;
            id = id;
            account = f;
            auth = auth;
            drawn = g;
            stored = h;
            result = rw (e, f, g, h) refl;
          })
        ]
      ]
    ]
  ]

-- A row of a user, found by login.
pub found :
    (d : Database) (login : Bytes) (id : ℕ)
    → user_get_id login d ≡ some id
    → (u : User) × In u d.users × (u.login ≡ login) × (u.user_id ≡ id)
unfolding user_get_id
found d login id h = elim (Option-cases (first (λ r. bytes_eq r.login login) d.users)) [
  | inl e ↦ ground arith
  | inr (u, e) ↦
      let (i, t) = first-In (λ r. bytes_eq r.login login) d.users u e in
      (u, i, (bytes_eq_iff u.login login).0 t, ground arith)
]

pub to_int-small : (id : ℕ) → id < 2 ^ 31 → to_int id ≡ id
to_int-small id h = ground arith

module _ (host : Host) (cfg : Config) (random : Option Bytes) (is_ssl : Bool) (request : UserAuth)
    (w : World) (v : IsValid w.db) (few : w.db.seq_users < 2 ^ 31) where
  inserted-Authenticates :
      (id : ℕ) (auth : Bytes) (u : User)
      → In u w.db.users
      → u.login ≡ request.user
      → u.user_id ≡ id
      → is_done (step (insert_auth (to_int id) (host.base16_encode auth) w.now) w).0 ≡ true
      → Authenticates
          (sent_back (accepted host cfg is_ssl request auth w.now).cookies)
          (step (insert_auth (to_int id) (host.base16_encode auth) w.now) w).1.db
          (host.base16_encode auth)
          u
  unfolding find_cookie bytes_eq
  inserted-Authenticates id auth u iu el ei stored =
      let row : UserAuthRow = record {
        user_id = to_int id;
        token = host.base16_encode auth;
        ts_start = w.now;
      } in
      let small : id ≤ w.db.seq_users =
        rw ei at (In-All (λ r. Given w.db.seq_users r.user_id) u w.db.users v.users.ids iu).1 in
      rw (saved w (to_int id) (host.base16_encode auth) w.now stored) (
        by_token row (ap some (sym el)) refl iu
          (In-append_right row w.db.users_auths (row ∷ []) (inl refl))
          (to_int-small id (omega arith) ∙ sym ei) refl)

  -- Over a well-formed database that gave out fewer than 2^31 user ids, a sign-in that succeeds was
  -- granted by the authenticator, and the cookies that it sets, sent back, give the session of the
  -- user of that login, under the token that was drawn.
  pub session-user_auth :
      (resp : AuthResponse)
      → (user_auth host cfg random is_ssl request w).0 ≡ answered resp
      → resp.status ≡ k_succeed
      → (authenticator_auth host cfg.authenticator request w.db ≡ granted)
        × ((u : User) × (auth : Bytes) × In u w.db.users
            × (u.login ≡ request.user)
            × (random ≡ some auth)
            × (session (sent_back resp.cookies) (user_auth host cfg random is_ssl request w).1.db
                ≡ signed_in (host.base16_encode auth) u))
  session-user_auth resp h ok = elim (user_auth-cases host cfg random is_ssl request w) [
    | inl (r, e, bad) ↦ absurd cc
    | inr a ↦
        let (u, iu, el, ei) = found w.db request.user a.id a.account in
        let same : accepted host cfg is_ssl request a.auth w.now ≡ resp =
          answered_injective (sym (ap (λ p. p.0) a.result) ∙ h) in
        let k =
          session-signed_in _ _ (host.base16_encode a.auth) u
            (step-keeps IsValid _ w v (insert_auth-IsValid w.db v _ _ _))
            (inserted-Authenticates a.id a.auth u iu el ei a.stored) in
        (a.checked, (u, a.auth, iu, el, a.drawn, rw (← same, a.result) k))
  ]
