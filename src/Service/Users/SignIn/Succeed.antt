-- ===== src/Service/Users/SignIn/Succeed.antt =====
-- When a sign-in succeeds.
use mathlib.Core.Bool.{false≢true}
use scissy.Base.{
  ℕ, ◌≡◌, ◌≢◌, ◌≤◌, ◌<◌, ◌^◌, refl, sym, ◌∙◌, inl, inr, Bool, true, false, Option, some, List, [],
  ◌∷◌, arith, Option-cases, ◌==◌,
}
use scissy.Base.Bytes.{Bytes, bytes_eq, bytes_eq_iff}
use scissy.Base.Rows.{any, first, All}
use scissy.Base.Rows.Member.{In, first-none, any-of-In, In-All, first-In}
use scissy.Pb.{UserAuth}
use scissy.Host.{Host}
use scissy.Config.{Config}
use scissy.Schema.{Database, is_done, User, UserAuthRow, has_user}
use scissy.Schema.Users.{insert_auth, same_auth}
use scissy.Schema.Valid.{IsValid, Given}
use scissy.World.{World, step, step-no_faults}
use scissy.Db.{user_get_id}
use scissy.Service.{answered, macros}
use scissy.Service.Users.Auth.{
  granted, authenticator_auth, unless_denied, to_int, accepted, user_auth,
}
use scissy.Service.Users.SignIn.{found, to_int-small}

account_of :
    (d : Database) (login : Bytes) (u : User)
    → In u d.users
    → u.login ≡ login
    → (id : ℕ) × (user_get_id login d ≡ some id) × (has_user d.users id ≡ true)
unfolding user_get_id has_user
account_of d login u i e = elim (Option-cases (first (λ r. bytes_eq r.login login) d.users)) [
  | inl n ↦ absurd (
      false≢true (
        sym (first-none (λ r. bytes_eq r.login login) d.users u n i)
        ∙ (bytes_eq_iff u.login login).1 e))
  | inr (u', n) ↦
      let (i', t) = first-In (λ r. bytes_eq r.login login) d.users u' n in
      (u'.user_id, rw n refl, any-of-In (λ r. r.user_id == u'.user_id) u' d.users i' (ground arith))
]

fresh_token :
    (rows : List UserAuthRow) (row : UserAuthRow)
    → All (λ r. r.token ≢ row.token) rows
    → any (λ r. same_auth r row) rows ≡ false
unfolding any
fresh_token [] row h = refl
fresh_token (r ∷ rows) row h =
    ground (arith, h.0, bytes_eq_iff r.token row.token, fresh_token rows row h.1)

insert_auth-done :
    (d : Database) (id : ℕ) (token : Bytes) (now : ℕ)
    → has_user d.users id ≡ true
    → All (λ r. r.token ≢ token) d.users_auths
    → is_done (insert_auth id token now d).0 ≡ true
unfolding insert_auth
insert_auth-done d id token now h fresh =
    let row : UserAuthRow = record { user_id = id; token = token; ts_start = now } in
    rw (h, fresh_token d.users_auths row fresh) refl

module _ (host : Host) (cfg : Config) (random : Option Bytes) (is_ssl : Bool) (request : UserAuth)
    (w : World) where
  stored_at :
      (id : ℕ) (auth : Bytes)
      → w.faults ≡ []
      → id < 2 ^ 31
      → has_user w.db.users id ≡ true
      → All (λ r. r.token ≢ host.base16_encode auth) w.db.users_auths
      → is_done (step (insert_auth (to_int id) (host.base16_encode auth) w.now) w).0 ≡ true
  stored_at id auth no_faults small h fresh =
      rw
        (
          (step-no_faults (insert_auth (to_int id) (host.base16_encode auth) w.now) w no_faults).0,
          to_int-small id small,
        )
        (insert_auth-done w.db id (host.base16_encode auth) w.now h fresh)

  -- Over a well-formed database that gave out fewer than 2^31 user ids, with no fault of the engine, a
  -- sign-in that the authenticator grants to a user of the database succeeds, if the random bytes are
  -- drawn and their token is not in use.
  pub user_auth_succeeds :
      (u : User) (auth : Bytes)
      → IsValid w.db
      → w.db.seq_users < 2 ^ 31
      → w.faults ≡ []
      → In u w.db.users
      → u.login ≡ request.user
      → authenticator_auth host cfg.authenticator request w.db ≡ granted
      → random ≡ some auth
      → All (λ r. r.token ≢ host.base16_encode auth) w.db.users_auths
      → (user_auth host cfg random is_ssl request w).0
        ≡ answered (accepted host cfg is_ssl request auth w.now)
  unfolding user_auth unless_denied macros
  user_auth_succeeds u auth v few no_faults i e checked drawn fresh =
      let (id, f, h) = account_of w.db request.user u i e in
      let (u', iu', el', ei') = found w.db request.user id f in
      let small : id ≤ w.db.seq_users =
        rw ei' at (In-All (λ r. Given w.db.seq_users r.user_id) u' w.db.users v.users.ids iu').1 in
      let s = stored_at id auth no_faults (omega arith) h fresh in rw (checked, f, drawn, s) refl
