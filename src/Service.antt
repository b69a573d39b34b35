-- ===== src/Service.antt =====
-- scissy/service.cc: how a handler ends, and the macros at its head. A handler is an action that may
-- stop early, by one of the macros' `return` and `throw`; its state is that of `World`.
pub mod Keeps
pub mod Went
pub mod Users
pub mod Groups
pub mod Repos
pub mod Members
pub mod Shell
pub mod View
use scissy.Base.{ℕ, Bool, true, false, Option, none, some, String, ltb, if◌then◌else◌}
use scissy.Base.Bytes.{Bytes}
use scissy.Pb.{
  Status, k_failed, k_invalid_session, k_insufficient_right, k_not_found, Role, k_reader, role_id,
  StatusMsg, PbSession, Selector,
}
use scissy.Schema.{Database}
use scissy.World.{World, M}
use scissy.Db.{group_get_id, user_get_id, repo_get_id, repo_get_user_role, repo_is_public}
use scissy.Session.{Session}

-- `answered r` is `return true` with the response `r`, `aborted r` is `return false` with it, and
-- `thrown` is the exception of `throwStatusMsg`.
pub data Reply {ℓ} (R : Type ℓ) : Type ℓ where
  answered : R → Reply R
  aborted : R → Reply R
  thrown : Status → String → Reply R

pub data Flow {ℓ κ} (R : Type ℓ) (A : Type κ) : Type (ℓ ⊔ κ) where
  next : A → Flow R A
  stop : Reply R → Flow R A

abbrev pub Exec {ℓ κ} : Type ℓ → Type κ → Type (ℓ ⊔ κ)
Exec R A = World → Flow R A × World

module _ {R A B : Type 0} where
  abbrev pub continue : Flow R A → (A → Exec R B) → Exec R B
  continue (next a) f w = f a w
  continue (stop r) f w = (stop r, w)

  infixl 5 ◌>>=◌ ◌>>◌
  unfoldable pub ◌>>=◌ : Exec R A → (A → Exec R B) → Exec R B
  ◌>>=◌ m f w = let (r, w') = m w in continue r f w'

  abbrev pub ◌>>◌ : Exec R A → Exec R B → Exec R B
  m >> k = m >>= λ _. k

-- The time of the request.
unfoldable pub clock : {R : Type 0} → Exec R ℕ
clock w = (next w.now, w)

module _ {R A : Type 0} where
  unfoldable pub lift : M A → Exec R A
  lift m w = let (a, w') = m w in (next a, w')

  unfoldable pub gets : (Database → A) → Exec R A
  gets f w = (next (f w.db), w)

  unfoldable pub stop_with : Reply R → Exec R A
  stop_with r w = (stop r, w)

  -- The value, or the end of the handler.
  unfoldable pub or_stop : Option A → Reply R → Exec R A
  or_stop (some a) r w = (next a, w)
  or_stop none r w = (stop r, w)

  -- Skips the action if the value is there.
  unfoldable pub given : Option A → Exec R A → Exec R A
  given (some a) m w = (next a, w)
  given none m w = m w

  -- On with a value.
  unfoldable pub proceed : A → Exec R A
  proceed a w = (next a, w)

-- How the body ends: `return true`.
abbrev pub answer : {R : Type 0} → R → Exec R R
answer r = proceed r

abbrev pub reply_of : {R : Type 0} → Flow R R → Reply R
reply_of (next r) = answered r
reply_of (stop r) = r

-- Stops with a failure if the test fails.
unfoldable pub unless_ok : {R : Type 0} → Bool → R → Exec R (Unit {0})
unless_ok true r = proceed tt
unless_ok false r = stop_with (answered r)

-- `*err` of a callee that returned false.
unfoldable pub unless_error : {R : Type 0} → Option String → (String → R) → Exec R (Unit {0})
unless_error none r = proceed tt
unless_error (some e) r = stop_with (answered (r e))

-- Stops with a response that is there.
unfoldable pub unless_refused : {R : Type 0} → Option R → Exec R (Unit {0})
unless_refused none = proceed tt
unless_refused (some refused) = stop_with (answered refused)

-- A handler, as the server calls it.
abbrev pub run : {R : Type 0} → Exec R R → M (Reply R)
run m w = let (r, w') = m w in (reply_of r, w')

-- The static `userGetSession`: it always succeeds.
unfoldable pub user_get_session : Session → Option PbSession
user_get_session s = some (record { user = s.user; user_id = s.user_id; role = s.role })

abbrev pub status_msg : Status → String → StatusMsg
status_msg st m = record { status = st; msg = some m }

abbrev pub succeed : StatusMsg
succeed = record { status = Status.k_succeed; msg = none }

module _ {R : Type 0} where
  -- `AUTHENTICATE_USER`
  unfoldable pub authenticate_user : Session → Exec R PbSession
  authenticate_user s = or_stop (user_get_session s) (thrown k_invalid_session "invalid session")

  -- `SET_GRP_ID`
  unfoldable pub set_grp_id : Selector → Exec R ℕ
  set_grp_id sel = given sel.id do
    grp ← or_stop sel.name (thrown k_failed "need to specify grp or grp_id")
    id ← gets (group_get_id grp)
    or_stop id (thrown k_not_found "group not found")

  -- The responses of the macros below differ in type: `fail` builds one from a status and a message.
  module _ (fail : Status → String → R) where
    -- `SET_USER_ID`
    unfoldable pub set_user_id : Selector → Exec R ℕ
    set_user_id sel = given sel.id do
      user ← or_stop sel.name (answered (fail k_failed "need to specify user or user_id"))
      id ← gets (user_get_id user)
      or_stop id (answered (fail k_not_found "user not found"))

    -- `SET_REPO_ID`
    unfoldable pub set_repo_id : Selector → Exec R ℕ
    set_repo_id sel = given sel.id do
      repo ← or_stop sel.name (answered (fail k_failed "need to specify repo or repo_id"))
      id ← gets (repo_get_id repo)
      or_stop id (answered (fail k_not_found "repository not found"))

    unfoldable pub role_at_least : Bool × ℕ → Role → Exec R (Unit {0})
    role_at_least (false, role) required = stop_with (aborted (fail k_failed "database error"))
    role_at_least (true, role) required =
        if ltb role (role_id required)
        then stop_with (answered (fail k_insufficient_right "insufficient rights"))
        else proceed tt

    -- `CHECK_REPO_ROLE`
    unfoldable pub check_repo_role : ℕ → ℕ → Role → Exec R (Unit {0})
    check_repo_role repo_id user_id required = do
      found ← gets (repo_get_user_role repo_id user_id)
      role_at_least found required

    -- `CHECK_PUBLIC_REPO`, with the id that it settles
    unfoldable pub check_public_repo : Session → Selector → Exec R ℕ
    check_public_repo s sel = do
      repo_id ← set_repo_id sel
      found ← gets (repo_is_public repo_id)
      is_public ← or_stop found (answered (fail k_not_found "repository not found"))
      if is_public then proceed repo_id else do
        session ← authenticate_user s
        check_repo_role repo_id session.user_id k_reader
        proceed repo_id

-- What a handler's head consists of: a proof that computes with it unfolds this name.
unfoldable pub macros : Unit {0}
unfolding ◌>>=◌ lift gets stop_with or_stop given proceed user_get_session authenticate_user
    set_grp_id set_user_id set_repo_id role_at_least check_repo_role clock unless_ok unless_error
    unless_refused
macros = tt
