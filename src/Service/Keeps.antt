-- ===== src/Service/Keeps.antt =====
-- Invariants of handlers: one rule for each way to build a handler.
use scissy.Base.{ℕ, Bool, true, false, Option, none, some, String, if◌then◌else◌}
use scissy.Pb.{Role, Status, Selector}
use scissy.Schema.{Database}
use scissy.World.{World, M}
use scissy.Session.{Session}
use scissy.Service.{
  Reply, Flow, next, stop, Exec, continue, ◌>>=◌, lift, gets, stop_with, or_stop, proceed, clock,
  unless_ok, unless_error, unless_refused, given, run, authenticate_user, set_grp_id, set_user_id,
  set_repo_id, role_at_least, check_repo_role,
}

module _ (P : World → Type 0) where
  -- `m` leaves a state with `P` if it finds one.
  pub record Keeps {R A : Type 0} (m : Exec R A) : Type 0 where
    pub at : (w : World) → P w → P (m w).1

  pub record KeepsM {A : Type 0} (m : M A) : Type 0 where
    pub at : (w : World) → P w → P (m w).1

module _ {P : World → Type 0} {R A : Type 0} where
  pub Keeps-lift : (m : M A) → KeepsM P m → Keeps P (lift {R = R} m)
  unfolding lift
  Keeps-lift m k = record { at = λ w h. k.at w h }

  pub Keeps-gets : (f : Database → A) → Keeps P (gets {R = R} f)
  unfolding gets
  Keeps-gets f = record { at = λ w h. h }

  pub Keeps-stop_with : (r : Reply R) → Keeps P (stop_with {A = A} r)
  unfolding stop_with
  Keeps-stop_with r = record { at = λ w h. h }

  pub Keeps-proceed : (a : A) → Keeps P (proceed {R = R} a)
  unfolding proceed
  Keeps-proceed a = record { at = λ w h. h }

  pub Keeps-or_stop : (o : Option A) (r : Reply R) → Keeps P (or_stop o r)
  unfolding or_stop
  Keeps-or_stop none r = record { at = λ w h. h }
  Keeps-or_stop (some a) r = record { at = λ w h. h }

  pub Keeps-given : (o : Option A) (m : Exec R A) → Keeps P m → Keeps P (given o m)
  unfolding given
  Keeps-given none m k = record { at = λ w h. k.at w h }
  Keeps-given (some a) m k = record { at = λ w h. h }

  pub Keeps-if : (b : Bool) (m n : Exec R A) → Keeps P m → Keeps P n → Keeps P (if b then m else n)
  Keeps-if true m n km kn = km
  Keeps-if false m n km kn = kn

module _ {P : World → Type 0} {R : Type 0} where
  pub Keeps-clock : Keeps P (clock {R = R})
  unfolding clock
  Keeps-clock = record { at = λ w h. h }

  pub Keeps-run : (m : Exec R R) → Keeps P m → KeepsM P (run m)
  Keeps-run m k = record { at = λ w h. k.at w h }

  pub Keeps-unless_ok : (b : Bool) (r : R) → Keeps P (unless_ok b r)
  unfolding unless_ok proceed stop_with
  Keeps-unless_ok true r = record { at = λ w h. h }
  Keeps-unless_ok false r = record { at = λ w h. h }

  pub Keeps-unless_error : (o : Option String) (r : String → R) → Keeps P (unless_error o r)
  unfolding unless_error proceed stop_with
  Keeps-unless_error none r = record { at = λ w h. h }
  Keeps-unless_error (some e) r = record { at = λ w h. h }

  pub Keeps-unless_refused : (o : Option R) → Keeps P (unless_refused o)
  unfolding unless_refused proceed stop_with
  Keeps-unless_refused none = record { at = λ w h. h }
  Keeps-unless_refused (some r) = record { at = λ w h. h }

module _ {P : World → Type 0} {R A B : Type 0} where
  Keeps-continue :
      (r : Flow R A) (f : A → Exec R B)
      → ((a : A) → Keeps P (f a))
      → (w : World) → P w
      → P (continue r f w).1
  Keeps-continue (next a) f k w h = (k a).at w h
  Keeps-continue (stop r) f k w h = h

  pub Keeps-bind :
      (m : Exec R A) (f : A → Exec R B) → Keeps P m → ((a : A) → Keeps P (f a)) → Keeps P (m >>= f)
  unfolding ◌>>=◌
  Keeps-bind m f km kf = record {
    at = λ w h. let (r, w') = m w in Keeps-continue r f kf w' (km.at w h);
  }

pub ruleset exec_rules = (
  Keeps-lift, Keeps-gets, Keeps-stop_with, Keeps-proceed, Keeps-or_stop, Keeps-if, Keeps-clock,
  Keeps-run, Keeps-unless_ok, Keeps-unless_error, Keeps-unless_refused, Keeps-given, Keeps-bind,
)

module _ {P : World → Type 0} {R : Type 0} where
  pub Keeps-authenticate_user : (s : Session) → Keeps P (authenticate_user {R = R} s)
  unfolding authenticate_user
  Keeps-authenticate_user s = search exec_rules

  pub Keeps-set_grp_id : (sel : Selector) → Keeps P (set_grp_id {R = R} sel)
  unfolding set_grp_id
  Keeps-set_grp_id sel = search exec_rules

  pub Keeps-set_user_id :
      (fail : Status → String → R) (sel : Selector) → Keeps P (set_user_id fail sel)
  unfolding set_user_id
  Keeps-set_user_id fail sel = search exec_rules

  pub Keeps-set_repo_id :
      (fail : Status → String → R) (sel : Selector) → Keeps P (set_repo_id fail sel)
  unfolding set_repo_id
  Keeps-set_repo_id fail sel = search exec_rules

  Keeps-role_at_least :
      (fail : Status → String → R) (found : Bool × ℕ) (required : Role)
      → Keeps P (role_at_least fail found required)
  unfolding role_at_least
  Keeps-role_at_least fail (false, role) required = search exec_rules
  Keeps-role_at_least fail (true, role) required = search exec_rules

  pub Keeps-check_repo_role :
      (fail : Status → String → R) (repo_id user_id : ℕ) (required : Role)
      → Keeps P (check_repo_role fail repo_id user_id required)
  unfolding check_repo_role
  Keeps-check_repo_role fail repo_id user_id required = search (exec_rules, Keeps-role_at_least)

pub ruleset keeps_rules = (
  exec_rules, Keeps-authenticate_user, Keeps-set_grp_id, Keeps-set_user_id, Keeps-set_repo_id,
  Keeps-check_repo_role,
)
