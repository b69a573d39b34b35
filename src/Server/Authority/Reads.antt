-- ===== src/Server/Authority/Reads.antt =====
-- The parts of the handlers that only read, and what they establish.
use scissy.Base.{
  ℕ, ◌≤◌, ◌≡◌, refl, sym, subst, ◌⊎◌, inl, inr, Bool, true, false, Option, none, some, String,
  arith, Option-cases,
}
use scissy.Base.Bytes.{Bytes}
use scissy.Pb.{Role, k_owner, Status, Selector, PbSession}
use scissy.Schema.{Database}
use scissy.Schema.Valid.{IsValid}
use scissy.World.{World}
use scissy.Db.{repo_get_user_role, repo_get_id, group_get_id}
use scissy.Db.Granted.{Grants, Grants-is_valid, repo_get_user_role-IsGreatest}
use scissy.Session.{Session}
use scissy.Service.{
  Exec, Flow, next, stop, continue, ◌>>=◌, gets, authenticate_user, set_repo_id, set_user_id,
  set_grp_id, check_repo_role, macros, unless_ok,
}

-- The repository, or the group, that a selector stands for.
abbrev pub Names : (Bytes → Database → Option ℕ) → Selector → Database → ℕ → Type 0
Names look_up sel d id =
    (sel.id ≡ some id)
    ⊎ ((sel.id ≡ none) × ((name : Bytes) × (sel.name ≡ some name) × (look_up name d ≡ some id)))

-- A selector stands for one of them at most.
pub Names_unique :
    (look_up : Bytes → Database → Option ℕ) (sel : Selector) (d : Database) (a b : ℕ)
    → Names look_up sel d a
    → Names look_up sel d b
    → a ≡ b
Names_unique look_up sel d a b (inl x) (inl y) = cc (x, y)
Names_unique look_up sel d a b (inl x) (inr (n, k)) = absurd (cc (x, n))
Names_unique look_up sel d a b (inr (n, k)) (inl y) = absurd (cc (y, n))
Names_unique look_up sel d a b (inr (n, (s, e, k))) (inr (n', (s', e', k'))) =
    let same : s ≡ s' = cc (e, e') in cc (k, k', same)

-- `m` leaves the state as it is unless `Q` holds.
abbrev pub OnlyIf : {R A : Type 0} → Type 0 → Exec R A → World → Type 0
OnlyIf Q m w = ((m w).1 ≡ w) ⊎ Q

pub record Reads {R A : Type 0} (m : Exec R A) : Type 0 where
  pub at : (w : World) → (m w).1 ≡ w

module _ {R A B : Type 0} (Q : Type 0) where
  continue-OnlyIf :
      (r : Flow R A) (f : A → Exec R B) (w : World)
      → ((a : A) → r ≡ next a → OnlyIf Q (f a) w)
      → ((continue r f w).1 ≡ w) ⊎ Q
  continue-OnlyIf (next a) f w k = k a refl
  continue-OnlyIf (stop r) f w k = inl refl

  -- After a part that reads.
  pub bind-OnlyIf :
      (m : Exec R A) (f : A → Exec R B) (w : World)
      → Reads m
      → ((a : A) → (m w).0 ≡ next a → OnlyIf Q (f a) w)
      → OnlyIf Q (m >>= f) w
  unfolding ◌>>=◌
  bind-OnlyIf m f w reads k =
      subst (λ w'. ((continue (m w).0 f w').1 ≡ w) ⊎ Q) (sym (reads.at w))
        (continue-OnlyIf (m w).0 f w k)

module _ {R : Type 0} where
  pub authenticate_user-Reads : (s : Session) → Reads (authenticate_user {R = R} s)
  unfolding macros
  authenticate_user-Reads s = record { at = λ w. refl }

  pub authenticate_user-user_id :
      (s : Session) (w : World) (session : PbSession)
      → (authenticate_user {R = R} s w).0 ≡ next session
      → (session.user_id ≡ s.user_id) × (session.role ≡ s.role)
  unfolding macros
  authenticate_user-user_id s w session e = (ground arith, ground arith)

  pub set_grp_id-Reads : (sel : Selector) → Reads (set_grp_id {R = R} sel)
  unfolding macros
  set_grp_id-Reads sel = record { at = λ w. ground arith }

  pub set_grp_id-Names :
      (sel : Selector) (w : World) (g : ℕ)
      → (set_grp_id {R = R} sel w).0 ≡ next g
      → Names group_get_id sel w.db g
  unfolding macros
  set_grp_id-Names sel w g e = elim (Option-cases sel.id) [
    | inr (i, ei) ↦ inl (ground arith)
    | inl ni ↦ elim (Option-cases sel.name) [
      | inl nn ↦ ground arith
      | inr (n, en) ↦ inr (ni, (n, en, ground arith))
    ]
  ]

  pub set_repo_id-Reads :
      (fail : Status → String → R) (sel : Selector) → Reads (set_repo_id fail sel)
  unfolding macros
  set_repo_id-Reads fail sel = record { at = λ w. ground arith }

  pub set_user_id-Reads :
      (fail : Status → String → R) (sel : Selector) → Reads (set_user_id fail sel)
  unfolding macros
  set_user_id-Reads fail sel = record { at = λ w. ground arith }

  pub set_repo_id-Names :
      (fail : Status → String → R) (sel : Selector) (w : World) (p : ℕ)
      → (set_repo_id fail sel w).0 ≡ next p
      → Names repo_get_id sel w.db p
  unfolding macros
  set_repo_id-Names fail sel w p e = elim (Option-cases sel.id) [
    | inr (i, ei) ↦ inl (ground arith)
    | inl ni ↦ elim (Option-cases sel.name) [
      | inl nn ↦ ground arith
      | inr (n, en) ↦ inr (ni, (n, en, ground arith))
    ]
  ]

  pub check_repo_role-Reads :
      (fail : Status → String → R) (p u : ℕ) (required : Role)
      → Reads (check_repo_role fail p u required)
  unfolding macros
  check_repo_role-Reads fail p u required = record { at = λ w. ground arith }

  -- The check for an owner passes only for one.
  pub check_repo_role-Grants :
      (fail : Status → String → R) (p u : ℕ) (w : World) (a : Unit {0})
      → IsValid w.db
      → (check_repo_role fail p u k_owner w).0 ≡ next a
      → Grants w.db p u 3
  unfolding macros
  check_repo_role-Grants fail p u w a v e =
      let g = repo_get_user_role-IsGreatest w.db p u v in
      let ge : 3 ≤ (repo_get_user_role p u w.db).1 = ground arith in
      elim g.2 [
        | inl z ↦ absurd (omega arith)
        | inr h ↦
            let valid = Grants-is_valid w.db p u _ v h in
            let three : (repo_get_user_role p u w.db).1 ≡ 3 = ground arith in rw three at h
      ]

  pub unless_ok-Reads : (b : Bool) (refusal : R) → Reads (unless_ok b refusal)
  unfolding macros
  unless_ok-Reads true refusal = record { at = λ w. refl }
  unless_ok-Reads false refusal = record { at = λ w. refl }

  pub gets-Reads : {A : Type 0} (f : Database → A) → Reads (gets {R = R} f)
  unfolding gets
  gets-Reads f = record { at = λ w. refl }

  -- A test that was read and passed.
  pub gets-true :
      (f : Database → Bool) (b : Bool) (refusal : R) (w : World) (a : Unit {0})
      → (gets {R = R} f w).0 ≡ next b
      → (unless_ok b refusal w).0 ≡ next a
      → f w.db ≡ true
  unfolding macros
  gets-true f b refusal w a e u = ground arith

pub same_target : {t sel : Selector} → some t ≡ some sel → t ≡ sel
same_target e = cc
