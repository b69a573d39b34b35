-- ===== src/Shell/Acl.antt =====
-- What scissy-shell lets a user do, together with the server.
use scissy.Base.{
  ℕ, ◌≤◌, ◌≡◌, sym, ◌∙◌, ◌⊎◌, ◌↔◌, inl, inr, Bool, true, ◌&&◌, ◌||◌, Option, none, some, ◌==◌,
  arith, if◌then◌else◌, Option-cases,
}
use scissy.Base.Bytes.{Bytes}
use scissy.Pb.{ShellControl}
use scissy.Host.{Host}
use scissy.Config.{Config}
use scissy.Schema.{Database}
use scissy.Schema.Valid.{IsValid}
use scissy.Db.{repo_get_id, user_is_admin, repo_get_user_role, repo_is_public}
use scissy.Db.Granted.{Grants, Grants-is_valid, repo_get_user_role-IsGreatest}
use scissy.Repositories.{get_repo_path}
use scissy.Service.Shell.{shell_control, or_false, or_none}
use scissy.Shell.{Action, git_upload_pack, git_receive_pack, git_upload_archive, is_read, check_acl}

-- The least role that an action wants.
abbrev pub wanted : Action → ℕ
wanted git_receive_pack = 2
wanted _ = 1

-- Who may do what on a repository.
pub data MayDo (d : Database) (p u : ℕ) (action : Action) : Type 0 where
  as_admin : user_is_admin u d ≡ some true → MayDo d p u action
  in_public : is_read action ≡ true → repo_is_public p d ≡ some true → MayDo d p u action
  by_role : (n : ℕ) → Grants d p u n → wanted action ≤ n → MayDo d p u action

-- The tests of `checkAcl` on an answered response.
abbrev admits : Action → Bool → Bool → ℕ → Bool
admits action is_admin is_public role =
    is_admin || (is_read action && (is_public || role == 1) || (role == 2 || role == 3))

-- The tests read as reasons.
abbrev Reason : Action → Bool → Bool → ℕ → Type 0
Reason action is_admin is_public role =
    (is_admin ≡ true)
    ⊎ (((is_read action ≡ true) × (is_public ≡ true)) ⊎ ((1 ≤ role) × (wanted action ≤ role)))

admits-Reason :
    (action : Action) (is_admin is_public : Bool) (role : ℕ)
    → role ≤ 3
    → (admits action is_admin is_public role ≡ true) ↔ Reason action is_admin is_public role
admits-Reason git_upload_pack a p r h = (λ e. ground arith, λ e. ground arith)
admits-Reason git_receive_pack a p r h = (λ e. ground arith, λ e. ground arith)
admits-Reason git_upload_archive a p r h = (λ e. ground arith, λ e. ground arith)

or_false-true : (o : Option Bool) → (or_false o ≡ true) ↔ (o ≡ some true)
or_false-true o = (λ h. ground arith, λ h. ground arith)

or_none-eq : (r : Bool × ℕ) → r.0 ≡ true → or_none r ≡ r.1
or_none-eq (ok, role) h = ground arith

wanted_pos : (action : Action) → 1 ≤ wanted action
wanted_pos git_upload_pack = omega arith
wanted_pos git_receive_pack = omega arith
wanted_pos git_upload_archive = omega arith

-- The answer to the tests, over what the server sends.
abbrev granted : Database → ℕ → ℕ → Action → Bool
granted d p u action =
    admits action (or_false (user_is_admin u d)) (or_false (repo_is_public p d))
      (or_none (repo_get_user_role p u d))

module _ (d : Database) (p u : ℕ) (v : IsValid d) where
  role-Grants :
      (or_none (repo_get_user_role p u d) ≡ 0) ⊎ Grants d p u (or_none (repo_get_user_role p u d))
  role-Grants =
      let g = repo_get_user_role-IsGreatest d p u v in
      rw (or_none-eq (repo_get_user_role p u d) g.0) g.2

  role-ge : (n : ℕ) → Grants d p u n → n ≤ or_none (repo_get_user_role p u d)
  role-ge n h =
      let g = repo_get_user_role-IsGreatest d p u v in
      rw (or_none-eq (repo_get_user_role p u d) g.0) (g.1 n h)

  role-le : or_none (repo_get_user_role p u d) ≤ 3
  role-le = elim role-Grants [
    | inl e ↦ omega arith
    | inr g ↦ let k = Grants-is_valid d p u _ v g in ground arith
  ]

  Reason-MayDo :
      (action : Action)
      → Reason action
          (or_false (user_is_admin u d))
          (or_false (repo_is_public p d))
          (or_none (repo_get_user_role p u d))
      → MayDo d p u action
  Reason-MayDo action (inl a) = as_admin ((or_false-true _).0 a)
  Reason-MayDo action (inr (inl (r, q))) = in_public r ((or_false-true _).0 q)
  Reason-MayDo action (inr (inr (one, le))) = elim role-Grants [
    | inl e ↦ absurd (omega arith)
    | inr g ↦ by_role _ g le
  ]

  MayDo-Reason :
      (action : Action)
      → MayDo d p u action
      → Reason action
          (or_false (user_is_admin u d))
          (or_false (repo_is_public p d))
          (or_none (repo_get_user_role p u d))
  MayDo-Reason action (as_admin a) = inl ((or_false-true _).1 a)
  MayDo-Reason action (in_public r q) = inr (inl (r, (or_false-true _).1 q))
  MayDo-Reason action (by_role n g le) =
      inr (inr (omega (arith, role-ge n g, wanted_pos action), omega (arith, role-ge n g)))

  granted-MayDo : (action : Action) → (granted d p u action ≡ true) ↔ MayDo d p u action
  granted-MayDo action =
      let r =
        admits-Reason action (or_false (user_is_admin u d)) (or_false (repo_is_public p d)) _
          role-le in
      (λ h. Reason-MayDo action (r.0 h), λ m. r.1 (MayDo-Reason action m))

-- The response of `shellControl`, through `check_acl`.
check_acl-shell_control :
    (host : Host) (cfg : Config) (d : Database) (action : Action) (request : ShellControl) (p : ℕ)
    → repo_get_id request.repo_name d ≡ some p
    → check_acl action (some (shell_control host cfg request d))
      ≡ (if granted d p request.user_id action then some (get_repo_path host cfg p) else none)
unfolding check_acl shell_control
check_acl-shell_control host cfg d action request p e = rw e

shell_control_unknown :
    (host : Host) (cfg : Config) (d : Database) (action : Action) (request : ShellControl)
    → repo_get_id request.repo_name d ≡ none
    → check_acl action (some (shell_control host cfg request d)) ≡ none
unfolding check_acl shell_control
shell_control_unknown host cfg d action request e = rw e

module _ (host : Host) (cfg : Config) (d : Database) (v : IsValid d) (action : Action)
    (request : ShellControl) where
  -- Over a well-formed database, scissy-shell lets a user act on the repository of a name, with that
  -- repository's path, exactly if the user is an administrator, or the action reads and the repository
  -- is public, or the database grants the user a role there that is at least reader for an action that
  -- reads and at least writer for a push. It is never let act on a name that no repository has.
  pub check_acl-MayDo :
      (path : Bytes)
      → (check_acl action (some (shell_control host cfg request d)) ≡ some path) ↔ (
          (p : ℕ) × (repo_get_id request.repo_name d ≡ some p)
          × (path ≡ get_repo_path host cfg p)
          × MayDo d p request.user_id action)
  check_acl-MayDo path = (allowed (Option-cases (repo_get_id request.repo_name d)), λ r. back r)
    where
      back :
          ((p : ℕ) × (repo_get_id request.repo_name d ≡ some p)
            × (path ≡ get_repo_path host cfg p)
            × MayDo d p request.user_id action)
          → check_acl action (some (shell_control host cfg request d)) ≡ some path
      back (p, e, q, m) =
          let t = (granted-MayDo d p request.user_id v action).1 m in
          check_acl-shell_control host cfg d action request p e ∙ ground arith

      allowed :
          (repo_get_id request.repo_name d ≡ none)
            ⊎ ((p : ℕ) × (repo_get_id request.repo_name d ≡ some p))
          → check_acl action (some (shell_control host cfg request d)) ≡ some path
          → (p : ℕ) × (repo_get_id request.repo_name d ≡ some p)
            × (path ≡ get_repo_path host cfg p)
            × MayDo d p request.user_id action
      allowed (inl e) h = absurd (cc (sym h ∙ shell_control_unknown host cfg d action request e))
      allowed (inr (p, e)) h =
          let k = sym (check_acl-shell_control host cfg d action request p e) ∙ h in
          let t : granted d p request.user_id action ≡ true = ground arith in
          (p, e, ground arith, (granted-MayDo d p request.user_id v action).0 t)
