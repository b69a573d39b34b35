-- ===== src/Server/Members.antt =====
-- What a handler that answers with success has done to the members of a repository.
pub mod Remove
pub mod Join
pub mod Leave
pub mod Share
pub mod Clients
use scissy.Base.{
  ℕ, ◌≡◌, ◌≢◌, refl, sym, ◌∙◌, inl, inr, Bool, true, false, Bool-cases, [], ◌∷◌, ◌++◌, String,
  arith, Option-cases,
}
use scissy.Base.Rows.Member.{In-append_right}
use scissy.Pb.{Role, role_id, StatusMsg, Selector, k_failed, RepoAddUser, k_owner}
use scissy.Schema.{RepoUser, is_done}
use scissy.Schema.Repos.{insert_repo_user}
use scissy.World.{World, M, step, step_with}
use scissy.Db
use scissy.Db.Granted.{Grants, direct}
use scissy.Session.{Session}
use scissy.Service.{
  Reply, answered, Exec, Flow, next, stop, ◌>>=◌, ◌>>◌, run, lift, unless_ok, status_msg, succeed,
  authenticate_user, set_repo_id, set_user_id, check_repo_role, macros, answer,
}
use scissy.Server.Authority.Reads.{
  Names, Reads, authenticate_user-Reads, set_repo_id-Reads, set_repo_id-Names, set_user_id-Reads,
  check_repo_role-Reads, unless_ok-Reads,
}
use scissy.Service.Members.{repo_add_user}

-- Where the action stops, the answer is no success, and it leaves the state as it is.
pub record Careful {A : Type 0} (m : Exec StatusMsg A) : Type 0 where
  pub at : (w : World) (r : Reply StatusMsg) → (m w).0 ≡ stop r → r ≢ answered succeed

-- The action went on with a value, in the state `w'`, to an answer of success.
pub record Went {A : Type 0} (m : Exec StatusMsg A) (f : A → Exec StatusMsg StatusMsg)
    (w w' : World) : Type 0 where
  pub value : A
  pub by : (m w).0 ≡ next value
  pub on : (run (m >>= f) w).1 ≡ (run (f value) w').1
  pub succeeds : (run (f value) w').0 ≡ answered succeed

module _ {A : Type 0} (m : Exec StatusMsg A) (f : A → Exec StatusMsg StatusMsg) (w w' : World) where
  pub bind-Went : Careful m → (m w).1 ≡ w' → (run (m >>= f) w).0 ≡ answered succeed → Went m f w w'
  unfolding ◌>>=◌
  bind-Went c q h = cases (m w).0 refl
    where
      cases : (r : Flow StatusMsg A) → (m w).0 ≡ r → Went m f w w'
      cases (next a) e = record {
        value = a;
        by = e;
        on = rw (e, q) refl;
        succeeds = sym (rw (e, q) refl) ∙ h;
      }
      cases (stop r) e = absurd (c.at w r e (sym (rw e refl) ∙ h))

pub authenticate_user-Careful : (s : Session) → Careful (authenticate_user s)
unfolding macros
authenticate_user-Careful s = record { at = λ w r e. cc }

pub set_repo_id-Careful : (sel : Selector) → Careful (set_repo_id status_msg sel)
unfolding macros
set_repo_id-Careful sel = record { at = λ w r e z. ground arith }

pub set_user_id-Careful : (sel : Selector) → Careful (set_user_id status_msg sel)
unfolding macros
set_user_id-Careful sel = record { at = λ w r e z. ground arith }

pub check_repo_role-Careful :
    (p u : ℕ) (required : Role) → Careful (check_repo_role status_msg p u required)
unfolding macros
check_repo_role-Careful p u required = record { at = λ w r e z. ground arith }

pub unless_ok-Careful :
    (b : Bool) (text : String) → Careful (unless_ok b (status_msg k_failed text))
unfolding macros
unless_ok-Careful b text = record { at = λ w r e z. ground arith }

pub set_user_id-Names :
    (sel : Selector) (w : World) (u : ℕ)
    → (set_user_id status_msg sel w).0 ≡ next u
    → Names Db.user_get_id sel w.db u
unfolding macros
set_user_id-Names sel w u e = elim (Option-cases sel.id) [
  | inr (i, ei) ↦ inl (ground arith)
  | inl ni ↦ elim (Option-cases sel.name) [
    | inl nn ↦ ground arith
    | inr (n, en) ↦ inr (ni, (n, en, ground arith))
  ]
]

-- A member that was added.
added_member :
    (w : World) (p u role : ℕ)
    → is_done (step (insert_repo_user p u role) w).0 ≡ true
    → (step (insert_repo_user p u role) w).1.db.repos_users
      ≡ w.db.repos_users ++ record { repo_id = p; user_id = u; role_id = role } ∷ []
unfolding step step_with insert_repo_user
added_member w p u role h = ground arith

inserted-Grants :
    (w : World) (p u : ℕ) (role : Role)
    → (Db.repo_add_user p u role w).0 ≡ true
    → Grants (Db.repo_add_user p u role w).1.db p u (role_id role)
unfolding Db.repo_add_user
inserted-Grants w p u role t =
    let row : RepoUser = record { repo_id = p; user_id = u; role_id = role_id role } in
    direct row
      (rw (added_member w p u (role_id role) t) (In-append_right row _ (row ∷ []) (inl refl))) refl
      refl refl

-- How the handlers end: with a change of the database.
abbrev pub ending : M Bool → String → Exec StatusMsg StatusMsg
ending m text = do ok ← lift m; unless_ok ok (status_msg k_failed text); answer succeed

not_succeed : {text : String} → answered (status_msg k_failed text) ≢ answered succeed
not_succeed h = cc

pub ending_succeeds :
    (m : M Bool) (text : String) (w : World)
    → (run (ending m text) w).0 ≡ answered succeed
    → ((m w).0 ≡ true) × ((run (ending m text) w).1 ≡ (m w).1)
unfolding macros
ending_succeeds m text w h = elim (Bool-cases (m w).0) [
  | inl t ↦ (t, rw t refl)
  | inr f ↦ absurd (not_succeed (rw f at h))
]

module _ (s : Session) (sel : Selector) (look : Exec StatusMsg ℕ)
    (body : ℕ → ℕ → Exec StatusMsg StatusMsg) (w : World) where
  -- How the handlers on a repository's members begin: `look` settles the other party.
  abbrev owner_handler : Exec StatusMsg StatusMsg
  owner_handler = do
    session ← authenticate_user s
    repo_id ← set_repo_id status_msg sel
    other ← look
    check_repo_role status_msg repo_id session.user_id k_owner
    body repo_id other

  -- What it came to, if it was answered with success.
  pub record Passed : Type 0 where
    pub repo_id : ℕ
    pub other : ℕ
    pub named : Names Db.repo_get_id sel w.db repo_id
    pub found : (look w).0 ≡ next other
    pub on : (run owner_handler w).1 ≡ (run (body repo_id other) w).1
    pub succeeds : (run (body repo_id other) w).0 ≡ answered succeed

  pub owner_handler-Passed :
      Careful look → Reads look → (run owner_handler w).0 ≡ answered succeed → Passed
  owner_handler-Passed careful reads h =
      let g1 =
        bind-Went _ _ w w (authenticate_user-Careful s) ((authenticate_user-Reads s).at w) h in
      let g2 =
        bind-Went _ _ w w (set_repo_id-Careful sel) ((set_repo_id-Reads status_msg sel).at w)
          g1.succeeds in
      let g3 = bind-Went _ _ w w careful (reads.at w) g2.succeeds in
      let g4 =
        bind-Went _ _ w w (check_repo_role-Careful g2.value g1.value.user_id k_owner)
          ((check_repo_role-Reads status_msg g2.value g1.value.user_id k_owner).at w) g3.succeeds in
      record {
        repo_id = g2.value;
        other = g3.value;
        named = set_repo_id-Names status_msg sel w g2.value g2.by;
        found = g3.by;
        on = g1.on ∙ g2.on ∙ g3.on ∙ g4.on;
        succeeds = g4.succeeds;
      }

-- When `repoAddUser` answers with success, the user that the request names is granted the role that
-- it names on the repository that it names.
pub repo_add_user-Grants :
    (s : Session) (r : RepoAddUser) (w : World)
    → (repo_add_user s r w).0 ≡ answered succeed
    → (p u : ℕ) × Names Db.repo_get_id r.repo w.db p
      × Names Db.user_get_id r.user w.db u
      × Grants (repo_add_user s r w).1.db p u (role_id r.role)
unfolding repo_add_user
repo_add_user-Grants s r w h =
    let k =
      owner_handler-Passed s r.repo (set_user_id status_msg r.user)
        (λ p u. ending (Db.repo_add_user p u r.role) "") w (set_user_id-Careful r.user)
        (set_user_id-Reads status_msg r.user) h in
    let (t, e) = ending_succeeds (Db.repo_add_user k.repo_id k.other r.role) "" w k.succeeds in
    (
      k.repo_id,
      k.other,
      k.named,
      set_user_id-Names r.user w k.other k.found,
      rw (k.on ∙ e) (inserted-Grants w k.repo_id k.other r.role t),
    )
