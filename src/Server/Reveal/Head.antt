-- ===== src/Server/Reveal/Head.antt =====
-- The head of the handlers on a part of a repository: `CHECK_PUBLIC_REPO`.
use scissy.Base.{
  ℕ, ◌≤◌, ◌≡◌, ◌≢◌, refl, sym, subst, ap, ◌∙◌, inl, inr, Bool, true, false, some, String, arith,
  ltb, if◌then◌else◌,
}
use scissy.Pb.{Status, Selector, Role, k_reader, role_id}
use scissy.Pb.View.{Answer, shown, refused}
use scissy.Schema.{Database}
use scissy.Schema.Valid.{IsValid}
use scissy.World.{World}
use scissy.Db.{repo_get_id, repo_get_user_role, repo_is_public}
use scissy.Db.Granted.{Grants, repo_get_user_role-IsGreatest}
use scissy.Session.{Session}
use scissy.Service.{
  Reply, answered, Exec, next, stop, reply_of, ◌>>=◌, ◌>>◌, proceed, authenticate_user,
  user_get_session, set_repo_id, role_at_least, check_repo_role, check_public_repo, macros,
}
use scissy.Service.View.{in_repo}
use scissy.Service.Went.{
  Careful, >>=-Careful, proceed-Careful, gets-Careful, or_stop-Careful, given-Careful, if-Careful,
  stop_with-Careful, bind-next, bind_stop, or_stop-next, gets-next, proceed-next, or_stop-Reads,
  Flow-cases,
}
use scissy.Server.Authority.Reads.{
  Names, authenticate_user-Reads, authenticate_user-user_id, set_repo_id-Reads, set_repo_id-Names,
  check_repo_role-Reads, gets-Reads,
}

-- The repository selected is public, or the session's user is granted a role on it that is at least a
-- reader's.
pub data MayReadId (s : Session) (d : Database) (p : ℕ) : Type 0 where
  public : repo_is_public p d ≡ some true → MayReadId s d p
  private : (n : ℕ) → Grants d p s.user_id n → 1 ≤ n → MayReadId s d p

abbrev pub MayRead : Session → Selector → Database → Type 0
MayRead s sel d = (p : ℕ) × Names repo_get_id sel d p × MayReadId s d p

pub check_public_repo-Reads :
    (A : Type 0) (s : Session) (sel : Selector) (w : World)
    → (check_public_repo {R = Answer A} refused s sel w).1 ≡ w
unfolding check_public_repo macros
check_public_repo-Reads A s sel w = ground arith

module _ {A : Type 0} where
  abbrev pub IsShown : Answer A → Type 0
  IsShown (shown a) = Unit
  IsShown (refused st m) = ⊥

  refusal : (st : Status) (m : String) → Answer A
  refusal st m = refused st m

  authenticate_user-Careful : (s : Session) → Careful IsShown (authenticate_user s)
  unfolding authenticate_user
  authenticate_user-Careful s = or_stop-Careful IsShown (user_get_session s) _ λ h. h

  set_repo_id-Careful : (sel : Selector) → Careful IsShown (set_repo_id refused sel)
  unfolding set_repo_id
  set_repo_id-Careful sel = given-Careful IsShown sel.id _ (
      >>=-Careful IsShown _ _ (or_stop-Careful IsShown sel.name _ λ h. h) λ name.
        >>=-Careful IsShown _ _ (gets-Careful IsShown (repo_get_id name))
          λ id. or_stop-Careful IsShown id _ λ h. h)

  role_at_least-Careful :
      (found : Bool × ℕ) (required : Role) → Careful IsShown (role_at_least refused found required)
  unfolding role_at_least
  role_at_least-Careful (false, role) required = stop_with-Careful IsShown _ λ h. h
  role_at_least-Careful (true, role) required =
      if-Careful IsShown (ltb role (role_id required)) _ _ (stop_with-Careful IsShown _ λ h. h)
        (proceed-Careful IsShown tt)

  check_repo_role-Careful :
      (p u : ℕ) (required : Role) → Careful IsShown (check_repo_role refused p u required)
  unfolding check_repo_role
  check_repo_role-Careful p u required =
      >>=-Careful IsShown _ _ (gets-Careful IsShown (repo_get_user_role p u))
        λ found. role_at_least-Careful found required

  pub check_public_repo-Careful :
      (s : Session) (sel : Selector) → Careful IsShown (check_public_repo refused s sel)
  unfolding check_public_repo
  check_public_repo-Careful s sel = >>=-Careful IsShown _ _ (set_repo_id-Careful sel) λ p.
      >>=-Careful IsShown _ _ (gets-Careful IsShown (repo_is_public p)) λ found.
        >>=-Careful IsShown _ _ (or_stop-Careful IsShown found _ λ h. h) λ is_public.
          if-Careful IsShown is_public _ _ (proceed-Careful IsShown p) (
            >>=-Careful IsShown _ _ (authenticate_user-Careful s) λ session.
              >>=-Careful IsShown _ _ (check_repo_role-Careful p session.user_id k_reader)
                λ a. proceed-Careful IsShown p)

  -- A role that was checked is granted.
  reader-Grants :
      (p u : ℕ) (w : World) (a : Unit {0})
      → IsValid w.db
      → (check_repo_role {R = Answer A} refused p u k_reader w).0 ≡ next a
      → (n : ℕ) × Grants w.db p u n × (1 ≤ n)
  unfolding macros
  reader-Grants p u w a v e =
      let g = repo_get_user_role-IsGreatest w.db p u v in
      let ge : 1 ≤ (repo_get_user_role p u w.db).1 = ground arith in
      elim g.2 [ inl z ↦ absurd (omega arith) | inr h ↦ ((repo_get_user_role p u w.db).1, h, ge) ]

  private-MayReadId :
      (s : Session) (p q : ℕ) (w : World) (is_public : Bool)
      → IsValid w.db
      → repo_is_public p w.db ≡ some is_public
      → ((if is_public then proceed p else do
        session ← authenticate_user s
        check_repo_role {R = Answer A} refused p session.user_id k_reader
        proceed p)
          w).0
        ≡ next q
      → (p ≡ q) × MayReadId s w.db p
  private-MayReadId s p q w true v o e = (proceed-next p q w e, public o)
  private-MayReadId s p q w false v o e =
      let (session, es, e1) = bind-next _ _ w w q ((authenticate_user-Reads s).at w) e in
      let (a, ea, e2) =
        bind-next _ _ w w q ((check_repo_role-Reads refused p session.user_id k_reader).at w) e1 in
      let (n, g, le) = reader-Grants p session.user_id w a v ea in
      (
        proceed-next p q w e2,
        private n (subst (λ u. Grants w.db p u n) (authenticate_user-user_id s w session es).0 g)
            le,
      )

  -- What passed may be read.
  pub check_public_repo-MayRead :
      (s : Session) (sel : Selector) (w : World) (q : ℕ)
      → IsValid w.db
      → (check_public_repo {R = Answer A} refused s sel w).0 ≡ next q
      → Names repo_get_id sel w.db q × MayReadId s w.db q
  unfolding check_public_repo
  check_public_repo-MayRead s sel w q v e =
      let (p, ep, e1) = bind-next _ _ w w q ((set_repo_id-Reads refused sel).at w) e in
      let (found, ef, e2) = bind-next _ _ w w q ((gets-Reads (repo_is_public p)).at w) e1 in
      let (is_public, eo, e3) = bind-next _ _ w w q (or_stop-Reads found _ w) e2 in
      let o : repo_is_public p w.db ≡ some is_public =
        gets-next (repo_is_public p) w found ef ∙ or_stop-next found _ w is_public eo in
      let (same, may) = private-MayReadId s p q w is_public v o e3 in
      (
        subst (Names repo_get_id sel w.db) same (set_repo_id-Names refused sel w p ep),
        subst (MayReadId s w.db) same may,
      )

  module _ (s : Session) (w : World) (valid : IsValid w.db) (sel : Selector) where
    stopped :
        ¬ MayRead s sel w.db
        → (r : Reply (Answer A)) × ((check_public_repo refused s sel w).0 ≡ stop r)
    stopped h = elim (Flow-cases (check_public_repo {R = Answer A} refused s sel w).0) [
      | inl (p, e) ↦ let k = check_public_repo-MayRead s sel w p valid e in absurd (h (p, k.0, k.1))
      | inr r ↦ r
    ]

    pub in_repo_agrees :
        (k k' : ℕ → Exec (Answer A) (Answer A))
        → ¬ MayRead s sel w.db
        → in_repo s sel k w ≡ in_repo s sel k' w
    in_repo_agrees k k' h =
        let (r, e) = stopped h in
        rw
          (
            bind_stop (check_public_repo refused s sel) k w r e,
            bind_stop (check_public_repo refused s sel) k' w r e,
          )
          refl

    pub in_repo_hidden :
        (k : ℕ → Exec (Answer A) (Answer A))
        → ¬ MayRead s sel w.db
        → (content : A) → (in_repo s sel k w).0 ≢ answered (shown content)
    in_repo_hidden k h content e =
        let (r, q) = stopped h in
        let z : r ≡ answered (shown content) =
          sym (ap (λ x. reply_of x.0) (bind_stop (check_public_repo refused s sel) k w r q)) ∙ e in
        (check_public_repo-Careful s sel).at w r q (rw z tt)
