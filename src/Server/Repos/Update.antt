-- ===== src/Server/Repos/Update.antt =====
-- What `Service::repoUpdate` does for an owner.
use mathlib.Core.Bool.{false≢true}
use scissy.Base.{
  ◌≤◌, ltb, ℕ, ◌≡◌, refl, sym, ap, ◌∙◌, Bool, true, false, not, ◌&&◌, Option, none, some, List, [],
  ◌∷◌, arith, ◌==◌, ==_iff, Bool-cases, Option-cases, inl, inr,
}
use scissy.Base.Bytes.{Bytes, bytes_eq, bytes_eq_refl}
use scissy.Base.Rows.{any, first, All-of-any}
use scissy.Base.Rows.Member.{In-All, first-In, first-none, any-In}
use scissy.Pb.{RepoUpdate, Selector, k_owner}
use scissy.Schema.{Database, Repo, has_repo}
use scissy.Schema.Repos.{update_repo, set_repo}
use scissy.Schema.Valid.{IsValid}
use scissy.World.{World, step, step-no_faults}
use scissy.Db.{repo_get_id, repo_get_user_role}
use scissy.Db.Granted.{Grants, repo_get_user_role-IsGreatest}
use scissy.Session.{Session}
use scissy.Service.{
  answered, succeed, status_msg, next, ◌>>=◌, lift, gets, or_stop, proceed, set_repo_id,
  role_at_least, check_repo_role, authenticate_user, user_get_session, macros,
}
use scissy.Service.Repos.{repo_update}
use scissy.Server.Authority.Reads.{Names}
use scissy.Server.Reveal.Open.{Grants-has_repo}

-- The repository that a name is left to: the one that had it, or else the one that is updated.
abbrev pub left_to : ℕ → Option ℕ → ℕ
left_to p none = p
left_to p (some q) = q

module _ (p : ℕ) (name desc : Bytes) (is_public : Bool) where
  abbrev is_other : Repo → Bool
  is_other r = bytes_eq r.name name && not (r.repo_id == p)

  set_repo-first :
      (repos : List Repo)
      → has_repo repos p ≡ true
      → any is_other repos ≡ false
      → (r : Repo) × (first (λ r. bytes_eq r.name name) (set_repo p name desc is_public repos)
          ≡ some r)
        × (r.repo_id ≡ p)
  unfolding has_repo any first set_repo
  set_repo-first [] h f = absurd (cc h)
  set_repo-first (r ∷ rs) h f = elim (Bool-cases (r.repo_id == p)) [
    | inl t ↦ (
      record r { name = name; desc = desc; is_public = is_public },
      rw (t, bytes_eq_refl name) refl,
      (==_iff r.repo_id p).0 t,
    )
    | inr g ↦
        let (x, e, k) = set_repo-first rs (ground arith) (ground arith) in
        let n : bytes_eq r.name name ≡ false = ground arith in (x, rw (g, n) e, k)
  ]

  named_before : (d : Database) → any is_other d.repos ≡ false → left_to p (repo_get_id name d) ≡ p
  unfolding repo_get_id
  named_before d f = elim (Option-cases (first (λ r. bytes_eq r.name name) d.repos)) [
    | inl e ↦ rw e refl
    | inr (r, e) ↦
        let (i, t) = first-In (λ r. bytes_eq r.name name) d.repos r e in
        let k = In-All (λ r. is_other r ≡ false) r d.repos (All-of-any is_other d.repos f) i in
        rw e (ground (arith, ==_iff r.repo_id p))
  ]

  taken_before :
      (d : Database)
      → any is_other d.repos ≡ true
      → repo_get_id name d ≡ some (left_to p (repo_get_id name d))
  unfolding repo_get_id
  taken_before d t = elim (Option-cases (first (λ r. bytes_eq r.name name) d.repos)) [
    | inl e ↦
        let (x, i, o) = any-In is_other d.repos t in
        let f = first-none (λ r. bytes_eq r.name name) d.repos x e i in absurd (ground arith)
    | inr (r, e) ↦ rw e refl
  ]

  free_before :
      (d : Database)
      → has_repo d.repos p ≡ true
      → any is_other d.repos ≡ false
      → repo_get_id name (record d { repos = set_repo p name desc is_public d.repos }) ≡ some p
  unfolding repo_get_id
  free_before d here f = let (r, e, k) = set_repo-first d.repos here f in rw e (ap some k)

  update_repo-name :
      (d : Database)
      → has_repo d.repos p ≡ true
      → repo_get_id name (update_repo p name desc is_public d).1
        ≡ some (left_to p (repo_get_id name d))
  unfolding update_repo
  update_repo-name d here = elim (Bool-cases (any is_other d.repos)) [
    | inl t ↦ rw (here, t) (taken_before d t)
    | inr f ↦ rw (here, f) (free_before d here f ∙ ap some (sym (named_before d f)))
  ]

-- An owner passes the checks at the head of the handler.
set_repo_id-next :
    (sel : Selector) (w : World) (p : ℕ)
    → Names repo_get_id sel w.db p
    → set_repo_id status_msg sel w ≡ (next p, w)
unfolding macros
set_repo_id-next sel w p (inl e) = rw e refl
set_repo_id-next sel w p (inr (e, (name, n, k))) = rw (e, n, k) refl

owner_passes :
    (found : Bool × ℕ) (w : World)
    → found.0 ≡ true
    → 3 ≤ found.1
    → role_at_least status_msg found k_owner w ≡ (next tt, w)
unfolding role_at_least proceed
owner_passes (false, r) w e le = absurd (false≢true e)
owner_passes (true, r) w e le = let f : ltb r 3 ≡ false = ground arith in rw f refl

owner-next :
    (p u : ℕ) (w : World)
    → IsValid w.db
    → Grants w.db p u 3
    → check_repo_role status_msg p u k_owner w ≡ (next tt, w)
unfolding check_repo_role ◌>>=◌ gets
owner-next p u w v g =
    let k = repo_get_user_role-IsGreatest w.db p u v in
    owner_passes (repo_get_user_role p u w.db) w k.0 (k.1 3 g)

update_by_owner :
    (s : Session) (r : RepoUpdate) (w : World) (p : ℕ)
    → IsValid w.db
    → Names repo_get_id r.repo w.db p
    → Grants w.db p s.user_id 3
    → repo_update s r w ≡ (answered succeed, (step (update_repo p r.name r.desc r.is_public) w).1)
unfolding repo_update ◌>>=◌ lift authenticate_user user_get_session or_stop proceed
update_by_owner s r w p v named g =
    rw (set_repo_id-next r.repo w p named, owner-next p s.user_id w v g) refl

-- Over a well-formed database, and if the engine has no fault, `repoUpdate` answers an owner of the
-- repository that the request names with success, whether or not the name that the request gives is
-- another repository's. If it is, the name stays with that repository; if not, it is then the name of
-- the repository that the request names.
pub repo_update-repo_get_id :
    (s : Session) (r : RepoUpdate) (w : World) (p : ℕ)
    → IsValid w.db
    → Names repo_get_id r.repo w.db p
    → Grants w.db p s.user_id 3
    → w.faults ≡ []
    → ((repo_update s r w).0 ≡ answered succeed)
      × (repo_get_id r.name (repo_update s r w).1.db ≡ some (left_to p (repo_get_id r.name w.db)))
repo_update-repo_get_id s r w p v named g plain =
    let e = update_by_owner s r w p v named g in
    let db : (repo_update s r w).1.db ≡ (update_repo p r.name r.desc r.is_public w.db).1 =
      ap (λ x. x.1.db) e ∙ (step-no_faults (update_repo p r.name r.desc r.is_public) w plain).1 in
    let here = Grants-has_repo w.db p s.user_id 3 v g in
    (ap (λ x. x.0) e, rw db (update_repo-name p r.name r.desc r.is_public w.db here))
