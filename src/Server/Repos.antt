-- ===== src/Server/Repos.antt =====
-- What the handlers that change a repository have done when they answer with success: its deletion.
pub mod Update
use scissy.Base.{
  ℕ, ◌≡◌, ◌≢◌, ◌↔◌, refl, sym, ap, subst, ◌∙◌, Bool, true, false, List, [], ◌∷◌, arith, ◌==◌,
  ==_iff, Bool-cases, inl, inr,
}
use scissy.Base.Bytes.{Bytes, bytes_eq, bytes_eq_refl}
use scissy.Base.Rows.{any, delete, any-delete, any-delete_self}
use scissy.Base.Rows.Member.{In, delete-In, In-delete}
use scissy.Pb.{StatusMsg, Selector, k_owner}
use scissy.Host.{Host}
use scissy.Config.{Config}
use scissy.Schema.{Database, has_repo}
use scissy.Schema.Repos.{delete_repo}
use scissy.World.{World, step, step-no_faults}
use scissy.Db.{repo_get_id}
use scissy.Db.Granted.{Grants, direct, through_group}
use scissy.Repositories.{remove, remove_path, get_repo_path}
use scissy.Session.{Session}
use scissy.Service.{
  answered, Exec, ◌>>=◌, ◌>>◌, run, status_msg, succeed, authenticate_user, set_repo_id,
  check_repo_role,
}
use scissy.Service.Repos.{repo_delete}
use scissy.Server.Authority.Reads.{
  Names, Names_unique, authenticate_user-Reads, set_repo_id-Reads, set_repo_id-Names,
  check_repo_role-Reads,
}
use scissy.Server.Members.{
  bind-Went, authenticate_user-Careful, set_repo_id-Careful, check_repo_role-Careful, ending,
  ending_succeeds,
}

module _ (s : Session) (sel : Selector) (body : ℕ → Exec StatusMsg StatusMsg) (w : World) where
  -- How the handlers on a repository begin.
  abbrev repo_handler : Exec StatusMsg StatusMsg
  repo_handler = do
    session ← authenticate_user s
    repo_id ← set_repo_id status_msg sel
    check_repo_role status_msg repo_id session.user_id k_owner
    body repo_id

  -- What it came to, if it was answered with success.
  pub record Passed : Type 0 where
    pub repo_id : ℕ
    pub named : Names repo_get_id sel w.db repo_id
    pub on : (run repo_handler w).1 ≡ (run (body repo_id) w).1
    pub succeeds : (run (body repo_id) w).0 ≡ answered succeed

  pub repo_handler-Passed : (run repo_handler w).0 ≡ answered succeed → Passed
  repo_handler-Passed h =
      let g1 =
        bind-Went _ _ w w (authenticate_user-Careful s) ((authenticate_user-Reads s).at w) h in
      let g2 =
        bind-Went _ _ w w (set_repo_id-Careful sel) ((set_repo_id-Reads status_msg sel).at w)
          g1.succeeds in
      let g3 =
        bind-Went _ _ w w (check_repo_role-Careful g2.value g1.value.user_id k_owner)
          ((check_repo_role-Reads status_msg g2.value g1.value.user_id k_owner).at w) g2.succeeds in
      record {
        repo_id = g2.value;
        named = set_repo_id-Names status_msg sel w g2.value g2.by;
        on = g1.on ∙ g2.on ∙ g3.on;
        succeeds = g3.succeeds;
      }

-- The database without a repository.
abbrev deleted : ℕ → Database → Database
deleted p d = (delete_repo p d).1

module _ (d : Database) (p : ℕ) where
  deleted-has_repo : has_repo (deleted p d).repos p ≡ false
  unfolding has_repo delete_repo
  deleted-has_repo = any-delete_self (λ r. r.repo_id == p) d.repos

  deleted-Grants : (u n : ℕ) → ¬ Grants (deleted p d) p u n
  unfolding delete_repo
  deleted-Grants u n (direct r i ep eu e) =
      let k = (delete-In (λ r. r.repo_id == p) r d.repos_users i).1 in absurd (ground arith)
  deleted-Grants u n (through_group rg gu irg igu ep eu eg e1 e2) =
      let k = (delete-In (λ r. r.repo_id == p) rg d.repos_groups irg).1 in absurd (ground arith)

  module _ (q : ℕ) (other : q ≢ p) where
    other-has_repo : has_repo (deleted p d).repos q ≡ has_repo d.repos q
    unfolding has_repo delete_repo
    other-has_repo =
        any-delete (λ r. r.repo_id == p) (λ r. r.repo_id == q) d.repos λ r e. ground arith

    other-Grants : (u n : ℕ) → Grants (deleted p d) q u n ↔ Grants d q u n
    unfolding delete_repo
    other-Grants u n = (back, forth)
      where
        back : Grants (deleted p d) q u n → Grants d q u n
        back (direct r i ep eu e) =
            direct r (delete-In (λ r. r.repo_id == p) r d.repos_users i).0 ep eu e
        back (through_group rg gu irg igu ep eu eg e1 e2) =
            through_group rg gu (delete-In (λ r. r.repo_id == p) rg d.repos_groups irg).0 igu ep eu
              eg e1 e2

        forth : Grants d q u n → Grants (deleted p d) q u n
        forth (direct r i ep eu e) =
            direct r (In-delete (λ r. r.repo_id == p) r d.repos_users i (ground arith)) ep eu e
        forth (through_group rg gu irg igu ep eu eg e1 e2) =
            through_group rg gu
              (In-delete (λ r. r.repo_id == p) rg d.repos_groups irg (ground arith)) igu ep eu eg e1
              e2

module _ (host : Host) (cfg : Config) where
  remove-disk : (p : ℕ) (w : World) → ¬ In (get_repo_path host cfg p) (remove host cfg p w).1.disk
  unfolding remove remove_path
  remove-disk p w i =
      let path = get_repo_path host cfg p in
      let k = (delete-In (bytes_eq path) path (step (delete_repo p) w).1.disk i).1 in
      absurd (cc (k, bytes_eq_refl path))

  remove-db : (p : ℕ) (w : World) → w.faults ≡ [] → (remove host cfg p w).1.db ≡ deleted p w.db
  unfolding remove remove_path
  remove-db p w e = (step-no_faults (delete_repo p) w e).1

  -- When `repoDelete` answers with success, and the engine has no fault, the repository that the
  -- request names is gone, with its directory and all the roles on it; any other repository is there if
  -- it was, and the roles on it are those that were granted.
  pub repo_delete-Grants :
      (s : Session) (sel : Selector) (w : World) (p q : ℕ)
      → Names repo_get_id sel w.db p
      → q ≢ p
      → w.faults ≡ []
      → (repo_delete host cfg s sel w).0 ≡ answered succeed
      → (has_repo (repo_delete host cfg s sel w).1.db.repos p ≡ false)
        × (¬ In (get_repo_path host cfg p) (repo_delete host cfg s sel w).1.disk)
        × ((u n : ℕ) → ¬ Grants (repo_delete host cfg s sel w).1.db p u n)
        × (has_repo (repo_delete host cfg s sel w).1.db.repos q ≡ has_repo w.db.repos q)
        × ((u n : ℕ) → Grants (repo_delete host cfg s sel w).1.db q u n ↔ Grants w.db q u n)
  unfolding repo_delete
  repo_delete-Grants s sel w p q named other plain h =
      let k = repo_handler-Passed s sel (λ p. ending (remove host cfg p) "database error") w h in
      let (t, e) = ending_succeeds (remove host cfg k.repo_id) "database error" w k.succeeds in
      let same : k.repo_id ≡ p = Names_unique repo_get_id sel w.db k.repo_id p k.named named in
      let after : (repo_delete host cfg s sel w).1 ≡ (remove host cfg p w).1 =
        k.on ∙ e ∙ ap (λ x. (remove host cfg x w).1) same in
      let db : (repo_delete host cfg s sel w).1.db ≡ deleted p w.db =
        ap (λ x. x.db) after ∙ remove-db p w plain in
      (
        rw db (deleted-has_repo w.db p),
        rw after (remove-disk p w),
        rw db (deleted-Grants w.db p),
        rw db (other-has_repo w.db p q other),
        rw db (other-Grants w.db p q other),
      )
