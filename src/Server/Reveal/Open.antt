-- ===== src/Server/Reveal/Open.antt =====
-- What a session that may read a repository is shown.
use mathlib.Core.Bool.{false≢true}
use scissy.Base.{
  ℕ, ◌≤◌, ◌≡◌, refl, ◌∙◌, inl, inr, Bool, true, false, some, List, [], ◌∷◌, map, ltb, ◌==◌, arith,
  Bool-cases, Option-cases, ==_iff,
}
use scissy.Base.Rows.{any, first}
use scissy.Base.Rows.Member.{In, In-All, first-In}
use scissy.Pb.{Selector, k_reader}
use scissy.Pb.View.{Answer, shown, refused}
use scissy.Git.{Git}
use scissy.Host.{Host}
use scissy.Config.{Config}
use scissy.Schema.{Database, Repo, has_repo}
use scissy.Schema.Valid.{IsValid, RepoUserFits, RepoGroupFits}
use scissy.World.{World}
use scissy.Repositories.{get_repo_path}
use scissy.Db.{repo_get_id, repo_get_user_role, repo_is_public}
use scissy.Db.Granted.{Grants, direct, through_group, repo_get_user_role-IsGreatest}
use scissy.Session.{Session}
use scissy.Service.{
  answered, Exec, next, reply_of, ◌>>=◌, gets, or_stop, proceed, set_repo_id, role_at_least,
  check_repo_role, check_public_repo, authenticate_user, user_get_session, macros,
}
use scissy.Service.View.{in_repo}
use scissy.Service.View.Listing.{member_list, repo_list_members, repo_entry, repo_get_info}
use scissy.Service.View.Content.{opened, tag_of, repo_list_branches, repo_get_tags}
use scissy.Server.Authority.Reads.{Names}
use scissy.Server.Reveal.Head.{MayReadId, public, private}

any-first :
    {A : Type 0} (p : A → Bool) (xs : List A)
    → any p xs ≡ true
    → (x : A) × In x xs × (p x ≡ true) × (first p xs ≡ some x)
unfolding any first
any-first p [] h = absurd (false≢true h)
any-first p (x ∷ xs) h = elim (Bool-cases (p x)) [
  | inl t ↦ (x, inl refl, t, rw t refl)
  | inr f ↦ let (y, i, k, e) = any-first p xs (ground arith) in (y, inr i, k, rw f e)
]

-- A role is granted only on a repository that is there.
pub Grants-has_repo :
    (d : Database) (p u n : ℕ) → IsValid d → Grants d p u n → has_repo d.repos p ≡ true
Grants-has_repo d p u n v (direct r i ep eu e) =
    rw ep at (In-All (RepoUserFits d.repos d.users) r d.repos_users v.repo_users.fits i).0
Grants-has_repo d p u n v (through_group rg gu irg igu ep eu eg e1 e2) =
    rw ep at (In-All (RepoGroupFits d.repos d.groups) rg d.repos_groups v.repo_groups.fits irg).0

-- The row of a repository.
abbrev Row : Database → ℕ → Repo → Type 0
Row d p r = In r d.repos × (r.repo_id ≡ p) × (first (λ x. x.repo_id == p) d.repos ≡ some r)

row_of :
    (d : Database) (p : ℕ) (r : Repo)
    → In r d.repos
    → r.repo_id == p ≡ true
    → first (λ x. x.repo_id == p) d.repos ≡ some r
    → Row d p r
row_of d p r i t e = (i, (==_iff r.repo_id p).0 t, e)

MayReadId-Row :
    (s : Session) (d : Database) (p : ℕ) → IsValid d → MayReadId s d p → (r : Repo) × Row d p r
unfolding has_repo repo_is_public
MayReadId-Row s d p v (public e) = elim (Option-cases (first (λ r. r.repo_id == p) d.repos)) [
  | inl n ↦ absurd (ground arith)
  | inr (r, f) ↦ let (i, t) = first-In (λ r. r.repo_id == p) d.repos r f in (r, row_of d p r i t f)
]
MayReadId-Row s d p v (private n g le) =
    let (r, i, t, e) =
      any-first (λ r. r.repo_id == p) d.repos (Grants-has_repo d p s.user_id n v g) in
    (r, row_of d p r i t e)

row-repo_is_public :
    (d : Database) (p : ℕ) (r : Repo)
    → first (λ x. x.repo_id == p) d.repos ≡ some r
    → repo_is_public p d ≡ some r.is_public
unfolding repo_is_public
row-repo_is_public d p r e = rw e refl

module _ {A : Type 0} where
  Names-next :
      (sel : Selector) (w : World) (p : ℕ)
      → Names repo_get_id sel w.db p
      → set_repo_id {R = Answer A} refused sel w ≡ (next p, w)
  unfolding macros
  Names-next sel w p (inl e) = rw e refl
  Names-next sel w p (inr (e, (name, n, k))) = rw (e, n, k) refl

  reader_passes :
      (found : Bool × ℕ) (w : World)
      → found.0 ≡ true
      → 1 ≤ found.1
      → role_at_least {R = Answer A} refused found k_reader w ≡ (next tt, w)
  unfolding role_at_least proceed
  reader_passes (false, r) w e le = absurd (false≢true e)
  reader_passes (true, r) w e le = let f : ltb r 1 ≡ false = ground arith in rw f refl

  reader-next :
      (p u n : ℕ) (w : World)
      → IsValid w.db
      → Grants w.db p u n
      → 1 ≤ n
      → check_repo_role {R = Answer A} refused p u k_reader w ≡ (next tt, w)
  unfolding check_repo_role ◌>>=◌ gets
  reader-next p u n w v g le =
      let k = repo_get_user_role-IsGreatest w.db p u v in
      let b = k.1 n g in reader_passes (repo_get_user_role p u w.db) w k.0 (omega arith)

  module _ (s : Session) (sel : Selector) (w : World) (p : ℕ) (v : IsValid w.db) where
    -- The check at the head of the handlers passes for those who may read.
    MayReadId-next :
        Names repo_get_id sel w.db p
        → MayReadId s w.db p
        → check_public_repo {R = Answer A} refused s sel w ≡ (next p, w)
    unfolding check_public_repo ◌>>=◌ gets or_stop proceed authenticate_user user_get_session
    MayReadId-next named (public e) = rw (Names-next sel w p named, e) refl
    MayReadId-next named (private n g le) =
        let (r, (i, k, e)) = MayReadId-Row s w.db p v (private n g le) in
        let q = row-repo_is_public w.db p r e in
        elim (Bool-cases r.is_public) [
          | inl t ↦ rw (Names-next sel w p named, q, t) refl
          | inr f ↦ rw (Names-next sel w p named, q, f, reader-next p s.user_id n w v g le) refl
        ]

    in_repo-next :
        (k : ℕ → Exec (Answer A) (Answer A))
        → Names repo_get_id sel w.db p
        → MayReadId s w.db p
        → in_repo s sel k w ≡ (reply_of (k p w).0, (k p w).1)
    unfolding ◌>>=◌
    in_repo-next k named may = rw (MayReadId-next named may) refl

module _ (host : Host) (cfg : Config) (git : Git) (s : Session) (sel : Selector) (w : World)
    (p : ℕ) where
  -- Over a well-formed database, a session that may read the repository that a request names, because
  -- it is public or because the database grants the session's user at least the role of a reader, is
  -- shown the repository's row, its members, its branches and its tags, if it opens; and nothing
  -- changes.
  pub view_shown :
      (repo : git.Repo)
      → IsValid w.db
      → Names repo_get_id sel w.db p
      → MayReadId s w.db p
      → git.open_repo (get_repo_path host cfg p) ≡ some repo
      → ((r : Repo) × In r w.db.repos
          × (r.repo_id ≡ p)
          × (repo_get_info host cfg git s sel w
              ≡ (answered (shown (repo_entry host cfg git r)), w)))
        × (repo_list_members s sel w ≡ (answered (shown (member_list p w.db)), w))
        × (repo_list_branches host cfg git s sel w ≡ (answered (shown (git.branches repo)), w))
        × (repo_get_tags host cfg git s sel w
            ≡ (answered (shown (map (tag_of host cfg git) (git.tags repo))), w))
  unfolding repo_get_info repo_list_members repo_list_branches repo_get_tags opened macros
  view_shown repo v named may o =
      let (r, (i, k, e)) = MayReadId-Row s w.db p v may in
      (
        (r, i, k, in_repo-next s sel w p v _ named may ∙ rw e refl),
        in_repo-next s sel w p v _ named may,
        in_repo-next s sel w p v _ named may ∙ rw o refl,
        in_repo-next s sel w p v _ named may ∙ rw o refl,
      )
