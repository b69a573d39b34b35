-- ===== src/Server/Members/Share.antt =====
-- What `Service::repoAddGroup` has done when it answers with success.
use scissy.Base.{
  Option, none, some, Bool-cases, Option-cases, ◌==◌, ◌&&◌, ltb, if◌then◌else◌, ◌≤◌, ℕ, ◌≡◌, refl,
  sym, ap, ◌∙◌, ◌↔◌, ◌⊎◌, inl, inr, true, [], ◌∷◌, ◌++◌, arith,
}
use scissy.Base.Rows.{first}
use scissy.Base.Rows.Member.{
  first-In, first-none, Unique-eq, In, In-append, In-append_left, In-append_right,
}
use scissy.Pb.{Role, role_id, RepoAddGroup}
use scissy.Schema.{Database, RepoGroup, GroupUser, is_done, picked_rowid}
use scissy.Host.{Host}
use scissy.Config.{Config}
use scissy.Schema.Repos.{insert_repo_group}
use scissy.Schema.Groups.{same_group_user}
use scissy.Schema.Valid.{IsValid}
use scissy.World.{World, step, step_with}
use scissy.Db
use scissy.Db.{group_get_user_role, repo_get_user_role}
use scissy.Db.Granted.{Grants, direct, through_group, repo_get_user_role-IsGreatest}
use scissy.Session.{Session}
use scissy.Service.{set_grp_id, answered, succeed}
use scissy.Service.Members.{repo_add_group}
use scissy.Server.Authority.Reads.{Names, Names_unique, set_grp_id-Reads, set_grp_id-Names}
use scissy.Server.Stable.Requests.{add_repo_group-request}
use scissy.Server.Valid.{IsValid-Stable}
use scissy.Server.Members.{ending, ending_succeeds, owner_handler-Passed}
use scissy.Server.Members.Join.{set_grp_id-Careful}

abbrev with_row : RepoGroup → Database → Database
with_row row d = record (picked_rowid d) { repos_groups = d.repos_groups ++ row ∷ [] }

-- A member of the group in exactly this role.
pub record MemberAs (d : Database) (g u role : ℕ) : Type 0 where
  pub row : GroupUser
  pub there : In row d.groups_users
  pub group : row.group_id ≡ g
  pub user : row.user_id ≡ u
  pub role_there : row.role_id ≡ role

module _ (d : Database) (p g role u n : ℕ) where
  abbrev row : RepoGroup
  row = record { repo_id = p; group_id = g; role_id = role }

  with_row-Grants :
      Grants (with_row row d) p u n → Grants d p u n ⊎ ((n ≡ role) × MemberAs d g u role)
  with_row-Grants (direct r i ep eu e) = inl (direct r i ep eu e)
  with_row-Grants (through_group rg gu irg igu ep eu eg e1 e2) =
      elim (In-append rg d.repos_groups (row ∷ []) irg) [
        | inl i ↦ inl (through_group rg gu i igu ep eu eg e1 e2)
        | inr (inl same) ↦
            let en : n ≡ role = e1 ∙ ap (λ x. x.role_id) same in
            inr (
              en,
              record {
                row = gu;
                there = igu;
                group = sym eg ∙ ap (λ x. x.group_id) same;
                user = eu;
                role_there = sym e2 ∙ en;
              },
            )
        | inr (inr z) ↦ absurd z
      ]

  Grants-with_row :
      Grants d p u n ⊎ ((n ≡ role) × MemberAs d g u role) → Grants (with_row row d) p u n
  Grants-with_row (inl (direct r i ep eu e)) = direct r i ep eu e
  Grants-with_row (inl (through_group rg gu irg igu ep eu eg e1 e2)) =
      through_group rg gu (In-append_left rg d.repos_groups (row ∷ []) irg) igu ep eu eg e1 e2
  Grants-with_row (inr (en, m)) =
      through_group row m.row (In-append_right row d.repos_groups (row ∷ []) (inl refl)) m.there
        refl m.user (sym m.group) en (en ∙ sym m.role_there)

added_row :
    (w : World) (p g role : ℕ)
    → is_done (step (insert_repo_group p g role) w).0 ≡ true
    → (step (insert_repo_group p g role) w).1.db
      ≡ with_row (record { repo_id = p; group_id = g; role_id = role }) w.db
unfolding step step_with insert_repo_group
added_row w p g role h = ground arith

shared-row :
    (w : World) (p g : ℕ) (role : Role)
    → (Db.repo_add_group p g role w).0 ≡ true
    → (Db.repo_add_group p g role w).1.db
      ≡ with_row (record { repo_id = p; group_id = g; role_id = role_id role }) w.db
unfolding Db.repo_add_group
shared-row w p g role t = added_row w p g (role_id role) t

-- The roles that are granted then.
repo_add_group-Grants :
    (s : Session) (r : RepoAddGroup) (w : World)
    → (repo_add_group s r w).0 ≡ answered succeed
    → (p g : ℕ) × Names Db.repo_get_id r.repo w.db p
      × Names Db.group_get_id r.grp w.db g
      × ((u n : ℕ)
          → Grants (repo_add_group s r w).1.db p u n
            ↔ (Grants w.db p u n ⊎ ((n ≡ role_id r.role) × MemberAs w.db g u (role_id r.role))))
unfolding repo_add_group
repo_add_group-Grants s r w h =
    let k =
      owner_handler-Passed s r.repo (set_grp_id r.grp)
        (λ p g. ending (Db.repo_add_group p g r.role) "") w (set_grp_id-Careful r.grp)
        (set_grp_id-Reads r.grp) h in
    let (t, e) = ending_succeeds (Db.repo_add_group k.repo_id k.other r.role) "" w k.succeeds in
    let after = ap (λ x. x.db) (k.on ∙ e) ∙ shared-row w k.repo_id k.other r.role t in
    (
      k.repo_id,
      k.other,
      k.named,
      set_grp_id-Names r.grp w k.other k.found,
      λ u n. (
        λ g. with_row-Grants w.db k.repo_id k.other (role_id r.role) u n (rw after at g),
        λ g. rw after (Grants-with_row w.db k.repo_id k.other (role_id r.role) u n g),
      ),
    )

-- The lookup of a member's own role finds the member's one row.
module _ (d : Database) (g u role : ℕ) where
  own-MemberAs : group_get_user_role g u d ≡ some role → MemberAs d g u role
  unfolding group_get_user_role
  own-MemberAs h =
      elim (Option-cases (first (λ r. r.group_id == g && r.user_id == u) d.groups_users)) [
        | inl e ↦ absurd (ground arith)
        | inr (r, e) ↦
            let (i, t) = first-In (λ r. r.group_id == g && r.user_id == u) d.groups_users r e in
            record {
              row = r;
              there = i;
              group = ground arith;
              user = ground arith;
              role_there = ground arith;
            }
      ]

  MemberAs-own : IsValid d → MemberAs d g u role → group_get_user_role g u d ≡ some role
  unfolding group_get_user_role
  MemberAs-own v m =
      elim (Option-cases (first (λ r. r.group_id == g && r.user_id == u) d.groups_users)) [
        | inl e ↦
            let f =
              first-none (λ r. r.group_id == g && r.user_id == u) d.groups_users m.row e m.there in
            absurd (ground (arith, m.group, m.user))
        | inr (r, e) ↦
            let (i, t) = first-In (λ r. r.group_id == g && r.user_id == u) d.groups_users r e in
            let a : r.group_id ≡ g = ground arith in
            let b : r.user_id ≡ u = ground arith in
            let mg = m.group in
            let mu = m.user in
            let same : r ≡ m.row =
              Unique-eq same_group_user d.groups_users r m.row v.group_users.unique i m.there
                (ground arith) (ground arith) in
            rw e (ap some (ap (λ x. x.role_id) same ∙ m.role_there))
      ]

-- The role on a repository, once a group with its own role in it has been let in: the greater of the
-- two for a member whose own role in the group is the group's, and as it was for anyone else.
abbrev pub let_in : Option ℕ → ℕ → ℕ → ℕ
let_in none role old = old
let_in (some own) role old = if own == role then if ltb old role then role else old else old

-- The greatest of the roles that are granted, or none.
abbrev Greatest : (ℕ → Type 0) → ℕ → Type 0
Greatest P m = ((n : ℕ) → P n → n ≤ m) × ((m ≡ 0) ⊎ P m)

module _ (P Q : ℕ → Type 0) (M : Type 0) (role old new : ℕ) (before : Greatest P old)
    (after : Greatest Q new) (k : (n : ℕ) → Q n ↔ (P n ⊎ ((n ≡ role) × M))) where
  not_less : old ≤ new
  not_less = elim before.1 [ inl z ↦ omega arith | inr h ↦ after.0 old ((k old).1 (inl h)) ]

  for_member : M → new ≡ (if ltb old role then role else old)
  for_member m =
      let le = not_less in
      let ge = after.0 role ((k role).1 (inr (refl, m))) in
      elim after.1 [
        | inl z ↦ ground arith
        | inr h ↦ elim ((k new).0 h) [
          | inl p ↦ let b = before.0 new p in ground arith
          | inr (e, m) ↦ ground arith
        ]
      ]

  for_others : ¬ M → new ≡ old
  for_others others =
      let le = not_less in
      elim after.1 [
        | inl z ↦ omega arith
        | inr h ↦ elim ((k new).0 h) [
          | inl p ↦ let b = before.0 new p in omega arith
          | inr (e, m) ↦ absurd (others m)
        ]
      ]

  let_in-role :
      (own : Option ℕ) → (M → own ≡ some role) → (own ≡ some role → M) → new ≡ let_in own role old
  let_in-role none f b = for_others (λ m. cc (f m))
  let_in-role (some own) f b = elim (Bool-cases (own == role)) [
    | inl t ↦ let e : some own ≡ some role = ground arith in rw t (for_member (b e))
    | inr n ↦ rw n (for_others (λ m. let e = f m in ground arith))
  ]

-- Over a well-formed database, when `repoAddGroup` answers with success, `Db::repoGetUserRole` finds
-- on the repository that the request names, for each user whose own role in the group that it names is
-- the request's role, the greater of that role and the one that it found before; for anyone else, the
-- other members of the group among them, what it found before.
pub repo_add_group-repo_get_user_role :
    (host : Host) (cfg : Config) (s : Session) (r : RepoAddGroup) (w : World) (p g u : ℕ)
    → IsValid w.db
    → Names Db.repo_get_id r.repo w.db p
    → Names Db.group_get_id r.grp w.db g
    → (repo_add_group s r w).0 ≡ answered succeed
    → (repo_get_user_role p u (repo_add_group s r w).1.db).1
      ≡ let_in (group_get_user_role g u w.db) (role_id r.role) (repo_get_user_role p u w.db).1
repo_add_group-repo_get_user_role host cfg s r w p g u v np ng h =
    let (p', g', np', ng', k) = repo_add_group-Grants s r w h in
    let ep : p' ≡ p = Names_unique Db.repo_get_id r.repo w.db p' p np' np in
    let eg : g' ≡ g = Names_unique Db.group_get_id r.grp w.db g' g ng' ng in
    let v' = (add_repo_group-request (IsValid-Stable host cfg) s r).at w v in
    let before = repo_get_user_role-IsGreatest w.db p u v in
    let after = repo_get_user_role-IsGreatest (repo_add_group s r w).1.db p u v' in
    let_in-role (Grants w.db p u) (Grants (repo_add_group s r w).1.db p u)
      (MemberAs w.db g u (role_id r.role)) (role_id r.role) _ _ (before.1, before.2)
      (after.1, after.2) (rw (ep, eg) at (k u)) (group_get_user_role g u w.db)
      (MemberAs-own w.db g u (role_id r.role) v) (own-MemberAs w.db g u (role_id r.role))
