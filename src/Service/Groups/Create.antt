-- ===== src/Service/Groups/Create.antt =====
-- What `Service::groupCreate` leaves when it succeeds.
use scissy.Base.{
  ℕ, ◌≡◌, ◌≢◌, refl, sym, ap, ◌∙◌, inl, inr, true, false, none, some, [], ◌∷◌, ◌++◌, arith,
  Bool-cases, suc, get_or, String,
}
use scissy.Base.Bytes.{Bytes, bytes_eq, bytes_eq_refl}
use scissy.Base.Rows.{any, first, first-append, All-of-any}
use scissy.Base.Rows.Member.{In, In-append_right, In-All, first-none_of}
use scissy.Pb.{k_succeed, k_failed, GroupInfo, GroupCreate, group_info_failed}
use scissy.Schema.{Code, done, constraint, error, is_done, Group, GroupUser, Database}
use scissy.Schema.Groups.{insert_group, insert_group_user}
use scissy.World.{World, step, step_with}
use scissy.Db
use scissy.Session.{Session}
use scissy.Service.{answered, macros}
use scissy.Service.Groups.{group_create, set_owner}

created_group :
    (w : World) (name desc : Bytes)
    → (step (insert_group name desc) w).0 ≡ done
    → (any (λ r. bytes_eq r.name name) w.db.groups ≡ false)
      × ((step (insert_group name desc) w).1.db.groups
          ≡ w.db.groups ++ record { group_id = suc w.db.seq_groups; name = name; desc = desc } ∷ [])
unfolding step step_with insert_group
created_group w name desc h = (ground arith, ground arith)

created_member :
    (w : World) (g u role : ℕ)
    → is_done (step (insert_group_user g u role) w).0 ≡ true
    → ((step (insert_group_user g u role) w).1.db.groups ≡ w.db.groups)
      × ((step (insert_group_user g u role) w).1.db.groups_users
          ≡ w.db.groups_users ++ record { group_id = g; user_id = u; role_id = role } ∷ [])
unfolding step step_with insert_group_user
created_member w g u role h = (ground arith, ground arith)

group_id-append :
    (d : Database) (name : Bytes) (row : Group) (d' : Database)
    → any (λ r. bytes_eq r.name name) d.groups ≡ false
    → d'.groups ≡ d.groups ++ row ∷ []
    → row.name ≡ name
    → Db.group_get_id name d' ≡ some row.group_id
unfolding Db.group_get_id
group_id-append d name row d' free e same =
    rw
      (
        e,
        first-append (λ (r : Group). bytes_eq r.name name) d.groups row,
        free,
        same,
        bytes_eq_refl name,
      )
      refl

group_id_none :
    (d : Database) (name : Bytes)
    → any (λ r. bytes_eq r.name name) d.groups ≡ false
    → Db.group_get_id name d ≡ none
unfolding Db.group_get_id
group_id_none d name free =
    let e : first (λ r. bytes_eq r.name name) d.groups ≡ none =
      first-none_of _ d.groups λ x i.
        In-All (λ r. bytes_eq r.name name ≡ false) x d.groups (All-of-any _ d.groups free) i in
    rw e refl

not_succeeded :
    {text : String} {info : GroupInfo}
    → answered (group_info_failed k_failed text) ≡ answered info
    → info.status ≢ k_succeed
not_succeeded h e = cc

module _ (s : Session) (r : GroupCreate) (w : World) where
  abbrev name : Bytes
  name = get_or r.grp []

  abbrev inserted : Code × World
  inserted = step (insert_group name r.desc) w

  abbrev membership : ℕ → Code × World
  membership g = step (insert_group_user g s.user_id 3) inserted.1

  abbrev info_of : ℕ → GroupInfo
  info_of g = record {
    grp = name;
    size = 1;
    grp_id = g;
    desc = r.desc;
    status = k_succeed;
    msg = none;
  }

  -- What a creation went through that succeeded.
  record Done (info : GroupInfo) : Type 0 where
    stored : inserted.0 ≡ done
    owned : is_done (membership info.grp_id).0 ≡ true
    id : info.grp_id ≡ suc w.db.seq_groups
    result : (group_create s r w).1 ≡ (membership info.grp_id).1

  group_create-inserted :
      (info : GroupInfo) (c : Code)
      → inserted.0 ≡ c
      → (group_create s r w).0 ≡ answered info
      → info.status ≡ k_succeed
      → Done info
  unfolding group_create set_owner macros Db.group_create Db.group_add_user Db.create_error
      Db.group_delete
  group_create-inserted info constraint e h st = absurd (not_succeeded (rw e at h) st)
  group_create-inserted info error e h st = absurd (not_succeeded (rw e at h) st)
  group_create-inserted info done e h st =
      let g : ℕ = suc w.db.seq_groups in
      let (free, groups) = created_group w name r.desc e in
      let found : Db.group_get_id name inserted.1.db ≡ some g =
        group_id-append w.db name (record { group_id = g; name = name; desc = r.desc })
          inserted.1.db free groups refl in
      elim (Bool-cases (is_done (membership g).0)) [
        | inr f ↦ absurd (not_succeeded (rw (e, found, found, f) at h) st)
        | inl t ↦
            let q : answered (info_of g) ≡ answered info = rw (e, found, found, t) at h in
            let i : info.grp_id ≡ g = cc q in
            record { stored = e; owned = rw i t; id = i; result = rw (e, found, found, t, i) refl }
      ]

  -- A creation of a group that is answered with success gives a group whose name was free: the name
  -- is found with the id that is returned, and the user who asked for it is an owner in the group.
  pub group_create-owner :
      (info : GroupInfo)
      → (group_create s r w).0 ≡ answered info
      → info.status ≡ k_succeed
      → (Db.group_get_id name w.db ≡ none)
        × (Db.group_get_id name (group_create s r w).1.db ≡ some info.grp_id)
        × In
            (record { group_id = info.grp_id; user_id = s.user_id; role_id = 3 })
            (group_create s r w).1.db.groups_users
  group_create-owner info h st =
      let k = group_create-inserted info inserted.0 refl h st in
      let (free, groups) = created_group w name r.desc k.stored in
      let (kept, users) = created_member inserted.1 info.grp_id s.user_id 3 k.owned in
      let row : GroupUser = record { group_id = info.grp_id; user_id = s.user_id; role_id = 3 } in
      (
        group_id_none w.db name free,
        rw k.result (
            group_id-append w.db name
              (record { group_id = suc w.db.seq_groups; name = name; desc = r.desc })
              (membership info.grp_id).1.db free (kept ∙ groups) refl
            ∙ ap some (sym k.id)),
        rw (k.result, users) (In-append_right row _ (row ∷ []) (inl refl)),
      )
