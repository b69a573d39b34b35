-- ===== src/Server/Reveal/Lists/Groups.antt =====
-- What the listings show: the groups.
use mathlib.Core.List.{Perm}
use mathlib.Core.List.Perm
use scissy.Base.{
  ℕ, suc, ◌+◌, ◌≡◌, refl, ap, ◌∙◌, inl, inr, Bool, true, false, none, List, [], ◌∷◌, map, arith,
  ◌==◌, Bool-cases, if◌then◌else◌,
}
use scissy.Base.Bytes.{Bytes}
use scissy.Base.Rows.{any, select, All, Unique}
use scissy.Base.Order.{order_by, insert_row, IsOrdered, order_by-IsOrdered, order_by-perm}
use scissy.Pb.View.{shown, GroupEntry, GroupSelector}
use scissy.Host.{Host}
use scissy.Schema.{Database, Group, GroupUser, User, has_group}
use scissy.Schema.Valid.{IsValid, same_group, GroupUserFits}
use scissy.Service.View.{
  count, members_of, group_entry, groups_list, is_selected, join_members, selected_members,
  group_get_info,
}
use scissy.Server.Reveal.Lists.{IsOrdered-map}

-- The sum of the sizes.
abbrev pub total_size : List GroupEntry → ℕ
total_size [] = 0
total_size (e ∷ es) = e.size + total_size es

total_insert :
    (f : Group → GroupEntry) (c : Group → Bytes) (x : Group) (ys : List Group)
    → total_size (map f (insert_row c x ys)) ≡ (f x).size + total_size (map f ys)
unfolding insert_row
total_insert f c x [] = refl
total_insert f c x (y ∷ ys) = ground (arith, total_insert f c x ys)

total_order :
    (f : Group → GroupEntry) (c : Group → Bytes) (xs : List Group)
    → total_size (map f (order_by c xs)) ≡ total_size (map f xs)
unfolding order_by
total_order f c [] = refl
total_order f c (x ∷ xs) =
    total_insert f c x (order_by c xs) ∙ ap (λ n. (f x).size + n) (total_order f c xs)

-- How many of the groups have an id.
matches : ℕ → List Group → ℕ
matches g [] = 0
matches g (r ∷ rs) = let rest = matches g rs in if r.group_id == g then suc rest else rest

total : List Group → List GroupUser → ℕ
total [] rows = 0
total (g ∷ gs) rows = count (members_of g.group_id rows) + total gs rows

total_none : (gs : List Group) → total gs [] ≡ 0
unfolding total select
total_none [] = refl
total_none (g ∷ gs) = ground (arith, total_none gs)

total-cons :
    (gs : List Group) (r : GroupUser) (rows : List GroupUser)
    → total gs (r ∷ rows) ≡ matches r.group_id gs + total gs rows
unfolding total matches select
total-cons [] r rows = refl
total-cons (g ∷ gs) r rows = ground (arith, total-cons gs r rows)

matches_none :
    (g : Group) (gs : List Group) → All (λ r. same_group g r ≡ false) gs → matches g.group_id gs ≡ 0
unfolding matches
matches_none g [] h = refl
matches_none g (r ∷ rs) h = let k = h.0 in ground (arith, matches_none g rs h.1)

matches_one :
    (g : ℕ) (gs : List Group) → Unique same_group gs → has_group gs g ≡ true → matches g gs ≡ 1
unfolding matches has_group any
matches_one g [] u h = ground arith
matches_one g (r ∷ rs) u h = elim (Bool-cases (r.group_id == g)) [
  | inl t ↦ let e : r.group_id ≡ g = ground arith in rw t (ap suc (rw e at (matches_none r rs u.0)))
  | inr f ↦ rw f (matches_one g rs u.1 (ground arith))
]

total-count :
    (gs : List Group) (users : List User) (rows : List GroupUser)
    → Unique same_group gs
    → All (GroupUserFits gs users) rows
    → total gs rows ≡ count rows
total-count gs users [] u h = total_none gs
total-count gs users (r ∷ rows) u h = omega (
  arith,
  total-cons gs r rows,
  matches_one r.group_id gs u h.0.0,
  total-count gs users rows u h.1,
)

total_size-map :
    (d : Database) (gs : List Group) → total_size (map (group_entry d) gs) ≡ total gs d.groups_users
unfolding total
total_size-map d [] = refl
total_size-map d (g ∷ gs) = omega (arith, total_size-map d gs)

-- The list of the groups shows an entry for each group, each once, in the order of their names. Over a
-- well-formed database the sizes count every membership once.
pub groups_list-perm :
    (d : Database)
    → IsValid d
    → Perm (groups_list d) (map (group_entry d) d.groups)
      × IsOrdered (λ e. e.grp) (groups_list d)
      × (total_size (groups_list d) ≡ count d.groups_users)
unfolding groups_list
groups_list-perm d v = (
  Perm.map (group_entry d) (order_by-perm (λ r. r.name) d.groups),
  IsOrdered-map (group_entry d) (λ r. r.name) (λ e. e.grp) (λ r. refl)
      (order_by (λ r. r.name) d.groups) (order_by-IsOrdered (λ r. r.name) d.groups),
  total_order (group_entry d) (λ r. r.name) d.groups
      ∙ total_size-map d d.groups
      ∙ total-count d.groups d.users d.groups_users v.groups.unique v.group_users.fits,
)

select_none : {A : Type 0} (p : A → Bool) (xs : List A) → any p xs ≡ false → select p xs ≡ []
unfolding select any
select_none p [] h = refl
select_none p (x ∷ xs) h = ground (arith, select_none p xs)

-- Information on a group that is not there is given all the same, with success: no request is told
-- that the group was not found. The engine has no row to take the columns beside the aggregate from.
pub group_get_info_missing :
    (host : Host) (request : GroupSelector) (d : Database)
    → host.pick_row [] ≡ none
    → any (is_selected request) d.groups ≡ false
    → group_get_info host request d
      ≡ shown (record { grp = host.null_text; grp_id = 0; desc = host.null_text; size = 0 })
unfolding group_get_info selected_members join_members
group_get_info_missing host request d e h =
    rw (select_none (is_selected request) d.groups h, e) refl
