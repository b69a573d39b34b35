-- ===== src/Server/Reveal/Lists.antt =====
-- What the listings show: the order of their rows.
pub mod Groups
pub mod Members
use mathlib.Core.Bool.{false≢true}
use mathlib.Core.List.{Perm}
use mathlib.Core.List.Perm
use scissy.Base.{
  ℕ, suc, ◌+◌, ◌≡◌, refl, sym, ap, ◌∙◌, ◌↔◌, ◌⊎◌, inl, inr, Bool, true, false, ◌&&◌, ◌||◌, Option,
  none, some, List, [], ◌∷◌, ◌++◌, map, arith, ◌==◌, ==_iff, Bool-cases, if◌then◌else◌, get_or,
}
use scissy.Base.Bytes.{Bytes, bytes_eq}
use scissy.Base.Rows.{any, select, All, Unique}
use scissy.Base.Rows.Member.{In, In-All, In-append, In-append_left, In-append_right}
use scissy.Base.Order.{order_by, insert_row, bytes_le, IsOrdered, order_by-IsOrdered, order_by-perm}
use scissy.Pb.View.{Answer, shown, GroupEntry, RepoEntry, GroupSelector, Member}
use scissy.Git.{Git}
use scissy.Host.{Host}
use scissy.Config.{Config}
use scissy.Schema.{Database, Group, GroupUser, Repo, User, RepoUser, has_group, has_user}
use scissy.Schema.Valid.{IsValid, same_group, GroupUserFits}
use scissy.Db.Granted.{Grants, direct}
use scissy.Service.View.{
  count, members_of, group_entry, groups_list, is_selected, join_members, selected_members,
  group_get_info, aggregate,
}
use scissy.Service.View.Listing.{repo_entry, repos_list, with_user, repo_users_of, member_list}

module _ {A B : Type 0} (f : A → B) (c : A → Bytes) (c' : B → Bytes)
    (same : (x : A) → c' (f x) ≡ c x) where
  map-All :
      (x : A) (xs : List A)
      → All (λ y. bytes_le (c x) (c y) ≡ true) xs
      → All (λ y. bytes_le (c' (f x)) (c' y) ≡ true) (map f xs)
  map-All x [] h = tt
  map-All x (y ∷ xs) h = (rw (same x, same y) h.0, map-All x xs h.1)

  pub IsOrdered-map : (xs : List A) → IsOrdered c xs → IsOrdered c' (map f xs)
  IsOrdered-map [] h = tt
  IsOrdered-map (x ∷ xs) h = (map-All x xs h.0, IsOrdered-map xs h.1)
