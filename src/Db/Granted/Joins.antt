-- ===== src/Db/Granted/Joins.antt =====
-- The rows of the query of `repo_get_user_role`.
use Prim.Native.Nat.{min}
use scissy.Base.{ℕ, ◌≡◌, refl, ◌⊎◌, inl, inr, true, ◌&&◌, List, [], ◌∷◌, ◌==◌, arith, Bool-cases}
use scissy.Base.Rows.Member.{In, In-append, In-append_left, In-append_right, In-any}
use scissy.Schema.{RepoGroup, GroupUser}
use scissy.Db.{join_group, join_groups, distinct}

pub distinct-In : (n : ℕ) (ns : List ℕ) → In n (distinct ns) → In n ns
unfolding distinct
distinct-In n [] h = h
distinct-In n (m ∷ ms) h = ground (arith, distinct-In n ms)

pub In-distinct : (n : ℕ) (ns : List ℕ) → In n ns → In n (distinct ns)
unfolding distinct
In-distinct n [] h = h
In-distinct n (m ∷ ms) h = ground (arith, In-distinct n ms, In-any m ms)

-- A row of the group's members that the join takes.
abbrev pub Joins : RepoGroup → ℕ → ℕ → GroupUser → Type 0
Joins rg u n gu =
    (gu.user_id ≡ u) × (rg.group_id ≡ gu.group_id) × (n ≡ rg.role_id) × (n ≡ gu.role_id)

pub join_group-In :
    (rg : RepoGroup) (u n : ℕ) (gus : List GroupUser)
    → In n (join_group rg u gus)
    → (gu : GroupUser) × In gu gus × Joins rg u n gu
unfolding join_group
join_group-In rg u n [] h = absurd h
join_group-In rg u n (gu ∷ gus) h =
    elim (Bool-cases
      ((rg.group_id == gu.group_id && rg.role_id == gu.role_id) && gu.user_id == u)) [
        | inl t ↦ joined t (rw (t, join_group) at h) (join_group-In rg u n gus)
        | inr f ↦ later (join_group-In rg u n gus (rw (f, join_group) at h))
      ]
  where
    later :
        ((g : GroupUser) × In g gus × Joins rg u n g)
        → (g : GroupUser) × In g (gu ∷ gus) × Joins rg u n g
    later r = (r.0, inr r.1, r.2)

    joined :
        (rg.group_id == gu.group_id && rg.role_id == gu.role_id) && gu.user_id == u ≡ true
        → (n ≡ min rg.role_id gu.role_id) ⊎ In n (join_group rg u gus)
        → (In n (join_group rg u gus) → (g : GroupUser) × In g gus × Joins rg u n g)
        → (g : GroupUser) × In g (gu ∷ gus) × Joins rg u n g
    joined t (inl e) ih = (gu, inl refl, (ground arith, ground arith, ground arith, ground arith))
    joined t (inr k) ih = later (ih k)

pub In-join_group :
    (rg : RepoGroup) (u n : ℕ) (gu : GroupUser) (gus : List GroupUser)
    → In gu gus
    → Joins rg u n gu
    → In n (join_group rg u gus)
unfolding join_group
In-join_group rg u n gu [] h j = absurd h
In-join_group rg u n gu (g ∷ gus) (inl e) j = ground arith
In-join_group rg u n gu (g ∷ gus) (inr h) j = ground (arith, In-join_group rg u n gu gus h j)

pub join_groups-In :
    (p u n : ℕ) (gus : List GroupUser) (rgs : List RepoGroup)
    → In n (join_groups p u gus rgs)
    → (rg : RepoGroup) × In rg rgs × (rg.repo_id ≡ p) × In n (join_group rg u gus)
unfolding join_groups
join_groups-In p u n gus [] h = absurd h
join_groups-In p u n gus (rg ∷ rgs) h = elim (Bool-cases (rg.repo_id == p)) [
  | inl t ↦
      found t (In-append n (join_group rg u gus) _ (rw (t, join_groups) at h))
        (join_groups-In p u n gus rgs)
  | inr f ↦ later (join_groups-In p u n gus rgs (rw (f, join_groups) at h))
]
  where
    later :
        ((g : RepoGroup) × In g rgs × (g.repo_id ≡ p) × In n (join_group g u gus))
        → (g : RepoGroup) × In g (rg ∷ rgs) × (g.repo_id ≡ p) × In n (join_group g u gus)
    later r = (r.0, inr r.1, r.2, r.3)

    found :
        rg.repo_id == p ≡ true
        → In n (join_group rg u gus) ⊎ In n (join_groups p u gus rgs)
        → (In n (join_groups p u gus rgs)
            → (g : RepoGroup) × In g rgs × (g.repo_id ≡ p) × In n (join_group g u gus))
        → (g : RepoGroup) × In g (rg ∷ rgs) × (g.repo_id ≡ p) × In n (join_group g u gus)
    found t (inl i) ih = (rg, inl refl, ground arith, i)
    found t (inr k) ih = later (ih k)

pub In-join_groups :
    (p u n : ℕ) (gus : List GroupUser) (rg : RepoGroup) (rgs : List RepoGroup)
    → In rg rgs
    → rg.repo_id ≡ p
    → In n (join_group rg u gus)
    → In n (join_groups p u gus rgs)
unfolding join_groups
In-join_groups p u n gus rg [] h e i = absurd h
In-join_groups p u n gus rg (r ∷ rgs) (inl s) e i =
    let t : r.repo_id == p ≡ true = ground arith in
    rw (t, join_groups) (In-append_left n (join_group r u gus) _ (rw s at i))
In-join_groups p u n gus rg (r ∷ rgs) (inr h) e i = elim (Bool-cases (r.repo_id == p)) [
  | inl t ↦
      rw (t, join_groups)
        (In-append_right n (join_group r u gus) _ (In-join_groups p u n gus rg rgs h e i))
  | inr f ↦ rw (f, join_groups) (In-join_groups p u n gus rg rgs h e i)
]
