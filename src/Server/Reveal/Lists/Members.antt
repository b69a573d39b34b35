-- ===== src/Server/Reveal/Lists/Members.antt =====
-- What the listings show: the members of a repository.
use mathlib.Core.Bool.{false≢true}
use scissy.Base.{
  ℕ, ◌≡◌, refl, sym, ap, ◌∙◌, ◌↔◌, ◌⊎◌, inl, inr, true, List, [], ◌∷◌, arith, ◌==◌, ==_iff,
  Bool-cases,
}
use scissy.Base.Bytes.{Bytes}
use scissy.Base.Rows.{any}
use scissy.Base.Rows.Member.{In, In-All, In-append, In-append_left, In-append_right}
use scissy.Base.Order.{order_by, insert_row, bytes_le}
use scissy.Pb.View.{Member}
use scissy.Schema.{Database, User, RepoUser, has_user}
use scissy.Schema.Valid.{IsValid}
use scissy.Service.View.Listing.{with_user, repo_users_of, member_list}

-- A member of the list.
module _ {A : Type 0} (c : A → Bytes) where
  In-insert_row : (x y : A) (ys : List A) → In x (insert_row c y ys) ↔ ((x ≡ y) ⊎ In x ys)
  unfolding insert_row
  In-insert_row x y [] = (λ h. h, λ h. h)
  In-insert_row x y (z ∷ ys) = elim (Bool-cases (bytes_le (c y) (c z))) [
    | inl t ↦ rw t (λ h. h, λ h. h)
    | inr f ↦ rw f (there (In-insert_row x y ys), back (In-insert_row x y ys))
  ]
    where
      there :
          In x (insert_row c y ys) ↔ ((x ≡ y) ⊎ In x ys)
          → (x ≡ z) ⊎ In x (insert_row c y ys)
          → (x ≡ y) ⊎ ((x ≡ z) ⊎ In x ys)
      there k (inl e) = inr (inl e)
      there k (inr h) = elim (k.0 h) [ inl e ↦ inl e | inr i ↦ inr (inr i) ]

      back :
          In x (insert_row c y ys) ↔ ((x ≡ y) ⊎ In x ys)
          → (x ≡ y) ⊎ ((x ≡ z) ⊎ In x ys)
          → (x ≡ z) ⊎ In x (insert_row c y ys)
      back k (inl e) = inr (k.1 (inl e))
      back k (inr (inl e)) = inl e
      back k (inr (inr i)) = inr (k.1 (inr i))

  In-order_by : (x : A) (xs : List A) → In x (order_by c xs) ↔ In x xs
  unfolding order_by
  In-order_by x [] = (λ h. h, λ h. h)
  In-order_by x (y ∷ xs) =
      let k = In-order_by x xs in
      let i = In-insert_row x y (order_by c xs) in (λ h. under k.0 (i.0 h), λ h. i.1 (under k.1 h))
    where
      under : {P Q : Type 0} → (P → Q) → (x ≡ y) ⊎ P → (x ≡ y) ⊎ Q
      under f (inl e) = inl e
      under f (inr p) = inr (f p)

with_user-In :
    (us : List User) (ru : RepoUser) (m : Member)
    → In m (with_user us ru)
    → (m.id ≡ ru.user_id) × (m.role ≡ ru.role_id)
unfolding with_user
with_user-In [] ru m h = absurd h
with_user-In (u ∷ us) ru m h = elim (Bool-cases (u.user_id == ru.user_id)) [
  | inl t ↦ found t (rw (t, with_user) at h) (with_user-In us ru m)
  | inr f ↦ with_user-In us ru m (rw (f, with_user) at h)
]
  where
    found :
        u.user_id == ru.user_id ≡ true
        → (m ≡ record { id = u.user_id; name = u.login; role = ru.role_id })
          ⊎ In m (with_user us ru)
        → (In m (with_user us ru) → (m.id ≡ ru.user_id) × (m.role ≡ ru.role_id))
        → (m.id ≡ ru.user_id) × (m.role ≡ ru.role_id)
    found t (inl e) ih = (ap (λ x. x.id) e ∙ (==_iff u.user_id ru.user_id).0 t, ap (λ x. x.role) e)
    found t (inr i) ih = ih i

In-with_user :
    (us : List User) (ru : RepoUser)
    → has_user us ru.user_id ≡ true
    → (m : Member) × In m (with_user us ru) × (m.id ≡ ru.user_id) × (m.role ≡ ru.role_id)
unfolding with_user has_user any
In-with_user [] ru h = absurd (false≢true h)
In-with_user (u ∷ us) ru h = elim (Bool-cases (u.user_id == ru.user_id)) [
  | inl t ↦ rw t (
    record { id = u.user_id; name = u.login; role = ru.role_id },
    inl refl,
    (==_iff u.user_id ru.user_id).0 t,
    refl,
  )
  | inr f ↦ let (m, i, e, e') = In-with_user us ru (ground arith) in rw f (m, i, e, e')
]

repo_users_of-In :
    (p : ℕ) (us : List User) (rus : List RepoUser) (m : Member)
    → In m (repo_users_of p us rus)
    → (ru : RepoUser) × In ru rus × (ru.repo_id ≡ p) × (m.id ≡ ru.user_id) × (m.role ≡ ru.role_id)
unfolding repo_users_of
repo_users_of-In p us [] m h = absurd h
repo_users_of-In p us (ru ∷ rus) m h = elim (Bool-cases (ru.repo_id == p)) [
  | inl t ↦
      here t (In-append m (with_user us ru) _ (rw (t, repo_users_of) at h))
        (repo_users_of-In p us rus m)
  | inr f ↦ later (repo_users_of-In p us rus m (rw (f, repo_users_of) at h))
]
  where
    later :
        ((r : RepoUser) × In r rus × (r.repo_id ≡ p) × (m.id ≡ r.user_id) × (m.role ≡ r.role_id))
        → (r : RepoUser) × In r (ru ∷ rus)
          × (r.repo_id ≡ p)
          × (m.id ≡ r.user_id)
          × (m.role ≡ r.role_id)
    later k = (k.0, inr k.1, k.2, k.3, k.4)

    here :
        ru.repo_id == p ≡ true
        → In m (with_user us ru) ⊎ In m (repo_users_of p us rus)
        → (In m (repo_users_of p us rus)
            → (r : RepoUser) × In r rus
              × (r.repo_id ≡ p)
              × (m.id ≡ r.user_id)
              × (m.role ≡ r.role_id))
        → (r : RepoUser) × In r (ru ∷ rus)
          × (r.repo_id ≡ p)
          × (m.id ≡ r.user_id)
          × (m.role ≡ r.role_id)
    here t (inl i) ih =
        let (a, b) = with_user-In us ru m i in (ru, inl refl, (==_iff ru.repo_id p).0 t, a, b)
    here t (inr i) ih = later (ih i)

In-repo_users_of :
    (p : ℕ) (us : List User) (ru : RepoUser) (rus : List RepoUser) (m : Member)
    → In ru rus
    → ru.repo_id ≡ p
    → In m (with_user us ru)
    → In m (repo_users_of p us rus)
unfolding repo_users_of
In-repo_users_of p us ru [] m h e i = absurd h
In-repo_users_of p us ru (r ∷ rus) m (inl s) e i =
    let t : r.repo_id == p ≡ true = ground arith in
    rw (t, repo_users_of) (In-append_left m (with_user us r) _ (rw s at i))
In-repo_users_of p us ru (r ∷ rus) m (inr h) e i = elim (Bool-cases (r.repo_id == p)) [
  | inl t ↦
      rw (t, repo_users_of)
        (In-append_right m (with_user us r) _ (In-repo_users_of p us ru rus m h e i))
  | inr f ↦ rw (f, repo_users_of) (In-repo_users_of p us ru rus m h e i)
]

-- The user that a member of the list is.
abbrev IsUser : List User → Member → Type 0
IsUser us m = (u : User) × In u us × (u.user_id ≡ m.id) × (u.login ≡ m.name)

with_user-IsUser :
    (us : List User) (ru : RepoUser) (m : Member) → In m (with_user us ru) → IsUser us m
unfolding with_user
with_user-IsUser [] ru m h = absurd h
with_user-IsUser (u ∷ us) ru m h = elim (Bool-cases (u.user_id == ru.user_id)) [
  | inl t ↦ found (rw (t, with_user) at h) (with_user-IsUser us ru m)
  | inr f ↦ later (with_user-IsUser us ru m (rw (f, with_user) at h))
]
  where
    later : IsUser us m → IsUser (u ∷ us) m
    later (x, i, a, b) = (x, inr i, a, b)

    found :
        (m ≡ record { id = u.user_id; name = u.login; role = ru.role_id }) ⊎ In m (with_user us ru)
        → (In m (with_user us ru) → IsUser us m)
        → IsUser (u ∷ us) m
    found (inl e) ih = (u, inl refl, sym (ap (λ x. x.id) e), sym (ap (λ x. x.name) e))
    found (inr i) ih = later (ih i)

repo_users_of-IsUser :
    (p : ℕ) (us : List User) (rus : List RepoUser) (m : Member)
    → In m (repo_users_of p us rus)
    → IsUser us m
unfolding repo_users_of
repo_users_of-IsUser p us [] m h = absurd h
repo_users_of-IsUser p us (ru ∷ rus) m h = elim (Bool-cases (ru.repo_id == p)) [
  | inl t ↦ elim (In-append m (with_user us ru) _ (rw (t, repo_users_of) at h)) [
    | inl i ↦ with_user-IsUser us ru m i
    | inr i ↦ repo_users_of-IsUser p us rus m i
  ]
  | inr f ↦ repo_users_of-IsUser p us rus m (rw (f, repo_users_of) at h)
]

-- Over a well-formed database each entry of a repository's list of members is of a row of the members'
-- table for that repository, with the row's user, the user's login and the row's role; and each such
-- row has an entry with its user and role. A role through a group makes no entry.
pub member_list-In :
    (d : Database) (p : ℕ)
    → IsValid d
    → ((m : Member)
        → In m (member_list p d).users
        → ((ru : RepoUser) × In ru d.repos_users
            × (ru.repo_id ≡ p)
            × (m.id ≡ ru.user_id)
            × (m.role ≡ ru.role_id))
          × ((u : User) × In u d.users × (u.user_id ≡ m.id) × (u.login ≡ m.name)))
      × ((ru : RepoUser)
          → In ru d.repos_users
          → ru.repo_id ≡ p
          → (m : Member) × In m (member_list p d).users
            × (m.id ≡ ru.user_id)
            × (m.role ≡ ru.role_id))
unfolding member_list
member_list-In d p v = (
  λ m h.
      let i = (In-order_by (λ x. x.name) m _).0 h in
      (
        repo_users_of-In p d.users d.repos_users m i,
        repo_users_of-IsUser p d.users d.repos_users m i,
      ),
  λ ru i e.
      let (m, j, a, b) =
        In-with_user d.users ru (In-All _ ru d.repos_users v.repo_users.fits i).1 in
      (
        m,
        (In-order_by (λ x. x.name) m _).1 (In-repo_users_of p d.users ru d.repos_users m i e j),
        a,
        b,
      ),
)
