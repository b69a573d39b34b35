-- ===== src/Legacy.antt =====
-- scissy/role.cc and scissy/groups.cc, which nothing calls.
pub mod Groups
use scissy.Base.{
  ℕ, ◌+◌, ◌≡◌, ◌≢◌, ◌↔◌, refl, Bool, true, false, ◌&&◌, Option, none, some, List, [], ◌∷◌, map, leb,
  ◌==◌, arith, if◌then◌else◌,
}
use scissy.Base.Bytes.{Bytes, codes, bytes_eq}

pub data Role : Type 0 where
  k_administrator k_contributor k_observer : Role

-- The number that stands for a role.
abbrev pub role_id : Role → ℕ
role_id k_administrator = 0
role_id k_contributor = 1
role_id k_observer = 2

unfoldable pub role_name : Role → Bytes
role_name k_administrator = codes "admin"
role_name k_contributor = codes "contrib"
role_name k_observer = codes "observer"

abbrev to_lower : ℕ → ℕ
to_lower c = if leb b'A' c && leb c b'Z' then c + 32 else c

-- A text as `c_str` gives it, up to its first zero.
abbrev c_str : Bytes → Bytes
c_str [] = []
c_str (c ∷ s) = let rest = c_str s in if c == 0 then [] else c ∷ rest

-- `!strcasecmp`
abbrev pub same_ignoring_case : Bytes → Bytes → Bool
same_ignoring_case s t = bytes_eq (map to_lower (c_str s)) (map to_lower (c_str t))

unfoldable pub parse_role : Bytes → Option Role
parse_role s =
    if same_ignoring_case (codes "observer") s
    then some k_observer
    else if same_ignoring_case (codes "contributor") s
    then some k_contributor
    else if same_ignoring_case (codes "administrator") s
    then some k_administrator
    else none

-- The name of a role is parsed to that role only for the observer; the names of the other two are
-- refused.
pub parse_role-role_name :
    (role : Role) → (parse_role (role_name role) ≡ some role) ↔ (role ≡ k_observer)
unfolding parse_role role_name bytes_eq
parse_role-role_name k_administrator = (λ h. cc, λ h. cc)
parse_role-role_name k_contributor = (λ h. cc, λ h. cc)
parse_role-role_name k_observer = (λ h. refl, λ h. refl)
