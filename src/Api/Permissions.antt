-- ===== src/Api/Permissions.antt =====
-- tms/api/permissions.py: what a caller may do, by the roles that it has.
use trino_management_service.Prelude.{
  ℕ, String, ◌≡◌, refl, ◌⊎◌, Bool, false, ◌||◌, Option, none, some, List, [], ◌∷◌, ◌++◌, inl, inr,
  arith, eq_iff, ◌==◌, str_eq, if◌then◌else◌, mem_text, keep,
}

pub data Capability : Type 0 where
  view_portal view_queries kill_query view_health manage_health view_audit export_audit : Capability

-- `_ROLE_CAPABILITIES`; `none` where the role is not a key of the table.
unfoldable pub role_capabilities : String → Option (List Capability)
role_capabilities role =
    if str_eq role "viewer"
    then some (view_portal ∷ view_queries ∷ view_health ∷ [])
    else if str_eq role "operator"
    then some (view_portal ∷ view_queries ∷ view_health ∷ kill_query ∷ view_audit ∷ [])
    else if str_eq role "admin"
    then some (
        view_portal ∷ view_queries ∷ view_health ∷ kill_query ∷ view_audit ∷ manage_health
        ∷ export_audit ∷ [])
    else none

pub record Principal : Type 0 where
  pub username : String
  pub roles : List String
  pub ip : Option String

abbrev is_known : String → Bool
is_known role = str_eq role "viewer" || (str_eq role "operator" || str_eq role "admin")

-- `Principal(username, roles, ip)`: a role that the table does not have is dropped.
unfoldable pub principal : String → List String → Option String → Principal
principal username roles ip = record { username = username; roles = keep is_known roles; ip = ip }

abbrev or_nothing : Option (List Capability) → List Capability
or_nothing none = []
or_nothing (some cs) = cs

-- What the roles grant together. The source sorts this set; it is only asked for members.
granted : List String → List Capability
granted [] = []
granted (role ∷ rest) = or_nothing (role_capabilities role) ++ granted rest

unfoldable pub capabilities : Principal → List Capability
unfolding granted role_capabilities
capabilities p = granted p.roles

abbrev code : Capability → ℕ
code view_portal = 0
code view_queries = 1
code kill_query = 2
code view_health = 3
code manage_health = 4
code view_audit = 5
code export_audit = 6

abbrev grants : Capability → List Capability → Bool
grants c [] = false
grants c (d ∷ rest) = code c == code d || grants c rest

unfoldable pub can : Capability → Principal → Bool
unfolding capabilities
can c p = grants c (capabilities p)

grants-append :
    (c : Capability) (xs ys : List Capability) → grants c (xs ++ ys) ≡ (grants c xs || grants c ys)
grants-append c [] ys = refl
grants-append c (x ∷ xs) ys = ground (arith, grants-append c xs ys)

-- The texts of the roles are different.
role_cases :
    (role : String)
    → (role ≡ "viewer") ⊎ ((role ≡ "operator") ⊎ ((role ≡ "admin") ⊎ (is_known role ≡ false)))
role_cases role = ground (arith, eq_iff role "viewer", eq_iff role "operator", eq_iff role "admin")

manages :
    (roles : List String)
    → grants manage_health (granted (keep is_known roles)) ≡ mem_text "admin" roles
unfolding granted role_capabilities
manages [] = refl
manages (role ∷ rest) = elim (role_cases role) [
  | inl v ↦ rw v (manages rest)
  | inr (inl o) ↦ rw o (manages rest)
  | inr (inr (inl a)) ↦ rw a
  | inr (inr (inr u)) ↦ ground (arith, manages rest)
]

kills :
    (roles : List String)
    → grants kill_query (granted (keep is_known roles))
      ≡ (mem_text "operator" roles || mem_text "admin" roles)
unfolding granted role_capabilities
kills [] = refl
kills (role ∷ rest) = elim (role_cases role) [
  | inl v ↦ rw v (kills rest)
  | inr (inl o) ↦ rw o
  | inr (inr (inl a)) ↦ rw a (ground arith)
  | inr (inr (inr u)) ↦ ground (arith, kills rest)
]

-- Only an `admin` role manages health (and so restarts clusters); killing a query takes `operator`
-- or `admin`. Roles that the table does not know add nothing.
pub can-principal :
    (username : String) (roles : List String) (ip : Option String)
    → (can manage_health (principal username roles ip) ≡ mem_text "admin" roles)
      × (can kill_query (principal username roles ip)
          ≡ (mem_text "operator" roles || mem_text "admin" roles))
unfolding can principal
can-principal username roles ip = (manages roles, kills roles)
