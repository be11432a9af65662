-- ===== src/Auth/Roles.antt =====
-- The role that a sign-in gives (packages/backend/src/auth/role-map.ts): normalizeClaim, mapValues
-- and resolveRoleSet.
use Prim.Native.String.{String}
use project_dipstick.Base.{
  ℕ, Bool, true, false, ◌&&◌, not, Option, none, some, List, [], ◌∷◌, map, ltb, leb, if◌then◌else◌,
  any, select_rows,
}
use project_dipstick.Base as Base
use project_dipstick.Sessions.Defs.{GlobalRole}
use text.Mathlib.Text.{◌==◌}

pub data MappableRole : Type 0 where
  senior_engineer facilitator engineering_manager application_admin : MappableRole

-- RANK.
unfoldable pub rank : MappableRole → ℕ
rank application_admin = 4
rank engineering_manager = 3
rank facilitator = 2
rank senior_engineer = 1

unfoldable pub as_global : MappableRole → GlobalRole
as_global application_admin = GlobalRole.application_admin
as_global engineering_manager = GlobalRole.engineering_manager
as_global facilitator = GlobalRole.facilitator
as_global senior_engineer = GlobalRole.senior_engineer

-- `===` on the labels, which the ranks tell apart.
unfoldable pub same_role : MappableRole → MappableRole → Bool
unfolding rank
same_role a b = Base.◌==◌ (rank a) (rank b)

-- A claim's value: a text, an array, or anything else; an array's element in the same way.
pub data Item : Type 0 where
  text_item : String → Item
  other_item : Item

pub data Claim : Type 0 where
  one_value : String → Claim
  items : List Item → Claim
  other : Claim

normalize_items : List Item → List String
normalize_items [] = []
normalize_items (other_item ∷ is) = normalize_items is
normalize_items (text_item s ∷ is) =
    let rest = normalize_items is in if s == "" then rest else s ∷ rest

unfoldable pub normalize_claim : Claim → List String
unfolding normalize_items
normalize_claim (one_value s) = if s == "" then [] else s ∷ []
normalize_claim (items is) = normalize_items is
normalize_claim other = []

-- OIDC_ROLE_MAP, validated: its keys are unique.
abbrev pub RoleMap : Type 0
RoleMap = List (String × MappableRole)

unfoldable pub role_for : String → RoleMap → Option MappableRole
role_for v [] = none
role_for v ((k, r) ∷ m) = if k == v then some r else role_for v m

abbrev add_role : Option MappableRole → List MappableRole → List MappableRole
add_role none rs = rs
add_role (some r) rs = r ∷ rs

unfoldable pub map_values : List String → RoleMap → List MappableRole
unfolding role_for
map_values [] m = []
map_values (v ∷ vs) m = add_role (role_for v m) (map_values vs m)

-- [...new Set(mapped)]: first occurrences, in order.
unfoldable pub unique_roles : List MappableRole → List MappableRole
unfolding same_role
unique_roles [] = []
unique_roles (r ∷ rs) = r ∷ select_rows (λ u. not (same_role r u)) (unique_roles rs)

unfoldable pub insert_role : MappableRole → List MappableRole → List MappableRole
insert_role r [] = r ∷ []
insert_role r (u ∷ us) = if leb (rank u) (rank r) then r ∷ u ∷ us else u ∷ insert_role r us

-- .sort(byPrecedenceDesc).
unfoldable pub sort_roles : List MappableRole → List MappableRole
unfolding insert_role
sort_roles [] = []
sort_roles (r ∷ rs) = insert_role r (sort_roles rs)

pub data RoleOutcome : Type 0 where
  missing unmapped mapped : RoleOutcome

-- RoleSetResolution.
pub record RoleSet : Type 0 where
  pub roles : List GlobalRole
  pub role : GlobalRole
  pub discarded_roles : List MappableRole
  pub outcome : RoleOutcome

abbrev fallback : RoleOutcome → RoleSet
fallback o = record {
  roles = GlobalRole.engineer ∷ [];
  role = GlobalRole.engineer;
  discarded_roles = [];
  outcome = o;
}

-- DISCARDABLE.
abbrev discardable : List MappableRole
discardable = engineering_manager ∷ facilitator ∷ []

unfoldable pub resolve_sorted : List MappableRole → RoleSet
unfolding rank as_global same_role
resolve_sorted [] = fallback unmapped
resolve_sorted (r ∷ rs) = record {
  roles = map as_global (r ∷ rs);
  role = as_global r;
  discarded_roles =
      select_rows (λ d. any (same_role d) (r ∷ rs) && ltb (rank d) (rank r)) discardable;
  outcome = mapped;
}

unfoldable pub resolve_values : List String → RoleMap → RoleSet
unfolding resolve_sorted sort_roles unique_roles map_values
resolve_values [] m = fallback missing
resolve_values (v ∷ vs) m = resolve_sorted (sort_roles (unique_roles (map_values (v ∷ vs) m)))

unfoldable pub resolve_role_set : Claim → RoleMap → RoleSet
unfolding resolve_values normalize_claim
resolve_role_set claim m = resolve_values (normalize_claim claim) m
