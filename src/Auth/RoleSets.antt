-- ===== src/Auth/RoleSets.antt =====
-- The set of roles that a sign-in stores, against the values of the claim.
use Prim.Native.String.{String}
use project_dipstick.Base.{
  Bool, false, ◌||◌, not, ◌≡◌, refl, ◌∙◌, inl, inr, Option, none, some, List, [], ◌∷◌, map, arith,
  any, select_rows, Option-cases,
}
use project_dipstick.Auth.Roles.{
  MappableRole, Claim, RoleMap, rank, as_global, same_role, normalize_claim, role_for, map_values,
  unique_roles, insert_role, sort_roles, resolve_sorted, resolve_values, resolve_role_set,
  application_admin, engineering_manager, facilitator, senior_engineer,
}
use project_dipstick.Sessions.Defs.{role_is}

abbrev pub is_role : MappableRole → Option MappableRole → Bool
is_role r none = false
is_role r (some u) = same_role r u

-- One of the values maps to the role.
abbrev pub is_mapped : MappableRole → List String → RoleMap → Bool
is_mapped r vs m = any (λ v. is_role r (role_for v m)) vs

role_is-as_global : (r u : MappableRole) → role_is (as_global r) (as_global u) ≡ same_role r u
unfolding as_global same_role rank
role_is-as_global application_admin u = ground arith
role_is-as_global engineering_manager u = ground arith
role_is-as_global facilitator u = ground arith
role_is-as_global senior_engineer u = ground arith

any-map :
    (r : MappableRole) (rs : List MappableRole)
    → any (role_is (as_global r)) (map as_global rs) ≡ any (same_role r) rs
any-map r [] = refl
any-map r (u ∷ us) = ground (arith, role_is-as_global r u, any-map r us)

any-map_values :
    (r : MappableRole) (vs : List String) (m : RoleMap)
    → any (same_role r) (map_values vs m) ≡ is_mapped r vs m
unfolding map_values
any-map_values r [] m = refl
any-map_values r (v ∷ vs) m = elim (Option-cases (role_for v m)) [
  | inl unmapped ↦ rw (unmapped, map_values) (ground (arith, any-map_values r vs m))
  | inr (u, e) ↦ rw (e, map_values) (ground (arith, any-map_values r vs m))
]

any-select_rows :
    (r u : MappableRole) (rs : List MappableRole)
    → (same_role r u || any (same_role r) (select_rows (λ x. not (same_role u x)) rs))
      ≡ (same_role r u || any (same_role r) rs)
unfolding select_rows same_role
any-select_rows r u [] = refl
any-select_rows r u (x ∷ xs) = ground (arith, any-select_rows r u xs)

any-unique_roles :
    (r : MappableRole) (rs : List MappableRole)
    → any (same_role r) (unique_roles rs) ≡ any (same_role r) rs
unfolding unique_roles
any-unique_roles r [] = refl
any-unique_roles r (u ∷ us) =
    ground (arith, any-select_rows r u (unique_roles us), any-unique_roles r us)

any-insert_role :
    (r u : MappableRole) (rs : List MappableRole)
    → any (same_role r) (insert_role u rs) ≡ (same_role r u || any (same_role r) rs)
unfolding insert_role
any-insert_role r u [] = refl
any-insert_role r u (x ∷ xs) = ground (arith, any-insert_role r u xs)

any-sort_roles :
    (r : MappableRole) (rs : List MappableRole)
    → any (same_role r) (sort_roles rs) ≡ any (same_role r) rs
unfolding sort_roles
any-sort_roles r [] = refl
any-sort_roles r (u ∷ us) = ground (arith, any-insert_role r u (sort_roles us), any-sort_roles r us)

any-resolve_sorted :
    (r : MappableRole) (rs : List MappableRole)
    → any (role_is (as_global r)) (resolve_sorted rs).roles ≡ any (same_role r) rs
unfolding resolve_sorted as_global
any-resolve_sorted application_admin [] = refl
any-resolve_sorted engineering_manager [] = refl
any-resolve_sorted facilitator [] = refl
any-resolve_sorted senior_engineer [] = refl
any-resolve_sorted r (u ∷ us) = any-map r (u ∷ us)

any-resolve_values :
    (r : MappableRole) (vs : List String) (m : RoleMap)
    → any (role_is (as_global r)) (resolve_values vs m).roles ≡ is_mapped r vs m
unfolding resolve_values as_global
any-resolve_values application_admin [] m = refl
any-resolve_values engineering_manager [] m = refl
any-resolve_values facilitator [] m = refl
any-resolve_values senior_engineer [] m = refl
any-resolve_values r (v ∷ vs) m =
    let rs = map_values (v ∷ vs) m in
    any-resolve_sorted r (sort_roles (unique_roles rs))
    ∙ (any-sort_roles r (unique_roles rs) ∙ (any-unique_roles r rs ∙ any-map_values r (v ∷ vs) m))

-- A role other than `engineer` is among the roles that a sign-in stores exactly when one of the
-- claim's values maps to it.
pub resolve_role_set-is_mapped :
    (r : MappableRole) (claim : Claim) (m : RoleMap)
    → any (role_is (as_global r)) (resolve_role_set claim m).roles
      ≡ is_mapped r (normalize_claim claim) m
unfolding resolve_role_set
resolve_role_set-is_mapped r claim m = any-resolve_values r (normalize_claim claim) m
