-- ===== src/Auth/Examples.antt =====
-- A role map, claims, and the theorems on them.
mod Readers
use project_dipstick.Base.{◌≡◌, refl, [], ◌∷◌, any, select_rows}
use project_dipstick.Auth.Precedence.{global_rank, highest_rank, resolve_role_set-rank}
use project_dipstick.Auth.RoleSets.{is_mapped, resolve_role_set-is_mapped}
use project_dipstick.Auth.Roles.{
  Claim, RoleMap, one_value, items, text_item, other_item, facilitator, engineering_manager,
  as_global, normalize_claim, resolve_role_set,
}
use project_dipstick.Sessions.Defs.{GlobalRole, role_is}

abbrev role_map : RoleMap
role_map = ("Managers", engineering_manager) ∷ ("Coaches", facilitator) ∷ []

abbrev claim : Claim
claim = items (text_item "Coaches" ∷ other_item ∷ text_item "Managers" ∷ text_item "Coaches" ∷ [])

resolve_tests :
    ((resolve_role_set claim role_map).roles
      ≡ GlobalRole.engineering_manager ∷ GlobalRole.facilitator ∷ [])
    × ((resolve_role_set claim role_map).discarded_roles ≡ facilitator ∷ [])
    × ((resolve_role_set (one_value "Interns") role_map).role ≡ GlobalRole.engineer)
unfolding resolve_role_set select_rows
resolve_tests = (refl, refl, refl)

resolve_role_set-rank_example :
    global_rank (resolve_role_set claim role_map).role
    ≡ highest_rank (normalize_claim claim) role_map
resolve_role_set-rank_example = resolve_role_set-rank claim role_map

resolve_role_set-is_mapped_example :
    any (role_is (as_global facilitator)) (resolve_role_set claim role_map).roles
    ≡ is_mapped facilitator (normalize_claim claim) role_map
resolve_role_set-is_mapped_example = resolve_role_set-is_mapped facilitator claim role_map
