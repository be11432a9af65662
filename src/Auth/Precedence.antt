-- ===== src/Auth/Precedence.antt =====
-- The role of a sign-in, against the ranks of the roles that the claim's values map to.
use Prim.Native.String.{String}
use project_dipstick.Base.{
  ℕ, ◌≤◌, not, ◌≡◌, refl, ◌∙◌, inl, inr, Option, none, some, List, [], ◌∷◌, arith, max, All,
  select_rows, leb, Bool-cases, Option-cases,
}
use project_dipstick.Auth.Roles.{
  MappableRole, Claim, RoleMap, rank, as_global, same_role, normalize_claim, role_for, map_values,
  unique_roles, insert_role, sort_roles, resolve_sorted, resolve_values, resolve_role_set,
  application_admin, engineering_manager, facilitator, senior_engineer,
}
use project_dipstick.Sessions.Defs.{GlobalRole}

-- The place of a role in the order of precedence, `engineer` the lowest.
abbrev pub global_rank : GlobalRole → ℕ
global_rank GlobalRole.engineer = 0
global_rank GlobalRole.senior_engineer = 1
global_rank GlobalRole.facilitator = 2
global_rank GlobalRole.engineering_manager = 3
global_rank GlobalRole.application_admin = 4

abbrev pub rank_of : Option MappableRole → ℕ
rank_of none = 0
rank_of (some r) = rank r

-- The highest rank that a list of values maps to, 0 if none is mapped.
abbrev pub highest_rank : List String → RoleMap → ℕ
highest_rank [] m = 0
highest_rank (v ∷ vs) m = max (rank_of (role_for v m)) (highest_rank vs m)

abbrev max_rank : List MappableRole → ℕ
max_rank [] = 0
max_rank (r ∷ rs) = max (rank r) (max_rank rs)

global_rank-as_global : (r : MappableRole) → global_rank (as_global r) ≡ rank r
unfolding as_global rank
global_rank-as_global application_admin = refl
global_rank-as_global engineering_manager = refl
global_rank-as_global facilitator = refl
global_rank-as_global senior_engineer = refl

max_rank-map_values :
    (vs : List String) (m : RoleMap) → max_rank (map_values vs m) ≡ highest_rank vs m
unfolding map_values
max_rank-map_values [] m = refl
max_rank-map_values (v ∷ vs) m = elim (Option-cases (role_for v m)) [
  | inl unmapped ↦ rw (unmapped, map_values) (ground (arith, max_rank-map_values vs m))
  | inr (r, e) ↦ rw (e, map_values) (ground (arith, max_rank-map_values vs m))
]

max_rank-select_rows :
    (r : MappableRole) (rs : List MappableRole)
    → max (rank r) (max_rank (select_rows (λ u. not (same_role r u)) rs))
      ≡ max (rank r) (max_rank rs)
unfolding select_rows same_role
max_rank-select_rows r [] = refl
max_rank-select_rows r (u ∷ us) = ground (arith, max_rank-select_rows r us)

max_rank-unique_roles : (rs : List MappableRole) → max_rank (unique_roles rs) ≡ max_rank rs
unfolding unique_roles
max_rank-unique_roles [] = refl
max_rank-unique_roles (r ∷ rs) =
    ground (arith, max_rank-select_rows r (unique_roles rs), max_rank-unique_roles rs)

max_rank-insert_role :
    (r : MappableRole) (rs : List MappableRole)
    → max_rank (insert_role r rs) ≡ max (rank r) (max_rank rs)
unfolding insert_role
max_rank-insert_role r [] = refl
max_rank-insert_role r (u ∷ us) = ground (arith, max_rank-insert_role r us)

max_rank-sort_roles : (rs : List MappableRole) → max_rank (sort_roles rs) ≡ max_rank rs
unfolding sort_roles
max_rank-sort_roles [] = refl
max_rank-sort_roles (r ∷ rs) =
    ground (arith, max_rank-insert_role r (sort_roles rs), max_rank-sort_roles rs)

-- No role is followed by a higher one.
abbrev pub IsFalling : List MappableRole → Type 0
IsFalling [] = Unit
IsFalling (r ∷ rs) = All (λ u. rank u ≤ rank r) rs × IsFalling rs

All-insert_role :
    (r u : MappableRole) (rs : List MappableRole)
    → rank u ≤ rank r
    → All (λ x. rank x ≤ rank r) rs
    → All (λ x. rank x ≤ rank r) (insert_role u rs)
unfolding insert_role
All-insert_role r u [] h p = (h, tt)
All-insert_role r u (x ∷ xs) h (p, ps) = elim (Bool-cases (leb (rank x) (rank u))) [
  | inl before ↦ rw (before) (h, (p, ps))
  | inr after ↦ rw (after) (p, All-insert_role r u xs h ps)
]

All-rank :
    (r u : MappableRole) (rs : List MappableRole)
    → rank r ≤ rank u
    → All (λ x. rank x ≤ rank r) rs
    → All (λ x. rank x ≤ rank u) rs
All-rank r u [] h p = tt
All-rank r u (x ∷ xs) h (p, ps) = (omega arith, All-rank r u xs h ps)

insert_role-IsFalling :
    (r : MappableRole) (rs : List MappableRole) → IsFalling rs → IsFalling (insert_role r rs)
unfolding insert_role
insert_role-IsFalling r [] p = (tt, tt)
insert_role-IsFalling r (u ∷ us) (p, ps) = elim (Bool-cases (leb (rank u) (rank r))) [
  | inl before ↦ rw (before) ((ground arith, All-rank u r us (ground arith) p), (p, ps))
  | inr after ↦ rw (after) (All-insert_role u r us (ground arith) p, insert_role-IsFalling r us ps)
]

sort_roles-IsFalling : (rs : List MappableRole) → IsFalling (sort_roles rs)
unfolding sort_roles
sort_roles-IsFalling [] = tt
sort_roles-IsFalling (r ∷ rs) = insert_role-IsFalling r (sort_roles rs) (sort_roles-IsFalling rs)

-- In falling order the first is the highest.
max_rank-first :
    (r : MappableRole) (rs : List MappableRole)
    → All (λ u. rank u ≤ rank r) rs
    → max_rank (r ∷ rs) ≡ rank r
max_rank-first r [] p = omega arith
max_rank-first r (u ∷ us) (p, ps) = ground (arith, max_rank-first r us ps)

resolve_sorted-rank :
    (rs : List MappableRole) → IsFalling rs → global_rank (resolve_sorted rs).role ≡ max_rank rs
unfolding resolve_sorted
resolve_sorted-rank [] p = refl
resolve_sorted-rank (r ∷ rs) (p, ps) =
    ground (arith, global_rank-as_global r, max_rank-first r rs p)

resolve_values-rank :
    (vs : List String) (m : RoleMap) → global_rank (resolve_values vs m).role ≡ highest_rank vs m
unfolding resolve_values
resolve_values-rank [] m = refl
resolve_values-rank (v ∷ vs) m =
    let rs = map_values (v ∷ vs) m in
    resolve_sorted-rank (sort_roles (unique_roles rs)) (sort_roles-IsFalling (unique_roles rs))
    ∙ (max_rank-sort_roles (unique_roles rs)
        ∙ (max_rank-unique_roles rs ∙ max_rank-map_values (v ∷ vs) m))

-- The role of a sign-in has the highest rank among the roles that the claim's values map to; it is
-- `engineer`, of rank 0, if none is mapped.
pub resolve_role_set-rank :
    (claim : Claim) (m : RoleMap)
    → global_rank (resolve_role_set claim m).role ≡ highest_rank (normalize_claim claim) m
unfolding resolve_role_set
resolve_role_set-rank claim m = resolve_values-rank (normalize_claim claim) m
