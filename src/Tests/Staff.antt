-- ===== src/Tests/Staff.antt =====
-- A tenant that is seeded twice, and a role that is assigned twice:
-- services/core/app/domain/identity.py and onboarding.py.
use posnet_adapter.Prelude.{ℕ, ◌≡◌, refl, true, none, some, [], ◌∷◌}
use posnet_adapter.Prelude.Exec.{ok}
use posnet_adapter.Prelude.Posts.{is_ok}
use posnet_adapter.Identity.{
  IdentityDb, UserRole, assignment, create_role, assign_role, list_roles_with_permissions,
}
use posnet_adapter.Identity.Onboarding.{Onboarding, seed_first_tenant}
use posnet_adapter.Identity.Seed.{seed_first_tenant_twice}
use posnet_adapter.Identity.Assignments.{
  user_of, role_of, repeated, assign_role_twice, assign_role-own,
}

abbrev nobody : IdentityDb
nobody = record {
  tenants = [];
  users = [];
  roles = [];
  permissions = [];
  user_roles = [];
  outbox = [];
  next_id = 1;
}

abbrev first : Onboarding
first = record {
  name = "Posnet";
  country_code = "AZ";
  plan = "pilot";
  admin_email = "admin@posnet.az";
  admin_subject = "kc-1";
}

abbrev seeded : IdentityDb
seeded = (seed_first_tenant none first nobody).1

seeding_done : is_ok (seed_first_tenant none first nobody).0 ≡ true
unfolding seed_first_tenant
seeding_done = refl

seed_first_tenant_twice_example : seed_first_tenant none first seeded ≡ (ok none, seeded)
seed_first_tenant_twice_example = seed_first_tenant_twice first nobody first seeding_done refl

-- The tenant is 1, its admin 2, and the role 3.
abbrev staffed : IdentityDb
staffed =
    (create_role (some 1) 1 "cashier" (record { resource = "sale"; action = "write" } ∷ [])
      seeded).1

abbrev row : UserRole
row = assignment 4 1 2 3 none

abbrev assigned_once : IdentityDb
assigned_once = (assign_role (some 1) 1 2 3 none staffed).1

assigning_done : assign_role (some 1) 1 2 3 none staffed ≡ (ok row, assigned_once)
unfolding assign_role create_role seed_first_tenant
assigning_done = refl

assign_role_twice_example :
    assign_role (some 1) 1 2 3 none assigned_once ≡ repeated 1 2 3 none assigned_once
assign_role_twice_example =
    assign_role_twice (some 1) 1 2 3 none staffed assigned_once row assigning_done

assign_role-own_example :
    (◌≡◌ {A = ℕ} 1 1) × (user_of 1 2 staffed.users ≡ true) × (role_of 1 3 staffed.roles ≡ true)
assign_role-own_example = assign_role-own 1 1 2 3 none staffed assigned_once row assigning_done

cashier_listed :
    list_roles_with_permissions (some 1) (λ a b. true) staffed
    ≡ (
      record { id = 3; tenant_id = 1; name = "cashier" },
      record { resource = "sale"; action = "write" } ∷ [],
    )
      ∷ []
unfolding list_roles_with_permissions create_role seed_first_tenant
cashier_listed = refl
