-- ===== src/Identity/Onboarding.antt =====
-- services/core/app/domain/onboarding.py: a new tenant with its first user, and the seeding of the
-- first tenant.
use posnet_adapter.Prelude.{
  ℕ, suc, String, Bool, true, false, not, ◌&&◌, ◌||◌, Option, none, some, [], ◌∷◌, ◌++◌, find?,
  is_some,
}
use posnet_adapter.Prelude.Exec.{Exec, pure, gets, raise_if, modify, ◌>>=◌, ◌>>◌}
use posnet_adapter.Tables.{Scope, visible, too_long}
use posnet_adapter.Identity.{
  Tenant, OnboardedEvent, IdentityDb, IdentityError, data_error, row_security_error, same_subject,
  create_user,
}

-- `TenantOnboarded`.
pub record TenantOnboarded : Type 0 where
  pub tenant_id : ℕ
  pub admin_user_id : ℕ
  pub name : String
  pub status : String

pub record Onboarding : Type 0 where
  pub name : String
  pub country_code : String
  pub plan : String
  pub admin_email : String
  pub admin_subject : String

abbrev pub insert_tenant : Scope → Tenant → Exec IdentityError IdentityDb (Unit {0})
insert_tenant scope x = do
  raise_if (too_long 2 x.country_code || too_long 50 x.plan) data_error
  raise_if (not (visible scope x.id)) row_security_error
  modify (λ d. record d { tenants = d.tenants ++ x ∷ []; next_id = suc d.next_id })

abbrev pub enqueue_onboarded : Scope → OnboardedEvent → Exec IdentityError IdentityDb (Unit {0})
enqueue_onboarded scope e = do
  raise_if (not (visible scope e.tenant_id)) row_security_error
  modify (λ d. record d { outbox = d.outbox ++ e ∷ [] })

unfoldable pub onboard_tenant : Scope → Onboarding → Exec IdentityError IdentityDb TenantOnboarded
unfolding create_user
onboard_tenant scope o = do
  id ← gets (λ db. db.next_id)
  insert_tenant scope (record {
    id = id;
    name = o.name;
    country_code = o.country_code;
    plan = o.plan;
    status = "active";
  })
  admin ← create_user scope id o.admin_email (some o.admin_subject) none
  enqueue_onboarded scope (record {
    tenant_id = id;
    admin_user_id = admin.id;
    name = o.name;
    country_code = o.country_code;
  })
  pure (record { tenant_id = id; admin_user_id = admin.id; name = o.name; status = "active" })

abbrev pub knows_subject : Scope → String → IdentityDb → Bool
knows_subject scope subject db = is_some (
    find? (λ u. same_subject u.external_subject (some subject) && visible scope u.tenant_id)
      db.users)

abbrev pub seen :
    Exec IdentityError IdentityDb TenantOnboarded
    → Bool
    → Exec IdentityError IdentityDb (Option TenantOnboarded)
seen onboard true = pure none
seen onboard false = do done ← onboard; pure (some done)

unfoldable pub seed_first_tenant :
    Scope → Onboarding → Exec IdentityError IdentityDb (Option TenantOnboarded)
unfolding onboard_tenant
seed_first_tenant scope o = do
  known ← gets (knows_subject scope o.admin_subject)
  seen (onboard_tenant scope o) known
