-- ===== src/Identity.antt =====
-- services/core/app/domain/identity.py, over the tables of
-- services/core/app/infrastructure/db/models.py that it writes. A database error is raised where
-- the table's constraint or its row level security raises it: a text that is too long for its
-- column, then the policy, then a key that is taken or a row that is referred to and missing.
pub mod Assignments
pub mod Onboarding
pub mod Seed
use posnet_adapter.Prelude.{
  ℕ, suc, String, Bool, true, false, not, ◌&&◌, ◌||◌, Option, none, some, List, [], ◌∷◌, ◌++◌, map,
  ◌==◌, leb, find?, is_some, select, sort_by, str_eq, if◌then◌else◌,
}
use posnet_adapter.Prelude.Exec.{
  Result, ok, err, Exec, pure, raise, gets, raise_if, modify, ◌>>=◌, ◌>>◌,
}
use posnet_adapter.Tables.{Scope, visible, too_long, too_long_if}

pub record Tenant : Type 0 where
  pub id : ℕ
  pub name : String
  pub country_code : String
  pub plan : String
  pub status : String

pub record User : Type 0 where
  pub id : ℕ
  pub tenant_id : ℕ
  pub email : String
  pub external_subject : Option String
  pub phone : Option String

pub record Role : Type 0 where
  pub id : ℕ
  pub tenant_id : ℕ
  pub name : String

pub record PermissionSpec : Type 0 where
  pub resource : String
  pub action : String

pub record Permission : Type 0 where
  pub tenant_id : ℕ
  pub role_id : ℕ
  pub spec : PermissionSpec

pub record UserRole : Type 0 where
  pub id : ℕ
  pub tenant_id : ℕ
  pub user_id : ℕ
  pub role_id : ℕ
  pub store_id : Option ℕ

-- The event `identity.tenant.onboarded`.
pub record OnboardedEvent : Type 0 where
  pub tenant_id : ℕ
  pub admin_user_id : ℕ
  pub name : String
  pub country_code : String

pub record IdentityDb : Type 0 where
  pub tenants : List Tenant
  pub users : List User
  pub roles : List Role
  pub permissions : List Permission
  pub user_roles : List UserRole
  pub outbox : List OnboardedEvent
  pub next_id : ℕ

pub data IdentityError : Type 0 where
  user_or_role_not_found integrity_error row_security_error data_error : IdentityError

abbrev pub same_subject : Option String → Option String → Bool
same_subject (some a) (some b) = str_eq a b
same_subject _ _ = false

abbrev pub has_tenant : ℕ → IdentityDb → Bool
has_tenant tenant db = is_some (find? (λ x. x.id == tenant) db.tenants)

-- UNIQUE (tenant_id, email) and UNIQUE (external_subject), where NULLs differ.
abbrev pub clashes_user : User → User → Bool
clashes_user u x =
    (x.tenant_id == u.tenant_id && str_eq x.email u.email)
    || same_subject x.external_subject u.external_subject

abbrev pub append_user : User → IdentityDb → IdentityDb
append_user u db = record db { users = db.users ++ u ∷ []; next_id = suc db.next_id }

abbrev pub insert_user : Scope → User → Exec IdentityError IdentityDb (Unit {0})
insert_user scope u = do
  db ← gets (λ db. db)
  raise_if (too_long 255 u.email || (too_long_if 255 u.external_subject || too_long_if 20 u.phone))
      data_error
  raise_if (not (visible scope u.tenant_id)) row_security_error
  raise_if (is_some (find? (clashes_user u) db.users)) integrity_error
  raise_if (not (has_tenant u.tenant_id db)) integrity_error
  modify (append_user u)

unfoldable pub create_user :
    Scope → ℕ → String → Option String → Option String → Exec IdentityError IdentityDb User
create_user scope tenant email subject phone = do
  id ← gets (λ db. db.next_id)
  let u : User = record {
    id = id;
    tenant_id = tenant;
    email = email;
    external_subject = subject;
    phone = phone;
  }
  insert_user scope u
  pure u

unfoldable pub list_users : Scope → (User → User → Bool) → IdentityDb → List User
list_users scope before db = sort_by before (select (λ u. visible scope u.tenant_id) db.users)

-- UNIQUE (tenant_id, name).
abbrev pub insert_role : Scope → Role → Exec IdentityError IdentityDb (Unit {0})
insert_role scope r = do
  db ← gets (λ db. db)
  raise_if (too_long 100 r.name) data_error
  raise_if (not (visible scope r.tenant_id)) row_security_error
  raise_if (is_some (find? (λ x. x.tenant_id == r.tenant_id && str_eq x.name r.name) db.roles))
      integrity_error
  raise_if (not (has_tenant r.tenant_id db)) integrity_error
  modify (λ d. record d { roles = d.roles ++ r ∷ []; next_id = suc d.next_id })

-- UNIQUE (role_id, resource, action).
abbrev pub same_permission : Permission → Permission → Bool
same_permission p x =
    x.role_id == p.role_id
    && (str_eq x.spec.resource p.spec.resource && str_eq x.spec.action p.spec.action)

abbrev pub insert_permission : Scope → Permission → Exec IdentityError IdentityDb (Unit {0})
insert_permission scope p = do
  db ← gets (λ db. db)
  raise_if (too_long 100 p.spec.resource || too_long 100 p.spec.action) data_error
  raise_if (not (visible scope p.tenant_id)) row_security_error
  raise_if (is_some (find? (same_permission p) db.permissions)) integrity_error
  modify (λ d. record d { permissions = d.permissions ++ p ∷ [] })

abbrev pub insert_permissions :
    Scope → ℕ → ℕ → List PermissionSpec → Exec IdentityError IdentityDb (Unit {0})
insert_permissions scope tenant role [] = pure tt
insert_permissions scope tenant role (spec ∷ specs) = do
  insert_permission scope (record { tenant_id = tenant; role_id = role; spec = spec })
  insert_permissions scope tenant role specs

unfoldable pub create_role :
    Scope → ℕ → String → List PermissionSpec → Exec IdentityError IdentityDb Role
create_role scope tenant name permissions = do
  id ← gets (λ db. db.next_id)
  let r : Role = record { id = id; tenant_id = tenant; name = name }
  insert_role scope r
  insert_permissions scope tenant id permissions
  pure r

-- UNIQUE (user_id, role_id, store_id), where NULLs differ.
abbrev pub same_store : Option ℕ → Option ℕ → Bool
same_store (some a) (some b) = a == b
same_store _ _ = false

abbrev pub clashes_assignment : UserRole → UserRole → Bool
clashes_assignment a x =
    (x.user_id == a.user_id && x.role_id == a.role_id) && same_store x.store_id a.store_id

abbrev pub append_assignment : UserRole → IdentityDb → IdentityDb
append_assignment a db = record db {
  user_roles = db.user_roles ++ a ∷ [];
  next_id = suc db.next_id;
}

abbrev pub insert_assignment : Scope → UserRole → Exec IdentityError IdentityDb (Unit {0})
insert_assignment scope a = do
  db ← gets (λ db. db)
  raise_if (not (visible scope a.tenant_id)) row_security_error
  raise_if (is_some (find? (clashes_assignment a) db.user_roles)) integrity_error
  raise_if (not (has_tenant a.tenant_id db)) integrity_error
  modify (append_assignment a)

abbrev pub sees_user : Scope → ℕ → IdentityDb → Bool
sees_user scope id db = is_some (find? (λ u. u.id == id && visible scope u.tenant_id) db.users)

abbrev pub sees_role : Scope → ℕ → IdentityDb → Bool
sees_role scope id db = is_some (find? (λ r. r.id == id && visible scope r.tenant_id) db.roles)

abbrev pub assignment : ℕ → ℕ → ℕ → ℕ → Option ℕ → UserRole
assignment id tenant user role store = record {
  id = id;
  tenant_id = tenant;
  user_id = user;
  role_id = role;
  store_id = store;
}

unfoldable pub assign_role : Scope → ℕ → ℕ → ℕ → Option ℕ → Exec IdentityError IdentityDb UserRole
assign_role scope tenant user role store = do
  db ← gets (λ db. db)
  raise_if (not (sees_user scope user db && sees_role scope role db)) user_or_role_not_found
  insert_assignment scope (assignment db.next_id tenant user role store)
  pure (assignment db.next_id tenant user role store)

unfoldable pub list_roles_with_permissions :
    Scope → (Role → Role → Bool) → IdentityDb → List (Role × List PermissionSpec)
list_roles_with_permissions scope before db =
    map
      (λ r. (
        r,
        map (λ p. p.spec)
            (select (λ p. p.role_id == r.id && visible scope p.tenant_id) db.permissions),
      ))
      (sort_by before (select (λ r. visible scope r.tenant_id) db.roles))
