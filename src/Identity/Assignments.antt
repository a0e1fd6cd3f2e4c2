-- ===== src/Identity/Assignments.antt =====
-- services/core/app/domain/identity.py: who may be given which role, and how often.
use posnet_adapter.Prelude.{
  ℕ, suc, Bool, true, false, ◌&&◌, Option, none, some, List, [], ◌∷◌, ◌++◌, ◌≡◌, refl, ◌==◌, find?,
  is_some, arith, ==_iff, Bool-cases, inl, inr,
}
use posnet_adapter.Prelude.Exec.{Result, ok, err}
use posnet_adapter.Tables.{Scope, visible}
use posnet_adapter.Identity.{
  User, Role, UserRole, IdentityDb, IdentityError, user_or_role_not_found, integrity_error,
  row_security_error, same_store, clashes_assignment, append_assignment, has_tenant, sees_user,
  sees_role, assignment, assign_role,
}

-- Whether a tenant has a user, and a role, with an id.
abbrev pub user_of : ℕ → ℕ → List User → Bool
user_of tenant id users = is_some (find? (λ u. u.id == id && u.tenant_id == tenant) users)

abbrev pub role_of : ℕ → ℕ → List Role → Bool
role_of tenant id roles = is_some (find? (λ r. r.id == id && r.tenant_id == tenant) roles)

null_differs : (o : Option ℕ) → same_store o none ≡ false
null_differs none = refl
null_differs (some s) = refl

no_clash :
    (a : UserRole) (rows : List UserRole)
    → a.store_id ≡ none
    → is_some (find? (clashes_assignment a) rows) ≡ false
no_clash a [] wide = refl
no_clash a (x ∷ rows) wide =
    let free : clashes_assignment a x ≡ false =
      rw wide (and_false (x.user_id == a.user_id && x.role_id == a.role_id) x.store_id) in
    rw free (no_clash a rows wide)
  where
    and_false : (b : Bool) (o : Option ℕ) → b && same_store o none ≡ false
    and_false true o = null_differs o
    and_false false o = refl

clash_append :
    (a b : UserRole) (rows : List UserRole)
    → clashes_assignment a b ≡ true
    → is_some (find? (clashes_assignment a) (rows ++ b ∷ [])) ≡ true
clash_append a b [] same = rw same refl
clash_append a b (x ∷ rows) same = elim (Bool-cases (clashes_assignment a x)) [
  | inl taken ↦ rw taken refl
  | inr free ↦ rw free (clash_append a b rows same)
]

module _ (scope : Scope) (tenant user role : ℕ) (store : Option ℕ) where
  abbrev new_row : IdentityDb → UserRole
  new_row db = assignment db.next_id tenant user role store

  -- What a successful assignment has found, and what it has done.
  abbrev IsAssigned : IdentityDb → IdentityDb → Type 0
  IsAssigned db db' =
      (sees_user scope user db && sees_role scope role db ≡ true)
      × (visible scope tenant ≡ true)
      × (has_tenant tenant db ≡ true)
      × (db' ≡ append_assignment (new_row db) db)

  assigned :
      (db db' : IdentityDb) (a : UserRole)
      → assign_role scope tenant user role store db ≡ (ok a, db')
      → IsAssigned db db'
  unfolding assign_role
  assigned db db' a h = elim (Bool-cases (sees_user scope user db && sees_role scope role db)) [
    | inr hidden ↦
        let no : ◌≡◌ {A = Result IdentityError UserRole × IdentityDb}
            (err user_or_role_not_found, db) (ok a, db') =
          rw hidden at h in
        cc
    | inl known ↦ elim (Bool-cases (visible scope tenant)) [
      | inr foreign ↦
          let no : ◌≡◌ {A = Result IdentityError UserRole × IdentityDb} (err row_security_error, db)
              (ok a, db') =
            rw (known, foreign) at h in
          cc
      | inl own ↦
          elim (Bool-cases (is_some (find? (clashes_assignment (new_row db)) db.user_roles))) [
            | inl taken ↦
                let no : ◌≡◌ {A = Result IdentityError UserRole × IdentityDb}
                    (err integrity_error, db) (ok a, db') =
                  rw (known, own, taken) at h in
                cc
            | inr free ↦ elim (Bool-cases (has_tenant tenant db)) [
              | inr missing ↦
                  let no : ◌≡◌ {A = Result IdentityError UserRole × IdentityDb}
                      (err integrity_error, db) (ok a, db') =
                    rw (known, own, free, missing) at h in
                  cc
              | inl there ↦
                  let done : ◌≡◌ {A = Result IdentityError UserRole × IdentityDb}
                      (ok (new_row db), append_assignment (new_row db) db) (ok a, db') =
                    rw (known, own, free, there) at h in
                  (known, own, there, cc)
            ]
          ]
    ]
  ]

-- How a second assignment of the same role to the same user ends, and what it leaves.
abbrev pub repeated : ℕ → ℕ → ℕ → Option ℕ → IdentityDb → Result IdentityError UserRole × IdentityDb
repeated tenant user role none db =
    let row = assignment db.next_id tenant user role none in (ok row, append_assignment row db)
repeated tenant user role (some s) db = (err integrity_error, db)

module _ (scope : Scope) (tenant user role : ℕ) where
  -- A role that was assigned to a user for a store cannot be assigned to it for that store again:
  -- the integrity error leaves the tables as they were. One that was assigned for the whole tenant
  -- can: the call returns a second assignment, and its row is written beside the first.
  pub assign_role_twice :
      (store : Option ℕ) (db db' : IdentityDb) (a : UserRole)
      → assign_role scope tenant user role store db ≡ (ok a, db')
      → assign_role scope tenant user role store db' ≡ repeated tenant user role store db'
  unfolding assign_role
  assign_role_twice none db db' a h =
      let (known, own, there, is) = assigned scope tenant user role none db db' a h in
      let row = assignment (suc db.next_id) tenant user role none in
      rw
        (
          is,
          known,
          own,
          there,
          no_clash row (append_assignment (new_row scope tenant user role none db) db).user_roles
              refl,
        )
        refl
  assign_role_twice (some s) db db' a h =
      let (known, own, there, is) = assigned scope tenant user role (some s) db db' a h in
      let old = assignment db.next_id tenant user role (some s) in
      let row = assignment (suc db.next_id) tenant user role (some s) in
      let same : clashes_assignment row old ≡ true = ground arith in
      rw (is, known, own, clash_append row old db.user_roles same) refl

-- In a session of a tenant, a role is assigned only for that tenant, to a user of the tenant, and
-- only if the role is the tenant's own.
pub assign_role-own :
    (current tenant user role : ℕ) (store : Option ℕ) (db db' : IdentityDb) (a : UserRole)
    → assign_role (some current) tenant user role store db ≡ (ok a, db')
    → (tenant ≡ current)
      × (user_of current user db.users ≡ true)
      × (role_of current role db.roles ≡ true)
assign_role-own current tenant user role store db db' a h =
    let (known, own, _, _) = assigned (some current) tenant user role store db db' a h in
    let (seen_user, seen_role) = both (sees_user (some current) user db) _ known in
    ((==_iff tenant current).0 own, seen_user, seen_role)
  where
    both : (x y : Bool) → x && y ≡ true → (x ≡ true) × (y ≡ true)
    both true y h = (refl, h)
    both false y h = cc
