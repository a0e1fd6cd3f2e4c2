-- ===== src/Identity/Seed.antt =====
-- services/core/app/domain/onboarding.py: the seeding of the first tenant is idempotent.
use posnet_adapter.Prelude.{
  ℕ, String, Bool, true, false, ◌&&◌, none, some, List, [], ◌∷◌, ◌++◌, ◌≡◌, refl, find?, is_some,
  arith, eq_iff, Bool-cases, inl, inr,
}
use posnet_adapter.Prelude.Exec.{ok, modify, pure}
use posnet_adapter.Prelude.Posts.{
  is_ok, Establishes, Keeps, bind-Establishes, then-Establishes, modify-Establishes, bind-Keeps,
  modify-Keeps, pure-Keeps,
}
use posnet_adapter.Tables.{visible}
use posnet_adapter.Identity.{
  User, OnboardedEvent, IdentityDb, IdentityError, append_user, insert_user, create_user,
  same_subject,
}
use posnet_adapter.Identity.Onboarding.{
  Onboarding, enqueue_onboarded, onboard_tenant, knows_subject, seed_first_tenant, seen,
}

knows-append :
    (subject : String) (users : List User) (u : User)
    → same_subject u.external_subject (some subject) ≡ true
    → is_some (
        find?
          (λ x. same_subject x.external_subject (some subject) && visible none x.tenant_id)
          (users ++ u ∷ []))
      ≡ true
knows-append subject [] u own = rw own refl
knows-append subject (x ∷ users) u own =
    elim (Bool-cases (same_subject x.external_subject (some subject) && visible none x.tenant_id)) [
      | inl found ↦ rw found refl
      | inr other ↦ rw other (knows-append subject users u own)
    ]

-- The owner of the database knows a user with that subject.
abbrev Knows : String → IdentityDb → Type 0
Knows subject db = knows_subject none subject db ≡ true

module _ (subject : String) where
  insert_user-Establishes :
      (u : User)
      → same_subject u.external_subject (some subject) ≡ true
      → Establishes (Knows subject) (insert_user none u)
  insert_user-Establishes u own =
      let written : Establishes {E = IdentityError} (Knows subject) (modify (append_user u)) =
        modify-Establishes (append_user u) (λ s. knows-append subject s.users u own) in
      search (bind-Establishes, written) depth 40 fits 2000

  enqueue_onboarded-Keeps : (e : OnboardedEvent) → Keeps (Knows subject) (enqueue_onboarded none e)
  enqueue_onboarded-Keeps e =
      let written : Keeps {E = IdentityError} (Knows subject)
          (modify (λ d. record d { outbox = d.outbox ++ e ∷ [] })) =
        modify-Keeps _ (λ s h. h) in
      search (written)

module _ (o : Onboarding) where
  own_subject : same_subject (some o.admin_subject) (some o.admin_subject) ≡ true
  own_subject = ground (arith, eq_iff o.admin_subject o.admin_subject)

  create_admin-Establishes :
      (id : ℕ)
      → Establishes
          (Knows o.admin_subject)
          (create_user none id o.admin_email (some o.admin_subject) none)
  unfolding create_user
  create_admin-Establishes id =
      search (then-Establishes, bind-Establishes, insert_user-Establishes, pure-Keeps, own_subject)

  -- An onboarding that returned has left a user with the subject of the admin.
  onboard_tenant-Establishes : Establishes (Knows o.admin_subject) (onboard_tenant none o)
  unfolding onboard_tenant
  onboard_tenant-Establishes =
      search
        (
          then-Establishes, bind-Establishes, create_admin-Establishes, bind-Keeps, pure-Keeps,
          enqueue_onboarded-Keeps,
        )
        depth 20 fits 2000

  seeded :
      (known : Bool) (db : IdentityDb)
      → (known ≡ true → Knows o.admin_subject db)
      → is_ok (seen (onboard_tenant none o) known db).0 ≡ true
      → Knows o.admin_subject (seen (onboard_tenant none o) known db).1
  seeded true db h good = h refl
  seeded false db h good =
      (then-Establishes (onboard_tenant none o) (λ done. pure (some done))
          onboard_tenant-Establishes (λ done. pure-Keeps (some done))).holds
        db good

  -- A seeding that returned, by the owner of the database, makes every later one with that admin
  -- subject return nothing and change nothing.
  pub seed_first_tenant_twice :
      (db : IdentityDb) (later : Onboarding)
      → is_ok (seed_first_tenant none o db).0 ≡ true
      → later.admin_subject ≡ o.admin_subject
      → let again = (seed_first_tenant none o db).1 in
        seed_first_tenant none later again ≡ (ok none, again)
  unfolding seed_first_tenant
  seed_first_tenant_twice db later good same =
      let known = seeded (knows_subject none o.admin_subject db) db (λ h. h) good in
      rw (same, known) refl
