-- ===== src/Catalog/Publish.antt =====
-- Publication: the gate and the events.
use mathlib.Core.List.{append-nil, append_assoc}
use posnet_adapter.Prelude.{
  ℕ, suc, ◌+◌, ◌≡◌, ap, ◌∙◌, Bool, true, false, some, List, [], ◌∷◌, ◌++◌, map, arith, length,
  if◌then◌else◌,
}
use posnet_adapter.Prelude.Exec.{ok, pure_then}
use posnet_adapter.Tables.{Variant, Product, variant_added, OutboxEvent, Scope, visible, Db}
use posnet_adapter.Catalog.{
  Catalog, with_db, event_row, enqueue_row, announce, publish_row, variants_of, find_product,
  set_online_published,
}

-- The events that announce the variants, with the ids from `id` on.
abbrev pub announcements : ℕ → ℕ → List Variant → List OutboxEvent
announcements tenant id [] = []
announcements tenant id (v ∷ rows) =
    record { id = id; tenant_id = tenant; payload = variant_added v.id; published = false }
    ∷ announcements tenant (suc id) rows

abbrev pub announced : ℕ → List Variant → Db → Db
announced tenant rows db = record db {
  outbox = db.outbox ++ announcements tenant db.next_id rows;
  next_id = db.next_id + length rows;
}

announced_nil : (tenant : ℕ) (db : Db) → db ≡ announced tenant [] db
announced_nil tenant db = ground (arith, append-nil db.outbox)

announced_cons :
    (tenant : ℕ) (v : Variant) (rows : List Variant) (db : Db)
    → announced tenant rows (enqueue_row tenant (variant_added v.id) db)
      ≡ announced tenant (v ∷ rows) db
announced_cons tenant v rows db = ground (
  arith,
  append_assoc db.outbox (event_row tenant (variant_added v.id) db ∷ [])
      (announcements tenant (suc db.next_id) rows),
)

abbrev placed : Catalog → Db → Catalog
placed c db = with_db (λ _. db) c

module _ (scope : Scope) (tenant : ℕ) (own : visible scope tenant ≡ true) where
  announce_lem :
      (rows : List Variant) (c : Catalog)
      → announce scope tenant rows c ≡ (ok tt, with_db (announced tenant rows) c)
  unfolding announce
  announce_lem [] c = ap (λ (db : Db). (ok tt, placed c db)) (announced_nil tenant c.prices.db)
  announce_lem (v ∷ rows) c = rw own (
      announce_lem rows (with_db (enqueue_row tenant (variant_added v.id)) c)
      ∙ ap (λ (db : Db). (ok tt, placed c db)) (announced_cons tenant v rows c.prices.db))

  -- A product of the tenant that is published has its gate set and, for each of its variants that
  -- the session sees, one event more in the outbox; one that is withdrawn has its gate cleared and
  -- no event. Nothing else changes.
  pub set_online_published_lem :
      (id : ℕ) (published : Bool) (c : Catalog) (p : Product)
      → find_product scope id c ≡ some p
      → set_online_published scope tenant id published c ≡ (
        ok (record p { online_published = published }),
        with_db
            (λ db.
              announced tenant
                (if published then variants_of scope id c else [])
                (record db { products = map (publish_row id published) db.products }))
            c,
      )
  unfolding set_online_published
  set_online_published_lem id published c p found =
      let told = if published then variants_of scope id c else [] in
      let c' =
        with_db (λ (db : Db). record db { products = map (publish_row id published) db.products })
          c in
      rw found (
        pure_then (announce scope tenant told) (record p { online_published = published }) c'
          (with_db (announced tenant told) c') tt (announce_lem told c'))
