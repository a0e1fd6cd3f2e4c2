-- ===== src/Pricing.antt =====
-- services/core/app/domain/pricing.py: setting a price override and resolving the effective price.
-- Times are numbers of ticks; `None` is an open end of the validity window.
pub mod Resolution
use posnet_adapter.Prelude.{
  ℕ, suc, String, Bool, true, false, not, ◌&&◌, ◌||◌, Option, none, some, List, [], ◌∷◌, ◌++◌, ◌==◌,
  ltb, leb, find?, is_some, select, if◌then◌else◌,
}
use posnet_adapter.Prelude.Int.{ℤ}
use posnet_adapter.Prelude.Exec.{
  Result, ok, err, Exec, pure, gets, raise_if, or_raise, modify, ◌>>=◌, ◌>>◌,
}
use posnet_adapter.Tables.{
  Variant, Product, OutboxEvent, override_set, Db, Scope, visible, Error, not_found, validation,
  row_security, no_variant, no_store, bad_window,
}
use posnet_adapter.Inventory.{sees_variant}

pub record Store : Type 0 where
  pub id : ℕ
  pub tenant_id : ℕ

pub record PriceOverride : Type 0 where
  pub id : ℕ
  pub tenant_id : ℕ
  pub variant_id : ℕ
  pub store_id : Option ℕ
  pub price_minor : ℤ
  pub valid_from : Option ℕ
  pub valid_to : Option ℕ
  pub created_at : ℕ

pub record Prices : Type 0 where
  pub db : Db
  pub open db use *
  pub stores : List Store
  pub overrides : List PriceOverride

pub data Source : Type 0 where
  base override : Source

pub record ResolvedPrice : Type 0 where
  pub variant_id : ℕ
  pub currency : String
  pub base_price_minor : ℤ
  pub effective_price_minor : ℤ
  pub source : Source
  pub override_id : Option ℕ

abbrev pub sees_store : Scope → ℕ → Prices → Bool
sees_store scope k p = is_some (find? (λ r. r.id == k && visible scope r.tenant_id) p.stores)

abbrev pub unknown_store : Scope → Option ℕ → Prices → Bool
unknown_store scope none p = false
unknown_store scope (some k) p = not (sees_store scope k p)

abbrev is_dead : Option ℕ → Option ℕ → Bool
is_dead (some from) (some to) = leb to from
is_dead _ _ = false

-- `set_override`, at the transaction's time and with the id that the new row is given.
unfoldable pub set_override :
    Scope → ℕ → ℕ → ℤ → Option ℕ → Option ℕ → Option ℕ → ℕ → ℕ → Exec Error Prices PriceOverride
set_override scope tenant v price store from to now id = do
  known ← gets (λ p. sees_variant scope v p.db)
  raise_if (not known) (not_found no_variant)
  foreign ← gets (unknown_store scope store)
  raise_if foreign (not_found no_store)
  raise_if (is_dead from to) (validation bad_window)
  raise_if (not (visible scope tenant)) row_security
  modify (λ p. record p {
    db = record p.db {
      outbox =
          p.outbox
          ++ record {
            id = p.next_id;
            tenant_id = tenant;
            payload = override_set v;
            published = false;
          }
            ∷ [];
      next_id = suc p.next_id;
    };
    overrides =
        p.overrides
        ++ record {
          id = id;
          tenant_id = tenant;
          variant_id = v;
          store_id = store;
          price_minor = price;
          valid_from = from;
          valid_to = to;
          created_at = now;
        }
          ∷ [];
  })
  pure (record {
    id = id;
    tenant_id = tenant;
    variant_id = v;
    store_id = store;
    price_minor = price;
    valid_from = from;
    valid_to = to;
    created_at = now;
  })

-- The half-open window [valid_from, valid_to).
abbrev pub starts_by : Option ℕ → ℕ → Bool
starts_by none at = true
starts_by (some from) at = leb from at

abbrev pub ends_after : Option ℕ → ℕ → Bool
ends_after none at = true
ends_after (some to) at = ltb at to

-- The condition on `store_id`, for a price asked for a store or for none.
abbrev pub fits_store : Option ℕ → Option ℕ → Bool
fits_store asked none = true
fits_store none (some own) = false
fits_store (some k) (some own) = own == k

-- The WHERE of the override query.
abbrev pub applies : Scope → ℕ → ℕ → Option ℕ → PriceOverride → Bool
applies scope v at store o =
    ((o.variant_id == v && starts_by o.valid_from at)
      && (ends_after o.valid_to at && fits_store store o.store_id))
    && visible scope o.tenant_id

abbrev specificity : Option ℕ → ℕ
specificity none = 0
specificity (some _) = 1

-- Its ORDER BY: `a` comes before `b`.
abbrev pub precedes : PriceOverride → PriceOverride → Bool
precedes a b =
    ltb (specificity b.store_id) (specificity a.store_id)
    || (specificity b.store_id == specificity a.store_id
        && (ltb b.created_at a.created_at || (b.created_at == a.created_at && ltb b.id a.id)))

abbrev pub earlier : PriceOverride → Option PriceOverride → PriceOverride
earlier o none = o
earlier o (some best) = if precedes o best then o else best

-- ORDER BY … LIMIT 1.
abbrev pub first_of_all : List PriceOverride → Option PriceOverride
first_of_all [] = none
first_of_all (o ∷ rest) = some (earlier o (first_of_all rest))

abbrev pub chosen : Scope → ℕ → ℕ → Option ℕ → Prices → Option PriceOverride
chosen scope v at store p = first_of_all (select (applies scope v at store) p.overrides)

abbrev pub product_of : Scope → Variant → Prices → Option Product
product_of scope x p = find? (λ r. r.id == x.product_id && visible scope r.tenant_id) p.products

abbrev pub priced : Variant → Product → Option PriceOverride → ResolvedPrice
priced x product none = record {
  variant_id = x.id;
  currency = product.currency;
  base_price_minor = x.base_price_minor;
  effective_price_minor = x.base_price_minor;
  source = base;
  override_id = none;
}
priced x product (some o) = record {
  variant_id = x.id;
  currency = product.currency;
  base_price_minor = x.base_price_minor;
  effective_price_minor = o.price_minor;
  source = override;
  override_id = some o.id;
}

abbrev pub find_variant : Scope → ℕ → Db → Option Variant
find_variant scope v db = find? (λ r. r.id == v && visible scope r.tenant_id) db.variants

-- `resolve_price`; the join of the first query fails like a missing variant.
unfoldable pub resolve_price : Scope → ℕ → ℕ → Option ℕ → Exec Error Prices ResolvedPrice
resolve_price scope v at store = do
  found ← gets (λ p. find_variant scope v p.db)
  x ← or_raise found (not_found no_variant)
  joined ← gets (product_of scope x)
  product ← or_raise joined (not_found no_variant)
  best ← gets (chosen scope v at store)
  pure (priced x product best)
