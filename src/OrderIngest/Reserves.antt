-- ===== src/OrderIngest/Reserves.antt =====
-- What a reservation does to the tables, as a relation between two states.
use posnet_adapter.Prelude.{ℕ, ◌≡◌, refl, ◌∙◌, false, List, ◌==◌, if◌then◌else◌}
use posnet_adapter.Prelude.Int.{ℤ, pos, ◌+ℤ◌, int_laws}
use posnet_adapter.Tables.{Inventory, Db}
use posnet_adapter.Inventory.{level_at}
use posnet_adapter.Inventory.Levels.{IsUnique, sum_over}
use posnet_adapter.OrderIngest.{contains}

-- The figures of a variant that a reservation moves and leaves.
abbrev pub reserved_of : ℕ → Inventory → ℤ
reserved_of u r = if r.variant_id == u then r.reserved_qty else pos 0

abbrev pub on_hand_of : ℕ → Inventory → ℤ
on_hand_of u r = if r.variant_id == u then r.qty else pos 0

-- From `db` to `db'` exactly `demand u` of each variant `u` was reserved, in warehouses of `ids`.
pub record Reserves (ids : List ℕ) (demand : ℕ → ℤ) (db db' : Db) : Type 0 where
  pub warehouses : db'.warehouses ≡ db.warehouses
  pub variants : db'.variants ≡ db.variants
  pub orders : db'.channel_orders ≡ db.channel_orders
  pub unique : IsUnique db'.inventory
  pub reserved :
      (u : ℕ)
      → sum_over (reserved_of u) db'.inventory ≡ sum_over (reserved_of u) db.inventory +ℤ demand u
  pub on_hand :
      (u : ℕ) → sum_over (on_hand_of u) db'.inventory ≡ sum_over (on_hand_of u) db.inventory
  pub offline :
      (u w : ℕ) → contains w ids ≡ false → level_at u w db'.inventory ≡ level_at u w db.inventory

-- A demand for one variant.
abbrev pub only : ℕ → ℤ → ℕ → ℤ
only v amount u = if u == v then amount else pos 0

module _ (ids : List ℕ) where
  pub Reserves-refl : (db : Db) → IsUnique db.inventory → Reserves ids (λ u. pos 0) db db
  Reserves-refl db unique = record {
    warehouses = refl;
    variants = refl;
    orders = refl;
    unique = unique;
    reserved = λ u. omega int_laws;
    on_hand = λ u. refl;
    offline = λ u w off. refl;
  }

  pub Reserves-trans :
      (a b : ℕ → ℤ) (x y z : Db)
      → Reserves ids a x y
      → Reserves ids b y z
      → Reserves ids (λ u. a u +ℤ b u) x z
  Reserves-trans a b x y z h k = record {
    warehouses = k.warehouses ∙ h.warehouses;
    variants = k.variants ∙ h.variants;
    orders = k.orders ∙ h.orders;
    unique = k.unique;
    reserved = λ u. rw (k.reserved u) (rw (h.reserved u) (omega int_laws));
    on_hand = λ u. k.on_hand u ∙ h.on_hand u;
    offline = λ u w off. k.offline u w off ∙ h.offline u w off;
  }

  pub Reserves-ext :
      (a b : ℕ → ℤ) (x y : Db) → ((u : ℕ) → a u ≡ b u) → Reserves ids a x y → Reserves ids b x y
  Reserves-ext a b x y e h = record {
    warehouses = h.warehouses;
    variants = h.variants;
    orders = h.orders;
    unique = h.unique;
    reserved = λ u. rw (← e u) (h.reserved u);
    on_hand = h.on_hand;
    offline = h.offline;
  }
