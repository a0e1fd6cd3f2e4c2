-- ===== src/Flags.antt =====
-- libs/feature_flags/registry.py and services/core/app/domain/feature_flags.py. A dict of flags is
-- the list of its pairs, in the order of the keys' insertion. The unique constraint on tenant and
-- key cannot trip: a row is inserted only where the session sees none of the key.
pub mod Lookup
pub mod Overrides
use posnet_adapter.Prelude.{
  ℕ, String, Bool, true, false, not, ◌&&◌, Option, none, some, List, [], ◌∷◌, ◌++◌, map, ◌==◌,
  find?, is_some, select, if◌then◌else◌, str_eq,
}
use posnet_adapter.Prelude.Exec.{Exec, pure, raise, gets, raise_if, modify, ◌>>=◌, ◌>>◌}
use posnet_adapter.Tables.{Scope, visible}

pub record FlagSpec : Type 0 where
  pub key : String
  pub default : Bool
  pub description : String

-- `multiple_rows` is the driver's error where more than one row is found.
pub data FlagError : Type 0 where
  unknown_flag : String → FlagError
  multiple_rows row_security : FlagError

abbrev pub Flags : Type 0
Flags = List (String × Bool)

abbrev pub declared : String → List FlagSpec → Bool
declared key specs = is_some (find? (λ s. str_eq s.key key) specs)

-- The constructor of `FlagRegistry`; `none` is the `ValueError`.
abbrev pub new_registry : List FlagSpec → Option (List FlagSpec)
new_registry [] = some []
new_registry (s ∷ specs) =
    if declared s.key specs
    then none
    else elim (new_registry specs) [ none ↦ none | some rest ↦ some (s ∷ rest) ]

abbrev pub defaults : List FlagSpec → Flags
defaults specs = map (λ s. (s.key, s.default)) specs

-- `effective[key] = enabled`, of a key that is there.
abbrev pub put : String → Bool → Flags → Flags
put key enabled [] = []
put key enabled ((k, e) ∷ flags) =
    if str_eq k key then (k, enabled) ∷ flags else (k, e) ∷ put key enabled flags

abbrev pub overlay : List FlagSpec → Flags → Flags → Flags
overlay specs effective [] = effective
overlay specs effective ((key, enabled) ∷ overrides) =
    overlay specs (if declared key specs then put key enabled effective else effective) overrides

-- `FlagRegistry.resolve`.
unfoldable pub resolve : List FlagSpec → Flags → Flags
resolve specs overrides = overlay specs (defaults specs) overrides

pub record FeatureFlag : Type 0 where
  pub tenant_id : ℕ
  pub key : String
  pub enabled : Bool

-- `effective_flags`; that `dict` keeps the last of two rows with one key is what the overlay does.
unfoldable pub effective_flags : Scope → List FlagSpec → List FeatureFlag → Flags
unfolding resolve
effective_flags scope specs rows =
    resolve specs (map (λ r. (r.key, r.enabled)) (select (λ r. visible scope r.tenant_id) rows))

abbrev pub switch_row : FeatureFlag → Bool → FeatureFlag → FeatureFlag
switch_row x enabled r =
    if r.tenant_id == x.tenant_id && str_eq r.key x.key then record r { enabled = enabled } else r

abbrev pub stored :
    Scope → ℕ → String → Bool → List FeatureFlag → Exec FlagError (List FeatureFlag) FeatureFlag
stored scope tenant key enabled [] = do
  raise_if (not (visible scope tenant)) row_security
  modify (λ rows. rows ++ (record { tenant_id = tenant; key = key; enabled = enabled } ∷ []))
  pure (record { tenant_id = tenant; key = key; enabled = enabled })
stored scope tenant key enabled (x ∷ []) = do
  modify (λ rows. map (switch_row x enabled) rows)
  pure (record x { enabled = enabled })
stored scope tenant key enabled (_ ∷ _ ∷ _) = raise multiple_rows

-- `set_flag`.
unfoldable pub set_flag :
    Scope → ℕ → String → Bool → List FlagSpec → Exec FlagError (List FeatureFlag) FeatureFlag
set_flag scope tenant key enabled specs = do
  raise_if (not (declared key specs)) (unknown_flag key)
  existing ← gets (select (λ r. str_eq r.key key && visible scope r.tenant_id))
  stored scope tenant key enabled existing
