-- ===== src/Tests/Switches.antt =====
-- Two tenants and two flags: services/core/app/domain/feature_flags.py.
use posnet_adapter.Prelude.{◌≡◌, refl, true, false, some, List, [], ◌∷◌}
use posnet_adapter.Prelude.Exec.{ok}
use posnet_adapter.Flags.{FlagSpec, FeatureFlag, effective_flags, set_flag}
use posnet_adapter.Flags.Overrides.{Switches, set_flag_lem}

abbrev specs : List FlagSpec
specs =
    record { key = "shifts"; default = true; description = "" }
    ∷ record { key = "sync"; default = false; description = "" }
    ∷ []

-- The last row is of a flag that is declared no more.
abbrev rows : List FeatureFlag
rows =
    record { tenant_id = 1; key = "shifts"; enabled = false }
    ∷ record { tenant_id = 2; key = "sync"; enabled = true }
    ∷ record { tenant_id = 1; key = "old"; enabled = true }
    ∷ []

seen_by_one : effective_flags (some 1) specs rows ≡ (("shifts", false) ∷ ("sync", false) ∷ [])
unfolding effective_flags
seen_by_one = refl

set_flag_lem_example :
    (r : FeatureFlag) × (rows' : List FeatureFlag) × (set_flag (some 1) 1 "sync" true specs rows
      ≡ (ok r, rows'))
    × Switches 1 "sync" true specs rows rows'
set_flag_lem_example = set_flag_lem 1 "sync" true specs rows refl (refl, (refl, (refl, tt)))
