-- ===== src/Commercial/Capacity.antt =====
-- The capacity of a plan: `require_capacity` of backend/commercial/entitlements.py for the number of
-- registered assets.
use assetflow_fixed_asset_ma.Prelude.{ℕ, Option, none, some, leb, ◌==◌}
use assetflow_fixed_asset_ma.Result.{
  Result, ok, ◌>>=◌, ◌>>◌, raise_if, or_raise, organization_missing, capacity_reached,
}
use assetflow_fixed_asset_ma.Table.{find, count}
use assetflow_fixed_asset_ma.Records.{Subscription, Org, Asset, Db}
use assetflow_fixed_asset_ma.Commercial.Entitlements.{require_write_access}

-- `usage(organization)["registered_assets"]`
unfoldable pub registered_assets : ℕ → Db → ℕ
registered_assets org db = count (λ (a : Asset). a.org == org) db.assets

abbrev within_limit : Option ℕ → ℕ → Result (Unit {0})
within_limit none used = ok tt
within_limit (some limit) used = raise_if (leb limit used) capacity_reached

abbrev within_plan : Option Subscription → ℕ → Result (Unit {0})
within_plan none used = ok tt
within_plan (some s) used = within_limit s.registered_assets used

unfoldable pub require_capacity : ℕ → ℕ → Db → Result (Unit {0})
require_capacity now org db = do
  require_write_access now org db
  o ← or_raise (find (λ (o : Org). o.pk == org) db.organizations) organization_missing
  within_plan o.subscription (registered_assets org db)
