-- ===== src/Commercial/Tests.antt =====
-- An organization in its trial, on which the theorem on write access is applied.
use assetflow_fixed_asset_ma.Prelude.{◌≡◌, ◌↔◌, refl, true, []}
use assetflow_fixed_asset_ma.Result.{ok}
use assetflow_fixed_asset_ma.Table.{find}
use assetflow_fixed_asset_ma.Commercial.Entitlements.{
  require_write_access, write_enabled, require_write_access-write_enabled,
}
use assetflow_fixed_asset_ma.Samples.{org_one, press, books}

require_write_access-write_enabled_example :
    (require_write_access 900 1 (books (press 1000 3) []) ≡ ok tt)
    ↔ (write_enabled 900 org_one ≡ true)
unfolding find
require_write_access-write_enabled_example =
    require_write_access-write_enabled 900 1 (books (press 1000 3) []) refl
