-- ===== src/Assets/Once.antt =====
-- After a capitalization: it cannot be repeated, and the asset can be scheduled.
use assetflow_fixed_asset_ma.Prelude.{
  ℕ, suc, ◌≤◌, ◌<◌, ◌≡◌, refl, ap, ◌∙◌, false, not, ◌||◌, some, arith, leb, ltb, ◌==◌,
}
use assetflow_fixed_asset_ma.Calendar.{Date, before, schedule_end}
use assetflow_fixed_asset_ma.Result.{ok, err, bad_status, >>=-step, or_raise-step, raise_if-step}
use assetflow_fixed_asset_ma.Prelude.Int.{ℤ, pos, pos_part, ◌-ℤ◌}
use assetflow_fixed_asset_ma.Money.{divide_to_cents}
use assetflow_fixed_asset_ma.Records.{
  User, AssetStatus, is_active_asset, Asset, Acquisition, Org, Schedule, Db, actor_organization,
}
use assetflow_fixed_asset_ma.Depreciation.Engine.{slm, is_slm, straight_line_periodic_amount}
use assetflow_fixed_asset_ma.Depreciation.Schedules.{
  positive_life, schedule_taken, schedule_asset, generate_depreciation_schedule,
}
use assetflow_fixed_asset_ma.Assets.Acquiring.{organization_row, find_acquisition}
use assetflow_fixed_asset_ma.Assets.Capitalizing.{
  available_or, store_capitalization, capitalize_acquisition,
}
use assetflow_fixed_asset_ma.Assets.Effects.{capitalize_acquisition-Capitalized}
use assetflow_fixed_asset_ma.Assets.Capitalization.{
  Activated, capitalize_acquisition-Activated, organization_key,
}

same_organization :
    (actor other : User) (db db' : Db) {o : Org}
    → other.org ≡ actor.org
    → db'.organizations ≡ db.organizations
    → organization_row actor db ≡ ok o
    → organization_row other db' ≡ ok o
unfolding organization_row actor_organization
same_organization actor other db db' e f h = rw (e, f) h

-- Once an acquisition is capitalized, no user of the organization can capitalize it again.
pub capitalize_acquisition_once :
    (pk : ℕ) (actor other : User) (db : Db) {r : Db × Acquisition}
    → capitalize_acquisition pk actor db ≡ ok r
    → other.org ≡ actor.org
    → capitalize_acquisition pk other r.0 ≡ err bad_status
unfolding capitalize_acquisition store_capitalization
capitalize_acquisition_once pk actor other db {r} h same =
    let e = capitalize_acquisition-Capitalized pk actor db h in
    let (org, own, w) = capitalize_acquisition-Activated pk actor db h in
    let key : org ≡ e.org.pk = cc (own, organization_key actor db e.own) in
    let stored : find_acquisition pk e.org.pk r.0 ≡ some r.1 = rw (← key) w.acquisition_stored in
    rw
      (
        same_organization actor other db r.0 same (rw e.result refl) e.own,
        stored,
        w.acquisition_capitalized,
      )
      refl

cost_tests : (c v : ℕ) → 0 < c → v ≤ c → (leb c 0 || ltb c v) ≡ false
cost_tests c v h k = ground (arith, h, k)

balance_tests : (b c d : ℕ) → b ≡ c → d ≡ 0 → (not (b == c) || not (d == 0)) ≡ false
balance_tests b c d h k = ground (arith, h, k)

straight_line_defined :
    (c v n : ℕ)
    → v ≤ c
    → (z : ℤ) × (straight_line_periodic_amount (pos c) (pos v) (some (suc n)) ≡ ok z)
unfolding straight_line_periodic_amount
straight_line_defined c v n h =
    (pos (divide_to_cents (pos_part (pos c -ℤ pos v)) (suc n)), ground (arith, h))

slm_test : (a : Asset) → a.depreciation_method ≡ slm → not (is_slm a.depreciation_method) ≡ false
slm_test a h = rw h refl

active_test : (a : Asset) → a.status ≡ AssetStatus.active → not (is_active_asset a.status) ≡ false
active_test a h = rw h refl

schedule_asset-succeeds :
    (org : ℕ) (actor : User) (a : Asset) (capitalized available end : Date) (db : Db) (n : ℕ)
    → before available capitalized ≡ false
    → a.depreciation_method ≡ slm
    → a.useful_life_months ≡ some (suc n)
    → (leb a.purchase_cost 0 || ltb a.purchase_cost a.residual_value) ≡ false
    → (not (a.current_book_value == a.purchase_cost) || not (a.accumulated_depreciation == 0))
      ≡ false
    → schedule_taken a db ≡ false
    → schedule_end available (suc n) ≡ ok end
    → a.residual_value ≤ a.purchase_cost
    → (r : Db × Schedule) × (schedule_asset org actor a capitalized available db ≡ ok r)
unfolding schedule_asset
schedule_asset-succeeds org actor a capitalized available end db n ordered method life cost balance
      fresh ends within =
    let (_, amount) = straight_line_defined a.purchase_cost a.residual_value n within in
    (
      _,
      raise_if-step _ _ ordered
          ∙ raise_if-step _ _ (slm_test a method)
          ∙ >>=-step _ (ap positive_life life)
          ∙ raise_if-step _ _ cost
          ∙ raise_if-step _ _ balance
          ∙ raise_if-step _ _ fresh
          ∙ >>=-step _ amount
          ∙ >>=-step _ ends,
    )

-- An asset that was capitalized with the straight-line method, and has no schedule, can be
-- scheduled at once where its last month is on the calendar.
pub Activated-schedulable :
    (pk org n : ℕ) (actor : User) (db : Db) {r : Db × Acquisition} (end : Date)
    (w : Activated pk org actor db r)
    → actor.org ≡ some org
    → w.asset.depreciation_method ≡ slm
    → schedule_taken w.asset r.0 ≡ false
    → w.asset.useful_life_months ≡ some (suc n)
    → schedule_end (available_or w.draft.available_for_use_date w.date) (suc n) ≡ ok end
    → (s : Db × Schedule) × (generate_depreciation_schedule w.old.asset actor r.0 ≡ ok s)
unfolding generate_depreciation_schedule actor_organization
Activated-schedulable pk org n actor db {r} end w own method fresh life ends =
    let (s, done) =
      schedule_asset-succeeds org actor w.asset w.date
        (available_or w.draft.available_for_use_date w.date) end r.0 n w.ordered method life
        (cost_tests w.asset.purchase_cost w.asset.residual_value w.positive w.residual)
        (balance_tests w.asset.current_book_value w.asset.purchase_cost
          w.asset.accumulated_depreciation w.book_value w.undepreciated)
        fresh ends w.residual in
    (
      s,
      or_raise-step _ _ own
          ∙ or_raise-step _ _ w.stored
          ∙ raise_if-step _ _ (active_test w.asset w.active)
          ∙ or_raise-step _ _ w.capitalized
          ∙ or_raise-step _ _ w.available
          ∙ done,
    )
