-- ===== src/Assets/Capitalization.antt =====
-- What a capitalization does: the asset's cost basis, that it happens once, and that the asset can
-- then be scheduled.
use assetflow_fixed_asset_ma.Prelude.{
  ℕ, suc, zero, ◌+◌, ◌≤◌, ◌<◌, ◌≡◌, refl, sym, ap, ◌∙◌, Bool, true, false, not, ◌||◌, some, arith,
  ◌==◌, ==_iff, leb, ltb,
}
use assetflow_fixed_asset_ma.Calendar.{Date, before}
use assetflow_fixed_asset_ma.Result.{ok, raise_if-then, or_raise-then, or_raise-eq-ok}
use assetflow_fixed_asset_ma.Table.{find, find-test, find-save}
use assetflow_fixed_asset_ma.Records.{
  actor_organization, Org, User, AssetStatus, Asset, AcquisitionStatus, Acquisition, Db, find_asset,
}
use assetflow_fixed_asset_ma.Assets.Checks.{
  is_draft_asset, not_earlier_date, positive_if_set, is_draft_acquisition,
  calculate_capitalized_cost, asset_valid, stripped_asset, totalled_acquisition,
}
use assetflow_fixed_asset_ma.Assets.Acquiring.{organization_row, find_acquisition}
use assetflow_fixed_asset_ma.Assets.Capitalizing.{
  available_or, life_or_default, capitalized_asset, capitalized_acquisition, capitalizable,
  saved_columns, store_capitalization, capitalize_acquisition,
}
use assetflow_fixed_asset_ma.Assets.Effects.{capitalize_acquisition-Capitalized}

-- The rows after a capitalization: the draft asset is active at the sum of the five cost
-- components, with no depreciation, and its draft acquisition is capitalized.
pub record Activated (pk org : ℕ) (actor : User) (db : Db) (r : Db × Acquisition) : Type 0 where
  pub old : Acquisition
  pub date : Date
  pub draft : Asset
  pub asset : Asset
  pub found : find_acquisition pk org db ≡ some old
  pub was_draft : is_draft_acquisition old.status ≡ true
  pub dated : old.capitalization_date ≡ some date
  pub found_asset : find_asset old.asset org db ≡ some draft
  pub draft_asset : is_draft_asset draft.status ≡ true
  pub no_book_value : draft.current_book_value ≡ 0
  pub no_depreciation : draft.accumulated_depreciation ≡ 0
  pub stored : find_asset old.asset org r.0 ≡ some asset
  pub active : asset.status ≡ AssetStatus.active
  pub cost :
      asset.purchase_cost
      ≡ old.purchase_price + old.freight_cost + old.installation_cost + old.civil_works_cost
        + old.other_capitalizable_cost
  pub book_value : asset.current_book_value ≡ asset.purchase_cost
  pub undepreciated : asset.accumulated_depreciation ≡ 0
  pub positive : 0 < asset.purchase_cost
  pub residual : asset.residual_value ≤ asset.purchase_cost
  pub acquired : asset.acquisition_date ≡ some old.acquisition_date
  pub capitalized : asset.capitalization_date ≡ some date
  pub available :
      asset.available_for_use_date ≡ some (available_or draft.available_for_use_date date)
  pub life :
      asset.useful_life_months
      ≡ some (life_or_default draft.useful_life_months draft.category.default_useful_life_months)
  pub ordered : before (available_or draft.available_for_use_date date) date ≡ false
  pub life_positive :
      0 < life_or_default draft.useful_life_months draft.category.default_useful_life_months
  pub acquisition_stored : find_acquisition pk org r.0 ≡ some r.1
  pub acquisition_capitalized : r.1.status ≡ AcquisitionStatus.capitalized
  pub total : r.1.total_cost ≡ asset.purchase_cost

record Fit (q : Acquisition) (a : Asset) : Type 0 where
  draft : is_draft_asset a.status ≡ true
  no_book_value : a.current_book_value ≡ 0
  undepreciated : a.accumulated_depreciation ≡ 0
  positive : 0 < calculate_capitalized_cost q
  residual : a.residual_value ≤ calculate_capitalized_cost q

draft_test : (b : Bool) → not b ≡ false → b ≡ true
draft_test b h = ground (arith, h)

no_balance : (b d : ℕ) → (not (b == 0) || not (d == 0)) ≡ false → (b ≡ 0) × (d ≡ 0)
no_balance b d h = (ground (arith, h), ground (arith, h))

draft_not : (b : Bool) → not b ≡ true → b ≡ false
draft_not b h = ground (arith, h)

above : (c : ℕ) → leb c 0 ≡ false → 0 < c
above c h = ground (arith, h)

within : (c v : ℕ) → ltb c v ≡ false → v ≤ c
within c v h = ground (arith, h)

capitalizable-Fit :
    (org : Org) (q : Acquisition) (date : Date) (a : Asset)
    → capitalizable org q date a ≡ ok tt
    → Fit q a
unfolding capitalizable
capitalizable-Fit org q date a h =
    let (draft, h1) = raise_if-then (not (is_draft_asset a.status)) _ _ h in
    let (_, h2) = raise_if-then _ _ _ h1 in
    let (balance, h3) =
      raise_if-then (not (a.current_book_value == 0) || not (a.accumulated_depreciation == 0)) _ _
        h2 in
    let (_, h4) = raise_if-then _ _ _ h3 in
    let (positive, h5) = raise_if-then (leb (calculate_capitalized_cost q) 0) _ _ h4 in
    let (residual, _) =
      raise_if-then (ltb (calculate_capitalized_cost q) a.residual_value) _ _ h5 in
    record {
      draft = draft_test _ draft;
      no_book_value = (no_balance a.current_book_value a.accumulated_depreciation balance).0;
      undepreciated = (no_balance a.current_book_value a.accumulated_depreciation balance).1;
      positive = above _ positive;
      residual = within _ _ residual;
    }

pub organization_key :
    (actor : User) (db : Db) {o : Org} → organization_row actor db ≡ ok o → actor.org ≡ some o.pk
unfolding organization_row actor_organization
organization_key actor db h =
    let (pk, e, h1) = or_raise-then actor.org _ _ h in
    let found = or_raise-eq-ok (find (λ (o : Org). o.pk == pk) db.organizations) _ h1 in
    e ∙ ap some (sym ((==_iff _ pk).0 (find-test _ db.organizations found)))

cost_components :
    (q : Acquisition)
    → calculate_capitalized_cost q
      ≡ q.purchase_price + q.freight_cost + q.installation_cost + q.civil_works_cost
        + q.other_capitalizable_cost
unfolding calculate_capitalized_cost
cost_components q = refl

total_same :
    (actor : User) (q : Acquisition)
    → calculate_capitalized_cost (capitalized_acquisition actor q) ≡ calculate_capitalized_cost q
unfolding calculate_capitalized_cost
total_same actor q = refl

record Dated (a : Asset) (available date : Date) (n : ℕ) : Type 0 where
  available_set : a.available_for_use_date ≡ some available
  date_set : a.capitalization_date ≡ some date
  life_set : a.useful_life_months ≡ some n

valid_dates :
    (a : Asset) (db : Db)
    → asset_valid a db ≡ true
    → (not_earlier_date a.available_for_use_date a.capitalization_date ≡ true)
      × (positive_if_set a.useful_life_months ≡ true)
unfolding asset_valid
valid_dates a db h = (ground (arith, h), ground (arith, h))

not_before : (d e : Date) → not_earlier_date (some d) (some e) ≡ true → before d e ≡ false
not_before d e h = draft_not _ h

life_above : (n : ℕ) → positive_if_set (some n) ≡ true → 0 < n
life_above zero h = cc
life_above (suc n) h = omega arith

asset_valid-dates :
    (a : Asset) (db : Db) (available date : Date) (n : ℕ)
    → Dated a available date n
    → asset_valid a db ≡ true
    → (before available date ≡ false) × (0 < n)
asset_valid-dates a db available date n t h =
    let (dates, life) = valid_dates a db h in
    (
      not_before available date (rw (t.available_set, t.date_set) at dates),
      life_above n (rw t.life_set at life),
    )

-- A successful capitalization found a draft acquisition with a capitalization date and its draft
-- asset with neither book value nor accumulated depreciation; it stores the asset as active, its
-- cost and book value both the sum of the five cost components, positive and not below the residual
-- value, with the dates and the life of the acquisition, the asset or its category; and it stores
-- the acquisition as capitalized with that total.
pub capitalize_acquisition-Activated :
    (pk : ℕ) (actor : User) (db : Db) {r : Db × Acquisition}
    → capitalize_acquisition pk actor db ≡ ok r
    → (org : ℕ) × (actor.org ≡ some org) × Activated pk org actor db r
unfolding store_capitalization find_asset find_acquisition
capitalize_acquisition-Activated pk actor db {r} h =
    let e = capitalize_acquisition-Capitalized pk actor db h in
    let q = e.acquisition in
    let a = e.asset in
    let fit = capitalizable-Fit e.org q e.date a e.fit in
    let new = stripped_asset (capitalized_asset actor q e.date a) in
    let done = totalled_acquisition (capitalized_acquisition actor q) in
    let times =
      asset_valid-dates new db (available_or a.available_for_use_date e.date) e.date
        (life_or_default a.useful_life_months a.category.default_useful_life_months)
        (record { available_set = refl; date_set = refl; life_set = refl }) e.valid in
    (
      e.org.pk,
      organization_key actor db e.own,
      record {
        old = q;
        date = e.date;
        draft = a;
        asset = saved_columns a new;
        found = e.found;
        was_draft = e.was_draft;
        dated = e.dated;
        found_asset = e.found_asset;
        draft_asset = fit.draft;
        no_book_value = fit.no_book_value;
        no_depreciation = fit.undepreciated;
        stored = rw e.result (
            find-save (λ (x : Asset). x.pk) _ (saved_columns a new) db.assets e.found_asset refl
              (find-test _ db.assets e.found_asset));
        active = refl;
        cost = cost_components q;
        book_value = refl;
        undepreciated = fit.undepreciated;
        positive = fit.positive;
        residual = fit.residual;
        acquired = refl;
        capitalized = refl;
        available = refl;
        life = refl;
        ordered = times.0;
        life_positive = times.1;
        acquisition_stored = rw e.result (
            find-save (λ (x : Acquisition). x.pk) _ done db.acquisitions e.found refl
              (find-test _ db.acquisitions e.found));
        acquisition_capitalized = rw e.result refl;
        total = rw e.result (total_same actor q);
      },
    )
