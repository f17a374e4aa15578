-- ===== src/Assets/Kept.antt =====
-- What the submitted values of an update leave of an asset: its accounting basis and its place.
use mathlib.Core.Path.{subst}
use assetflow_fixed_asset_ma.Prelude.{
  not-false, ℕ, ◌≡◌, refl, sym, ap, ◌∙◌, Bool, false, not, ◌||◌, Option, List, [], ◌∷◌, arith,
  same_key, same_key-eq,
}
use assetflow_fixed_asset_ma.Result.{ok, >>=-eq-ok, ok-injective}
use assetflow_fixed_asset_ma.Records.{User, ref_key, Asset}
use assetflow_fixed_asset_ma.Assets.Checks.{stripped_asset, cost_column}
use assetflow_fixed_asset_ma.Assets.Master.{
  AssetChange, any_change, is_accounting, moves, set_field, set_fields,
}

-- The columns that the accounting of an asset rests on are those of another row of it.
pub record SameBasis (a b : Asset) : Type 0 where
  pub pk : b.pk ≡ a.pk
  pub org : b.org ≡ a.org
  pub status : b.status ≡ a.status
  pub purchase_cost : b.purchase_cost ≡ a.purchase_cost
  pub residual_value : b.residual_value ≡ a.residual_value
  pub useful_life_months : b.useful_life_months ≡ a.useful_life_months
  pub depreciation_method : b.depreciation_method ≡ a.depreciation_method
  pub acquisition_date : b.acquisition_date ≡ a.acquisition_date
  pub capitalization_date : b.capitalization_date ≡ a.capitalization_date
  pub available_for_use_date : b.available_for_use_date ≡ a.available_for_use_date
  pub accumulated_depreciation : b.accumulated_depreciation ≡ a.accumulated_depreciation
  pub current_book_value : b.current_book_value ≡ a.current_book_value

pub SameBasis-refl : (a : Asset) → SameBasis a a
SameBasis-refl a = record {
  pk = refl;
  org = refl;
  status = refl;
  purchase_cost = refl;
  residual_value = refl;
  useful_life_months = refl;
  depreciation_method = refl;
  acquisition_date = refl;
  capitalization_date = refl;
  available_for_use_date = refl;
  accumulated_depreciation = refl;
  current_book_value = refl;
}

SameBasis-trans : {a b c : Asset} → SameBasis a b → SameBasis b c → SameBasis a c
SameBasis-trans s t = record {
  pk = t.pk ∙ s.pk;
  org = t.org ∙ s.org;
  status = t.status ∙ s.status;
  purchase_cost = t.purchase_cost ∙ s.purchase_cost;
  residual_value = t.residual_value ∙ s.residual_value;
  useful_life_months = t.useful_life_months ∙ s.useful_life_months;
  depreciation_method = t.depreciation_method ∙ s.depreciation_method;
  acquisition_date = t.acquisition_date ∙ s.acquisition_date;
  capitalization_date = t.capitalization_date ∙ s.capitalization_date;
  available_for_use_date = t.available_for_use_date ∙ s.available_for_use_date;
  accumulated_depreciation = t.accumulated_depreciation ∙ s.accumulated_depreciation;
  current_book_value = t.current_book_value ∙ s.current_book_value;
}

-- A change of a tag, a category, a placement or a description.
SameBasis-placed :
    (a : Asset) (b : Asset)
    → b ≡ record a {
      asset_tag = b.asset_tag;
      category = b.category;
      department = b.department;
      location = b.location;
      updated_by = b.updated_by;
    }
    → SameBasis a b
SameBasis-placed a b e = record {
  pk = ap (λ (x : Asset). x.pk) e;
  org = ap (λ (x : Asset). x.org) e;
  status = ap (λ (x : Asset). x.status) e;
  purchase_cost = ap (λ (x : Asset). x.purchase_cost) e;
  residual_value = ap (λ (x : Asset). x.residual_value) e;
  useful_life_months = ap (λ (x : Asset). x.useful_life_months) e;
  depreciation_method = ap (λ (x : Asset). x.depreciation_method) e;
  acquisition_date = ap (λ (x : Asset). x.acquisition_date) e;
  capitalization_date = ap (λ (x : Asset). x.capitalization_date) e;
  available_for_use_date = ap (λ (x : Asset). x.available_for_use_date) e;
  accumulated_depreciation = ap (λ (x : Asset). x.accumulated_depreciation) e;
  current_book_value = ap (λ (x : Asset). x.current_book_value) e;
}

set_field-SameBasis :
    (c : AssetChange) (a : Asset) {b : Asset}
    → is_accounting c ≡ false
    → set_field c a ≡ ok b
    → SameBasis a b
set_field-SameBasis (AssetChange.set_tag t) a {b} n h =
    subst (SameBasis a) (ok-injective h) (SameBasis-placed a _ refl)
set_field-SameBasis (AssetChange.set_category t) a {b} n h =
    subst (SameBasis a) (ok-injective h) (SameBasis-placed a _ refl)
set_field-SameBasis (AssetChange.set_department t) a {b} n h =
    subst (SameBasis a) (ok-injective h) (SameBasis-placed a _ refl)
set_field-SameBasis (AssetChange.set_location t) a {b} n h =
    subst (SameBasis a) (ok-injective h) (SameBasis-placed a _ refl)
set_field-SameBasis (AssetChange.describe t) a {b} n h =
    subst (SameBasis a) (ok-injective h) (SameBasis-refl a)
set_field-SameBasis AssetChange.unsupported a {b} n h =
    subst (SameBasis a) (ok-injective h) (SameBasis-refl a)
set_field-SameBasis (AssetChange.set_acquisition_date t) a n h = cc
set_field-SameBasis (AssetChange.set_capitalization_date t) a n h = cc
set_field-SameBasis (AssetChange.set_available_date t) a n h = cc
set_field-SameBasis (AssetChange.set_purchase_cost t) a n h = cc
set_field-SameBasis (AssetChange.set_residual_value t) a n h = cc
set_field-SameBasis (AssetChange.set_useful_life t) a n h = cc
set_field-SameBasis (AssetChange.set_method t) a n h = cc

neither : (b c : Bool) → (b || c) ≡ false → (b ≡ false) × (c ≡ false)
neither b c h = (ground (arith, h), ground (arith, h))

pub set_fields-SameBasis :
    (changes : List AssetChange) (a : Asset) {b : Asset}
    → any_change is_accounting changes ≡ false
    → set_fields changes a ≡ ok b
    → SameBasis a b
unfolding set_fields
set_fields-SameBasis [] a n h = subst (SameBasis a) (ok-injective h) (SameBasis-refl a)
set_fields-SameBasis (c ∷ changes) a n h =
    let (first, rest) = neither (is_accounting c) (any_change is_accounting changes) n in
    let (x, e, h1) = >>=-eq-ok (set_field c a) _ h in
    SameBasis-trans (set_field-SameBasis c a first e) (set_fields-SameBasis changes x rest h1)

pub SameBasis-renamed :
    {a : Asset} (b : Asset) (by : Option User)
    → SameBasis a b
    → SameBasis a (stripped_asset (record b { updated_by = by }))
SameBasis-renamed b by s = SameBasis-trans s (SameBasis-placed b _ refl)

-- The asset is where it was.
pub record SamePlace (a b : Asset) : Type 0 where
  pub pk : b.pk ≡ a.pk
  pub org : b.org ≡ a.org
  pub department : ref_key b.department ≡ ref_key a.department
  pub location : ref_key b.location ≡ ref_key a.location

kept_key : (k l : Option ℕ) → not (same_key k l) ≡ false → k ≡ l
kept_key k l h = same_key-eq k l (not-false _ h)

SamePlace-kept :
    {a x : Asset} (b : Asset)
    → SamePlace a x
    → b.pk ≡ x.pk
    → b.org ≡ x.org
    → b.department ≡ x.department
    → b.location ≡ x.location
    → SamePlace a b
SamePlace-kept b p k o d l = record {
  pk = k ∙ p.pk;
  org = o ∙ p.org;
  department = ap ref_key d ∙ p.department;
  location = ap ref_key l ∙ p.location;
}

set_field-SamePlace :
    (a : Asset) (c : AssetChange) (x : Asset) {b : Asset}
    → moves a c ≡ false
    → SamePlace a x
    → set_field c x ≡ ok b
    → SamePlace a b
set_field-SamePlace a (AssetChange.set_tag t) x n p h =
    subst (SamePlace a) (ok-injective h) (SamePlace-kept _ p refl refl refl refl)
set_field-SamePlace a (AssetChange.set_category t) x n p h =
    subst (SamePlace a) (ok-injective h) (SamePlace-kept _ p refl refl refl refl)
set_field-SamePlace a (AssetChange.set_acquisition_date t) x n p h =
    subst (SamePlace a) (ok-injective h) (SamePlace-kept _ p refl refl refl refl)
set_field-SamePlace a (AssetChange.set_capitalization_date t) x n p h =
    subst (SamePlace a) (ok-injective h) (SamePlace-kept _ p refl refl refl refl)
set_field-SamePlace a (AssetChange.set_available_date t) x n p h =
    subst (SamePlace a) (ok-injective h) (SamePlace-kept _ p refl refl refl refl)
set_field-SamePlace a (AssetChange.set_useful_life t) x n p h =
    subst (SamePlace a) (ok-injective h) (SamePlace-kept _ p refl refl refl refl)
set_field-SamePlace a (AssetChange.set_method t) x n p h =
    subst (SamePlace a) (ok-injective h) (SamePlace-kept _ p refl refl refl refl)
set_field-SamePlace a (AssetChange.describe t) x n p h =
    subst (SamePlace a) (ok-injective h) (SamePlace-kept _ p refl refl refl refl)
set_field-SamePlace a AssetChange.unsupported x n p h = subst (SamePlace a) (ok-injective h) p
set_field-SamePlace a (AssetChange.set_purchase_cost z) x n p h =
    let (c, _, h1) = >>=-eq-ok (cost_column z) _ h in
    subst (SamePlace a) (ok-injective h1) (SamePlace-kept _ p refl refl refl refl)
set_field-SamePlace a (AssetChange.set_residual_value z) x n p h =
    let (c, _, h1) = >>=-eq-ok (cost_column z) _ h in
    subst (SamePlace a) (ok-injective h1) (SamePlace-kept _ p refl refl refl refl)
set_field-SamePlace a (AssetChange.set_department t) x n p h =
    subst (SamePlace a) (ok-injective h)
      (record { pk = p.pk; org = p.org; department = sym (kept_key _ _ n); location = p.location })
set_field-SamePlace a (AssetChange.set_location t) x n p h =
    subst (SamePlace a) (ok-injective h) (record {
      pk = p.pk;
      org = p.org;
      department = p.department;
      location = sym (kept_key _ _ n);
    })

pub set_fields-SamePlace :
    (a : Asset) (changes : List AssetChange) (x : Asset) {b : Asset}
    → any_change (moves a) changes ≡ false
    → SamePlace a x
    → set_fields changes x ≡ ok b
    → SamePlace a b
unfolding set_fields
set_fields-SamePlace a [] x n p h = subst (SamePlace a) (ok-injective h) p
set_fields-SamePlace a (c ∷ changes) x n p h =
    let (first, rest) = neither (moves a c) (any_change (moves a) changes) n in
    let (y, e, h1) = >>=-eq-ok (set_field c x) _ h in
    set_fields-SamePlace a changes y rest (set_field-SamePlace a c x first p e) h1
