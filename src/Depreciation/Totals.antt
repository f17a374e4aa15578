-- ===== src/Depreciation/Totals.antt =====
-- What the postings of a whole useful life come to, by the remainder of the depreciable base by the
-- number of months: `straight_line_periodic_amount` and `calculate_period_amount` together.
use assetflow_fixed_asset_ma.Prelude.{
  ℕ, suc, ◌+◌, ◌-◌, ◌*◌, ◌/◌, ◌%◌, ◌^◌, ◌≤◌, ◌<◌, ◌≡◌, ◌⊎◌, ◌∙◌, ap, inl, inr, some, [], arith, min,
}
use mathlib.Core.Path.{subst}
use native.Mathlib.Nat.{div-add-mod, mod-lt}
use assetflow_fixed_asset_ma.Money.{half_up, divide_to_cents, least_coefficient}
use assetflow_fixed_asset_ma.Money.Division.{divide_to_cents-eq-half_up, half_up_unique}
use assetflow_fixed_asset_ma.Depreciation.Posting.{schedule_entries}
use assetflow_fixed_asset_ma.Depreciation.Advance.{HoldsLedger}
use assetflow_fixed_asset_ma.Depreciation.Course.{Posts, Posts-balances, Posts-left}
use assetflow_fixed_asset_ma.Records.{Asset, Schedule, Db, find_asset}

rounded_down : (b n : ℕ) → 0 < n → 2 * (b % n) < n → half_up b n ≡ b / n
rounded_down b n h r =
    half_up_unique b n (b / n) h (omega (arith, div-add-mod b n)) (omega (arith, div-add-mod b n))

rounded_up : (b n : ℕ) → 0 < n → n ≤ 2 * (b % n) → half_up b n ≡ b / n + 1
rounded_up b n h r =
    let below : b % n < n = mod-lt b h in
    half_up_unique b n (b / n + 1) h (omega (arith, div-add-mod b n))
      (omega (arith, div-add-mod b n, below))

-- What the whole life comes to, by the remainder of the base by the life.
life_total :
    (b n : ℕ)
    → 0 < n
    → ((2 * (b % n) < n → min (n * half_up b n) b + b % n ≡ b)
        × (n ≤ 2 * (b % n) → min (n * half_up b n) b ≡ b))
life_total b n h = (
  λ r. rw (rounded_down b n h r) (omega (arith, div-add-mod b n)),
  λ r. rw (rounded_up b n h r) (omega (arith, div-add-mod b n, mod-lt b h)),
)

-- One month less than the life uses up a base that rounds up and is small against the life.
used_up :
    (b n k p : ℕ)
    → n ≡ suc k
    → p ≡ b / n + 1
    → 0 < n
    → 0 < b
    → b / n + b % n < n
    → ¬ ((k * p < b) ⊎ (b ≡ 0))
used_up b n k p e rounded h positive small (inr nothing) = omega arith
used_up b n k p e rounded h positive small (inl less) =
    let product : n * p ≡ suc k * p = ap (λ (m : ℕ). m * p) e in
    let spread : n * p ≡ n * (b / n + 1) = ap (λ (m : ℕ). n * m) rounded in
    omega (arith, div-add-mod b n, product, spread)

-- A schedule as it is generated: no entry yet, and the monthly amount of its base over its life,
-- within the range of the division.
pub record IsFresh (org asset_id : ℕ) (db : Db) (a : Asset) (s : Schedule) : Type 0 where
  pub held : HoldsLedger org asset_id db a s
  pub unposted : schedule_entries s db ≡ []
  pub periodic : s.periodic_depreciation ≡ divide_to_cents s.depreciable_base s.useful_life_months
  pub life_positive : 0 < s.useful_life_months
  pub life_bounded : s.useful_life_months ≤ 10 ^ 33
  pub base_bounded : s.depreciable_base < least_coefficient

module _ (org asset_id : ℕ) (a : Asset) (s : Schedule) (start : Db) where
  fresh_periodic :
      IsFresh org asset_id start a s
      → s.periodic_depreciation ≡ half_up s.depreciable_base s.useful_life_months
  fresh_periodic f =
      f.periodic
      ∙ divide_to_cents-eq-half_up s.depreciable_base s.useful_life_months f.life_positive
          f.life_bounded f.base_bounded

  -- When every month of the useful life has been posted and the remainder of the base by the
  -- number of months is less than half of that number, the accumulated depreciation falls short of
  -- the base by the remainder.
  pub full_life_shortfall :
      {db : Db}
      → IsFresh org asset_id start a s
      → 2 * (s.depreciable_base % s.useful_life_months) < s.useful_life_months
      → Posts org asset_id start db s.useful_life_months
      → (b : Asset) × (find_asset asset_id org db ≡ some b)
        × (b.accumulated_depreciation + s.depreciable_base % s.useful_life_months
            ≡ s.depreciable_base)
  full_life_shortfall f r posts =
      let balances = Posts-balances org asset_id a s start f.held f.unposted posts in
      let (short, _) = life_total s.depreciable_base s.useful_life_months f.life_positive in
      (balances.0, balances.1, rw (balances.2, fresh_periodic f) (short r))

  -- When every month of the useful life has been posted and the remainder of the base by the
  -- number of months is at least half of that number, the base is depreciated exactly.
  pub full_life_exact :
      {db : Db}
      → IsFresh org asset_id start a s
      → s.useful_life_months ≤ 2 * (s.depreciable_base % s.useful_life_months)
      → Posts org asset_id start db s.useful_life_months
      → (b : Asset) × (find_asset asset_id org db ≡ some b)
        × (b.accumulated_depreciation ≡ s.depreciable_base)
  full_life_exact f r posts =
      let balances = Posts-balances org asset_id a s start f.held f.unposted posts in
      let (_, whole) = life_total s.depreciable_base s.useful_life_months f.life_positive in
      (balances.0, balances.1, rw (balances.2, fresh_periodic f) (whole r))

  not_all_left :
      (k : ℕ)
      → IsFresh org asset_id start a s
      → s.useful_life_months ≡ suc k
      → 0 < s.depreciable_base
      → s.useful_life_months ≤ 2 * (s.depreciable_base % s.useful_life_months)
      → s.depreciable_base / s.useful_life_months + s.depreciable_base % s.useful_life_months
        < s.useful_life_months
      → ¬ ((k * s.periodic_depreciation < s.depreciable_base) ⊎ (s.depreciable_base ≡ 0))
  not_all_left k f e positive half small left =
      used_up s.depreciable_base s.useful_life_months k s.periodic_depreciation e
        (fresh_periodic f ∙ rounded_up s.depreciable_base s.useful_life_months f.life_positive half)
        f.life_positive positive small left

  -- A schedule whose base leaves a remainder of at least half the number of months, and whose whole
  -- part and remainder together are below that number, cannot be posted to its last month: the
  -- rounded-up months use the base up before it.
  pub full_life_never :
      {db : Db}
      → IsFresh org asset_id start a s
      → 0 < s.depreciable_base
      → s.useful_life_months ≤ 2 * (s.depreciable_base % s.useful_life_months)
      → s.depreciable_base / s.useful_life_months + s.depreciable_base % s.useful_life_months
        < s.useful_life_months
      → ¬ Posts org asset_id start db s.useful_life_months
  full_life_never {db} f positive half small posts =
      let e : s.useful_life_months ≡ suc (s.useful_life_months - 1) =
        omega (arith, f.life_positive) in
      not_all_left (s.useful_life_months - 1) f e positive half small (
        Posts-left org asset_id a s start f.held f.unposted
          (subst (Posts org asset_id start db) e posts))
