-- ===== src/Depreciation/Course.antt =====
-- The course of a schedule: what any number of postings come to.
use assetflow_fixed_asset_ma.Prelude.{
  ℕ, suc, ◌+◌, ◌*◌, ◌≤◌, ◌<◌, ◌≡◌, ◌⊎◌, inl, inr, refl, Option, some, [], arith, min, length, ap,
  ◌∙◌,
}
use assetflow_fixed_asset_ma.Result.{ok}
use assetflow_fixed_asset_ma.Depreciation.Posting.{
  schedule_entries, posted_asset, advanced_schedule, post_in_organization,
}
use assetflow_fixed_asset_ma.Depreciation.Ledger.{due_posting}
use assetflow_fixed_asset_ma.Depreciation.Advance.{
  HoldsLedger, advanced_key, post_in_organization-Advanced,
}
use assetflow_fixed_asset_ma.Records.{User, Asset, Schedule, Entry, Db, find_asset}

-- k successful postings for one asset, one after the other.
pub data Posts (org asset_id : ℕ) (start : Db) : Db → ℕ → Type 0 where
  begin : Posts org asset_id start start 0
  post :
      {db : Db} {k : ℕ} (period_id : ℕ) (actor : Option User) {r : Db × Entry}
      → Posts org asset_id start db k
      → post_in_organization org asset_id period_id actor db ≡ ok r
      → Posts org asset_id start r.0 (suc k)

-- The rows of a schedule and its asset after k postings.
record After (org asset_id : ℕ) (s : Schedule) (db : Db) (k : ℕ) : Type 0 where
  asset : Asset
  schedule : Schedule
  held : HoldsLedger org asset_id db asset schedule
  counted : length (schedule_entries schedule db) ≡ k
  same_base : schedule.depreciable_base ≡ s.depreciable_base
  same_periodic : schedule.periodic_depreciation ≡ s.periodic_depreciation
  same_cost : schedule.capitalized_cost ≡ s.capitalized_cost
  same_life : schedule.useful_life_months ≡ s.useful_life_months
  bounded : k ≤ s.useful_life_months

advanced_terms :
    (k : ℕ) (s : Schedule)
    → ((advanced_schedule k s).depreciable_base ≡ s.depreciable_base)
      × ((advanced_schedule k s).periodic_depreciation ≡ s.periodic_depreciation)
      × ((advanced_schedule k s).capitalized_cost ≡ s.capitalized_cost)
      × ((advanced_schedule k s).useful_life_months ≡ s.useful_life_months)
advanced_terms k s = ground arith

module _ (org asset_id : ℕ) (a : Asset) (s : Schedule) (start : Db) where
  After-post :
      {db : Db} {k : ℕ} (period_id : ℕ) (actor : Option User) {r : Db × Entry}
      → After org asset_id s db k
      → post_in_organization org asset_id period_id actor db ≡ ok r
      → After org asset_id s r.0 (suc k)
  After-post {db} {k} period_id actor {r} f done =
      let n = length (schedule_entries f.schedule db) in
      let (held, entries, _, within, _) =
        post_in_organization-Advanced org asset_id period_id actor db f.asset f.schedule f.held
          done in
      let (base, periodic, cost, life) = advanced_terms n f.schedule in
      record {
        asset = posted_asset actor (due_posting f.schedule f.asset) f.asset;
        schedule = advanced_schedule n f.schedule;
        held = held;
        counted = rw ((advanced_key n f.schedule).0, entries) (ap suc f.counted);
        same_base = base ∙ f.same_base;
        same_periodic = periodic ∙ f.same_periodic;
        same_cost = cost ∙ f.same_cost;
        same_life = life ∙ f.same_life;
        bounded = omega (arith, within, f.counted, f.same_life);
      }

  Posts-After :
      {db : Db} {k : ℕ}
      → HoldsLedger org asset_id start a s
      → schedule_entries s start ≡ []
      → Posts org asset_id start db k
      → After org asset_id s db k
  Posts-After held fresh begin = record {
    asset = a;
    schedule = s;
    held = held;
    counted = ap length fresh;
    same_base = refl;
    same_periodic = refl;
    same_cost = refl;
    same_life = refl;
    bounded = omega arith;
  }
  Posts-After held fresh (post period_id actor posts done) =
      After-post period_id actor (Posts-After held fresh posts) done

After-total :
    (org asset_id : ℕ) (s : Schedule) (db : Db) {k : ℕ} (f : After org asset_id s db k)
    → f.asset.accumulated_depreciation ≡ min (k * s.periodic_depreciation) s.depreciable_base
After-total org asset_id s db f =
    rw (← f.counted, ← f.same_periodic, ← f.same_base) f.held.2.consumed

-- After k postings of a schedule that began with no entry, the accumulated depreciation is k
-- periodic amounts or the whole depreciable base, whichever is less; the book value is the rest of
-- the cost and not below the residual value, and k is within the useful life.
pub Posts-balances :
    (org asset_id : ℕ) (a : Asset) (s : Schedule) (start : Db) {db : Db} {k : ℕ}
    → HoldsLedger org asset_id start a s
    → schedule_entries s start ≡ []
    → Posts org asset_id start db k
    → (b : Asset) × (find_asset asset_id org db ≡ some b)
      × (b.accumulated_depreciation ≡ min (k * s.periodic_depreciation) s.depreciable_base)
      × (b.current_book_value + b.accumulated_depreciation ≡ s.capitalized_cost)
      × (s.residual_value ≤ b.current_book_value)
      × (k ≤ s.useful_life_months)
Posts-balances org asset_id a s start {db} {k} held fresh posts =
    let f = Posts-After org asset_id a s start held fresh posts in
    let total = After-total org asset_id s db f in
    let cost : f.asset.current_book_value + f.asset.accumulated_depreciation ≡ s.capitalized_cost =
      f.held.2.rollforward ∙ f.same_cost in
    (f.asset, f.held.0, total, cost, omega (arith, held.2.basis), f.bounded)

left_of_total :
    (k p base accumulated : ℕ)
    → accumulated ≡ min (k * p) base
    → (accumulated < base) ⊎ (base ≡ 0)
    → (k * p < base) ⊎ (base ≡ 0)
left_of_total k p base accumulated e (inl less) = inl (omega arith)
left_of_total k p base accumulated e (inr nothing) = inr nothing

-- A posting after k others finds less than the depreciable base posted, unless that is zero.
pub Posts-left :
    (org asset_id : ℕ) (a : Asset) (s : Schedule) (start : Db) {db : Db} {k : ℕ}
    → HoldsLedger org asset_id start a s
    → schedule_entries s start ≡ []
    → Posts org asset_id start db (suc k)
    → (k * s.periodic_depreciation < s.depreciable_base) ⊎ (s.depreciable_base ≡ 0)
Posts-left org asset_id a s start {k = k} held fresh (post {db = db} period_id actor posts done) =
    let f = Posts-After org asset_id a s start held fresh posts in
    let (_, _, _, _, left) =
      post_in_organization-Advanced org asset_id period_id actor db f.asset f.schedule f.held
        done in
    left_of_total k s.periodic_depreciation s.depreciable_base f.asset.accumulated_depreciation
      (After-total org asset_id s db f) (rw f.same_base at left)
