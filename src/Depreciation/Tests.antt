-- ===== src/Depreciation/Tests.antt =====
-- Runs of the depreciation services on sample schedules over three and five months.
use assetflow_fixed_asset_ma.Prelude.{
  ℕ, ◌≡◌, refl, ◌≤◌, ◌<◌, ◌%◌, ◌+◌, ◌*◌, ◌⊎◌, inl, none, some, [], ◌∷◌, arith, min, length,
}
use assetflow_fixed_asset_ma.Result.{Result, ok, err}
use assetflow_fixed_asset_ma.Table.{find, exists, filter, save}
use assetflow_fixed_asset_ma.Calendar.{
  is_leap, before, same_date, make_date, first_of_month, month_days, month_offset, schedule_end,
}
use assetflow_fixed_asset_ma.Money.{half_up, half_even, quotient_places, divide_to_cents}
use assetflow_fixed_asset_ma.Depreciation.Engine.{
  straight_line_periodic_amount, calculate_period_amount, slm,
}
use assetflow_fixed_asset_ma.Depreciation.Posting.{
  find_period, find_schedule, schedule_entries, entries_of, latest, agrees, settle, posted_in,
  next_period_for_schedule, record_posting, post_month, post_in_organization,
}
use assetflow_fixed_asset_ma.Depreciation.Schedules.{
  schedule_taken, schedule_asset, generate_depreciation_schedule,
}
use assetflow_fixed_asset_ma.Depreciation.Ledger.{due_posting, IsLedger}
use assetflow_fixed_asset_ma.Depreciation.Advance.{
  HoldsLedger, Advanced, post_in_organization-Advanced, post_in_organization-succeeds,
}
use assetflow_fixed_asset_ma.Depreciation.Course.{Posts, begin, post, Posts-balances, Posts-left}
use assetflow_fixed_asset_ma.Depreciation.Totals.{
  IsFresh, full_life_shortfall, full_life_exact, full_life_never,
}
use assetflow_fixed_asset_ma.Depreciation.Generated.{generate_depreciation_schedule-IsFresh}
use assetflow_fixed_asset_ma.Records.{
  Asset, Schedule, Entry, Db, actor_organization, ScheduleStatus, find_asset,
}
use assetflow_fixed_asset_ma.Samples.{january, ann, new_year, press, press_schedule, books}

abbrev fresh_books : ℕ → ℕ → ℕ → Db
fresh_books cost life monthly = books (press cost life) (press_schedule cost life monthly ∷ [])

fresh-IsLedger :
    (cost life monthly : ℕ) → IsLedger (press_schedule cost life monthly) (press cost life) []
unfolding latest agrees
fresh-IsLedger cost life monthly = record {
  straight_line = refl;
  basis = omega arith;
  rollforward = omega arith;
  consumed = omega arith;
  carried = refl;
  agreed = ground arith;
  sequential = tt;
}

fresh_held :
    (cost life monthly : ℕ)
    → HoldsLedger 1 21
        (fresh_books cost life monthly)
        (press cost life)
        (press_schedule cost life monthly)
unfolding find_asset find_schedule find entries_of filter
fresh_held cost life monthly = (refl, refl, fresh-IsLedger cost life monthly)

-- The database after a posting, or as it was if the posting fails.
abbrev stored : Db → Result (Db × Entry) → Db
stored db (ok r) = r.0
stored db (err e) = db

abbrev after_month : ℕ → Db → Db
after_month period_id db = stored db (post_in_organization 1 21 period_id none db)

abbrev after_quarter : Db → Db
after_quarter db = after_month 53 (after_month 52 (after_month 51 db))

posted_short : Posts 1 21 (fresh_books 1000 3 333) (after_quarter (fresh_books 1000 3 333)) 3
unfolding post_in_organization post_month find_period find_asset find_schedule find
    next_period_for_schedule month_offset first_of_month make_date month_days is_leap entries_of
    filter latest agrees settle calculate_period_amount posted_in exists record_posting save
    same_date
posted_short = post 53 none (post 52 none (post 51 none begin refl) refl) refl

posted_exact : Posts 1 21 (fresh_books 500 3 167) (after_quarter (fresh_books 500 3 167)) 3
unfolding post_in_organization post_month find_period find_asset find_schedule find
    next_period_for_schedule month_offset first_of_month make_date month_days is_leap entries_of
    filter latest agrees settle calculate_period_amount posted_in exists record_posting save
    same_date
posted_exact = post 53 none (post 52 none (post 51 none begin refl) refl) refl

books-IsFresh :
    (cost life monthly : ℕ)
    → monthly ≡ divide_to_cents cost life
    → 0 < life
    → life ≤ 100
    → cost < 100000
    → IsFresh 1 21
        (fresh_books cost life monthly)
        (press cost life)
        (press_schedule cost life monthly)
unfolding entries_of filter
books-IsFresh cost life monthly e positive bounded small = record {
  held = fresh_held cost life monthly;
  unposted = refl;
  periodic = e;
  life_positive = positive;
  life_bounded = omega arith;
  base_bounded = omega arith;
}

short_IsFresh : IsFresh 1 21 (fresh_books 1000 3 333) (press 1000 3) (press_schedule 1000 3 333)
unfolding divide_to_cents half_up half_even quotient_places
short_IsFresh = books-IsFresh 1000 3 333 refl (omega arith) (omega arith) (omega arith)

exact_IsFresh : IsFresh 1 21 (fresh_books 500 3 167) (press 500 3) (press_schedule 500 3 167)
unfolding divide_to_cents half_up half_even quotient_places
exact_IsFresh = books-IsFresh 500 3 167 refl (omega arith) (omega arith) (omega arith)

never_IsFresh : IsFresh 1 21 (fresh_books 3 5 1) (press 3 5) (press_schedule 3 5 1)
unfolding divide_to_cents half_up half_even quotient_places
never_IsFresh = books-IsFresh 3 5 1 refl (omega arith) (omega arith) (omega arith)

-- Ten units of account over three months leave one cent.
full_life_shortfall_example :
    (b : Asset) × (find_asset 21 1 (after_quarter (fresh_books 1000 3 333)) ≡ some b)
    × (b.accumulated_depreciation + 1000 % 3 ≡ 1000)
full_life_shortfall_example =
    full_life_shortfall 1 21 (press 1000 3) (press_schedule 1000 3 333) (fresh_books 1000 3 333)
      short_IsFresh (omega arith) posted_short

full_life_exact_example :
    (b : Asset) × (find_asset 21 1 (after_quarter (fresh_books 500 3 167)) ≡ some b)
    × (b.accumulated_depreciation ≡ 500)
full_life_exact_example =
    full_life_exact 1 21 (press 500 3) (press_schedule 500 3 167) (fresh_books 500 3 167)
      exact_IsFresh (omega arith) posted_exact

full_life_never_example : ¬ Posts 1 21 (fresh_books 3 5 1) (after_quarter (fresh_books 3 5 1)) 5
full_life_never_example =
    full_life_never 1 21 (press 3 5) (press_schedule 3 5 1) (fresh_books 3 5 1) never_IsFresh
      (omega arith) (omega arith) (omega arith)

Posts-balances_example :
    (b : Asset) × (find_asset 21 1 (after_quarter (fresh_books 1000 3 333)) ≡ some b)
    × (b.accumulated_depreciation ≡ min (3 * 333) 1000)
    × (b.current_book_value + b.accumulated_depreciation ≡ 1000)
    × (0 ≤ b.current_book_value)
    × (3 ≤ 3)
unfolding entries_of filter
Posts-balances_example =
    Posts-balances 1 21 (press 1000 3) (press_schedule 1000 3 333) (fresh_books 1000 3 333)
      (fresh_held 1000 3 333) refl posted_short

Posts-left_example : (2 * 333 < 1000) ⊎ ((press 1000 3).purchase_cost ≡ 0)
unfolding entries_of filter
Posts-left_example =
    Posts-left 1 21 (press 1000 3) (press_schedule 1000 3 333) (fresh_books 1000 3 333)
      (fresh_held 1000 3 333) refl posted_short

abbrev first_entry : Entry
first_entry = record {
  pk = 61;
  org = 1;
  asset = 21;
  schedule = 41;
  period = 51;
  year = 2024;
  month = 1;
  opening_book_value = 1000;
  depreciation_amount = 333;
  accumulated_depreciation = 333;
  closing_book_value = 667;
  created_by = none;
}

post_in_organization-Advanced_example :
    Advanced 1 21 none
      (press 1000 3)
      (press_schedule 1000 3 333)
      (fresh_books 1000 3 333)
      (after_month 51 (fresh_books 1000 3 333), first_entry)
unfolding post_in_organization post_month find_period find_asset find_schedule find
    next_period_for_schedule month_offset first_of_month make_date month_days is_leap entries_of
    filter latest agrees settle calculate_period_amount posted_in exists record_posting save
    same_date
post_in_organization-Advanced_example =
    post_in_organization-Advanced 1 21 51 none (fresh_books 1000 3 333) (press 1000 3)
      (press_schedule 1000 3 333) (fresh_held 1000 3 333) refl

post_in_organization-succeeds_example :
    post_in_organization 1 21 51 none (fresh_books 1000 3 333)
    ≡ ok (
        record_posting 1 none january
          (press 1000 3)
          (press_schedule 1000 3 333)
          (length (schedule_entries (press_schedule 1000 3 333) (fresh_books 1000 3 333)))
          (due_posting (press_schedule 1000 3 333) (press 1000 3))
          (fresh_books 1000 3 333))
unfolding find_period find next_period_for_schedule month_offset first_of_month make_date month_days
    is_leap entries_of filter posted_in exists
post_in_organization-succeeds_example =
    post_in_organization-succeeds 1 21 51 none (fresh_books 1000 3 333) (press 1000 3)
      (press_schedule 1000 3 333) january (fresh_held 1000 3 333) refl refl refl refl (omega arith)
      (inl (omega arith)) refl

abbrev scheduled : Db
scheduled = elim (generate_depreciation_schedule 21 ann (books (press 1000 3) [])) [
  | ok r ↦ r.0
  | err e ↦ books (press 1000 3) []
]

abbrev generated_schedule : Schedule
generated_schedule = record {
  pk = 61;
  org = 1;
  asset = 21;
  method = slm;
  capitalized_cost = 1000;
  depreciable_base = 1000;
  residual_value = 0;
  useful_life_months = 3;
  start_date = new_year;
  end_date = record { year = 2024; month = 3; day = 31 };
  periodic_depreciation = 333;
  status = ScheduleStatus.running;
}

generate_depreciation_schedule-IsFresh_example :
    IsFresh 1 21 scheduled (press 1000 3) generated_schedule
unfolding generate_depreciation_schedule schedule_asset actor_organization find_asset find before
    schedule_taken exists straight_line_periodic_amount divide_to_cents half_up half_even
    quotient_places schedule_end month_offset first_of_month make_date month_days is_leap
generate_depreciation_schedule-IsFresh_example =
    generate_depreciation_schedule-IsFresh 21 1 ann (books (press 1000 3) []) (press 1000 3) refl
      refl (omega arith) (λ n e. ground (arith, e)) tt refl
