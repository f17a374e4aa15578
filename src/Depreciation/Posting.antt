-- ===== src/Depreciation/Posting.antt =====
-- Posting a month of depreciation: `post_depreciation` of
-- backend/depreciation/services/posting.py.
use assetflow_fixed_asset_ma.Prelude.{
  ℕ, suc, Bool, not, ◌&&◌, ◌||◌, Option, none, some, List, [], ◌∷◌, ltb, leb, ◌==◌, if◌then◌else◌,
  length,
}
use assetflow_fixed_asset_ma.Prelude.Int.{ℤ, pos, negsuc, ◌+ℤ◌, ◌-ℤ◌, ltb_ℤ}
use assetflow_fixed_asset_ma.Result.{
  Fault, Result, ok, err, ◌>>=◌, ◌>>◌, raise_if, or_raise, organization_required,
  wrong_organization, period_missing, period_not_open, asset_missing, asset_not_active,
  schedule_missing, out_of_sequence, schedule_complete, book_value_mismatch, accumulated_mismatch,
  basis_mismatch, below_residual, already_posted,
}
use assetflow_fixed_asset_ma.Table.{find, exists, filter, save}
use assetflow_fixed_asset_ma.Calendar.{Date, same_date, first_of_month, month_offset}
use assetflow_fixed_asset_ma.Depreciation.Engine.{calculate_period_amount}
use assetflow_fixed_asset_ma.Records.{
  User, user_key, Asset, is_active_asset, Period, is_open_period, first_day, Schedule,
  ScheduleStatus, Entry, Action, Db, record_event, find_asset,
}
use assetflow_fixed_asset_ma.Commercial.Entitlements.{require_write_access}

-- The organization of an actor that belongs to `own`, against the target that the caller names.
abbrev target_organization : Option ℕ → Option ℕ → Result ℕ
target_organization none target = err organization_required
target_organization (some own) none = ok own
target_organization (some own) (some target) =
    if target == own then ok own else err wrong_organization

-- `_organization(actor, organization)`: a call with no actor is the system's.
unfoldable pub organization_of : Option User → Option ℕ → Result ℕ
organization_of (some u) target = target_organization u.org target
organization_of none (some target) = ok target
organization_of none none = err organization_required

unfoldable pub next_period_for_schedule : Schedule → ℕ → Result Date
next_period_for_schedule s posted = month_offset (first_of_month s.start_date) posted

-- The order of `order_by("-accounting_period__year", "-accounting_period__month")`.
abbrev pub later : Entry → Entry → Bool
later a b = ltb b.year a.year || (b.year == a.year) && ltb b.month a.month

abbrev pub later_of : Entry → Option Entry → Entry
later_of e none = e
later_of e (some f) = if later f e then f else e

-- `.order_by(...).first()`
unfoldable pub latest : List Entry → Option Entry
latest [] = none
latest (e ∷ es) = some (later_of e (latest es))

-- What one posting writes.
pub record Posting : Type 0 where
  pub amount : ℕ
  pub accumulated : ℕ
  pub closing : ℕ

abbrev pub prior_accumulated : Option Entry → ℕ
prior_accumulated none = 0
prior_accumulated (some e) = e.accumulated_depreciation

-- The asset's balances against the latest entry, or against the schedule's basis.
unfoldable pub agrees : Schedule → Asset → Option Entry → Result (Unit {0})
agrees s a none =
    raise_if
      (not (a.current_book_value == s.capitalized_cost) || not (a.accumulated_depreciation == 0))
      basis_mismatch
agrees s a (some e) = do
  raise_if (not (a.current_book_value == e.closing_book_value)) book_value_mismatch
  raise_if (not (a.accumulated_depreciation == e.accumulated_depreciation)) accumulated_mismatch

-- A value for a column with a CHECK that it is not below zero.
abbrev column : ℤ → Fault → Result ℕ
column (pos n) e = ok n
column (negsuc n) e = err e

-- The amount of the next posting and the balances after it.
unfoldable pub settle : Schedule → Asset → Option Entry → Result Posting
settle s a prior = do
  amount ←
      calculate_period_amount s.method (pos a.current_book_value) (pos s.residual_value)
        (pos s.depreciable_base) (pos s.periodic_depreciation) (pos (prior_accumulated prior))
  let closing = pos a.current_book_value -ℤ amount
  let accumulated = pos (prior_accumulated prior) +ℤ amount
  raise_if (ltb_ℤ closing (pos s.residual_value)) below_residual
  amount' ← column amount already_posted
  accumulated' ← column accumulated already_posted
  closing' ← column closing already_posted
  ok (record { amount = amount'; accumulated = accumulated'; closing = closing' })

unfoldable pub find_period : ℕ → ℕ → Db → Option Period
find_period pk org db = find (λ (p : Period). p.pk == pk && p.org == org) db.periods

-- `DepreciationSchedule.objects.get(asset=asset, organization=org)`
unfoldable pub find_schedule : ℕ → ℕ → Db → Option Schedule
find_schedule asset org db = find (λ (s : Schedule). s.asset == asset && s.org == org) db.schedules

unfoldable pub entries_of : ℕ → List Entry → List Entry
entries_of schedule es = filter (λ (e : Entry). e.schedule == schedule) es

-- `DepreciationEntry.objects.filter(schedule=schedule)`
abbrev pub schedule_entries : Schedule → Db → List Entry
schedule_entries s db = entries_of s.pk db.entries

-- The unique constraint on (organization, asset, accounting period).
unfoldable pub posted_in : ℕ → Asset → Period → Db → Bool
posted_in org a p db =
    exists (λ (e : Entry). e.org == org && e.asset == a.pk && e.period == p.pk) db.entries

abbrev pub new_entry : ℕ → Option User → Period → Asset → Schedule → Posting → Db → Entry
new_entry org actor p a s posting db = record {
  pk = db.next_key;
  org = org;
  asset = a.pk;
  schedule = s.pk;
  period = p.pk;
  year = p.year;
  month = p.month;
  opening_book_value = a.current_book_value;
  depreciation_amount = posting.amount;
  accumulated_depreciation = posting.accumulated;
  closing_book_value = posting.closing;
  created_by = user_key actor;
}

abbrev pub posted_asset : Option User → Posting → Asset → Asset
posted_asset actor posting a = record a {
  accumulated_depreciation = posting.accumulated;
  current_book_value = posting.closing;
  updated_by = actor;
}

-- The schedule is complete when its last month is posted.
abbrev pub advanced_schedule : ℕ → Schedule → Schedule
advanced_schedule posted s =
    if suc posted == s.useful_life_months then record s { status = ScheduleStatus.complete } else s

-- The writes of a posting: the entry, the asset's balances, the event and the schedule's status.
unfoldable pub record_posting :
    ℕ → Option User → Period → Asset → Schedule → ℕ → Posting → Db → Db × Entry
record_posting org actor p a s posted posting db =
    let entry : Entry = new_entry org actor p a s posting db in
    let db' : Db = record_event org (user_key actor) Action.depreciation_posted db.next_key db in
    (
      record db' {
        entries = entry ∷ db.entries;
        assets = save (λ (x : Asset). x.pk) (posted_asset actor posting a) db.assets;
        schedules = save (λ (x : Schedule). x.pk) (advanced_schedule posted s) db.schedules;
        next_key = suc db.next_key;
      },
      entry,
    )

-- The part of a posting that reads the schedule's entries, with its rows at hand.
unfoldable pub post_month : ℕ → Period → Asset → Schedule → Option User → Db → Result (Db × Entry)
post_month org period asset schedule actor db = do
  let entries = schedule_entries schedule db
  let posted = length entries
  expected ← next_period_for_schedule schedule posted
  raise_if (not (same_date (first_day period) expected)) out_of_sequence
  raise_if (leb schedule.useful_life_months posted) schedule_complete
  agrees schedule asset (latest entries)
  posting ← settle schedule asset (latest entries)
  raise_if (posted_in org asset period db) already_posted
  ok (record_posting org actor period asset schedule posted posting db)

-- The part after the organization is known and its write access is granted.
unfoldable pub post_in_organization : ℕ → ℕ → ℕ → Option User → Db → Result (Db × Entry)
post_in_organization org asset_id period_id actor db = do
  period ← or_raise (find_period period_id org db) period_missing
  raise_if (not (is_open_period period.status)) period_not_open
  asset ← or_raise (find_asset asset_id org db) asset_missing
  raise_if (not (is_active_asset asset.status)) asset_not_active
  schedule ← or_raise (find_schedule asset.pk org db) schedule_missing
  post_month org period asset schedule actor db

unfoldable pub post_depreciation : ℕ → ℕ → ℕ → Option User → Option ℕ → Db → Result (Db × Entry)
post_depreciation now asset_id period_id actor organization db = do
  org ← organization_of actor organization
  require_write_access now org db
  post_in_organization org asset_id period_id actor db
