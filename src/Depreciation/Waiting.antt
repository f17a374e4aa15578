-- ===== src/Depreciation/Waiting.antt =====
-- What a completed monthly run leaves of the schedules that waited for its month. A schedule waits
-- by what the database holds; the loops of the run are not asked.
use mathlib.Core.List.{Memᴰ}
use mathlib.Core.List.Memᴰ.{head, tail}
use mathlib.Core.List.{Permᴰ}
use assetflow_fixed_asset_ma.Prelude.{
  ℕ, ◌≡◌, refl, sym, ap, ◌∙◌, Bool, true, false, not, ◌&&◌, some, List, [], ◌∷◌, ◌==◌, ==_iff, ◌⊎◌,
  inl, inr, Bool-cases, arith,
}
use mathlib.Core.Sum.{inr-injective}
use assetflow_fixed_asset_ma.Calendar.{Date, before}
use assetflow_fixed_asset_ma.Result.{Result, ok, err}
use assetflow_fixed_asset_ma.Table.{exists, filter}
use assetflow_fixed_asset_ma.Table.Members.{test_differs, filter-Mem, Perm-Mem, All-Mem}
use assetflow_fixed_asset_ma.Records.{
  Asset, is_active_asset, Period, first_day, ScheduleStatus, Schedule, Entry, RunStatus, RunFailure,
  Run, Db,
}
use assetflow_fixed_asset_ma.Depreciation.Automation.{
  Books, is_terminal_run, find_run, is_running, last_day, on_active_asset, schedules_due_for_period,
  position, is_due, add_due, collect_due, period_of, execute_monthly_run,
}
use assetflow_fixed_asset_ma.Depreciation.Posted.{IsPosted}
use assetflow_fixed_asset_ma.Depreciation.Completing.{execute_monthly_run-Due}

position_over :
    (period : Period) (s : Schedule) (posted : ℕ) (expected : Result Date)
    → position period s posted expected ≡ inr false
    → before s.end_date (first_day period) ≡ true
position_over period s posted (err fault) h = cc
position_over period s posted (ok expected) h =
    elim (Bool-cases (before s.end_date (first_day period))) [
      | inl over ↦ over
      | inr going ↦ ground (arith, h, going)
    ]

-- A schedule that waits for a month is not passed over.
not_passed :
    (org : ℕ) (period : Period) (db : Db) (s : Schedule)
    → exists (λ (e : Entry). e.org == org && e.schedule == s.pk && e.period == period.pk) db.entries
      ≡ false
    → before s.end_date (first_day period) ≡ false
    → is_due org period db s ≡ inr false
    → ⊥
unfolding is_due
not_passed org period db s missing going h =
    let over = position_over period s _ _ (rw missing at h) in test_differs _ over going

-- What was collected before a schedule, and whether it was added.
add_due-cases :
    (s : Schedule) (d : RunFailure ⊎ Bool) (others : RunFailure ⊎ List Schedule)
    {due : List Schedule}
    → add_due s d others ≡ inr due
    → (rest : List Schedule) × (others ≡ inr rest)
      × (((d ≡ inr false) × (due ≡ rest)) ⊎ (due ≡ s ∷ rest))
add_due-cases s (inl failure) others h = cc
add_due-cases s (inr false) others {due} h = (due, h, inl (refl, refl))
add_due-cases s (inr true) (inl failure) h = cc
add_due-cases s (inr true) (inr rest) h = (rest, refl, inr (sym (inr-injective _ _ h)))

collect_due-Mem :
    (org : ℕ) (period : Period) (db : Db) (s : Schedule) (schedules : List Schedule)
    {due : List Schedule}
    → (is_due org period db s ≡ inr false → ⊥)
    → Memᴰ s schedules
    → collect_due org period db schedules ≡ inr due
    → Memᴰ s due
unfolding collect_due
collect_due-Mem org period db s [] kept m h = elim m [ ]
collect_due-Mem org period db s (x ∷ schedules) kept (head e) h =
    let (rest, _, c) =
      add_due-cases x (is_due org period db x) (collect_due org period db schedules) h in
    elim c [
      | inl (passed, _) ↦ absurd (kept (ap (is_due org period db) e ∙ passed))
      | inr added ↦ rw added (head e)
    ]
collect_due-Mem org period db s (x ∷ schedules) kept (tail m) h =
    let (rest, found, c) =
      add_due-cases x (is_due org period db x) (collect_due org period db schedules) h in
    let there = collect_due-Mem org period db s schedules kept m found in
    elim c [ inl (_, same) ↦ rw same there | inr added ↦ rw added (tail there) ]

all_tests :
    (a b c d : Bool) → a ≡ true → b ≡ true → c ≡ true → d ≡ false → (a && b && c && not d) ≡ true
all_tests a b c d h k l m = ground (arith, h, k, l, m)

running_status : (x : ScheduleStatus) → x ≡ ScheduleStatus.running → is_running x ≡ true
running_status x h = ap is_running h

-- When an execution that gets the lock leaves a run completed that was pending or running, and the
-- database's sort keeps all rows: every running schedule of the run's organization that started by
-- the last day of the run's month, has not ended before the month, is one of an active asset and had
-- no entry of its own in the month, has an entry of its asset there.
pub execute_monthly_run-IsPosted :
    (now later : ℕ) (order_by : List Schedule → List Schedule) (pk : ℕ) (b : Books) (run : Run)
    (period : Period) (s : Schedule) {after : Books} {r : Run}
    → ((l : List Schedule) → Permᴰ (order_by l) l)
    → find_run pk b.runs ≡ some run
    → is_terminal_run run.status ≡ false
    → period_of run.accounting_period b.db ≡ some period
    → execute_monthly_run true now later order_by pk b ≡ ok after
    → find_run pk after.runs ≡ some r
    → r.status ≡ RunStatus.completed_run
    → Memᴰ s b.db.schedules
    → s.org ≡ run.org
    → s.status ≡ ScheduleStatus.running
    → before (last_day period) s.start_date ≡ false
    → before s.end_date (first_day period) ≡ false
    → exists (λ (a : Asset). a.pk == s.asset && is_active_asset a.status) b.db.assets ≡ true
    → exists
        (λ (e : Entry). e.org == run.org && e.schedule == s.pk && e.period == period.pk)
        b.db.entries
      ≡ false
    → exists
        (λ (e : Entry). e.org == run.org && e.asset == s.asset && e.period == period.pk)
        after.db.entries
      ≡ true
unfolding on_active_asset schedules_due_for_period
execute_monthly_run-IsPosted now later order_by pk b run period s {after} keeps there going e h
      found done m org running started ends active missing =
    let (due, collected, posted) =
      execute_monthly_run-Due now later order_by pk b run period there going e h found done in
    let q = λ (x : Schedule).
      x.org == run.org
      && is_running x.status
      && on_active_asset x b.db
      && not (before (last_day period) x.start_date) in
    let waits =
      all_tests _ _ _ _ ((==_iff s.org run.org).1 org) (running_status s.status running) active
        started in
    let listed = Perm-Mem (keeps (filter q b.db.schedules)) (filter-Mem q b.db.schedules m waits) in
    All-Mem (IsPosted run.org period.pk after) due posted (
      collect_due-Mem run.org period b.db s _ (not_passed run.org period b.db s missing ends) listed
        collected)
