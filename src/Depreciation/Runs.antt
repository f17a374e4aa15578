-- ===== src/Depreciation/Runs.antt =====
-- Monthly runs: a month is scheduled once.
use mathlib.Core.Path.{subst}
use assetflow_fixed_asset_ma.Prelude.{
  ℕ, ◌≡◌, refl, ap, ◌∙◌, Bool, true, false, not, ◌&&◌, Option, none, some, List, ◌∷◌, ◌==◌, ==_iff,
  inl, inr, Bool-cases,
}
use assetflow_fixed_asset_ma.Calendar.{Date, same_date, first_of_month}
use assetflow_fixed_asset_ma.Result.{
  ok, >>=-eq-ok, raise_if-then, ok-injective, >>=-step, raise_if-step,
}
use assetflow_fixed_asset_ma.Table.{find, exists}
use assetflow_fixed_asset_ma.Records.{Org, Period, is_open_period, Run, Db}
use assetflow_fixed_asset_ma.Commercial.Entitlements.{require_write_access}
use assetflow_fixed_asset_ma.Depreciation.Automation.{
  Books, change_run, mark_failed, period_in, run_in, check_period, created_run, get_or_create,
  schedule_organization_depreciation,
}

-- The month's run is in the table, and the organizations are those of another database.
abbrev IsScheduled : ℕ → Date → Db → Books → Type 0
IsScheduled org window db b =
    ((r : Run) × (run_in org window b.runs ≡ some r)) × (b.db.organizations ≡ db.organizations)

same_window : (org : ℕ) (d : Date) → (org == org && same_date d d) ≡ true
unfolding same_date
same_window org d =
    rw
      (
        (==_iff org org).1 refl,
        (==_iff d.year d.year).1 refl,
        (==_iff d.month d.month).1 refl,
        (==_iff d.day d.day).1 refl,
      )
      refl

run_in_head :
    (org : ℕ) (window : Date) (r : Run) (runs : List Run)
    → r.org ≡ org
    → r.scheduled_for ≡ window
    → run_in org window (r ∷ runs) ≡ some r
unfolding run_in find
run_in_head org window r runs e f = rw (e, f, same_window org window) refl

check_period-IsScheduled :
    (now org : ℕ) (window : Date) (r : Run) (period : Option Period) (b : Books) (runs : List Run)
    → r.org ≡ org
    → r.scheduled_for ≡ window
    → b.runs ≡ r ∷ runs
    → IsScheduled org window b.db (check_period now r period b)
unfolding mark_failed change_run
check_period-IsScheduled now org window r none b runs e f g =
    (rw (g, (==_iff r.pk r.pk).1 refl) (_, run_in_head org window _ _ e f), refl)
check_period-IsScheduled now org window r (some p) b runs e f g =
    elim (Bool-cases (is_open_period p.status)) [
      | inl h ↦ rw h (rw g (r, run_in_head org window r runs e f), refl)
      | inr h ↦ rw h (rw (g, (==_iff r.pk r.pk).1 refl) (_, run_in_head org window _ _ e f), refl)
    ]

get_or_create-IsScheduled :
    (now org : ℕ) (window : Date) (found : Option Run) (b : Books)
    → run_in org window b.runs ≡ found
    → IsScheduled org window b.db (get_or_create now org window found b).0
unfolding created_run
get_or_create-IsScheduled now org window (some r) b h = ((r, h), refl)
get_or_create-IsScheduled now org window none b h =
    check_period-IsScheduled now org window _ (period_in org window b.db) _ b.runs refl refl refl

same_access :
    (now org : ℕ) (db db' : Db)
    → db'.organizations ≡ db.organizations
    → require_write_access now org db ≡ ok tt
    → require_write_access now org db' ≡ ok tt
unfolding require_write_access
same_access now org db db' e h = rw e h

-- Once a month of an organization is scheduled, scheduling any day of that month again, while its
-- subscription can still be written, creates nothing and leaves the database as it is.
pub schedule_organization_depreciation_once :
    (now later org : ℕ) (window day : Date) (b : Books) {r : Books × Bool}
    → schedule_organization_depreciation now org window b ≡ ok r
    → first_of_month day ≡ first_of_month window
    → require_write_access later org b.db ≡ ok tt
    → schedule_organization_depreciation later org day r.0 ≡ ok (r.0, false)
unfolding schedule_organization_depreciation
schedule_organization_depreciation_once now later org window day b {r} h same access =
    let month = first_of_month window in
    let (active, h1) =
      raise_if-then (not (exists (λ (o : Org). o.pk == org && o.is_active) b.db.organizations)) _ _
        h in
    let (_, _, h2) = >>=-eq-ok (require_write_access now org b.db) _ h1 in
    let ((run, found), orgs) =
      subst (λ (x : Books × Bool). IsScheduled org month b.db x.0) (ok-injective h2)
        (get_or_create-IsScheduled now org month (run_in org month b.runs) b refl) in
    raise_if-step _ _
      (ap (λ t. not (exists (λ (o : Org). o.pk == org && o.is_active) t)) orgs ∙ active)
    ∙ >>=-step _ (same_access later org b.db r.0.db orgs access)
    ∙ ap ok (
        ap (λ d. get_or_create later org d (run_in org d r.0.runs) r.0) same
        ∙ ap (λ o. get_or_create later org month o r.0) found)
