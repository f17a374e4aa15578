-- ===== src/Depreciation/Generated.antt =====
-- What `generate_depreciation_schedule` establishes.
use assetflow_fixed_asset_ma.Prelude.{
  ℕ, zero, suc, ◌+◌, ◌-◌, ◌^◌, ◌≤◌, ◌<◌, ◌≡◌, inl, inr, refl, sym, ap, ◌∙◌, false, not, ◌||◌,
  Option, none, some, List, [], ◌∷◌, arith, ltb, leb, ◌==◌, All, Option-cases,
}
use assetflow_fixed_asset_ma.Prelude.Int.{ℤ, pos, pos_part}
use assetflow_fixed_asset_ma.Result.{
  ok, >>=-eq-ok, raise_if, available_too_early, method_unsupported, cost_invalid,
  balance_not_initial, schedule_exists,
}
use assetflow_fixed_asset_ma.Table.{find, filter}
use assetflow_fixed_asset_ma.Calendar.{Date, before, schedule_end}
use assetflow_fixed_asset_ma.Money.{divide_to_cents}
use assetflow_fixed_asset_ma.Depreciation.Engine.{slm, is_slm, straight_line_periodic_amount}
use assetflow_fixed_asset_ma.Depreciation.Posting.{latest, agrees, find_schedule, entries_of}
use assetflow_fixed_asset_ma.Depreciation.Ledger.{IsLedger}
use assetflow_fixed_asset_ma.Depreciation.Totals.{IsFresh}
use assetflow_fixed_asset_ma.Depreciation.Schedules.{
  positive_life, schedule_taken, new_schedule, schedule_asset, generate_depreciation_schedule,
}
use assetflow_fixed_asset_ma.Records.{
  User, Asset, Schedule, Entry, Db, actor_organization, find_asset,
}

straight_line_amount :
    (cost residual months : ℕ) {periodic : ℤ}
    → straight_line_periodic_amount (pos cost) (pos residual) (some months) ≡ ok periodic
    → pos_part periodic ≡ divide_to_cents (cost - residual) months
unfolding straight_line_periodic_amount
straight_line_amount cost residual zero h = cc
straight_line_amount cost residual (suc n) h = ground arith

is_slm-eq : (a : Asset) → not (is_slm a.depreciation_method) ≡ false → a.depreciation_method ≡ slm
is_slm-eq a h = ground arith

positive_life-eq : (o : Option ℕ) {n : ℕ} → positive_life o ≡ ok n → (o ≡ some n) × (0 < n)
positive_life-eq none h = cc
positive_life-eq (some zero) h = cc
positive_life-eq (some (suc m)) h = (cc, ground arith)

no_entries :
    (k : ℕ) (es : List Entry) → All (λ (e : Entry). e.schedule < k) es → entries_of k es ≡ []
unfolding entries_of filter
no_entries k [] h = refl
no_entries k (e ∷ es) (less, h) = ground (arith, less, no_entries k es h)

-- What a scheduled asset has passed.
record Scheduled (org : ℕ) (a : Asset) (available : Date) (db : Db) (r : Db × Schedule)
    : Type 0 where
  months : ℕ
  end : Date
  periodic : ℤ
  straight_line : a.depreciation_method ≡ slm
  life : a.useful_life_months ≡ some months
  life_positive : 0 < months
  residual_within : a.residual_value ≤ a.purchase_cost
  book_initial : a.current_book_value ≡ a.purchase_cost
  nothing_posted : a.accumulated_depreciation ≡ 0
  amount : pos_part periodic ≡ divide_to_cents (a.purchase_cost - a.residual_value) months
  row : r.1 ≡ new_schedule org a months available end periodic db
  schedules : r.0.schedules ≡ r.1 ∷ db.schedules
  assets : r.0.assets ≡ db.assets
  entries : r.0.entries ≡ db.entries

schedule_asset-Scheduled :
    (org : ℕ) (actor : User) (a : Asset) (capitalized available : Date) (db : Db)
    {r : Db × Schedule}
    → schedule_asset org actor a capitalized available db ≡ ok r
    → Scheduled org a available db r
unfolding schedule_asset
schedule_asset-Scheduled org actor a capitalized available db h =
    let (_, e1, h1) = >>=-eq-ok (raise_if (before available capitalized) available_too_early) _ h in
    let (_, e2, h2) =
      >>=-eq-ok (raise_if (not (is_slm a.depreciation_method)) method_unsupported) _ h1 in
    let (months, e3, h3) = >>=-eq-ok (positive_life a.useful_life_months) _ h2 in
    let (_, e4, h4) =
      >>=-eq-ok
        (raise_if (leb a.purchase_cost 0 || ltb a.purchase_cost a.residual_value) cost_invalid) _
        h3 in
    let (_, e5, h5) =
      >>=-eq-ok
        (raise_if
          (not (a.current_book_value == a.purchase_cost) || not (a.accumulated_depreciation == 0))
          balance_not_initial)
        _ h4 in
    let (_, e6, h6) = >>=-eq-ok (raise_if (schedule_taken a db) schedule_exists) _ h5 in
    let (periodic, e7, h7) =
      >>=-eq-ok
        (straight_line_periodic_amount (pos a.purchase_cost) (pos a.residual_value) (some months)) _
        h6 in
    let (end, e8, h8) = >>=-eq-ok (schedule_end available months) _ h7 in
    record {
      months = months;
      end = end;
      periodic = periodic;
      straight_line = ground (arith, e2);
      life = (positive_life-eq a.useful_life_months e3).0;
      life_positive = (positive_life-eq a.useful_life_months e3).1;
      residual_within = ground (arith, e4);
      book_initial = ground (arith, e5);
      nothing_posted = ground (arith, e5);
      amount = straight_line_amount a.purchase_cost a.residual_value months e7;
      row = ground (arith, h8);
      schedules = ground (arith, h8);
      assets = ground (arith, h8);
      entries = ground (arith, h8);
    }

agrees_initial :
    (s : Schedule) (a : Asset)
    → a.current_book_value ≡ s.capitalized_cost
    → a.accumulated_depreciation ≡ 0
    → agrees s a none ≡ ok tt
unfolding agrees
agrees_initial s a p q = ground arith

latest-none : latest [] ≡ none
unfolding latest
latest-none = refl

IsLedger-new :
    (s : Schedule) (a : Asset)
    → s.method ≡ slm
    → s.depreciable_base + s.residual_value ≡ s.capitalized_cost
    → a.current_book_value ≡ s.capitalized_cost
    → a.accumulated_depreciation ≡ 0
    → IsLedger s a []
IsLedger-new s a line basis book nothing = record {
  straight_line = line;
  basis = basis;
  rollforward = omega arith;
  consumed = omega arith;
  carried = rw latest-none (sym nothing);
  agreed = rw latest-none (agrees_initial s a book nothing);
  sequential = tt;
}

find_schedule-new :
    (org : ℕ) (a : Asset) (s : Schedule) (db : Db) {rest : List Schedule}
    → db.schedules ≡ s ∷ rest
    → s.asset ≡ a.pk
    → s.org ≡ org
    → find_schedule a.pk org db ≡ some s
unfolding find_schedule find
find_schedule-new org a s db e asset o = rw (e, asset, o) (ground arith)

find_asset-same :
    (asset_id org : ℕ) (db db' : Db) {a : Asset}
    → db'.assets ≡ db.assets
    → find_asset asset_id org db ≡ some a
    → find_asset asset_id org db' ≡ some a
unfolding find_asset
find_asset-same asset_id org db db' e found = rw e found

-- A generation that succeeds has both dates, and has run on the asset that is found.
reach_schedule :
    (asset_id org : ℕ) (actor : User) (db : Db) (a : Asset) {r : Db × Schedule}
    → actor.org ≡ some org
    → find_asset asset_id org db ≡ some a
    → generate_depreciation_schedule asset_id actor db ≡ ok r
    → (c : Date) × (v : Date) × (schedule_asset org actor a c v db ≡ ok r)
unfolding generate_depreciation_schedule actor_organization
reach_schedule asset_id org actor db a own found done = elim (Option-cases a.capitalization_date) [
  | inl missing ↦ absurd (ground (arith, missing, own, found, done))
  | inr (c, e) ↦ elim (Option-cases a.available_for_use_date) [
    | inl missing ↦ absurd (ground (arith, missing, e, own, found, done))
    | inr (v, f) ↦ (c, v, ground (arith, e, f, own, found, done))
  ]
]

Scheduled-IsFresh :
    (org asset_id : ℕ) (a : Asset) (available : Date) (db : Db) {r : Db × Schedule}
    → find_asset asset_id org db ≡ some a
    → a.purchase_cost < 10 ^ 20
    → ((n : ℕ) → a.useful_life_months ≡ some n → n < 2 ^ 31)
    → All (λ (e : Entry). e.schedule < db.next_key) db.entries
    → Scheduled org a available db r
    → IsFresh org asset_id r.0 a r.1
Scheduled-IsFresh org asset_id a available db {r} found cost life keys c =
    let s = new_schedule org a c.months available c.end c.periodic db in
    let unposted : entries_of r.1.pk r.0.entries ≡ [] =
      rw (c.row, c.entries) (no_entries db.next_key db.entries keys) in
    let bound : c.months < 2 ^ 31 = life c.months c.life in
    let ledger : IsLedger s a [] =
      IsLedger-new s a c.straight_line (omega (arith, c.residual_within)) c.book_initial
        c.nothing_posted in
    record {
      held = (
        find_asset-same asset_id org db r.0 c.assets found,
        rw (c.row) (
            find_schedule-new org a s r.0 (c.schedules ∙ ap (λ x. x ∷ db.schedules) c.row) refl
              refl),
        rw (unposted, c.row) ledger,
      );
      unposted = unposted;
      periodic = rw c.row c.amount;
      life_positive = rw c.row c.life_positive;
      life_bounded = rw c.row (omega (arith, bound));
      base_bounded = rw c.row (omega arith);
    }

-- A generated schedule is fresh: its database holds the ledger with no entry, at the monthly
-- amount of its base over its life. The asset's cost and life are within their columns, and no
-- entry has the key that the new schedule takes.
pub generate_depreciation_schedule-IsFresh :
    (asset_id org : ℕ) (actor : User) (db : Db) (a : Asset) {db' : Db} {s : Schedule}
    → actor.org ≡ some org
    → find_asset asset_id org db ≡ some a
    → a.purchase_cost < 10 ^ 20
    → ((n : ℕ) → a.useful_life_months ≡ some n → n < 2 ^ 31)
    → All (λ (e : Entry). e.schedule < db.next_key) db.entries
    → generate_depreciation_schedule asset_id actor db ≡ ok (db', s)
    → IsFresh org asset_id db' a s
generate_depreciation_schedule-IsFresh asset_id org actor db a own found cost life keys done =
    let (c, v, body) = reach_schedule asset_id org actor db a own found done in
    Scheduled-IsFresh org asset_id a v db found cost life keys
      (schedule_asset-Scheduled org actor a c v db body)
