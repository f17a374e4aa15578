-- ===== src/Depreciation/Advance.antt =====
-- A posting in the database: what `post_in_organization` needs, and what it makes of the ledger.
use mathlib.Core.Path.{subst}
use assetflow_fixed_asset_ma.Prelude.{
  ℕ, suc, ◌+◌, ◌-◌, ◌≤◌, ◌<◌, ◌≡◌, ◌⊎◌, inl, inr, refl, true, false, not, sym, ap, ◌∙◌, ◌&&◌,
  Option, some, List, ◌∷◌, arith, min, leb, ◌==◌, Option-cases, ==_iff, length, Bool-cases,
}
use assetflow_fixed_asset_ma.Result.{
  ok, >>=-eq-ok, raise_if, out_of_sequence, schedule_complete, already_posted,
}
use assetflow_fixed_asset_ma.Table.{find-test, find-save, filter-here}
use assetflow_fixed_asset_ma.Calendar.{Date, same_date}
use assetflow_fixed_asset_ma.Calendar.Months.{
  IsMonth, month_index, month_offset_first, same_date-eq,
}
use assetflow_fixed_asset_ma.Depreciation.Posting.{
  latest, Posting, agrees, settle, find_period, find_schedule, schedule_entries, entries_of,
  posted_in, next_period_for_schedule, new_entry, posted_asset, advanced_schedule, record_posting,
  post_month, post_in_organization,
}
use assetflow_fixed_asset_ma.Depreciation.Ledger.{
  Chain, latest-Chain, IsLedger, due_posting, accumulated-le, settle-cases, settle_left,
}
use assetflow_fixed_asset_ma.Records.{
  User, Asset, is_active_asset, Period, is_open_period, first_day, Schedule, Entry, Db, find_asset,
}

agrees_self :
    (s : Schedule) (a : Asset) (e : Entry)
    → a.current_book_value ≡ e.closing_book_value
    → a.accumulated_depreciation ≡ e.accumulated_depreciation
    → agrees s a (some e) ≡ ok tt
unfolding agrees
agrees_self s a e p q = ground arith

IsLedger-advance :
    (k : ℕ) (s : Schedule) (a : Asset) (es : List Entry)
    → IsLedger s a es
    → IsLedger (advanced_schedule k s) a es
unfolding agrees
IsLedger-advance k s a es l = elim (Bool-cases (suc k == s.useful_life_months)) [
  | inl last ↦ rw last (record {
    straight_line = l.straight_line;
    basis = l.basis;
    rollforward = l.rollforward;
    consumed = l.consumed;
    carried = l.carried;
    agreed = l.agreed;
    sequential = l.sequential;
  })
  | inr more ↦ rw more l
]

same_date_refl : (d : Date) → same_date d d ≡ true
unfolding same_date
same_date_refl d = ground arith

not_leb : (a b : ℕ) → b < a → leb a b ≡ false
not_leb a b h = ground arith

-- The rows of a ledger after its next posting: the balances move by the due amount, and the new
-- entry continues the months.
module _ (org : ℕ) (actor : Option User) (p : Period) (a : Asset) (s : Schedule) (db : Db) where
  abbrev due_entry : Entry
  due_entry = new_entry org actor p a s (due_posting s a) db

  IsLedger-post :
      (es : List Entry)
      → IsLedger s a es
      → (a.accumulated_depreciation < s.depreciable_base) ⊎ (s.depreciable_base ≡ 0)
      → IsMonth (first_day p)
      → month_index (first_day p) ≡ month_index s.start_date + length es
      → IsLedger s (posted_asset actor (due_posting s a) a) (due_entry ∷ es)
  IsLedger-post es l left month index =
      let within : a.accumulated_depreciation ≤ s.depreciable_base = accumulated-le l in
      let chain : Chain s.start_date (due_entry ∷ es) = (month.0, month.1, index, l.sequential) in
      let newest : latest (due_entry ∷ es) ≡ some due_entry =
        latest-Chain s.start_date due_entry es chain in
      record {
        straight_line = l.straight_line;
        basis = l.basis;
        rollforward = omega (arith, l.rollforward, l.basis, within);
        consumed = omega (arith, l.consumed, within);
        carried = rw newest refl;
        agreed = rw newest (agrees_self s _ due_entry refl refl);
        sequential = chain;
      }

-- What a successful posting has passed.
pub record Passed (org : ℕ) (p : Period) (a : Asset) (s : Schedule) (actor : Option User) (db : Db)
    (r : Db × Entry) : Type 0 where
  pub posting : Posting
  pub settled : settle s a (latest (schedule_entries s db)) ≡ ok posting
  pub expected : next_period_for_schedule s (length (schedule_entries s db)) ≡ ok (first_day p)
  pub within : length (schedule_entries s db) < s.useful_life_months
  pub result : r ≡ record_posting org actor p a s (length (schedule_entries s db)) posting db

pub post_month-Passed :
    (org : ℕ) (p : Period) (a : Asset) (s : Schedule) (actor : Option User) (db : Db)
    {r : Db × Entry}
    → post_month org p a s actor db ≡ ok r
    → Passed org p a s actor db r
unfolding post_month
post_month-Passed org p a s actor db h =
    let es = schedule_entries s db in
    let (expected, e1, h1) = >>=-eq-ok (next_period_for_schedule s (length es)) _ h in
    let (_, e2, h2) =
      >>=-eq-ok (raise_if (not (same_date (first_day p) expected)) out_of_sequence) _ h1 in
    let (_, e3, h3) =
      >>=-eq-ok (raise_if (leb s.useful_life_months (length es)) schedule_complete) _ h2 in
    let (_, e4, h4) = >>=-eq-ok (agrees s a (latest es)) _ h3 in
    let (posting, e5, h5) = >>=-eq-ok (settle s a (latest es)) _ h4 in
    let (_, e6, h6) = >>=-eq-ok (raise_if (posted_in org a p db) already_posted) _ h5 in
    record {
      posting = posting;
      settled = e5;
      expected = rw (same_date-eq (first_day p) expected (ground (arith, e2))) e1;
      within = ground (arith, e3);
      result = ground (arith, h6);
    }

entries_of-here :
    (e : Entry) (es : List Entry) → entries_of e.schedule (e ∷ es) ≡ e ∷ entries_of e.schedule es
unfolding entries_of
entries_of-here e es =
    filter-here (λ (x : Entry). x.schedule == e.schedule) e es
      ((==_iff e.schedule e.schedule).1 refl)

pub advanced_key :
    (k : ℕ) (s : Schedule)
    → ((advanced_schedule k s).pk ≡ s.pk)
      × ((advanced_schedule k s).asset ≡ s.asset)
      × ((advanced_schedule k s).org ≡ s.org)
advanced_key k s = ground arith

-- The database holds the asset and its schedule in the organization, and their ledger.
abbrev pub HoldsLedger : ℕ → ℕ → Db → Asset → Schedule → Type 0
HoldsLedger org asset_id db a s =
    (find_asset asset_id org db ≡ some a)
    × (find_schedule a.pk org db ≡ some s)
    × IsLedger s a (schedule_entries s db)

module _ (org asset_id : ℕ) (actor : Option User) (p : Period) (a : Asset) (s : Schedule)
    (db : Db) where
  abbrev posted_db : Db
  posted_db =
      (record_posting org actor p a s (length (schedule_entries s db)) (due_posting s a) db).0

  find_asset-posted :
      find_asset asset_id org db ≡ some a
      → find_asset asset_id org posted_db ≡ some (posted_asset actor (due_posting s a) a)
  unfolding find_asset record_posting
  find_asset-posted h =
      find-save (λ (x : Asset). x.pk) (λ (x : Asset). x.pk == asset_id && x.org == org)
        (posted_asset actor (due_posting s a) a) db.assets h refl
        (find-test (λ (x : Asset). x.pk == asset_id && x.org == org) db.assets h)

  find_schedule-posted :
      find_schedule a.pk org db ≡ some s
      → find_schedule a.pk org posted_db
        ≡ some (advanced_schedule (length (schedule_entries s db)) s)
  unfolding find_schedule record_posting
  find_schedule-posted h =
      let (k, asset, o) = advanced_key (length (schedule_entries s db)) s in
      find-save (λ (x : Schedule). x.pk) (λ (x : Schedule). x.asset == a.pk && x.org == org)
        (advanced_schedule (length (schedule_entries s db)) s) db.schedules h (sym k)
        (rw (asset, o)
          (find-test (λ (x : Schedule). x.asset == a.pk && x.org == org) db.schedules h))

  schedule_entries-posted :
      schedule_entries (advanced_schedule (length (schedule_entries s db)) s) posted_db
      ≡ due_entry org actor p a s db ∷ schedule_entries s db
  unfolding record_posting
  schedule_entries-posted =
      rw (advanced_key (length (schedule_entries s db)) s).0
        (entries_of-here (due_entry org actor p a s db) db.entries)

  schedule_entries-recorded :
      schedule_entries s posted_db ≡ due_entry org actor p a s db ∷ schedule_entries s db
  unfolding record_posting
  schedule_entries-recorded = entries_of-here (due_entry org actor p a s db) db.entries

  recorded_entry :
      (record_posting org actor p a s (length (schedule_entries s db)) (due_posting s a) db).1
      ≡ due_entry org actor p a s db
  unfolding record_posting
  recorded_entry = refl

-- A posting that succeeds has found its period, and has run on the rows that are found.
reach_month :
    (org asset_id period_id : ℕ) (actor : Option User) (db : Db) (a : Asset) (s : Schedule)
    {r : Db × Entry}
    → find_asset asset_id org db ≡ some a
    → find_schedule a.pk org db ≡ some s
    → post_in_organization org asset_id period_id actor db ≡ ok r
    → (p : Period) × (find_period period_id org db ≡ some p)
      × (post_month org p a s actor db ≡ ok r)
unfolding post_in_organization
reach_month org asset_id period_id actor db a s found schedule done =
    elim (Option-cases (find_period period_id org db)) [
      | inl missing ↦ absurd (ground (arith, missing))
      | inr (p, e) ↦ (p, e, ground (arith, e))
    ]

posted-IsMonth :
    (s : Schedule) (p : Period) (k : ℕ)
    → next_period_for_schedule s k ≡ ok (first_day p)
    → IsMonth (first_day p) × (month_index (first_day p) ≡ month_index s.start_date + k)
unfolding next_period_for_schedule
posted-IsMonth s p k h =
    let (_, month, index) = month_offset_first s.start_date k h in (month, index)

-- What a posting leads to: the ledger is held with its new balances, the entry continues the
-- schedule's entries, the amount is the periodic amount or what is left of the depreciable base,
-- the schedule's months are not exceeded, and something was left to depreciate, unless nothing is
-- depreciable at all.
abbrev pub Advanced : ℕ → ℕ → Option User → Asset → Schedule → Db → Db × Entry → Type 0
Advanced org asset_id actor a s db r =
    HoldsLedger org asset_id r.0 (posted_asset actor (due_posting s a) a)
      (advanced_schedule (length (schedule_entries s db)) s)
    × (schedule_entries s r.0 ≡ r.1 ∷ schedule_entries s db)
    × (r.1.depreciation_amount
        ≡ min s.periodic_depreciation (s.depreciable_base - a.accumulated_depreciation))
    × (length (schedule_entries s db) < s.useful_life_months)
    × ((a.accumulated_depreciation < s.depreciable_base) ⊎ (s.depreciable_base ≡ 0))

recorded_same :
    (org : ℕ) (p : Period) (a : Asset) (s : Schedule) (actor : Option User) (db : Db)
    {x y : Posting}
    → x ≡ y
    → record_posting org actor p a s (length (schedule_entries s db)) x db
      ≡ record_posting org actor p a s (length (schedule_entries s db)) y db
recorded_same org p a s actor db e =
    ap (λ (x : Posting). record_posting org actor p a s (length (schedule_entries s db)) x db) e

module _ (org asset_id : ℕ) (actor : Option User) (p : Period) (a : Asset) (s : Schedule)
    (db : Db) where
  record_posting-Advanced :
      HoldsLedger org asset_id db a s
      → (a.accumulated_depreciation < s.depreciable_base) ⊎ (s.depreciable_base ≡ 0)
      → IsMonth (first_day p)
      → month_index (first_day p) ≡ month_index s.start_date + length (schedule_entries s db)
      → length (schedule_entries s db) < s.useful_life_months
      → Advanced org asset_id actor a s db
          (record_posting org actor p a s (length (schedule_entries s db)) (due_posting s a) db)
  record_posting-Advanced (found, schedule, ledger) left month index within =
      let k = length (schedule_entries s db) in
      let entries = schedule_entries-posted org asset_id actor p a s db in
      (
        (
          find_asset-posted org asset_id actor p a s db found,
          find_schedule-posted org asset_id actor p a s db schedule,
          rw entries (
              IsLedger-advance k s (posted_asset actor (due_posting s a) a) _
                (IsLedger-post org actor p a s db (schedule_entries s db) ledger left month index)),
        ),
        rw (recorded_entry org asset_id actor p a s db)
            (schedule_entries-recorded org asset_id actor p a s db),
        rw (recorded_entry org asset_id actor p a s db) refl,
        within,
        left,
      )

  post_month-Advanced :
      {r : Db × Entry}
      → HoldsLedger org asset_id db a s
      → post_month org p a s actor db ≡ ok r
      → Advanced org asset_id actor a s db r
  post_month-Advanced {r} h done =
      let passed = post_month-Passed org p a s actor db done in
      let (month, index) = posted-IsMonth s p (length (schedule_entries s db)) passed.expected in
      elim (settle-cases h.2) [
        | inl (due, left) ↦
            subst (Advanced org asset_id actor a s db)
              (sym (passed.result ∙ recorded_same org p a s actor db (cc (due, passed.settled))))
              (record_posting-Advanced h left month index passed.within)
        | inr failed ↦ absurd (ground (arith, failed, passed.settled))
      ]

-- A successful posting in an organization that holds the ledger of a schedule posts its next
-- month: the amount is the periodic amount or what is left of the depreciable base, the entry is
-- added to the schedule's entries, within its useful life, and the database holds the ledger with
-- its new balances. Such a posting happens only while something is left to depreciate, or when the
-- depreciable base is zero.
pub post_in_organization-Advanced :
    (org asset_id period_id : ℕ) (actor : Option User) (db : Db) (a : Asset) (s : Schedule)
    {r : Db × Entry}
    → HoldsLedger org asset_id db a s
    → post_in_organization org asset_id period_id actor db ≡ ok r
    → Advanced org asset_id actor a s db r
post_in_organization-Advanced org asset_id period_id actor db a s h done =
    let (p, _, month) = reach_month org asset_id period_id actor db a s h.0 h.1 done in
    post_month-Advanced org asset_id actor p a s db h month

-- With its rows in place, an open period for the expected month, an active asset, a month of the
-- useful life and an amount left (or a zero base), and no entry for the period, the posting
-- succeeds and writes exactly the due amounts.
pub post_in_organization-succeeds :
    (org asset_id period_id : ℕ) (actor : Option User) (db : Db) (a : Asset) (s : Schedule)
    (p : Period)
    → HoldsLedger org asset_id db a s
    → find_period period_id org db ≡ some p
    → is_open_period p.status ≡ true
    → is_active_asset a.status ≡ true
    → next_period_for_schedule s (length (schedule_entries s db)) ≡ ok (first_day p)
    → length (schedule_entries s db) < s.useful_life_months
    → (a.accumulated_depreciation < s.depreciable_base) ⊎ (s.depreciable_base ≡ 0)
    → posted_in org a p db ≡ false
    → post_in_organization org asset_id period_id actor db
      ≡ ok (record_posting org actor p a s (length (schedule_entries s db)) (due_posting s a) db)
unfolding post_in_organization post_month
post_in_organization-succeeds org asset_id period_id actor db a s p h found is_open active next
      within left unposted =
    rw
      (
        found,
        is_open,
        h.0,
        active,
        h.1,
        next,
        same_date_refl (first_day p),
        not_leb s.useful_life_months (length (schedule_entries s db)) within,
        h.2.agreed,
        settle_left h.2 left,
        unposted,
      )
      refl
