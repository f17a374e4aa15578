-- ===== src/Depreciation/Posted.antt =====
-- A run that ends completed has posted every schedule that was due.
use assetflow_fixed_asset_ma.Prelude.{
  ℕ, ◌≡◌, refl, ap, Bool, true, ◌&&◌, Option, none, some, List, [], ◌∷◌, arith, ◌==◌, inl, inr,
  Bool-cases, All, length,
}
use assetflow_fixed_asset_ma.Result.{Result, ok, err, >>=-eq-ok, or_raise-then, raise_if-then}
use assetflow_fixed_asset_ma.Table.{exists, find-test}
use assetflow_fixed_asset_ma.Records.{User, Schedule, RunFailure, Run, Entry, Db, find_asset}
use assetflow_fixed_asset_ma.Commercial.Entitlements.{require_write_access}
use assetflow_fixed_asset_ma.Depreciation.Posting.{
  organization_of, find_period, find_schedule, schedule_entries, record_posting,
  post_in_organization, post_depreciation,
}
use assetflow_fixed_asset_ma.Depreciation.Advance.{post_month-Passed}
use assetflow_fixed_asset_ma.Depreciation.Automation.{
  Books, persist_progress, after_posting, post_all,
}

-- An entry of the organization for the schedule's asset and the period.
abbrev pub is_entry_of : ℕ → ℕ → ℕ → Entry → Bool
is_entry_of org asset period e = e.org == org && e.asset == asset && e.period == period

-- The ledger after a posting: one entry of the asset and the period is in front.
record Added (org asset period : ℕ) (before after : List Entry) : Type 0 where
  entry : Entry
  added : after ≡ entry ∷ before
  is_of : is_entry_of org asset period entry ≡ true

all_equal : (a b c d e f : ℕ) → a ≡ b → c ≡ d → e ≡ f → (a == b && c == d && e == f) ≡ true
all_equal a b c d e f h k l = ground (arith, h, k, l)

first_key : (a b c d : ℕ) → (a == b && c == d) ≡ true → a ≡ b
first_key a b c d h = ground (arith, h)

post_in_organization-Added :
    (org asset_id period_id : ℕ) (actor : Option User) (db : Db) {r : Db × Entry}
    → post_in_organization org asset_id period_id actor db ≡ ok r
    → Added org asset_id period_id db.entries r.0.entries
unfolding post_in_organization find_period find_asset record_posting
post_in_organization-Added org asset_id period_id actor db h =
    let (p, found, h1) = or_raise-then (find_period period_id org db) _ _ h in
    let (_, h2) = raise_if-then _ _ _ h1 in
    let (a, there, h3) = or_raise-then (find_asset asset_id org db) _ _ h2 in
    let (_, h4) = raise_if-then _ _ _ h3 in
    let (s, _, h5) = or_raise-then (find_schedule a.pk org db) _ _ h4 in
    let passed = post_month-Passed org p a s actor db h5 in
    let result =
      record_posting org actor p a s (length (schedule_entries s db)) passed.posting db in
    record {
      entry = result.1;
      added = ap (λ (x : Db × Entry). x.0.entries) passed.result;
      is_of =
          all_equal _ org _ asset_id _ period_id refl
            (first_key a.pk asset_id a.org org (find-test _ db.assets there))
            (first_key p.pk period_id p.org org (find-test _ db.periods found));
    }

post_depreciation-Added :
    (now asset_id period_id org : ℕ) (db : Db) {r : Db × Entry}
    → post_depreciation now asset_id period_id none (some org) db ≡ ok r
    → Added org asset_id period_id db.entries r.0.entries
unfolding post_depreciation organization_of
post_depreciation-Added now asset_id period_id org db h =
    let (_, _, h1) = >>=-eq-ok (require_write_access now org db) _ h in
    post_in_organization-Added org asset_id period_id none db h1

exists_first :
    (q : Entry → Bool) (e : Entry) (es : List Entry) → q e ≡ true → exists q (e ∷ es) ≡ true
unfolding exists
exists_first q e es h = rw h refl

exists_behind :
    (q : Entry → Bool) (e : Entry) (es : List Entry) → exists q es ≡ true → exists q (e ∷ es) ≡ true
unfolding exists
exists_behind q e es h = elim (Bool-cases (q e)) [ inl k ↦ rw k refl | inr k ↦ rw k h ]

-- What the loop leaves of a ledger with an entry that meets a test.
after_posting-exists :
    (run : Run) (period : ℕ) (b : Books) (rest : Books → Books × Option RunFailure) (now : ℕ)
    (s : Schedule) (posted : Result (Db × Entry)) (q : Entry → Bool)
    → post_depreciation now s.asset period none (some run.org) b.db ≡ posted
    → exists q b.db.entries ≡ true
    → ((c : Books) → exists q c.db.entries ≡ true → exists q (rest c).0.db.entries ≡ true)
    → exists q (after_posting run period b rest posted).0.db.entries ≡ true
unfolding persist_progress
after_posting-exists run period b rest now s (err fault) q e h keeps = h
after_posting-exists run period b rest now s (ok r) q e h keeps =
    let a = post_depreciation-Added now s.asset period run.org b.db e in
    keeps (persist_progress run period (record b { db = r.0 }))
      (rw a.added (exists_behind q a.entry b.db.entries h))

post_all-exists :
    (now : ℕ) (run : Run) (period : ℕ) (due : List Schedule) (b : Books) (q : Entry → Bool)
    → exists q b.db.entries ≡ true
    → exists q (post_all now run period due b).0.db.entries ≡ true
unfolding post_all
post_all-exists now run period [] b q h = h
post_all-exists now run period (s ∷ due) b q h =
    after_posting-exists run period b (post_all now run period due) now s _ q refl h
      (λ c k. post_all-exists now run period due c q k)

-- Whether a schedule has its entry.
abbrev pub IsPosted : ℕ → ℕ → Books → Schedule → Type 0
IsPosted org period b s = exists (is_entry_of org s.asset period) b.db.entries ≡ true

after_posting-IsPosted :
    (run : Run) (period : ℕ) (b : Books) (now : ℕ) (s : Schedule) (due : List Schedule)
    (posted : Result (Db × Entry))
    → post_depreciation now s.asset period none (some run.org) b.db ≡ posted
    → (after_posting run period b (post_all now run period due) posted).1 ≡ none
    → ((c : Books)
        → (post_all now run period due c).1 ≡ none
        → All (IsPosted run.org period (post_all now run period due c).0) due)
    → All
        (IsPosted run.org period
          (after_posting run period b (post_all now run period due) posted).0)
        (s ∷ due)
unfolding persist_progress
after_posting-IsPosted run period b now s due (err fault) e h rest = cc
after_posting-IsPosted run period b now s due (ok r) e h rest =
    let a = post_depreciation-Added now s.asset period run.org b.db e in
    (
      post_all-exists now run period due (persist_progress run period (record b { db = r.0 }))
          (is_entry_of run.org s.asset period)
          (rw a.added (exists_first _ a.entry b.db.entries a.is_of)),
      rest (persist_progress run period (record b { db = r.0 })) h,
    )

-- A posting loop without a fault leaves an entry of the period for the asset of each schedule.
pub post_all-IsPosted :
    (now : ℕ) (run : Run) (period : ℕ) (due : List Schedule) (b : Books)
    → (post_all now run period due b).1 ≡ none
    → All (IsPosted run.org period (post_all now run period due b).0) due
unfolding post_all
post_all-IsPosted now run period [] b h = tt
post_all-IsPosted now run period (s ∷ due) b h =
    after_posting-IsPosted run period b now s due _ refl h
      (λ c k. post_all-IsPosted now run period due c k)
