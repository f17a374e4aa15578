-- ===== src/Transfers/Effects.antt =====
-- What each custody and transfer service has found when it succeeds, and what it writes.
use assetflow_fixed_asset_ma.Prelude.{
  ℕ, suc, ◌≡◌, refl, Bool, true, false, not, ◌&&◌, ◌||◌, some, List, ◌∷◌, arith,
}
use assetflow_fixed_asset_ma.Result.{ok, >>=-eq-ok, or_raise-then, raise_if-then}
use assetflow_fixed_asset_ma.Table.{save}
use assetflow_fixed_asset_ma.Records.{
  User, Ref, Asset, Transfer, Db, actor_organization, find_asset,
}
use assetflow_fixed_asset_ma.Transfers.Checks.{
  is_movable, in_org, same_place, locked_asset, transfer_full_clean,
}
use assetflow_fixed_asset_ma.Transfers.Moving.{
  Decision, is_requested, is_approved, decide_transfer, find_transfer, transition_transfer,
  moved_asset, completed_transfer, complete_transfer, new_transfer, request_transfer,
}
use assetflow_fixed_asset_ma.Transfers.Assigning.{Argument, chosen}

pub false-true : true ≡ false → ⊥
false-true h = cc

pub not-false : (b : Bool) → not b ≡ false → b ≡ true
not-false true h = refl
not-false false h = cc

pub record Decided (d : Decision) (now pk : ℕ) (actor : User) (db : Db) (r : Db × Transfer)
    : Type 0 where
  pub org : ℕ
  pub transfer : Transfer
  pub asset : Asset
  pub own : actor.org ≡ some org
  pub found : find_transfer pk org db ≡ some transfer
  pub found_asset : find_asset transfer.asset org db ≡ some asset
  pub requested : is_requested transfer.status ≡ true
  pub row : r.1 ≡ decide_transfer d now (record { pk = actor.pk; org = org }) transfer
  pub clean : transfer_full_clean asset r.1 db ≡ true
  pub transfers : r.0.transfers ≡ save (λ (x : Transfer). x.pk) r.1 db.transfers
  pub assets : r.0.assets ≡ db.assets
  pub assignments : r.0.assignments ≡ db.assignments
  pub next_key : r.0.next_key ≡ db.next_key

pub transition_transfer-Decided :
    (d : Decision) (now pk : ℕ) (actor : User) (db : Db) {r : Db × Transfer}
    → transition_transfer d now pk actor db ≡ ok r
    → Decided d now pk actor db r
unfolding transition_transfer actor_organization
transition_transfer-Decided d now pk actor db h =
    let (org, own, h1) = or_raise-then _ _ _ h in
    let (t, found, h2) = or_raise-then _ _ _ h1 in
    let (a, found_asset, h3) = or_raise-then _ _ _ h2 in
    let (requested, h4) = raise_if-then (not (is_requested t.status)) _ _ h3 in
    let (clean, h5) =
      raise_if-then
        (not (
          transfer_full_clean a (decide_transfer d now (record { pk = actor.pk; org = org }) t) db))
        _ _ h4 in
    record {
      org = org;
      transfer = t;
      asset = a;
      own = own;
      found = found;
      found_asset = found_asset;
      requested = not-false _ requested;
      row = ground (arith, h5);
      clean = ground (arith, h5, clean);
      transfers = ground (arith, h5);
      assets = ground (arith, h5);
      assignments = ground (arith, h5);
      next_key = ground (arith, h5);
    }

pub record Completed (now pk : ℕ) (actor : User) (db : Db) (r : Db × Transfer) : Type 0 where
  pub org : ℕ
  pub transfer : Transfer
  pub asset : Asset
  pub own : actor.org ≡ some org
  pub found : find_transfer pk org db ≡ some transfer
  pub found_asset : find_asset transfer.asset org db ≡ some asset
  pub approved : is_approved transfer.status ≡ true
  pub movable : is_movable asset.status ≡ true
  pub source_department : same_place asset.department transfer.from_department ≡ true
  pub source_location : same_place asset.location transfer.from_location ≡ true
  pub row : r.1 ≡ completed_transfer now (record { pk = actor.pk; org = org }) transfer
  pub clean : transfer_full_clean (moved_asset actor transfer asset) r.1 db ≡ true
  pub transfers : r.0.transfers ≡ save (λ (x : Transfer). x.pk) r.1 db.transfers
  pub assets : r.0.assets ≡ save (λ (x : Asset). x.pk) (moved_asset actor transfer asset) db.assets
  pub assignments : r.0.assignments ≡ db.assignments
  pub next_key : r.0.next_key ≡ db.next_key

neither : (a b : Bool) → (not a || not b) ≡ false → (a ≡ true) × (b ≡ true)
neither true true h = (refl, refl)
neither true false h = absurd (false-true (h))
neither false b h = absurd (false-true h)

pub complete_transfer-Completed :
    (now pk : ℕ) (actor : User) (db : Db) {r : Db × Transfer}
    → complete_transfer now pk actor db ≡ ok r
    → Completed now pk actor db r
unfolding complete_transfer actor_organization
complete_transfer-Completed now pk actor db h =
    let (org, own, h1) = or_raise-then _ _ _ h in
    let (t, found, h2) = or_raise-then _ _ _ h1 in
    let (a, found_asset, h3) = or_raise-then _ _ _ h2 in
    let (approved, h4) = raise_if-then (not (is_approved t.status)) _ _ h3 in
    let (movable, h5) = raise_if-then (not (is_movable a.status)) _ _ h4 in
    let department = same_place a.department t.from_department in
    let location = same_place a.location t.from_location in
    let (source, h6) = raise_if-then (not department || not location) _ _ h5 in
    let by : Ref = record { pk = actor.pk; org = org } in
    let moved = moved_asset actor t a in
    let (clean, h7) =
      raise_if-then (not (transfer_full_clean moved (completed_transfer now by t) db)) _ _ h6 in
    record {
      org = org;
      transfer = t;
      asset = a;
      own = own;
      found = found;
      found_asset = found_asset;
      approved = not-false _ approved;
      movable = not-false _ movable;
      source_department = (neither department location source).0;
      source_location = (neither department location source).1;
      row = ground (arith, h7);
      clean = ground (arith, h7, clean);
      transfers = ground (arith, h7);
      assets = ground (arith, h7);
      assignments = ground (arith, h7);
      next_key = ground (arith, h7);
    }

pub locked :
    (id org : ℕ) (db : Db) {a : Asset}
    → locked_asset id org db ≡ ok a
    → (find_asset id org db ≡ some a) × (is_movable a.status ≡ true)
unfolding locked_asset
locked id org db h =
    let (a, found, h1) = or_raise-then (find_asset id org db) _ _ h in
    let (movable, h2) = raise_if-then (not (is_movable a.status)) _ _ h1 in
    (ground (arith, h2, found), ground (arith, h2, movable))

pub record Requested (now id : ℕ) (actor : User) (department location : Argument) (reason : List ℕ)
    (db : Db) (r : Db × Transfer) : Type 0 where
  pub org : ℕ
  pub asset : Asset
  pub own : actor.org ≡ some org
  pub found_asset : find_asset id org db ≡ some asset
  pub movable : is_movable asset.status ≡ true
  pub row :
      r.1
      ≡ new_transfer now org actor asset
          (chosen department asset.department)
          (chosen location asset.location)
          reason
          db
  pub clean : transfer_full_clean asset r.1 db ≡ true
  pub transfers : r.0.transfers ≡ r.1 ∷ db.transfers
  pub assets : r.0.assets ≡ db.assets
  pub assignments : r.0.assignments ≡ db.assignments
  pub next_key : r.0.next_key ≡ suc db.next_key

pub request_transfer-Requested :
    (now id : ℕ) (actor : User) (department location : Argument) (reason : List ℕ) (db : Db)
    {r : Db × Transfer}
    → request_transfer now id actor department location reason db ≡ ok r
    → Requested now id actor department location reason db r
unfolding request_transfer actor_organization
request_transfer-Requested now id actor department location reason db h =
    let (org, own, h1) = or_raise-then _ _ _ h in
    let (a, lock, h2) = >>=-eq-ok (locked_asset id org db) _ h1 in
    let d = chosen department a.department in
    let l = chosen location a.location in
    let (_, h3) = raise_if-then (not (in_org org d)) _ _ h2 in
    let (_, h4) = raise_if-then (not (in_org org l)) _ _ h3 in
    let (_, h5) = raise_if-then (same_place a.department d && same_place a.location l) _ _ h4 in
    let (clean, h6) =
      raise_if-then (not (transfer_full_clean a (new_transfer now org actor a d l reason db) db)) _
        _ h5 in
    record {
      org = org;
      asset = a;
      own = own;
      found_asset = (locked id org db lock).0;
      movable = (locked id org db lock).1;
      row = ground (arith, h6);
      clean = ground (arith, h6, clean);
      transfers = ground (arith, h6);
      assets = ground (arith, h6);
      assignments = ground (arith, h6);
      next_key = ground (arith, h6);
    }
