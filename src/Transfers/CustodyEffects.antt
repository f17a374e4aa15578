-- ===== src/Transfers/CustodyEffects.antt =====
-- What the two custody services have found when they succeed, and what they write.
use assetflow_fixed_asset_ma.Prelude.{
  ℕ, suc, ◌≡◌, true, false, not, ◌&&◌, ◌||◌, Option, some, ◌∷◌, arith,
}
use assetflow_fixed_asset_ma.Result.{ok, >>=-eq-ok, or_raise-then, raise_if-then}
use assetflow_fixed_asset_ma.Table.{save}
use assetflow_fixed_asset_ma.Records.{
  User, Ref, Asset, is_active_asset, Assignment, Db, actor_organization, find_asset,
}
use assetflow_fixed_asset_ma.Transfers.Checks.{
  is_movable, in_org, same_place, locked_asset, assignment_clean,
}
use assetflow_fixed_asset_ma.Transfers.Assigning.{
  Argument, chosen, has_custody, or_now, new_assignment, placed_asset, assign_asset,
  open_assignment, returned_assignment, return_asset,
}
use assetflow_fixed_asset_ma.Transfers.Effects.{locked}

pub record Assigned (now id : ℕ) (actor : User) (holder : Option Ref)
    (department location : Argument) (at : Option ℕ) (db : Db) (r : Db × Assignment) : Type 0 where
  pub org : ℕ
  pub asset : Asset
  pub own : actor.org ≡ some org
  pub found_asset : find_asset id org db ≡ some asset
  pub movable : is_movable asset.status ≡ true
  pub unassigned : has_custody asset.pk db ≡ false
  pub placement_kept :
      (is_active_asset asset.status
        && (not (same_place (chosen department asset.department) asset.department)
            || not (same_place (chosen location asset.location) asset.location)))
      ≡ false
  pub row : r.1 ≡ new_assignment org actor asset holder department location (or_now at now) db
  pub clean : assignment_clean asset r.1 ≡ true
  pub assignments : r.0.assignments ≡ r.1 ∷ db.assignments
  pub assets :
      r.0.assets
      ≡ save (λ (x : Asset). x.pk) (placed_asset actor department location asset) db.assets
  pub transfers : r.0.transfers ≡ db.transfers
  pub next_key : r.0.next_key ≡ suc db.next_key

pub assign_asset-Assigned :
    (now id : ℕ) (actor : User) (holder : Option Ref) (department location : Argument)
    (at : Option ℕ) (db : Db) {r : Db × Assignment}
    → assign_asset now id actor holder department location at db ≡ ok r
    → Assigned now id actor holder department location at db r
unfolding assign_asset actor_organization
assign_asset-Assigned now id actor holder department location at db h =
    let (org, own, h1) = or_raise-then _ _ _ h in
    let (_, h2) = raise_if-then (not (in_org org holder)) _ _ h1 in
    let (a, lock, h3) = >>=-eq-ok (locked_asset id org db) _ h2 in
    let (unassigned, h4) = raise_if-then (has_custody a.pk db) _ _ h3 in
    let d = chosen department a.department in
    let l = chosen location a.location in
    let (_, h5) = raise_if-then (not (in_org org d)) _ _ h4 in
    let (_, h6) = raise_if-then (not (in_org org l)) _ _ h5 in
    let (kept, h7) =
      raise_if-then
        (is_active_asset a.status
          && (not (same_place d a.department) || not (same_place l a.location)))
        _ _ h6 in
    let row = new_assignment org actor a holder department location (or_now at now) db in
    let (clean, h8) = raise_if-then (not (assignment_clean a row)) _ _ h7 in
    record {
      org = org;
      asset = a;
      own = own;
      found_asset = (locked id org db lock).0;
      movable = (locked id org db lock).1;
      unassigned = unassigned;
      placement_kept = kept;
      row = ground (arith, h8);
      clean = ground (arith, h8, clean);
      assignments = ground (arith, h8);
      assets = ground (arith, h8);
      transfers = ground (arith, h8);
      next_key = ground (arith, h8);
    }

pub record Returned (now id : ℕ) (actor : User) (assignment_id at : Option ℕ) (db : Db)
    (r : Db × Assignment) : Type 0 where
  pub org : ℕ
  pub asset : Asset
  pub open_row : Assignment
  pub own : actor.org ≡ some org
  pub found_asset : find_asset id org db ≡ some asset
  pub found : open_assignment org asset.pk assignment_id db ≡ some open_row
  pub row : r.1 ≡ returned_assignment org actor (or_now at now) open_row
  pub clean : assignment_clean asset r.1 ≡ true
  pub assignments : r.0.assignments ≡ save (λ (x : Assignment). x.pk) r.1 db.assignments
  pub assets : r.0.assets ≡ db.assets
  pub transfers : r.0.transfers ≡ db.transfers
  pub next_key : r.0.next_key ≡ db.next_key

pub return_asset-Returned :
    (now id : ℕ) (actor : User) (assignment_id at : Option ℕ) (db : Db) {r : Db × Assignment}
    → return_asset now id actor assignment_id at db ≡ ok r
    → Returned now id actor assignment_id at db r
unfolding return_asset actor_organization
return_asset-Returned now id actor assignment_id at db h =
    let (org, own, h1) = or_raise-then _ _ _ h in
    let (a, lock, h2) = >>=-eq-ok (locked_asset id org db) _ h1 in
    let (x, found, h3) = or_raise-then (open_assignment org a.pk assignment_id db) _ _ h2 in
    let (clean, h4) =
      raise_if-then (not (assignment_clean a (returned_assignment org actor (or_now at now) x))) _ _
        h3 in
    record {
      org = org;
      asset = a;
      open_row = x;
      own = own;
      found_asset = (locked id org db lock).0;
      found = found;
      row = ground (arith, h4);
      clean = ground (arith, h4, clean);
      assignments = ground (arith, h4);
      assets = ground (arith, h4);
      transfers = ground (arith, h4);
      next_key = ground (arith, h4);
    }
