-- ===== src/Transfers/Relocation.antt =====
-- What the completion of a transfer does to its asset.
use assetflow_fixed_asset_ma.Prelude.{ℕ, ◌≡◌, refl, true, some}
use assetflow_fixed_asset_ma.Result.{ok}
use assetflow_fixed_asset_ma.Table.{find-test, find-save}
use assetflow_fixed_asset_ma.Records.{User, Ref, Asset, TransferStatus, Transfer, Db, find_asset}
use assetflow_fixed_asset_ma.Transfers.Checks.{is_movable, same_place}
use assetflow_fixed_asset_ma.Transfers.Moving.{
  is_approved, find_transfer, moved_asset, completed_transfer, complete_transfer,
}
use assetflow_fixed_asset_ma.Transfers.Effects.{complete_transfer-Completed}

-- The asset of an approved transfer went from where the transfer recorded it to the destination.
pub record Moved (now pk org : ℕ) (actor : User) (db : Db) (r : Db × Transfer) : Type 0 where
  pub transfer : Transfer
  pub asset : Asset
  pub found : find_transfer pk org db ≡ some transfer
  pub found_asset : find_asset transfer.asset org db ≡ some asset
  pub approved : is_approved transfer.status ≡ true
  pub movable : is_movable asset.status ≡ true
  pub from_department : same_place asset.department transfer.from_department ≡ true
  pub from_location : same_place asset.location transfer.from_location ≡ true
  pub relocated :
      find_asset transfer.asset org r.0
      ≡ some (record asset {
        department = transfer.to_department;
        location = transfer.to_location;
        updated_by = some actor;
      })
  pub stored :
      find_transfer pk org r.0
      ≡ some (record transfer {
        status = TransferStatus.completed;
        completed_at = some now;
        completed_by = some (record { pk = actor.pk; org = org });
      })

-- A successful completion found the transfer approved and its asset in a movable status at the
-- department and location that the request recorded. It stores the asset at the requested
-- destination with the actor as its last editor and every other column unchanged; and the transfer
-- with the status completed, by the actor at the time of the call, and every other column unchanged.
pub complete_transfer-Moved :
    (now pk : ℕ) (actor : User) (db : Db) {r : Db × Transfer}
    → complete_transfer now pk actor db ≡ ok r
    → (org : ℕ) × (actor.org ≡ some org) × Moved now pk org actor db r
unfolding find_asset find_transfer
complete_transfer-Moved now pk actor db {r} h =
    let e = complete_transfer-Completed now pk actor db h in
    let a = e.asset in
    let by : Ref = record { pk = actor.pk; org = e.org } in
    (
      e.org,
      e.own,
      record {
        transfer = e.transfer;
        asset = a;
        found = e.found;
        found_asset = e.found_asset;
        approved = e.approved;
        movable = e.movable;
        from_department = e.source_department;
        from_location = e.source_location;
        relocated = rw e.assets (
            find-save (λ (x : Asset). x.pk) _ (moved_asset actor e.transfer a) db.assets
              e.found_asset refl (find-test _ db.assets e.found_asset));
        stored =
            rw (e.transfers, e.row)
              (find-save (λ (x : Transfer). x.pk) _ (completed_transfer now by e.transfer)
                db.transfers e.found refl (find-test _ db.transfers e.found));
      },
    )
