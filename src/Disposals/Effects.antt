-- ===== src/Disposals/Effects.antt =====
-- What each disposal service has found when it succeeds, and what it writes.
use assetflow_fixed_asset_ma.Prelude.{not-false, ℕ, ◌≡◌, Bool, true, not, some, List, arith, ◌==◌}
use assetflow_fixed_asset_ma.Result.{ok, >>=-eq-ok, or_raise-then, or_raise-eq-ok, raise_if-then}
use assetflow_fixed_asset_ma.Table.{find, save}
use assetflow_fixed_asset_ma.Records.{Org, User, Asset, DisposalStatus, Disposal, Db}
use assetflow_fixed_asset_ma.Disposals.Checks.{
  is_draft, is_pending, is_open_disposal, disposal_full_clean,
}
use assetflow_fixed_asset_ma.Disposals.Saving.{rewrites_history, save_disposal}
use assetflow_fixed_asset_ma.Disposals.Requests.{
  own_organization, find_disposal, locked_disposal, disposable_asset, actor_ref, Change, has_other,
  updated_disposal, update_disposal,
}
use assetflow_fixed_asset_ma.Disposals.Decisions.{
  submitted, submit_disposal, approved_by_actor, approve_disposal, related_asset, rejected_by_actor,
  reject_disposal, cancelled_by_actor, cancel_disposal,
}

pub save_disposal-save :
    (d : Disposal) (rows : List Disposal) {saved : List Disposal}
    → save_disposal d rows ≡ ok saved
    → saved ≡ save (λ (x : Disposal). x.pk) d rows
unfolding save_disposal
save_disposal-save d rows h =
    let (_, h1) =
      raise_if-then (rewrites_history (find (λ (x : Disposal). x.pk == d.pk) rows) d) _ _ h in
    ground (arith, h1)

-- The row of a call that rewrites one disposal: found in the actor's organization in a status that
-- the call allows, validated, and saved.
pub record Rewritten (allowed : DisposalStatus → Bool) (set : Org → Disposal → Disposal) (pk : ℕ)
    (actor : User) (db : Db) (r : Db × Disposal) : Type 0 where
  pub org : Org
  pub disposal : Disposal
  pub asset : Asset
  pub own : own_organization actor db ≡ ok org
  pub found : find_disposal pk org.pk db ≡ some disposal
  pub status_allowed : allowed disposal.status ≡ true
  pub row : r.1 ≡ set org disposal
  pub clean : disposal_full_clean org asset r.1 db ≡ true
  pub disposals : r.0.disposals ≡ save (λ (x : Disposal). x.pk) r.1 db.disposals
  pub assets : r.0.assets ≡ db.assets
  pub next_key : r.0.next_key ≡ db.next_key

pub find_locked :
    (pk org : ℕ) (db : Db) {d : Disposal}
    → locked_disposal pk org db ≡ ok d
    → find_disposal pk org db ≡ some d
unfolding locked_disposal
find_locked pk org db h = or_raise-eq-ok (find_disposal pk org db) _ h

pub submit_disposal-Rewritten :
    (now pk : ℕ) (actor : User) (db : Db) {r : Db × Disposal}
    → submit_disposal now pk actor db ≡ ok r
    → Rewritten is_draft (λ org. submitted now (actor_ref actor org)) pk actor db r
unfolding submit_disposal
submit_disposal-Rewritten now pk actor db h =
    let (org, own, h1) = >>=-eq-ok (own_organization actor db) _ h in
    let (d, found, h2) = >>=-eq-ok (locked_disposal pk org.pk db) _ h1 in
    let (a, _, h3) = >>=-eq-ok (disposable_asset d.asset org.pk db) _ h2 in
    let (status, h4) = raise_if-then (not (is_draft d.status)) _ _ h3 in
    let new = submitted now (actor_ref actor org) d in
    let (clean, h5) = raise_if-then (not (disposal_full_clean org a new db)) _ _ h4 in
    let (rows, saved, h6) = >>=-eq-ok (save_disposal new db.disposals) _ h5 in
    let written = save_disposal-save new db.disposals saved in
    record {
      org = org;
      disposal = d;
      asset = a;
      own = own;
      found = find_locked pk org.pk db found;
      status_allowed = not-false _ status;
      row = ground (arith, h6);
      clean = ground (arith, h6, clean);
      disposals = ground (arith, h6, written);
      assets = ground (arith, h6);
      next_key = ground (arith, h6);
    }

pub approve_disposal-Rewritten :
    (now pk : ℕ) (actor : User) (db : Db) {r : Db × Disposal}
    → approve_disposal now pk actor db ≡ ok r
    → Rewritten is_pending (λ org. approved_by_actor now (actor_ref actor org)) pk actor db r
unfolding approve_disposal
approve_disposal-Rewritten now pk actor db h =
    let (org, own, h1) = >>=-eq-ok (own_organization actor db) _ h in
    let (d, found, h2) = >>=-eq-ok (locked_disposal pk org.pk db) _ h1 in
    let (a, _, h3) = >>=-eq-ok (disposable_asset d.asset org.pk db) _ h2 in
    let (status, h4) = raise_if-then (not (is_pending d.status)) _ _ h3 in
    let (_, h4) = raise_if-then (d.requested_by.pk == actor.pk) _ _ h4 in
    let new = approved_by_actor now (actor_ref actor org) d in
    let (clean, h5) = raise_if-then (not (disposal_full_clean org a new db)) _ _ h4 in
    let (rows, saved, h6) = >>=-eq-ok (save_disposal new db.disposals) _ h5 in
    let written = save_disposal-save new db.disposals saved in
    record {
      org = org;
      disposal = d;
      asset = a;
      own = own;
      found = find_locked pk org.pk db found;
      status_allowed = not-false _ status;
      row = ground (arith, h6);
      clean = ground (arith, h6, clean);
      disposals = ground (arith, h6, written);
      assets = ground (arith, h6);
      next_key = ground (arith, h6);
    }

pub reject_disposal-Rewritten :
    (now pk : ℕ) (actor : User) (reason : List ℕ) (db : Db) {r : Db × Disposal}
    → reject_disposal now pk actor reason db ≡ ok r
    → Rewritten is_pending (λ org. rejected_by_actor now (actor_ref actor org) reason) pk actor db r
unfolding reject_disposal
reject_disposal-Rewritten now pk actor reason db h =
    let (org, own, h1) = >>=-eq-ok (own_organization actor db) _ h in
    let (d, found, h2) = >>=-eq-ok (locked_disposal pk org.pk db) _ h1 in
    let (status, h3) = raise_if-then (not (is_pending d.status)) _ _ h2 in
    let (a, _, h4) = or_raise-then (related_asset d.asset db) _ _ h3 in
    let new = rejected_by_actor now (actor_ref actor org) reason d in
    let (clean, h5) = raise_if-then (not (disposal_full_clean org a new db)) _ _ h4 in
    let (rows, saved, h6) = >>=-eq-ok (save_disposal new db.disposals) _ h5 in
    let written = save_disposal-save new db.disposals saved in
    record {
      org = org;
      disposal = d;
      asset = a;
      own = own;
      found = find_locked pk org.pk db found;
      status_allowed = not-false _ status;
      row = ground (arith, h6);
      clean = ground (arith, h6, clean);
      disposals = ground (arith, h6, written);
      assets = ground (arith, h6);
      next_key = ground (arith, h6);
    }

pub cancel_disposal-Rewritten :
    (now pk : ℕ) (actor : User) (reason : List ℕ) (db : Db) {r : Db × Disposal}
    → cancel_disposal now pk actor reason db ≡ ok r
    → Rewritten is_open_disposal
        (λ org. cancelled_by_actor now (actor_ref actor org) reason)
        pk
        actor
        db
        r
unfolding cancel_disposal
cancel_disposal-Rewritten now pk actor reason db h =
    let (org, own, h1) = >>=-eq-ok (own_organization actor db) _ h in
    let (d, found, h2) = >>=-eq-ok (locked_disposal pk org.pk db) _ h1 in
    let (status, h3) = raise_if-then (not (is_open_disposal d.status)) _ _ h2 in
    let (a, _, h4) = or_raise-then (related_asset d.asset db) _ _ h3 in
    let new = cancelled_by_actor now (actor_ref actor org) reason d in
    let (clean, h5) = raise_if-then (not (disposal_full_clean org a new db)) _ _ h4 in
    let (rows, saved, h6) = >>=-eq-ok (save_disposal new db.disposals) _ h5 in
    let written = save_disposal-save new db.disposals saved in
    record {
      org = org;
      disposal = d;
      asset = a;
      own = own;
      found = find_locked pk org.pk db found;
      status_allowed = not-false _ status;
      row = ground (arith, h6);
      clean = ground (arith, h6, clean);
      disposals = ground (arith, h6, written);
      assets = ground (arith, h6);
      next_key = ground (arith, h6);
    }

pub update_disposal-Rewritten :
    (pk : ℕ) (actor : User) (changes : List Change) (db : Db) {r : Db × Disposal}
    → update_disposal pk actor changes db ≡ ok r
    → Rewritten is_draft (λ org. updated_disposal (actor_ref actor org) changes) pk actor db r
unfolding update_disposal
update_disposal-Rewritten pk actor changes db h =
    let (org, own, h1) = >>=-eq-ok (own_organization actor db) _ h in
    let (d, found, h2) = >>=-eq-ok (locked_disposal pk org.pk db) _ h1 in
    let (a, _, h3) = >>=-eq-ok (disposable_asset d.asset org.pk db) _ h2 in
    let (status, h4) = raise_if-then (not (is_draft d.status)) _ _ h3 in
    let (_, h4) = raise_if-then (has_other changes) _ _ h4 in
    let new = updated_disposal (actor_ref actor org) changes d in
    let (clean, h5) = raise_if-then (not (disposal_full_clean org a new db)) _ _ h4 in
    let (rows, saved, h6) = >>=-eq-ok (save_disposal new db.disposals) _ h5 in
    let written = save_disposal-save new db.disposals saved in
    record {
      org = org;
      disposal = d;
      asset = a;
      own = own;
      found = find_locked pk org.pk db found;
      status_allowed = not-false _ status;
      row = ground (arith, h6);
      clean = ground (arith, h6, clean);
      disposals = ground (arith, h6, written);
      assets = ground (arith, h6);
      next_key = ground (arith, h6);
    }
