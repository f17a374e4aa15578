-- ===== src/Assets/Locked.antt =====
-- What an update of the asset master cannot change: the accounting basis of a capitalized asset, and
-- the placement of an active one.
use mathlib.Core.Path.{subst}
use assetflow_fixed_asset_ma.Prelude.{
  if◌then◌else◌, ℕ, ◌≡◌, refl, sym, ap, ◌∙◌, Bool, true, false, not, ◌&&◌, some, List, arith,
}
use assetflow_fixed_asset_ma.Result.{
  ok, >>=-eq-ok, or_raise-then, raise_if-then, ok-injective, some-injective,
}
use assetflow_fixed_asset_ma.Table.{find-test, find-save}
use assetflow_fixed_asset_ma.Records.{User, Org, is_active_asset, Asset, Db, find_asset}
use assetflow_fixed_asset_ma.Assets.Checks.{is_draft_asset, stripped_asset, full_clean_asset}
use assetflow_fixed_asset_ma.Assets.Acquiring.{organization_row}
use assetflow_fixed_asset_ma.Assets.Master.{
  AssetChange, any_change, is_unsupported, is_accounting, moves, differs, set_fields, stored_asset,
  update_asset,
}
use assetflow_fixed_asset_ma.Assets.Capitalization.{organization_key}
use assetflow_fixed_asset_ma.Assets.Effects.{full_clean_asset-eq-ok}
use assetflow_fixed_asset_ma.Assets.Kept.{
  SameBasis, SameBasis-refl, set_fields-SameBasis, SameBasis-renamed, SamePlace,
  set_fields-SamePlace,
}

-- What a successful update has passed.
record Updated (actor : User) (changes : List AssetChange) (db : Db) (a : Asset) (r : Db × Asset)
    : Type 0 where
  row : Org
  changed : Asset
  still : (is_active_asset a.status && any_change (moves a) changes) ≡ false
  locked : (not (is_draft_asset a.status) && any_change is_accounting changes) ≡ false
  fields : set_fields changes a ≡ ok changed
  result :
      r.0
      ≡ stored_asset
          (any_change (differs a) changes)
          actor
          row
          (stripped_asset (record changed { updated_by = some actor }))
          db

reach_update :
    (id org : ℕ) (actor : User) (changes : List AssetChange) (db : Db) (a : Asset) {r : Db × Asset}
    → actor.org ≡ some org
    → find_asset id org db ≡ some a
    → update_asset id actor changes db ≡ ok r
    → Updated actor changes db a r
unfolding update_asset
reach_update id org actor changes db a {r} own found h =
    let (o, e, h1) = >>=-eq-ok (organization_row actor db) _ h in
    let key : o.pk ≡ org = some-injective (sym (organization_key actor db e) ∙ own) in
    let (_, h2) = raise_if-then (any_change is_unsupported changes) _ _ h1 in
    let (x, found', h3) = or_raise-then (find_asset id o.pk db) _ _ h2 in
    let same : x ≡ a =
      some-injective (sym found' ∙ ap (λ (k : ℕ). find_asset id k db) key ∙ found) in
    let (still, h4) =
      raise_if-then (is_active_asset x.status && any_change (moves x) changes) _ _ h3 in
    let (locked, h5) =
      raise_if-then (not (is_draft_asset x.status) && any_change is_accounting changes) _ _ h4 in
    let (changed, fields, h6) = >>=-eq-ok (set_fields changes x) _ h5 in
    let (_, h7) = raise_if-then _ _ _ h6 in
    let (new, clean, h8) =
      >>=-eq-ok (full_clean_asset (record changed { updated_by = some actor }) db) _ h7 in
    let (row, _) = full_clean_asset-eq-ok (record changed { updated_by = some actor }) db clean in
    subst (λ (y : Asset). Updated actor changes db y r) same
      (record {
        row = o;
        changed = changed;
        still = still;
        locked = locked;
        fields = fields;
        result =
            ap (λ (p : Db × Asset). p.0) (sym (ok-injective h8))
            ∙ ap (λ (y : Asset). stored_asset (any_change (differs x) changes) actor o y db) row;
      })

find_stored :
    (flag : Bool) (id org : ℕ) (actor : User) (o : Org) (db : Db) (a b : Asset)
    → find_asset id org db ≡ some a
    → b.pk ≡ a.pk
    → b.org ≡ a.org
    → find_asset id org (stored_asset flag actor o b db) ≡ some (if flag then b else a)
unfolding find_asset
find_stored false id org actor o db a b found k l = found
find_stored true id org actor o db a b found k l =
    find-save (λ (x : Asset). x.pk) _ b db.assets found (sym k)
      (rw (k, l) (find-test _ db.assets found))

unlocked : (b c : Bool) → b ≡ true → (b && c) ≡ false → c ≡ false
unlocked b c h k = ground (arith, h, k)

chosen_basis : (flag : Bool) (a b : Asset) → SameBasis a b → SameBasis a (if flag then b else a)
chosen_basis true a b s = s
chosen_basis false a b s = SameBasis-refl a

chosen_place : (flag : Bool) (a b : Asset) → SamePlace a b → SamePlace a (if flag then b else a)
chosen_place true a b s = s
chosen_place false a b s = record { pk = refl; org = refl; department = refl; location = refl }

not_draft : (b : Bool) → b ≡ false → not b ≡ true
not_draft b h = rw h refl

-- A successful update of an asset that is past its draft keeps its accounting basis: cost, residual
-- value, life, method and the three dates, as well as its status and balances.
pub update_asset-SameBasis :
    (id org : ℕ) (actor : User) (changes : List AssetChange) (db : Db) (a : Asset) {r : Db × Asset}
    → actor.org ≡ some org
    → find_asset id org db ≡ some a
    → is_draft_asset a.status ≡ false
    → update_asset id actor changes db ≡ ok r
    → (b : Asset) × (find_asset id org r.0 ≡ some b) × SameBasis a b
update_asset-SameBasis id org actor changes db a {r} own found past h =
    let u = reach_update id org actor changes db a own found h in
    let flag = any_change (differs a) changes in
    let new = stripped_asset (record u.changed { updated_by = some actor }) in
    let s =
      SameBasis-renamed u.changed (some actor)
        (set_fields-SameBasis changes a (unlocked _ _ (not_draft _ past) u.locked) u.fields) in
    (
      if flag then new else a,
      rw u.result (find_stored flag id org actor u.row db a new found s.pk s.org),
      chosen_basis flag a new s,
    )

-- A successful update of an active asset keeps its department and its location.
pub update_asset-SamePlace :
    (id org : ℕ) (actor : User) (changes : List AssetChange) (db : Db) (a : Asset) {r : Db × Asset}
    → actor.org ≡ some org
    → find_asset id org db ≡ some a
    → is_active_asset a.status ≡ true
    → update_asset id actor changes db ≡ ok r
    → (b : Asset) × (find_asset id org r.0 ≡ some b) × SamePlace a b
update_asset-SamePlace id org actor changes db a {r} own found active h =
    let u = reach_update id org actor changes db a own found h in
    let flag = any_change (differs a) changes in
    let new = stripped_asset (record u.changed { updated_by = some actor }) in
    let p =
      set_fields-SamePlace a changes a (unlocked _ _ active u.still)
        (record { pk = refl; org = refl; department = refl; location = refl }) u.fields in
    (
      if flag then new else a,
      rw u.result (find_stored flag id org actor u.row db a new found p.pk p.org),
      chosen_place flag a new
          (record { pk = p.pk; org = p.org; department = p.department; location = p.location }),
    )
