-- ===== src/Transfers/Assigning.antt =====
-- Custody: `assign_asset` and `return_asset` of backend/transfers/services.py.
use assetflow_fixed_asset_ma.Prelude.{
  ℕ, suc, Bool, true, not, ◌&&◌, ◌||◌, Option, none, some, ◌∷◌, ◌==◌, if◌then◌else◌, is_unset,
}
use assetflow_fixed_asset_ma.Result.{
  Result, ok, ◌>>=◌, ◌>>◌, raise_if, or_raise, already_assigned, foreign_relation, placement_locked,
  assignment_missing, row_invalid,
}
use assetflow_fixed_asset_ma.Table.{find, exists, save}
use assetflow_fixed_asset_ma.Records.{
  User, Ref, Asset, is_active_asset, Assignment, Action, Db, record_event, actor_organization,
}
use assetflow_fixed_asset_ma.Transfers.Checks.{locked_asset, in_org, same_place, assignment_clean}

-- A keyword argument that may be left out (`_UNSET`), or be given, possibly as `None`.
pub data Argument : Type 0 where
  omitted : Argument
  given : Option Ref → Argument

-- `current if argument is _UNSET else argument`
abbrev pub chosen : Argument → Option Ref → Option Ref
chosen omitted current = current
chosen (given r) current = r

-- `assignments.filter(asset=asset, returned_at__isnull=True).exists()`
unfoldable pub has_custody : ℕ → Db → Bool
has_custody asset db =
    exists (λ (x : Assignment). x.asset == asset && is_unset x.returned_at) db.assignments

abbrev pub or_now : Option ℕ → ℕ → ℕ
or_now none now = now
or_now (some t) now = t

abbrev pub new_assignment :
    ℕ → User → Asset → Option Ref → Argument → Argument → ℕ → Db → Assignment
new_assignment org actor asset assigned_to department location at db = record {
  pk = db.next_key;
  org = org;
  asset = asset.pk;
  assigned_to = assigned_to;
  department = chosen department asset.department;
  location = chosen location asset.location;
  assigned_at = at;
  returned_at = none;
  returned_by = none;
  created_by = record { pk = actor.pk; org = org };
}

-- The asset after its placement follows the arguments that were given; `updated_by` is set only
-- where the placement changes.
abbrev pub placed_asset : User → Argument → Argument → Asset → Asset
placed_asset actor department location asset =
    let d = chosen department asset.department in
    let l = chosen location asset.location in
    if same_place asset.department d && same_place asset.location l then asset else record asset {
      department = if same_place asset.department d then asset.department else d;
      location = if same_place asset.location l then asset.location else l;
      updated_by = some actor;
    }

unfoldable pub assign_asset :
    ℕ → ℕ → User → Option Ref → Argument → Argument → Option ℕ → Db → Result (Db × Assignment)
assign_asset now asset_id actor assigned_to department location assigned_at db = do
  org ← actor_organization actor
  raise_if (not (in_org org assigned_to)) foreign_relation
  asset ← locked_asset asset_id org db
  raise_if (has_custody asset.pk db) already_assigned
  let d = chosen department asset.department
  let l = chosen location asset.location
  raise_if (not (in_org org d)) foreign_relation
  raise_if (not (in_org org l)) foreign_relation
  raise_if
      (is_active_asset asset.status
        && (not (same_place d asset.department) || not (same_place l asset.location)))
      placement_locked
  let assignment : Assignment =
      new_assignment org actor asset assigned_to department location (or_now assigned_at now) db
  raise_if (not (assignment_clean asset assignment)) row_invalid
  let db' : Db = record_event org (some actor.pk) Action.asset_assigned db.next_key db
  ok (
    record db' {
      assignments = assignment ∷ db.assignments;
      assets = save (λ (x : Asset). x.pk) (placed_asset actor department location asset) db.assets;
      next_key = suc db.next_key;
    },
    assignment,
  )

abbrev names : Option ℕ → ℕ → Bool
names none pk = true
names (some k) pk = pk == k

-- The open assignment of the asset, of the given key if one is given.
unfoldable pub open_assignment : ℕ → ℕ → Option ℕ → Db → Option Assignment
open_assignment org asset assignment_id db =
    find
      (λ (x : Assignment).
        x.org == org && x.asset == asset && is_unset x.returned_at && names assignment_id x.pk)
      db.assignments

abbrev pub returned_assignment : ℕ → User → ℕ → Assignment → Assignment
returned_assignment org actor at a = record a {
  returned_at = some at;
  returned_by = some (record { pk = actor.pk; org = org });
}

unfoldable pub return_asset : ℕ → ℕ → User → Option ℕ → Option ℕ → Db → Result (Db × Assignment)
return_asset now asset_id actor assignment_id returned_at db = do
  org ← actor_organization actor
  asset ← locked_asset asset_id org db
  open_row ← or_raise (open_assignment org asset.pk assignment_id db) assignment_missing
  let closed : Assignment = returned_assignment org actor (or_now returned_at now) open_row
  raise_if (not (assignment_clean asset closed)) row_invalid
  let db' : Db = record_event org (some actor.pk) Action.asset_assignment_returned closed.pk db
  ok (record db' { assignments = save (λ (x : Assignment). x.pk) closed db.assignments }, closed)
