-- ===== src/Transfers/Tests.antt =====
-- Runs of the custody and transfer services: a press that is handed out, taken back and moved.
use assetflow_fixed_asset_ma.Prelude.{ℕ, ◌≡◌, refl, none, some, [], ◌∷◌, arith}
use assetflow_fixed_asset_ma.Result.{Result, ok, err}
use assetflow_fixed_asset_ma.Table.{find, exists, save, count}
use assetflow_fixed_asset_ma.Records.{Ref, Assignment, Transfer, Db, actor_organization, find_asset}
use assetflow_fixed_asset_ma.Transfers.Checks.{
  locked_asset, assignment_clean, transfer_clean, transfer_state_fields_valid, transfer_times_valid,
  open_elsewhere, transfer_full_clean,
}
use assetflow_fixed_asset_ma.Transfers.Assigning.{
  omitted, given, has_custody, assign_asset, open_assignment, return_asset,
}
use assetflow_fixed_asset_ma.Transfers.Moving.{
  approve, decide_transfer, find_transfer, request_transfer, transition_transfer, complete_transfer,
}
use assetflow_fixed_asset_ma.Transfers.Workflow.{
  Steps, here, more, assigning, returning, requesting, deciding, completing, IsOrderly,
  Steps-IsOrderly,
}
use assetflow_fixed_asset_ma.Transfers.Relocation.{Moved, complete_transfer-Moved}
use assetflow_fixed_asset_ma.Samples.{ann, bob, press, books}

-- The database after a call, or as it was if the call fails.
abbrev kept : Db → Result (Db × Assignment) → Db
kept db (ok r) = r.0
kept db (err e) = db

abbrev stored : Db → Result (Db × Transfer) → Db
stored db (ok r) = r.0
stored db (err e) = db

abbrev start : Db
start = books (press 1000 3) []

abbrev hall : Ref
hall = record { pk = 71; org = 1 }

abbrev handed : Db
handed =
    kept start
      (assign_asset 1 21 ann (some (record { pk = 12; org = 1 })) omitted omitted none start)

abbrev taken_back : Db
taken_back = kept handed (return_asset 2 21 ann none none handed)

abbrev asked : Db
asked =
    stored taken_back (request_transfer 3 21 ann omitted (given (some hall)) (7 ∷ []) taken_back)

abbrev approved_db : Db
approved_db = stored asked (transition_transfer approve 4 62 bob asked)

abbrev moved_db : Db
moved_db = stored approved_db (complete_transfer 5 62 ann approved_db)

start-IsOrderly : IsOrderly start
unfolding count
start-IsOrderly = record {
  transfers = record { distinct = tt; below = tt; one_open = λ asset. omega arith };
  assignments = record { distinct = tt; below = tt; one_custody = λ asset. omega arith };
}

move-Steps : Steps start moved_db
unfolding actor_organization find_asset find exists save locked_asset assignment_clean
    transfer_clean transfer_state_fields_valid transfer_times_valid open_elsewhere
    transfer_full_clean has_custody assign_asset open_assignment return_asset decide_transfer
    find_transfer request_transfer transition_transfer complete_transfer
move-Steps =
    more
      (more
        (more
          (more
            (more here
              (assigning 1 21 ann (some (record { pk = 12; org = 1 })) omitted omitted none refl))
            (returning 2 21 ann none none refl))
          (requesting 3 21 ann omitted (given (some hall)) (7 ∷ []) refl))
        (deciding approve 4 62 bob refl))
      (completing 5 62 ann refl)

Steps-IsOrderly_example : IsOrderly moved_db
Steps-IsOrderly_example = Steps-IsOrderly move-Steps start-IsOrderly

completion : (r : Db × Transfer) × (complete_transfer 5 62 ann approved_db ≡ ok r)
unfolding actor_organization find_asset find exists save locked_asset assignment_clean
    transfer_clean transfer_state_fields_valid transfer_times_valid open_elsewhere
    transfer_full_clean has_custody assign_asset open_assignment return_asset decide_transfer
    find_transfer request_transfer transition_transfer complete_transfer
completion = (_, refl)

complete_transfer-Moved_example :
    (org : ℕ) × (ann.org ≡ some org) × Moved 5 62 org ann approved_db completion.0
complete_transfer-Moved_example = complete_transfer-Moved 5 62 ann approved_db completion.1
