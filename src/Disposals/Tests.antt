-- ===== src/Disposals/Tests.antt =====
-- Runs of the disposal services: a press that is sold, with one user asking and another approving.
use assetflow_fixed_asset_ma.Prelude.{ℕ, ◌≡◌, refl, false, none, some, [], ◌∷◌}
use assetflow_fixed_asset_ma.Prelude.Int.{pos}
use assetflow_fixed_asset_ma.Result.{Result, ok, err}
use assetflow_fixed_asset_ma.Table.{find, exists, save}
use assetflow_fixed_asset_ma.Calendar.{before, same_date}
use assetflow_fixed_asset_ma.Records.{sale, Disposal, Db, actor_organization, find_asset}
use assetflow_fixed_asset_ma.Disposals.Checks.{
  is_open_disposal, disposal_clean, disposal_elsewhere, disposal_full_clean,
}
use assetflow_fixed_asset_ma.Texts.{is_currency_code}
use assetflow_fixed_asset_ma.Disposals.Saving.{same_columns, save_disposal}
use assetflow_fixed_asset_ma.Money.{Amount, decimal_amount, half_up, quantize, money}
use assetflow_fixed_asset_ma.Disposals.Requests.{
  own_organization, find_disposal, locked_disposal, disposable_asset, create_disposal,
}
use assetflow_fixed_asset_ma.Disposals.Decisions.{
  submit_disposal, approve_disposal, related_asset, cancel_disposal,
}
use assetflow_fixed_asset_ma.Disposals.Completion.{
  in_custody, in_transfer, in_repair, completed_disposal, derecognized_asset, complete_disposal,
}
use assetflow_fixed_asset_ma.Disposals.Workflow.{
  Steps, here, more, creating, submitting, approving, cancelling, derecognizing, IsRegister,
  Steps-IsRegister,
}
use assetflow_fixed_asset_ma.Disposals.Closing.{Steps-closed}
use assetflow_fixed_asset_ma.Disposals.Accounting.{OffTheBooks, complete_disposal-OffTheBooks}
use assetflow_fixed_asset_ma.Samples.{ann, bob, new_year, press, books}

-- The database after a call, or as it was if the call fails.
abbrev stored : Db → Result (Db × Disposal) → Db
stored db (ok r) = r.0
stored db (err e) = db

-- An amount of two places.
abbrev cents : ℕ → Amount
cents n = decimal_amount (record { coefficient = pos n; places = 2 })

abbrev start : Db
start = books (press 1000 3) []

abbrev asked : Db
asked = stored start (create_disposal 1 ann 21 new_year sale (7 ∷ []) (cents 1200) none start)

abbrev pending : Db
pending = stored asked (submit_disposal 2 61 ann asked)

abbrev approved_db : Db
approved_db = stored pending (approve_disposal 3 61 bob pending)

abbrev sold : Db
sold = stored approved_db (complete_disposal 4 new_year 61 bob approved_db)

abbrev dropped : Db
dropped = stored asked (cancel_disposal 2 61 ann (8 ∷ []) asked)

abbrev asked_again : Db
asked_again =
    stored dropped (create_disposal 3 bob 21 new_year sale (7 ∷ []) (cents 900) none dropped)

start-IsRegister : IsRegister start
start-IsRegister = record { distinct = tt; below = tt; lawful = tt }

sale-Steps : Steps start sold
unfolding own_organization actor_organization find_disposal locked_disposal disposable_asset
    find_asset find exists save before same_date disposal_clean disposal_elsewhere
    disposal_full_clean is_currency_code same_columns save_disposal create_disposal submit_disposal
    approve_disposal related_asset cancel_disposal in_custody in_transfer in_repair
    completed_disposal derecognized_asset complete_disposal half_up quantize money
sale-Steps =
    more
      (more
        (more (more here (creating 1 ann 21 new_year sale (7 ∷ []) (cents 1200) none refl))
          (submitting 2 61 ann refl))
        (approving 3 61 bob refl))
      (derecognizing 4 new_year 61 bob refl)

Steps-IsRegister_example : IsRegister sold
Steps-IsRegister_example = Steps-IsRegister sale-Steps start-IsRegister

dropped-Steps : Steps start dropped
unfolding own_organization actor_organization find_disposal locked_disposal disposable_asset
    find_asset find exists save before same_date disposal_clean disposal_elsewhere
    disposal_full_clean is_currency_code same_columns save_disposal create_disposal submit_disposal
    approve_disposal related_asset cancel_disposal in_custody in_transfer in_repair
    completed_disposal derecognized_asset complete_disposal half_up quantize money
dropped-Steps =
    more (more here (creating 1 ann 21 new_year sale (7 ∷ []) (cents 1200) none refl))
      (cancelling 2 61 ann (8 ∷ []) refl)

again-Steps : Steps dropped asked_again
unfolding own_organization actor_organization find_disposal locked_disposal disposable_asset
    find_asset find exists save before same_date disposal_clean disposal_elsewhere
    disposal_full_clean is_currency_code same_columns save_disposal create_disposal submit_disposal
    approve_disposal related_asset cancel_disposal in_custody in_transfer in_repair
    completed_disposal derecognized_asset complete_disposal half_up quantize money
again-Steps = more here (creating 3 bob 21 new_year sale (7 ∷ []) (cents 900) none refl)

dropped_disposal :
    (d : Disposal) × (find_disposal 61 1 dropped ≡ some d) × (is_open_disposal d.status ≡ false)
unfolding own_organization actor_organization find_disposal locked_disposal disposable_asset
    find_asset find exists save before same_date disposal_clean disposal_elsewhere
    disposal_full_clean is_currency_code same_columns save_disposal create_disposal submit_disposal
    approve_disposal related_asset cancel_disposal in_custody in_transfer in_repair
    completed_disposal derecognized_asset complete_disposal half_up quantize money
dropped_disposal = (_, refl, refl)

Steps-closed_example : find_disposal 61 1 asked_again ≡ some dropped_disposal.0
Steps-closed_example =
    Steps-closed 61 1 again-Steps (Steps-IsRegister dropped-Steps start-IsRegister)
      dropped_disposal.1 dropped_disposal.2

completion : (r : Db × Disposal) × (complete_disposal 4 new_year 61 bob approved_db ≡ ok r)
unfolding own_organization actor_organization find_disposal locked_disposal disposable_asset
    find_asset find exists save before same_date disposal_clean disposal_elsewhere
    disposal_full_clean is_currency_code same_columns save_disposal create_disposal submit_disposal
    approve_disposal related_asset cancel_disposal in_custody in_transfer in_repair
    completed_disposal derecognized_asset complete_disposal half_up quantize money
completion = (_, refl)

complete_disposal-OffTheBooks_example :
    (org : ℕ) × (bob.org ≡ some org) × OffTheBooks 61 org bob approved_db completion.0
complete_disposal-OffTheBooks_example =
    complete_disposal-OffTheBooks 4 new_year 61 bob approved_db completion.1
