-- ===== src/Depreciation/Ledger.antt =====
-- The ledger of one schedule: what holds between the asset's balances, the schedule and its posted
-- entries, and what a settled posting makes of it.
use native.Mathlib.Decide.{dec_lt}
use assetflow_fixed_asset_ma.Prelude.{
  ℕ, ◌+◌, ◌-◌, ◌*◌, ◌≤◌, ◌<◌, ◌≡◌, ◌⊎◌, inl, inr, refl, some, List, [], ◌∷◌, arith, min, length,
}
use assetflow_fixed_asset_ma.Prelude.Int.{pos}
use assetflow_fixed_asset_ma.Result.{ok, err, fully_consumed}
use assetflow_fixed_asset_ma.Calendar.{Date}
use assetflow_fixed_asset_ma.Calendar.Months.{month_index}
use assetflow_fixed_asset_ma.Depreciation.Engine.{slm, calculate_period_amount}
use assetflow_fixed_asset_ma.Depreciation.Posting.{
  latest, later_of, Posting, prior_accumulated, agrees, settle,
}
use assetflow_fixed_asset_ma.Records.{Asset, Schedule, Entry}

-- The entries, newest first, are those of the months from `start` on, one each.
abbrev pub Chain : Date → List Entry → Type 0
Chain start [] = Unit
Chain start (e ∷ es) =
    (1 ≤ e.month)
    × (e.month ≤ 12)
    × (e.year * 12 + e.month - 1 ≡ month_index start + length es)
    × Chain start es

latest-cons : (e : Entry) (es : List Entry) → latest (e ∷ es) ≡ some (later_of e (latest es))
unfolding latest
latest-cons e es = refl

latest-one : (e : Entry) → latest (e ∷ []) ≡ some e
unfolding latest
latest-one e = refl

pub latest-Chain :
    (start : Date) (e : Entry) (es : List Entry) → Chain start (e ∷ es) → latest (e ∷ es) ≡ some e
latest-Chain start e [] c = latest-one e
latest-Chain start e (f ∷ es) c =
    let newest : latest (f ∷ es) ≡ some f = latest-Chain start f es c.3 in
    rw (latest-cons e (f ∷ es)) (rw newest (ground arith))

-- A straight-line schedule over n months, its asset and the entries posted so far.
pub record IsLedger (s : Schedule) (a : Asset) (es : List Entry) : Type 0 where
  pub straight_line : s.method ≡ slm
  pub basis : s.depreciable_base + s.residual_value ≡ s.capitalized_cost
  pub rollforward : a.current_book_value + a.accumulated_depreciation ≡ s.capitalized_cost
  pub consumed :
      a.accumulated_depreciation ≡ min (length es * s.periodic_depreciation) s.depreciable_base
  pub carried : prior_accumulated (latest es) ≡ a.accumulated_depreciation
  pub agreed : agrees s a (latest es) ≡ ok tt
  pub sequential : Chain s.start_date es

module _ (opening residual base periodic accumulated : ℕ) where
  -- While anything is left to depreciate, the amount is the periodic amount or the rest.
  period_amount_left :
      opening + accumulated ≡ base + residual
      → (accumulated < base) ⊎ (base ≡ 0)
      → accumulated ≤ base
      → calculate_period_amount slm
          (pos opening)
          (pos residual)
          (pos base)
          (pos periodic)
          (pos accumulated)
        ≡ ok (pos (min periodic (base - accumulated)))
  unfolding calculate_period_amount
  period_amount_left h less within = ground arith

  period_amount_consumed :
      0 < base
      → accumulated ≡ base
      → calculate_period_amount slm
          (pos opening)
          (pos residual)
          (pos base)
          (pos periodic)
          (pos accumulated)
        ≡ err fully_consumed
  unfolding calculate_period_amount
  period_amount_consumed h e = ground arith

-- The posting that an asset with something left to depreciate is due.
abbrev pub due_posting : Schedule → Asset → Posting
due_posting s a =
    let due : ℕ = min s.periodic_depreciation (s.depreciable_base - a.accumulated_depreciation) in
    record {
      amount = due;
      accumulated = a.accumulated_depreciation + due;
      closing = a.current_book_value - due;
    }

module _ {s : Schedule} {a : Asset} {es : List Entry} (l : IsLedger s a es) where
  pub accumulated-le : a.accumulated_depreciation ≤ s.depreciable_base
  accumulated-le = omega (arith, l.consumed)

  pub settle_left :
      (a.accumulated_depreciation < s.depreciable_base) ⊎ (s.depreciable_base ≡ 0)
      → settle s a (latest es) ≡ ok (due_posting s a)
  unfolding settle
  settle_left left =
      rw
        (
          l.straight_line,
          l.carried,
          period_amount_left a.current_book_value s.residual_value s.depreciable_base
              s.periodic_depreciation a.accumulated_depreciation
              (omega (arith, l.basis, l.rollforward)) left accumulated-le,
        )
        (ground (arith, l.basis, l.rollforward, accumulated-le))

  pub settle_consumed :
      0 < s.depreciable_base
      → a.accumulated_depreciation ≡ s.depreciable_base
      → settle s a (latest es) ≡ err fully_consumed
  unfolding settle
  settle_consumed positive e =
      rw
        (
          l.straight_line,
          l.carried,
          period_amount_consumed a.current_book_value s.residual_value s.depreciable_base
              s.periodic_depreciation a.accumulated_depreciation positive e,
        )
        refl

  pub settle-cases :
      ((settle s a (latest es) ≡ ok (due_posting s a))
        × ((a.accumulated_depreciation < s.depreciable_base) ⊎ (s.depreciable_base ≡ 0)))
      ⊎ (settle s a (latest es) ≡ err fully_consumed)
  settle-cases = elim (dec_lt a.accumulated_depreciation s.depreciable_base) [
    | yes less ↦ inl (settle_left (inl less), inl less)
    | no more ↦ elim (dec_lt 0 s.depreciable_base) [
      | yes positive ↦ inr (settle_consumed positive (omega (arith, accumulated-le)))
      | no nothing ↦ inl (settle_left (inr (omega arith)), inr (omega arith))
    ]
  ]
