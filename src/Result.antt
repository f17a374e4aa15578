-- ===== src/Result.antt =====
-- The outcome of a service call inside one `transaction.atomic()` block: a value, or the fault that
-- rolls the block back. A fault carries no state, so nothing of a failed call is kept.
use assetflow_fixed_asset_ma.Prelude.{◌≡◌, refl, ap, Bool, true, false, Option, none, some}

-- One constructor for each `raise` of the modelled services; those that share a field and differ
-- in the message have one each.
pub data Fault : Type 0 where
  -- backend/depreciation/services/engine.py
  float_input too_many_digits life_not_positive cost_inconsistent method_unsupported
        fully_consumed :
      Fault
  -- actor, organization and subscription
  organization_required organization_missing wrong_organization organization_inactive read_only :
      Fault
  -- rows that a locked `get` does not find
  asset_missing period_missing schedule_missing transfer_missing assignment_missing : Fault
  disposal_missing acquisition_missing : Fault
  -- backend/depreciation/services/posting.py
  period_invalid period_exists period_not_open asset_not_active not_capitalized : Fault
  not_available available_too_early cost_invalid balance_not_initial schedule_exists : Fault
  out_of_sequence schedule_complete book_value_mismatch accumulated_mismatch : Fault
  basis_mismatch below_residual already_posted closure_invalid : Fault
  -- backend/transfers
  not_movable already_assigned foreign_relation placement_locked return_too_early : Fault
  same_destination transfer_open bad_status stale_source blank_reason row_invalid : Fault
  history_immutable : Fault
  -- backend/disposals
  self_approval future_disposal wrong_currency disposal_exists before_capitalization : Fault
  negative_proceeds field_not_editable custody_open transfer_pending work_order_open : Fault
  accounting_inconsistent carrying_mismatch : Fault
  -- backend/assets
  acquisition_date_mismatch capitalization_date_missing capitalization_conflict : Fault
  has_balance residual_exceeds_cost cost_not_positive date_order acquisition_exists : Fault
  accounting_basis_locked unsupported_field asset_required category_required capacity_reached :
      Fault
  -- backend/maintenance
  plan_missing work_order_missing disposed_plan blank_assignee run_missing number_out_of_range :
      Fault
  -- `datetime.date`
  date_out_of_range : Fault

pub data Result {ℓ} (A : Type ℓ) : Type ℓ where
  ok : A → Result A
  err : Fault → Result A

infixl 5 ◌>>=◌ ◌>>◌
abbrev pub ◌>>=◌ {ℓ κ} : {X : Type ℓ} {Y : Type κ} → Result X → (X → Result Y) → Result Y
err fault >>= then_do = err fault
ok x >>= then_do = then_do x

-- The next statement, after one whose value is not used.
abbrev pub ◌>>◌ {ℓ κ} : {X : Type ℓ} {Y : Type κ} → Result X → Result Y → Result Y
first >> next = first >>= λ _. next

-- `if c: raise e`
abbrev pub raise_if : Bool → Fault → Result (Unit {0})
raise_if true e = err e
raise_if false e = ok tt

-- `Model.objects.get(...)` with its `DoesNotExist` handler.
abbrev pub or_raise {ℓ} : {A : Type ℓ} → Option A → Fault → Result A
or_raise none e = err e
or_raise (some a) e = ok a

-- A block that succeeds has run its first step, and the rest on the value of that.
pub >>=-eq-ok {ℓ κ} :
    {X : Type ℓ} {Y : Type κ} (first : Result X) (rest : X → Result Y) {y : Y}
    → (first >>= rest) ≡ ok y
    → (x : X) × (first ≡ ok x) × (rest x ≡ ok y)
>>=-eq-ok (err fault) rest h = cc
>>=-eq-ok (ok x) rest h = (x, refl, h)

-- The same where the first step is a lookup, or a test.
pub or_raise-then {ℓ κ} :
    {A : Type ℓ} {B : Type κ} (o : Option A) (e : Fault) (f : A → Result B) {b : B}
    → (or_raise o e >>= f) ≡ ok b
    → (a : A) × (o ≡ some a) × (f a ≡ ok b)
or_raise-then none e f h = cc
or_raise-then (some a) e f h = (a, refl, h)

pub raise_if-then {κ} :
    {B : Type κ} (c : Bool) (e : Fault) (k : Result B) {b : B}
    → (raise_if c e >> k) ≡ ok b
    → (c ≡ false) × (k ≡ ok b)
raise_if-then true e k h = cc
raise_if-then false e k h = (refl, h)

pub ok-injective {ℓ} : {A : Type ℓ} {a b : A} → ok a ≡ ok b → a ≡ b
ok-injective h = cc

pub or_raise-eq-ok {ℓ} :
    {A : Type ℓ} (o : Option A) (e : Fault) {a : A} → or_raise o e ≡ ok a → o ≡ some a
or_raise-eq-ok none e h = cc
or_raise-eq-ok (some a) e h = ap some (ok-injective h)

-- The next step of a block whose first step succeeds.
pub >>=-step {ℓ κ} :
    {X : Type ℓ} {Y : Type κ} {first : Result X} (rest : X → Result Y) {x : X}
    → first ≡ ok x
    → (first >>= rest) ≡ rest x
>>=-step rest h = ap (λ m. m >>= rest) h

pub or_raise-step {ℓ κ} :
    {X : Type ℓ} {Y : Type κ} {o : Option X} (e : Fault) (rest : X → Result Y) {x : X}
    → o ≡ some x
    → (or_raise o e >>= rest) ≡ rest x
or_raise-step e rest h = ap (λ p. or_raise p e >>= rest) h

pub raise_if-step {κ} :
    {Y : Type κ} {c : Bool} (e : Fault) (rest : Result Y)
    → c ≡ false
    → (raise_if c e >> rest) ≡ rest
raise_if-step e rest h = ap (λ b. raise_if b e >> rest) h

pub some-injective {ℓ} : {A : Type ℓ} {a b : A} → some a ≡ some b → a ≡ b
some-injective h = cc
