-- ===== src/Records/Organizations.antt =====
-- Organizations, their subscriptions and their users: backend/organizations/models.py,
-- backend/commercial/models.py and backend/accounts/models.py.
use assetflow_fixed_asset_ma.Prelude.{ℕ, Bool, Option, none, some, List}

pub data SubscriptionState : Type 0 where
  managed trial subscribed past_due canceled suspended : SubscriptionState

-- Times are instants counted from a common origin; `registered_assets` is the limit of the plan.
pub record Subscription : Type 0 where
  pub state : SubscriptionState
  pub trial_ends_at : Option ℕ
  pub period_ends_at : Option ℕ
  pub grace_ends_at : Option ℕ
  pub registered_assets : Option ℕ

-- `currency` is the text of a currency code.
pub record Org : Type 0 where
  pub pk : ℕ
  pub is_active : Bool
  pub currency : List ℕ
  pub subscription : Option Subscription

-- The authenticated user of a call; `org` is its `organization_id`.
pub record User : Type 0 where
  pub pk : ℕ
  pub org : Option ℕ

-- A referenced department, location or user, with its organization.
pub record Ref : Type 0 where
  pub pk : ℕ
  pub org : ℕ

abbrev pub ref_key : Option Ref → Option ℕ
ref_key none = none
ref_key (some r) = some r.pk
