-- ===== src/Commercial/Entitlements.antt =====
-- Write access of an organization: backend/commercial/entitlements.py. `now` is the instant that
-- `timezone.now()` returns to the call.
use assetflow_fixed_asset_ma.Prelude.{
  ℕ, ◌≡◌, ◌↔◌, Bool, true, false, not, ◌&&◌, Option, none, some, arith, ltb, ◌==◌,
}
use assetflow_fixed_asset_ma.Result.{
  Result, ok, ◌>>=◌, ◌>>◌, raise_if, or_raise, organization_missing, organization_inactive,
  read_only,
}
use assetflow_fixed_asset_ma.Table.{find}
use assetflow_fixed_asset_ma.Records.{SubscriptionState, Subscription, Org, Db}

-- `bool(end and end > now)`
abbrev runs_beyond : ℕ → Option ℕ → Bool
runs_beyond now none = false
runs_beyond now (some end) = ltb now end

writable_state : ℕ → SubscriptionState → Subscription → Bool
writable_state now SubscriptionState.managed s = true
writable_state now SubscriptionState.suspended s = false
writable_state now SubscriptionState.canceled s = false
writable_state now SubscriptionState.trial s = runs_beyond now s.trial_ends_at
writable_state now SubscriptionState.subscribed s = runs_beyond now s.period_ends_at
writable_state now SubscriptionState.past_due s = runs_beyond now s.grace_ends_at

unfoldable pub writable : ℕ → Subscription → Bool
unfolding writable_state
writable now s = writable_state now s.state s

abbrev blocked : ℕ → Option Subscription → Bool
blocked now none = false
blocked now (some s) = not (writable now s)

unfoldable pub require_write_access : ℕ → ℕ → Db → Result (Unit {0})
require_write_access now org db = do
  locked ← or_raise (find (λ (o : Org). o.pk == org) db.organizations) organization_missing
  raise_if (not locked.is_active) organization_inactive
  raise_if (blocked now locked.subscription) read_only

-- `.filter(subscription__state=state, subscription__<end>__gt=now)` and its alternatives: the
-- conditions of `write_enabled_organizations` on a subscription.
abbrev selected : ℕ → SubscriptionState → Subscription → Bool
selected now SubscriptionState.managed s = true
selected now SubscriptionState.trial s = runs_beyond now s.trial_ends_at
selected now SubscriptionState.subscribed s = runs_beyond now s.period_ends_at
selected now SubscriptionState.past_due s = runs_beyond now s.grace_ends_at
selected now _ s = false

abbrev selected_subscription : ℕ → Option Subscription → Bool
selected_subscription now none = true
selected_subscription now (some s) = selected now s.state s

-- Whether `write_enabled_organizations` keeps an organization.
unfoldable pub write_enabled : ℕ → Org → Bool
write_enabled now o = o.is_active && selected_subscription now o.subscription

writable-selected : (now : ℕ) (s : Subscription) → writable now s ≡ selected now s.state s
unfolding writable
writable-selected now s = ground arith

-- The organizations that the monthly automation selects are those to which a posting is granted
-- write access at the same instant.
pub require_write_access-write_enabled :
    (now org : ℕ) (db : Db) {o : Org}
    → find (λ (x : Org). x.pk == org) db.organizations ≡ some o
    → (require_write_access now org db ≡ ok tt) ↔ (write_enabled now o ≡ true)
unfolding require_write_access write_enabled writable
require_write_access-write_enabled now org db {o} h = (λ k. ground arith, λ k. ground arith)
