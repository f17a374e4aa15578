-- ===== src/Maintenance/Lifecycle.antt =====
-- Work orders over sequences of calls: each follows the life of a work order.
use mathlib.Core.Path.{subst}
use assetflow_fixed_asset_ma.Prelude.{
  ℕ, suc, ◌≤◌, ◌<◌, ◌≡◌, ◌≢◌, refl, sym, ap, ◌∙◌, Bool, true, false, ◌&&◌, some, List, ◌∷◌, arith,
  ◌==◌, ==_iff, inl, inr, Bool-cases, [],
}
use assetflow_fixed_asset_ma.Table.{find, find-test, find-save, All-find}
use assetflow_fixed_asset_ma.Table.Keys.{
  Distinct, Below, Distinct-save, Below-save, Below-suc, Below-fresh, find_unique, find-save_other,
}
use assetflow_fixed_asset_ma.Records.{WorkOrderStatus, is_open_work_order, WorkOrder, Db}
use assetflow_fixed_asset_ma.Maintenance.Checks.{find_order}
use assetflow_fixed_asset_ma.Maintenance.Workflow.{Step, Steps, here, more, Move}
use assetflow_fixed_asset_ma.Maintenance.Written.{Step-Written}
use assetflow_fixed_asset_ma.Maintenance.Moving.{SameRequest, Kept, Opened, Moved}

-- The work orders have keys of their own, all handed out before the next one.
pub record IsKeyed (db : Db) : Type 0 where
  pub distinct : Distinct (λ (o : WorkOrder). o.pk) db.maintenance.work_orders
  pub below : Below (λ (o : WorkOrder). o.pk) db.next_key db.maintenance.work_orders

below_more : {a m n : ℕ} → a < m → m ≤ n → a < n
below_more h k = omega (arith, h, k)

Below-more :
    {m n : ℕ} (rows : List WorkOrder)
    → m ≤ n
    → Below (λ (o : WorkOrder). o.pk) m rows
    → Below (λ (o : WorkOrder). o.pk) n rows
Below-more [] h b = tt
Below-more (o ∷ rows) h (less, b) = (below_more less h, Below-more rows h b)

fresh_below : {a n m : ℕ} → a ≡ n → m ≡ suc n → a < m
fresh_below h k = omega (arith, h, k)

suc_more : {n m : ℕ} → m ≡ suc n → suc n ≤ m
suc_more h = omega (arith, h)

Kept-IsKeyed : {db db' : Db} → Kept db db' → IsKeyed db → IsKeyed db'
Kept-IsKeyed {db} s w = record {
  distinct = rw s.orders w.distinct;
  below = rw s.orders (Below-more db.maintenance.work_orders s.next_key w.below);
}

Opened-IsKeyed : {db db' : Db} → Opened db db' → IsKeyed db → IsKeyed db'
Opened-IsKeyed {db} s w =
    let rows = db.maintenance.work_orders in
    record {
      distinct =
          rw s.orders (
            rw s.fresh (Below-fresh (λ (o : WorkOrder). o.pk) db.next_key rows w.below),
            w.distinct,
          );
      below = rw s.orders (
        fresh_below s.fresh s.next_key,
        Below-more rows (suc_more s.next_key)
            (Below-suc (λ (o : WorkOrder). o.pk) db.next_key rows w.below),
      );
    }

Moved-IsKeyed : {db db' : Db} → Moved db db' → IsKeyed db → IsKeyed db'
unfolding find_order
Moved-IsKeyed {db} s w =
    let rows = db.maintenance.work_orders in
    let less = All-find (λ (o : WorkOrder). o.pk < db.next_key) _ rows w.below s.found in
    let less_row : s.row.pk < db.next_key = rw s.same.pk less in
    record {
      distinct = rw s.orders (Distinct-save (λ (o : WorkOrder). o.pk) s.row rows w.distinct);
      below = rw s.orders (
          Below-more _ s.next_key
            (Below-save (λ (o : WorkOrder). o.pk) db.next_key s.row rows w.below less_row));
    }

pub Step-IsKeyed : {db db' : Db} → Step db db' → IsKeyed db → IsKeyed db'
Step-IsKeyed step w = elim (Step-Written step) [
  | inl s ↦ Kept-IsKeyed s w
  | inr (inl s) ↦ Opened-IsKeyed s w
  | inr (inr s) ↦ Moved-IsKeyed s w
]

pub Steps-IsKeyed : {db db' : Db} → Steps db db' → IsKeyed db → IsKeyed db'
Steps-IsKeyed here w = w
Steps-IsKeyed (more steps step) w = Step-IsKeyed step (Steps-IsKeyed steps w)

-- Any number of moves.
pub data Moves (start : WorkOrderStatus) : WorkOrderStatus → Type 0 where
  unmoved : Moves start start
  moved_on : {s s' : WorkOrderStatus} → Moves start s → Move s s' → Moves start s'

-- Where an order is after a while: it has made some moves, its request is what it was, and a
-- terminal order is the same row.
pub record Followed (pk org : ℕ) (o : WorkOrder) (db : Db) : Type 0 where
  pub now : WorkOrder
  pub found : find_order pk org db ≡ some now
  pub moves : Moves o.status now.status
  pub same : SameRequest o now
  pub terminal : is_open_work_order o.status ≡ false → now ≡ o

SameRequest-refl : (o : WorkOrder) → SameRequest o o
SameRequest-refl o = record { pk = refl; org = refl; number = refl; asset = refl; opened_at = refl }

SameRequest-trans : {a b c : WorkOrder} → SameRequest a b → SameRequest b c → SameRequest a c
SameRequest-trans s t = record {
  pk = t.pk ∙ s.pk;
  org = t.org ∙ s.org;
  number = t.number ∙ s.number;
  asset = t.asset ∙ s.asset;
  opened_at = t.opened_at ∙ s.opened_at;
}

Followed-refl :
    (pk org : ℕ) {o : WorkOrder} {db : Db} → find_order pk org db ≡ some o → Followed pk org o db
Followed-refl pk org {o} h = record {
  now = o;
  found = h;
  moves = unmoved;
  same = SameRequest-refl o;
  terminal = λ c. refl;
}

Move-opens : {s s' : WorkOrderStatus} → Move s s' → is_open_work_order s ≡ true
Move-opens Move.assigned_to_user = refl
Move-opens Move.started_at_once = refl
Move-opens Move.started_by_user = refl
Move-opens Move.done = refl
Move-opens Move.dropped_new = refl
Move-opens Move.dropped_assigned = refl
Move-opens Move.dropped_started = refl

open_closed : (b : Bool) → b ≡ true → b ≡ false → ⊥
open_closed b h k = cc

-- A move of one row under a row that followed another.
Followed-trans :
    (pk org : ℕ) {o x : WorkOrder} {db' : Db}
    → Moves o.status x.status
    → SameRequest o x
    → (is_open_work_order o.status ≡ false → x ≡ o)
    → Followed pk org x db'
    → Followed pk org o db'
Followed-trans pk org {o} {x} moves same terminal f = record {
  now = f.now;
  found = f.found;
  moves = append moves f.moves;
  same = SameRequest-trans same f.same;
  terminal = λ c.
      let e = terminal c in
      f.terminal (ap (λ (y : WorkOrder). is_open_work_order y.status) e ∙ c) ∙ e;
}
  where
    append : {a b c : WorkOrderStatus} → Moves a b → Moves b c → Moves a c
    append m unmoved = m
    append m (moved_on n v) = moved_on (append m n) v

other_test : (a b c d : ℕ) → a ≢ b → (a == b && c == d) ≡ false
other_test a b c d h = ground (arith, h)

key_of : (a b c d : ℕ) → (a == b && c == d) ≡ true → a ≡ b
key_of a b c d h = ground (arith, h)

find-behind :
    (p : WorkOrder → Bool) (x : WorkOrder) (t : List WorkOrder) {o : WorkOrder}
    → find p t ≡ some o
    → p x ≡ false
    → find p (x ∷ t) ≡ some o
unfolding find
find-behind p x t h e = rw e h

fresh_other : {a b n : ℕ} → a ≡ b → b ≡ n → a < n → ⊥
fresh_other h k less = omega (arith, h, k, less)

Opened-Followed :
    (pk org : ℕ) {db db' : Db} {o : WorkOrder}
    → Opened db db'
    → IsKeyed db
    → find_order pk org db ≡ some o
    → Followed pk org o db'
unfolding find_order
Opened-Followed pk org {db} {db'} {o} s w h =
    let rows = db.maintenance.work_orders in
    let key : o.pk ≡ pk = key_of o.pk pk o.org org (find-test _ rows h) in
    let less = All-find (λ (x : WorkOrder). x.pk < db.next_key) _ rows w.below h in
    Followed-refl pk org (
      rw s.orders (
        find-behind _ s.row rows h
          (other_test s.row.pk pk s.row.org org (λ e. fresh_other (key ∙ sym e) s.fresh less))))

Moved-Followed :
    (pk org : ℕ) {db db' : Db} {o : WorkOrder}
    → Moved db db'
    → IsKeyed db
    → find_order pk org db ≡ some o
    → Followed pk org o db'
unfolding find_order
Moved-Followed pk org {db} {db'} {o} s w h =
    let rows = db.maintenance.work_orders in
    let test = find-test _ rows h in
    elim (Bool-cases (o.pk == s.row.pk)) [
      | inl same ↦
          let key : o.pk ≡ s.row.pk = (==_iff o.pk s.row.pk).0 same in
          let one : s.old ≡ o =
            find_unique (λ (x : WorkOrder). x.pk) _ _ rows w.distinct s.found h
              (sym s.same.pk ∙ sym key) in
          let request : SameRequest o s.row = subst (λ x. SameRequest x s.row) one s.same in
          let move : Move o.status s.row.status =
            subst (λ (x : WorkOrder). Move x.status s.row.status) one s.move in
          record {
            now = s.row;
            found = rw s.orders (
                find-save (λ (x : WorkOrder). x.pk) _ s.row rows h key
                  (rw (request.pk, request.org) test));
            moves = moved_on unmoved move;
            same = request;
            terminal = λ c. absurd (open_closed _ (Move-opens move) c);
          }
      | inr other ↦
          let apart : o.pk ≢ s.row.pk = λ e. open_closed _ ((==_iff o.pk s.row.pk).1 e) other in
          let key : o.pk ≡ pk = key_of o.pk pk o.org org test in
          Followed-refl pk org (
            rw s.orders (
              find-save_other (λ (x : WorkOrder). x.pk) _ s.row rows h apart
                (other_test s.row.pk pk s.row.org org (λ e. apart (key ∙ sym e)))))
    ]

Step-Followed :
    (pk org : ℕ) {db db' : Db} {o : WorkOrder}
    → Step db db'
    → IsKeyed db
    → find_order pk org db ≡ some o
    → Followed pk org o db'
unfolding find_order
Step-Followed pk org step w h = elim (Step-Written step) [
  | inl s ↦ Followed-refl pk org (rw s.orders h)
  | inr (inl s) ↦ Opened-Followed pk org s w h
  | inr (inr s) ↦ Moved-Followed pk org s w h
]

-- Where work orders have keys of their own: after any sequence of successful maintenance calls a
-- work order is still found, with its key, organization, number, asset and opening time; its
-- status has moved only from open to assigned or in progress, from assigned to in progress, from in
-- progress to completed, or from one of these three to cancelled; and one that was completed or
-- cancelled is the same row.
pub Steps-Followed :
    (pk org : ℕ) {db db' : Db} {o : WorkOrder}
    → Steps db db'
    → IsKeyed db
    → find_order pk org db ≡ some o
    → Followed pk org o db'
Steps-Followed pk org here w h = Followed-refl pk org h
Steps-Followed pk org (more steps step) w h =
    let f = Steps-Followed pk org steps w h in
    Followed-trans pk org f.moves f.same f.terminal
      (Step-Followed pk org step (Steps-IsKeyed steps w) f.found)
