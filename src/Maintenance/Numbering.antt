-- ===== src/Maintenance/Numbering.antt =====
-- The numbers of work orders: each organization's sequence stays above the numbers it handed out, so
-- that an order can be opened while the next value fits its column.
use mathlib.Core.Path.{subst}
use assetflow_fixed_asset_ma.Prelude.{
  ◌^◌, ltb, ℕ, suc, ◌<◌, ◌≡◌, ◌≢◌, refl, sym, ap, ◌∙◌, Bool, true, false, not, ◌&&◌, Option, none,
  some, List, ◌∷◌, arith, ◌==◌, ==_iff, inl, inr, Bool-cases, All,
}
use assetflow_fixed_asset_ma.Calendar.{Date}
use assetflow_fixed_asset_ma.Result.{
  ok, ok-injective, raise_if-then, >>=-step, or_raise-step, raise_if-step,
}
use assetflow_fixed_asset_ma.Table.{find, save, find-test, find-save, All-find, All-save}
use assetflow_fixed_asset_ma.Table.Keys.{find-save_other}
use assetflow_fixed_asset_ma.Table.Rows.{All-map, exists-none}
use assetflow_fixed_asset_ma.Records.{
  User, AssetStatus, Asset, MaintenanceType, WorkOrderPriority, WorkOrder, Sequence, Db,
  actor_organization, find_asset,
}
use assetflow_fixed_asset_ma.Maintenance.Checks.{
  is_maintainable, is_disposed, serviced_asset, find_order, order_clean, number_taken,
  order_full_clean,
}
use assetflow_fixed_asset_ma.Maintenance.Orders.{
  sequence_of, allocation, exhausted, numbered, next_work_order_number, new_order,
  create_work_order,
}
use assetflow_fixed_asset_ma.Maintenance.Workflow.{Step, Steps, here, more}
use assetflow_fixed_asset_ma.Maintenance.Written.{Step-Written}
use assetflow_fixed_asset_ma.Maintenance.Moving.{Opened, Moved}

-- The sequence of the order's organization is past its number.
abbrev pub IsPast : List Sequence → WorkOrder → Type 0
IsPast rows o =
    (s : Sequence) × (sequence_of o.org rows ≡ some s) × (o.work_order_number < s.next_value)

abbrev pub IsNumbered : Db → Type 0
IsNumbered db = All (IsPast db.maintenance.sequences) db.maintenance.work_orders

head_fails :
    (p : Sequence → Bool) (x : Sequence) (t : List Sequence) {s : Sequence}
    → find p t ≡ some s
    → p x ≡ false
    → find p (x ∷ t) ≡ some s
unfolding find
head_fails p x t h e = rw e h

find_head :
    (p : Sequence → Bool) (x : Sequence) (t : List Sequence) → p x ≡ true → find p (x ∷ t) ≡ some x
unfolding find
find_head p x t e = rw e refl

none-some : {A : Type 0} {a : A} → none ≡ some a → ⊥
none-some h = cc

below_suc : {m n : ℕ} → m < n → m < suc n
below_suc h = omega (arith, h)

unequal_test : (a b : ℕ) → a ≢ b → (a == b) ≡ false
unequal_test a b h = ground (arith, h)

true-false : (b : Bool) → b ≡ true → b ≡ false → ⊥
true-false b h k = cc

-- What a number's allocation leaves in place.
record Allocated (org : ℕ) (before : Option Sequence) (rows : List Sequence) : Type 0 where
  kept : (o : WorkOrder) → IsPast rows o → IsPast (allocation org before rows).0 o
  past :
      (o : WorkOrder)
      → o.org ≡ org
      → o.work_order_number ≡ (allocation org before rows).1
      → IsPast (allocation org before rows).0 o
  above :
      (o : WorkOrder)
      → IsPast rows o
      → o.org ≡ org
      → o.work_order_number < (allocation org before rows).1

sequence_key :
    (org : ℕ) (rows : List Sequence) {s : Sequence} → sequence_of org rows ≡ some s → s.org ≡ org
sequence_key org rows h = (==_iff _ org).0 (find-test _ rows h)

first_number : {n : ℕ} → n ≡ 1 → n < 2
first_number h = omega (arith, h)

next_number : {n m : ℕ} → n ≡ m → n < suc m
next_number h = omega (arith, h)

one_sequence : {a b : Sequence} → some a ≡ some b → a ≡ b
one_sequence k = cc

passes :
    (org : ℕ) (s : Sequence) (rows : List Sequence)
    → sequence_of org rows ≡ some s
    → (o : WorkOrder) → IsPast rows o
    → o.org ≡ org
    → o.work_order_number < s.next_value
passes org s rows h o given e =
    let one : s ≡ given.0 = one_sequence (sym h ∙ ap (λ n. sequence_of n rows) (sym e) ∙ given.1) in
    rw one given.2

numbered-Allocated :
    (org : ℕ) (before : Option Sequence) (rows : List Sequence)
    → sequence_of org rows ≡ before
    → Allocated org before rows
numbered-Allocated org none rows h = record {
  kept = λ o given.
      let apart : org ≢ o.org = λ e. none-some (sym h ∙ ap (λ n. sequence_of n rows) e ∙ given.1) in
      (given.0, head_fails _ _ rows given.1 (unequal_test org o.org apart), given.2);
  past = λ o e n. (_, find_head _ _ rows ((==_iff org o.org).1 (sym e)), first_number n);
  above = λ o given e. absurd (none-some (sym h ∙ ap (λ n. sequence_of n rows) (sym e) ∙ given.1));
}
numbered-Allocated org (some s) rows h =
    let next : Sequence = record s { next_value = suc s.next_value } in
    let key : s.org ≡ org = sequence_key org rows h in
    let found : (n : ℕ)
        → n ≡ org
        → sequence_of n (save (λ (x : Sequence). x.org) next rows) ≡ some next =
      λ n e.
        find-save (λ (x : Sequence). x.org) _ next rows (ap (λ m. sequence_of m rows) e ∙ h) refl
          ((==_iff s.org n).1 (key ∙ sym e)) in
    record {
      kept = λ o given. elim (Bool-cases (o.org == org)) [
        | inl e ↦
            let same = (==_iff o.org org).0 e in
            (next, found o.org same, below_suc (passes org s rows h o given same))
        | inr e ↦ (
          given.0,
          find-save_other (λ (x : Sequence). x.org) _ next rows given.1
              (λ k.
                true-false _
                  ((==_iff o.org org).1 (sym (sequence_key o.org rows given.1) ∙ k ∙ key)) e)
              (unequal_test s.org o.org (λ k. true-false _ ((==_iff o.org org).1 (sym k ∙ key)) e)),
          given.2,
        )
      ];
      past = λ o e n. (next, found o.org e, next_number n);
      above = passes org s rows h;
    }

next-Allocated : (org : ℕ) (rows : List Sequence) → Allocated org (sequence_of org rows) rows
next-Allocated org rows = numbered-Allocated org (sequence_of org rows) rows refl

numbered-eq-ok :
    (org : ℕ) (found : Option Sequence) (rows : List Sequence) {given : List Sequence × ℕ}
    → numbered org found rows ≡ ok given
    → allocation org found rows ≡ given
numbered-eq-ok org found rows h = ok-injective (raise_if-then (exhausted found) _ _ h).1

Opened-IsNumbered : {db db' : Db} → Opened db db' → IsNumbered db → IsNumbered db'
unfolding next_work_order_number
Opened-IsNumbered {db} s w =
    let rows = db.maintenance.sequences in
    let a = next-Allocated s.org rows in
    let given : allocation s.org (sequence_of s.org rows) rows ≡ s.allocated =
      numbered-eq-ok s.org (sequence_of s.org rows) rows s.allowed in
    let all : All (IsPast (allocation s.org (sequence_of s.org rows) rows).0)
        (s.row ∷ db.maintenance.work_orders) =
      (
        a.past s.row s.row_org (s.number ∙ ap (λ x. x.1) (sym given)),
        All-map (IsPast rows) (IsPast (allocation s.org (sequence_of s.org rows) rows).0)
            (λ o. a.kept o) db.maintenance.work_orders w,
      ) in
    rw s.orders (
      subst (λ t. All (IsPast t) (s.row ∷ db.maintenance.work_orders))
        (ap (λ x. x.0) given ∙ sym s.sequences) all)

Moved-IsNumbered : {db db' : Db} → Moved db db' → IsNumbered db → IsNumbered db'
unfolding find_order
Moved-IsNumbered {db} s w =
    let rows = db.maintenance.work_orders in
    let given = All-find (IsPast db.maintenance.sequences) _ rows w s.found in
    rw (s.orders, s.sequences)
      (All-save (IsPast db.maintenance.sequences) (λ (o : WorkOrder). o.pk) s.row rows w
        (rw (s.same.org, s.same.number) given))

Step-IsNumbered : {db db' : Db} → Step db db' → IsNumbered db → IsNumbered db'
Step-IsNumbered step w = elim (Step-Written step) [
  | inl s ↦ rw (s.orders, s.sequences) w
  | inr (inl s) ↦ Opened-IsNumbered s w
  | inr (inr s) ↦ Moved-IsNumbered s w
]

-- Through any sequence of successful maintenance calls, from a database where this holds: the
-- organization of every work order has a sequence whose next value is above the order's number.
pub Steps-IsNumbered : {db db' : Db} → Steps db db' → IsNumbered db → IsNumbered db'
Steps-IsNumbered here w = w
Steps-IsNumbered (more steps step) w = Step-IsNumbered step (Steps-IsNumbered steps w)

number_apart : (b c : Bool) (m n : ℕ) → (b ≡ true → m < n) → (b && m == n && c) ≡ false
number_apart false c m n h = refl
number_apart true c m n h = below_apart c m n (h refl)
  where
    below_apart : (c : Bool) (m n : ℕ) → m < n → (m == n && c) ≡ false
    below_apart c m n h = ground (arith, h)

maintained_asset : (s : AssetStatus) → is_maintainable s ≡ true → is_disposed s ≡ false
maintained_asset s h = ground (arith, h)

find_asset-org :
    (pk org : ℕ) (db : Db) {a : Asset} → find_asset pk org db ≡ some a → (a.org == org) ≡ true
unfolding find_asset
find_asset-org pk org db {a} h = both (a.pk == pk) (a.org == org) (find-test _ db.assets h)
  where
    both : (b c : Bool) → (b && c) ≡ true → c ≡ true
    both b c h = ground (arith, h)

same_number : (n : ℕ) → (n == n) ≡ true
same_number n = (==_iff n n).1 refl

new_order-clean :
    (now org : ℕ) (actor : User) (a : Asset) (n : ℕ) (type : MaintenanceType)
    (priority : WorkOrderPriority) (c : ℕ) (text : List ℕ) (due : Option Date) (db : Db)
    → (a.org == org) ≡ true
    → is_disposed a.status ≡ false
    → number_taken (new_order now org actor a n type priority (c ∷ text) due db) db ≡ false
    → order_full_clean a (new_order now org actor a n type priority (c ∷ text) due db) db ≡ true
unfolding order_full_clean order_clean
new_order-clean now org actor a n type priority c text due db h k t =
    rw (h, k, t, same_number org) refl

fits_next : (n : ℕ) → suc n < 2 ^ 63 → not (ltb (suc n) (2 ^ 63)) ≡ false
fits_next n h = ground (arith, h)

room_left :
    (found : Option Sequence)
    → ((s : Sequence) → found ≡ some s → suc s.next_value < 2 ^ 63)
    → exhausted found ≡ false
room_left none h = refl
room_left (some s) h = fits_next s.next_value (h s refl)

-- Where each sequence is past the numbers of its organization's orders, and the organization's, if it
-- has one, has a next value whose successor is below 2 ^ 63: a user can open an order with a
-- description for every maintainable asset of the organization, and it gets an open status and a
-- number above those of all the organization's orders.
pub create_work_order-succeeds :
    (now org : ℕ) (actor : User) (asset_id : ℕ) (a : Asset) (type : MaintenanceType) (c : ℕ)
    (text : List ℕ) (priority : WorkOrderPriority) (due : Option Date) (db : Db)
    → IsNumbered db
    → actor.org ≡ some org
    → find_asset asset_id org db ≡ some a
    → is_maintainable a.status ≡ true
    → ((s : Sequence)
        → sequence_of org db.maintenance.sequences ≡ some s
        → suc s.next_value < 2 ^ 63)
    → (r : Db × WorkOrder) × (create_work_order now actor asset_id type (c ∷ text) priority due db
        ≡ ok r)
      × All
          (λ (o : WorkOrder). o.org ≡ org → o.work_order_number < r.1.work_order_number)
          db.maintenance.work_orders
unfolding create_work_order serviced_asset actor_organization number_taken next_work_order_number
create_work_order-succeeds now org actor asset_id a type c text priority due db w own found
      maintainable room =
    let rows = db.maintenance.sequences in
    let n = (allocation org (sequence_of org rows) rows).1 in
    let larger : All (λ (o : WorkOrder). o.org ≡ org → o.work_order_number < n)
        db.maintenance.work_orders =
      All-map (IsPast rows) (λ o. o.org ≡ org → o.work_order_number < n)
        (λ o given. (next-Allocated org rows).above o given) db.maintenance.work_orders w in
    let row = new_order now org actor a n type priority (c ∷ text) due db in
    let free : number_taken row db ≡ false = exists-none _ db.maintenance.work_orders (
      All-map (λ o. o.org ≡ org → o.work_order_number < n)
        (λ o. (o.org == org && o.work_order_number == n && not (o.pk == row.pk)) ≡ false)
        (λ o less.
          number_apart (o.org == org) (not (o.pk == row.pk)) o.work_order_number n
            (λ e. less ((==_iff o.org org).0 e)))
        db.maintenance.work_orders larger) in
    let clean =
      new_order-clean now org actor a n type priority c text due db
        (find_asset-org asset_id org db found) (maintained_asset a.status maintainable) free in
    (
      _,
      or_raise-step _ _ own
          ∙ >>=-step _ (or_raise-step _ _ found ∙ raise_if-step _ _ (ap not maintainable))
          ∙ >>=-step _ (raise_if-step _ _ (room_left (sequence_of org rows) room))
          ∙ raise_if-step _ _ (ap not clean),
      larger,
    )
