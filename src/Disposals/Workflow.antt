-- ===== src/Disposals/Workflow.antt =====
-- The disposal services as steps of the database, and what every sequence of such steps keeps.
use mathlib.Core.Path.{subst}
use assetflow_fixed_asset_ma.Prelude.{
  not-false, ℕ, suc, ◌<◌, ◌≡◌, refl, sym, ap, ◌∙◌, Bool, true, not, Option, some, List, [], ◌∷◌,
  arith, All, ◌⊎◌, inl, inr,
}
use assetflow_fixed_asset_ma.Result.{ok, >>=-eq-ok, raise_if-then, ok-injective}
use assetflow_fixed_asset_ma.Calendar.{Date}
use assetflow_fixed_asset_ma.Money.{Amount, money}
use assetflow_fixed_asset_ma.Table.{save, All-find, All-save}
use assetflow_fixed_asset_ma.Table.Keys.{
  Distinct, Below, Distinct-save, Below-save, Below-suc, Below-fresh,
}
use assetflow_fixed_asset_ma.Records.{Org, User, DisposalMethod, DisposalStatus, Disposal, Db}
use assetflow_fixed_asset_ma.Disposals.Checks.{
  is_draft, is_pending, is_approved_disposal, is_open_disposal, disposal_full_clean,
}
use assetflow_fixed_asset_ma.Disposals.Requests.{
  own_organization, disposable_asset, find_disposal, new_disposal, create_disposal, Change,
  change_fields, update_disposal,
}
use assetflow_fixed_asset_ma.Disposals.Decisions.{
  submit_disposal, approve_disposal, reject_disposal, cancel_disposal,
}
use assetflow_fixed_asset_ma.Disposals.Completion.{complete_disposal, completed_disposal}
use assetflow_fixed_asset_ma.Disposals.Effects.{
  Rewritten, update_disposal-Rewritten, submit_disposal-Rewritten, approve_disposal-Rewritten,
  reject_disposal-Rewritten, cancel_disposal-Rewritten,
}
use assetflow_fixed_asset_ma.Disposals.Derecognition.{complete_disposal-Derecognized}
use assetflow_fixed_asset_ma.Disposals.Lawful.{IsLawful, clean-IsLawful}

-- A successful call of one of the services, by any actor at any time.
pub data Step (db : Db) : Db → Type 0 where
  creating :
      (now : ℕ) (actor : User) (asset_id : ℕ) (date : Date) (method : DisposalMethod)
      (reason : List ℕ) (proceeds : Amount) (currency : Option (List ℕ)) {r : Db × Disposal}
      → create_disposal now actor asset_id date method reason proceeds currency db ≡ ok r
      → Step db r.0
  updating :
      (pk : ℕ) (actor : User) (changes : List Change) {r : Db × Disposal}
      → update_disposal pk actor changes db ≡ ok r
      → Step db r.0
  submitting :
      (now pk : ℕ) (actor : User) {r : Db × Disposal}
      → submit_disposal now pk actor db ≡ ok r
      → Step db r.0
  approving :
      (now pk : ℕ) (actor : User) {r : Db × Disposal}
      → approve_disposal now pk actor db ≡ ok r
      → Step db r.0
  rejecting :
      (now pk : ℕ) (actor : User) (reason : List ℕ) {r : Db × Disposal}
      → reject_disposal now pk actor reason db ≡ ok r
      → Step db r.0
  cancelling :
      (now pk : ℕ) (actor : User) (reason : List ℕ) {r : Db × Disposal}
      → cancel_disposal now pk actor reason db ≡ ok r
      → Step db r.0
  derecognizing :
      (now : ℕ) (today : Date) (pk : ℕ) (actor : User) {r : Db × Disposal}
      → complete_disposal now today pk actor db ≡ ok r
      → Step db r.0

pub data Steps (start : Db) : Db → Type 0 where
  here : Steps start start
  more : {db db' : Db} → Steps start db → Step db db' → Steps start db'

-- The disposals of a database have keys of their own and obey the rules.
pub record IsRegister (db : Db) : Type 0 where
  pub distinct : Distinct (λ (d : Disposal). d.pk) db.disposals
  pub below : Below (λ (d : Disposal). d.pk) db.next_key db.disposals
  pub lawful : All IsLawful db.disposals

-- What a call leaves: a lawful row saved over the row that a lookup by key found.
pub record Saved (db db' : Db) : Type 0 where
  pub row : Disposal
  pub old : Disposal
  pub pk : ℕ
  pub org : ℕ
  pub found : find_disposal pk org db ≡ some old
  pub was_open : is_open_disposal old.status ≡ true
  pub key : old.pk ≡ row.pk
  pub law : IsLawful row
  pub disposals : db'.disposals ≡ save (λ (x : Disposal). x.pk) row db.disposals
  pub next_key : db'.next_key ≡ db.next_key

Saved-IsRegister : {db db' : Db} → Saved db db' → IsRegister db → IsRegister db'
unfolding find_disposal
Saved-IsRegister {db} s w = record {
  distinct = rw s.disposals (Distinct-save (λ (d : Disposal). d.pk) s.row db.disposals w.distinct);
  below =
      rw (s.disposals, s.next_key)
        (Below-save (λ (d : Disposal). d.pk) db.next_key s.row db.disposals w.below
          (rw (← s.key)
            (All-find (λ (d : Disposal). d.pk < db.next_key) _ db.disposals w.below s.found)));
  lawful =
      rw s.disposals (All-save IsLawful (λ (d : Disposal). d.pk) s.row db.disposals w.lawful s.law);
}

Rewritten-Saved :
    {allowed : DisposalStatus → Bool} {set : Org → Disposal → Disposal} {pk : ℕ} {actor : User}
    {db : Db} {r : Db × Disposal}
    → ((s : DisposalStatus) → allowed s ≡ true → is_open_disposal s ≡ true)
    → ((org : Org) (d : Disposal) → d.pk ≡ (set org d).pk)
    → Rewritten allowed set pk actor db r
    → Saved db r.0
Rewritten-Saved {pk = pk} {db = db} {r = r} opens same e = record {
  row = r.1;
  old = e.disposal;
  pk = pk;
  org = e.org.pk;
  found = e.found;
  was_open = opens e.disposal.status e.status_allowed;
  key = same e.org e.disposal ∙ ap (λ (d : Disposal). d.pk) (sym e.row);
  law = clean-IsLawful e.org e.asset r.1 db e.clean;
  disposals = e.disposals;
  next_key = e.next_key;
}

draft_open : (s : DisposalStatus) → is_draft s ≡ true → is_open_disposal s ≡ true
draft_open s h = ground (arith, h)

pending_open : (s : DisposalStatus) → is_pending s ≡ true → is_open_disposal s ≡ true
pending_open s h = ground (arith, h)

approved_open : (s : DisposalStatus) → is_approved_disposal s ≡ true → is_open_disposal s ≡ true
approved_open s h = ground (arith, h)

completing-Saved :
    (now : ℕ) (today : Date) (pk : ℕ) (actor : User) {db : Db} {r : Db × Disposal}
    → complete_disposal now today pk actor db ≡ ok r
    → Saved db r.0
unfolding completed_disposal
completing-Saved now today pk actor {db} {r} h =
    let e = complete_disposal-Derecognized now today pk actor db h in
    record {
      row = r.1;
      old = e.disposal;
      pk = pk;
      org = e.org.pk;
      found = e.found;
      was_open = approved_open e.disposal.status e.approved;
      key = ap (λ (d : Disposal). d.pk) (sym e.row);
      law = clean-IsLawful e.org e.asset r.1 db e.clean;
      disposals = e.disposals;
      next_key = e.next_key;
    }

change_fields-key : (changes : List Change) (d : Disposal) → d.pk ≡ (change_fields changes d).pk
unfolding change_fields
change_fields-key [] d = refl
change_fields-key (Change.change_date x ∷ changes) d = change_fields-key changes _
change_fields-key (Change.change_method x ∷ changes) d = change_fields-key changes _
change_fields-key (Change.change_reason x ∷ changes) d = change_fields-key changes _
change_fields-key (Change.change_proceeds x ∷ changes) d = change_fields-key changes _
change_fields-key (Change.change_currency x ∷ changes) d = change_fields-key changes _
change_fields-key (Change.other_field ∷ changes) d = change_fields-key changes d

-- What a creation leaves: a fresh lawful row in front of the others.
pub record Added (db db' : Db) : Type 0 where
  pub row : Disposal
  pub fresh : row.pk ≡ db.next_key
  pub law : IsLawful row
  pub disposals : db'.disposals ≡ row ∷ db.disposals
  pub next_key : db'.next_key ≡ suc db.next_key

creating-Added :
    (now : ℕ) (actor : User) (asset_id : ℕ) (date : Date) (method : DisposalMethod)
    (reason : List ℕ) (proceeds : Amount) (currency : Option (List ℕ)) {db : Db} {r : Db × Disposal}
    → create_disposal now actor asset_id date method reason proceeds currency db ≡ ok r
    → Added db r.0
unfolding create_disposal
creating-Added now actor asset_id date method reason proceeds currency {db} {r} h =
    let (org, _, h1) = >>=-eq-ok (own_organization actor db) _ h in
    let (a, _, h2) = >>=-eq-ok (disposable_asset asset_id org.pk db) _ h1 in
    let (cents, _, h3) = >>=-eq-ok (money proceeds) _ h2 in
    let new = new_disposal now org actor a date method reason cents currency db in
    let (clean, h4) = raise_if-then (not (disposal_full_clean org a new db)) _ _ h3 in
    let result = sym (ok-injective h4) in
    record {
      row = new;
      fresh = refl;
      law = clean-IsLawful org a new db (not-false _ clean);
      disposals = ap (λ (x : Db × Disposal). x.0.disposals) result;
      next_key = ap (λ (x : Db × Disposal). x.0.next_key) result;
    }

fresh_below : {a b : ℕ} → a ≡ b → a < suc b
fresh_below h = omega (arith, h)

Added-IsRegister : {db db' : Db} → Added db db' → IsRegister db → IsRegister db'
Added-IsRegister {db} s w = record {
  distinct = rw s.disposals (
    rw s.fresh (Below-fresh (λ (d : Disposal). d.pk) db.next_key db.disposals w.below),
    w.distinct,
  );
  below = rw s.disposals (
      subst (λ (n : ℕ). Below (λ (d : Disposal). d.pk) n (s.row ∷ db.disposals)) (sym s.next_key)
        (fresh_below s.fresh, Below-suc (λ (d : Disposal). d.pk) db.next_key db.disposals w.below));
  lawful = rw s.disposals (s.law, w.lawful);
}

-- Every step adds a fresh row or saves one over an open row.
abbrev pub Written : Db → Db → Type 0
Written db db' = Added db db' ⊎ Saved db db'

pub Step-Written : {db db' : Db} → Step db db' → Written db db'
Step-Written (creating now actor a date method reason proceeds currency h) =
    inl (creating-Added now actor a date method reason proceeds currency h)
Step-Written {db} (updating pk actor changes h) = inr (
    Rewritten-Saved draft_open (λ org d. change_fields-key changes d)
      (update_disposal-Rewritten pk actor changes db h))
Step-Written {db} (submitting now pk actor h) =
    inr (Rewritten-Saved draft_open (λ org d. refl) (submit_disposal-Rewritten now pk actor db h))
Step-Written {db} (approving now pk actor h) =
    inr
      (Rewritten-Saved pending_open (λ org d. refl) (approve_disposal-Rewritten now pk actor db h))
Step-Written {db} (rejecting now pk actor reason h) = inr (
    Rewritten-Saved pending_open (λ org d. refl)
      (reject_disposal-Rewritten now pk actor reason db h))
Step-Written {db} (cancelling now pk actor reason h) = inr (
    Rewritten-Saved (λ s h. h) (λ org d. refl) (cancel_disposal-Rewritten now pk actor reason db h))
Step-Written (derecognizing now today pk actor h) = inr (completing-Saved now today pk actor h)

pub Step-IsRegister : {db db' : Db} → Step db db' → IsRegister db → IsRegister db'
Step-IsRegister step w = elim (Step-Written step) [
  | inl e ↦ Added-IsRegister e w
  | inr e ↦ Saved-IsRegister e w
]

-- Through any sequence of successful disposal calls, from a database where this holds: disposals
-- have keys of their own, handed out before the next one; every disposal that is approved or completed
-- was approved by someone other than its requester, and every completed one records a carrying
-- amount of cost less accumulated depreciation, which the cost covers, and a gain of proceeds less
-- that amount.
pub Steps-IsRegister : {db db' : Db} → Steps db db' → IsRegister db → IsRegister db'
Steps-IsRegister here w = w
Steps-IsRegister (more steps step) w = Step-IsRegister step (Steps-IsRegister steps w)
