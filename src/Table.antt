-- ===== src/Table.antt =====
-- A database table: its rows, newest first. A query is a test on rows, and `save` of an existing
-- row replaces the row with its key.
pub mod Keys
pub mod Rows
pub mod Members
use mathlib.Core.Path.{subst}
use assetflow_fixed_asset_ma.Prelude.{
  ℕ, suc, ◌≡◌, ◌≢◌, refl, ap, ◌∙◌, inl, inr, Bool, true, false, Option, none, some, List, [], ◌∷◌,
  arith, ◌==◌, if◌then◌else◌, All, Bool-cases,
}

other_key : (a b : ℕ) → (a == b) ≡ false → a ≢ b
other_key a b h e = ground (arith, h, e)

module _ {A : Type 0} where
  -- `.filter(q).first()`, and `.get(q)` where `q` fixes the key.
  unfoldable pub find : (A → Bool) → List A → Option A
  find q [] = none
  find q (r ∷ t) = if q r then some r else find q t

  -- `.filter(q).exists()`
  unfoldable pub exists : (A → Bool) → List A → Bool
  exists q [] = false
  exists q (r ∷ t) = if q r then true else exists q t

  -- `.filter(q)`
  unfoldable pub filter : (A → Bool) → List A → List A
  filter q [] = []
  filter q (r ∷ t) = let rest = filter q t in if q r then r ∷ rest else rest

  -- `.filter(q).count()`
  unfoldable pub count : (A → Bool) → List A → ℕ
  count q [] = 0
  count q (r ∷ t) = let rest = count q t in if q r then suc rest else rest

  -- `row.save()` of a row that the table holds.
  unfoldable pub save : (A → ℕ) → A → List A → List A
  save pk r [] = []
  save pk r (x ∷ t) = (if pk x == pk r then r else x) ∷ save pk r t

  found_first :
      (q : A → Bool) (x : A) (t : List A) {r : A} → find q (x ∷ t) ≡ some r → q x ≡ true → x ≡ r
  unfolding find
  found_first q x t h e = cc (rw e at h)

  pub find-test : (q : A → Bool) (t : List A) {r : A} → find q t ≡ some r → q r ≡ true
  unfolding find
  find-test q [] h = cc
  find-test q (x ∷ t) h = elim (Bool-cases (q x)) [
    | inl e ↦ ground (arith, e)
    | inr e ↦ find-test q t (rw e at h)
  ]

  pub All-find {ℓ} :
      (P : A → Type ℓ) (q : A → Bool) (t : List A) {r : A} → All P t → find q t ≡ some r → P r
  unfolding find
  All-find P q [] a h = cc
  All-find P q (x ∷ t) a h = elim (Bool-cases (q x)) [
    | inl e ↦ subst P (cc (rw e at h)) a.0
    | inr e ↦ All-find P q t a.1 (rw e at h)
  ]

  pub All-save {ℓ} :
      (P : A → Type ℓ) (pk : A → ℕ) (r : A) (t : List A) → All P t → P r → All P (save pk r t)
  unfolding save
  All-save P pk r [] a p = tt
  All-save P pk r (x ∷ t) a p = elim (Bool-cases (pk x == pk r)) [
    | inl e ↦ (rw e p, All-save P pk r t a.1 p)
    | inr e ↦ (rw e a.0, All-save P pk r t a.1 p)
  ]

  pub filter-here :
      (q : A → Bool) (r : A) (t : List A) → q r ≡ true → filter q (r ∷ t) ≡ r ∷ filter q t
  unfolding filter
  filter-here q r t h = rw h refl

  -- What a query by key finds after the row with that key is saved.
  pub find-save :
      (pk : A → ℕ) (q : A → Bool) (r : A) (t : List A) {old : A}
      → find q t ≡ some old
      → pk old ≡ pk r
      → q r ≡ true
      → find q (save pk r t) ≡ some r
  unfolding find save
  find-save pk q r [] h e holds = cc
  find-save pk q r (x ∷ t) h e holds = elim (Bool-cases (pk x == pk r)) [
    | inl same ↦ rw (same, holds) refl
    | inr other ↦ elim (Bool-cases (q x)) [
      | inl found ↦ absurd (other_key (pk x) (pk r) other (ap pk (found_first q x t h found) ∙ e))
      | inr passed ↦ rw (other, passed) (find-save pk q r t (rw passed at h) e holds)
    ]
  ]
