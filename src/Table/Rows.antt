-- ===== src/Table/Rows.antt =====
-- Predicates of all rows of a table: what a query, a save and a failed test say of each row.
use assetflow_fixed_asset_ma.Prelude.{
  ℕ, ◌≡◌, ◌≢◌, refl, sym, ap, ◌∙◌, inl, inr, Bool, true, false, some, List, [], ◌∷◌, ◌==◌, ==_iff,
  All, Bool-cases,
}
use assetflow_fixed_asset_ma.Table.{find, exists, save, All-find, found_first}
use assetflow_fixed_asset_ma.Table.Keys.{Distinct}

other_row : (b : Bool) → b ≡ true → b ≡ false → ⊥
other_row b h k = cc

module _ {A : Type 0} where
  pub All-map {ℓ κ} :
      (P : A → Type ℓ) (Q : A → Type κ) → ((x : A) → P x → Q x) → (t : List A) → All P t → All Q t
  All-map P Q f [] a = tt
  All-map P Q f (x ∷ t) (p, a) = (f x p, All-map P Q f t a)

  pub All-both {ℓ κ} :
      (P : A → Type ℓ) (Q : A → Type κ) (t : List A) → All P t → All Q t → All (λ x. P x × Q x) t
  All-both P Q [] a b = tt
  All-both P Q (x ∷ t) (p, a) (q, b) = ((p, q), All-both P Q t a b)

  rest_fails :
      (q : A → Bool) (x : A) (t : List A)
      → exists q (x ∷ t) ≡ false
      → (q x ≡ false) × (exists q t ≡ false)
  unfolding exists
  rest_fails q x t h = elim (Bool-cases (q x)) [
    | inl e ↦ absurd (other_row _ refl (rw e at h))
    | inr e ↦ (e, rw e at h)
  ]

  pub exists-All : (q : A → Bool) (t : List A) → exists q t ≡ false → All (λ x. q x ≡ false) t
  exists-All q [] h = tt
  exists-All q (x ∷ t) h = let (first, rest) = rest_fails q x t h in (first, exists-All q t rest)

  pub exists-none : (q : A → Bool) (t : List A) → All (λ x. q x ≡ false) t → exists q t ≡ false
  unfolding exists
  exists-none q [] a = refl
  exists-none q (x ∷ t) (first, a) = rw first (exists-none q t a)

  -- A found row that meets another test is one that the other test finds.
  pub find-exists :
      (p q : A → Bool) (t : List A) {x : A} → find p t ≡ some x → q x ≡ true → exists q t ≡ true
  unfolding find exists
  find-exists p q [] h e = cc
  find-exists p q (y ∷ t) h e = elim (Bool-cases (q y)) [
    | inl holds ↦ rw holds refl
    | inr fails ↦ elim (Bool-cases (p y)) [
      | inl here ↦ absurd (other_row _ e (ap q (sym (found_first p y t h here)) ∙ fails))
      | inr there ↦ rw fails (find-exists p q t (rw there at h) e)
    ]
  ]

module _ {A : Type 0} (pk : A → ℕ) where
  -- A saved row meets the predicate, and so does each row of another key.
  pub All-save_other {ℓ} :
      (P : A → Type ℓ) (r : A) (t : List A)
      → All (λ x. pk x ≢ pk r → P x) t
      → P r
      → All P (save pk r t)
  unfolding save
  All-save_other P r [] a p = tt
  All-save_other P r (x ∷ t) (first, a) p = elim (Bool-cases (pk x == pk r)) [
    | inl e ↦ (rw e p, All-save_other P r t a p)
    | inr e ↦
        (rw e (first (λ k. other_row _ ((==_iff (pk x) (pk r)).1 k) e)), All-save_other P r t a p)
  ]

  -- After a save, the row with the key is the saved one.
  pub save-All_key : (r : A) (t : List A) → All (λ x. pk x ≡ pk r → x ≡ r) (save pk r t)
  unfolding save
  save-All_key r [] = tt
  save-All_key r (x ∷ t) = elim (Bool-cases (pk x == pk r)) [
    | inl e ↦ (rw e (λ k. refl), save-All_key r t)
    | inr e ↦ (rw e (λ k. absurd (other_row _ ((==_iff (pk x) (pk r)).1 k) e)), save-All_key r t)
  ]

  others_apart :
      (x a : A) (t : List A) → All (λ y. pk y ≢ pk x) t → x ≡ a → All (λ y. pk y ≡ pk a → y ≡ a) t
  others_apart x a t ne e =
      All-map (λ y. pk y ≢ pk x) (λ y. pk y ≡ pk a → y ≡ a)
        (λ y apart k. absurd (apart (k ∙ ap pk (sym e)))) t ne

  -- Where keys are distinct, the row with the key of a found row is that row.
  pub Distinct-find :
      (q : A → Bool) (t : List A) {a : A}
      → Distinct pk t
      → find q t ≡ some a
      → All (λ x. pk x ≡ pk a → x ≡ a) t
  unfolding find
  Distinct-find q [] d h = tt
  Distinct-find q (x ∷ t) {a} (ne, d) h = elim (Bool-cases (q x)) [
    | inl e ↦
        let first : x ≡ a = found_first q x t h e in ((λ k. first), others_apart x a t ne first)
    | inr e ↦
        let found : find q t ≡ some a = rw e at h in
        (
          (λ k. absurd (All-find (λ y. pk y ≢ pk x) q t ne found (sym k))),
          Distinct-find q t d found,
        )
  ]
