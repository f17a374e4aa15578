-- ===== src/Table/Keys.antt =====
-- Tables whose rows have keys of their own: what a save or an insert does to the keys, to a count
-- and to what another query finds.
use mathlib.Core.Path.{subst}
use assetflow_fixed_asset_ma.Prelude.{
  ℕ, suc, ◌+◌, ◌<◌, ◌≡◌, ◌≢◌, refl, sym, ap, ◌∙◌, inl, inr, Bool, true, false, some, List, [], ◌∷◌,
  arith, ◌==◌, ==_iff, if◌then◌else◌, All, Bool-cases,
}
use assetflow_fixed_asset_ma.Table.{find, exists, count, save, All-find, found_first}

-- 1 for a row that is counted.
abbrev pub unit : Bool → ℕ
unit true = 1
unit false = 0

false-true : true ≡ false → ⊥
false-true h = cc

unequal : (a b : ℕ) → a ≢ b → (a == b) ≡ false
unequal a b h = ground (arith, h)

tally : (b c : Bool) (n : ℕ) → (if b then suc n else n) + unit c ≡ (if c then suc n else n) + unit b
tally b c n = ground arith

tally_rest :
    (b : Bool) (m n u v : ℕ)
    → m + u ≡ n + v
    → (if b then suc m else m) + u ≡ (if b then suc n else n) + v
tally_rest b m n u v h = ground arith

find_rest :
    {A : Type 0} (p : A → Bool) (x : A) (t : List A) {r : A}
    → find p (x ∷ t) ≡ some r
    → p x ≡ false
    → find p t ≡ some r
unfolding find
find_rest p x t h e = rw e at h

module _ {A : Type 0} (pk : A → ℕ) where
  abbrev pub Distinct : List A → Type 0
  Distinct [] = Unit {0}
  Distinct (r ∷ t) = All (λ x. pk x ≢ pk r) t × Distinct t

  -- Every key was handed out before `next`.
  abbrev pub Below : ℕ → List A → Type 0
  Below next t = All (λ x. pk x < next) t

  pub Below-fresh : (next : ℕ) (t : List A) → Below next t → All (λ x. pk x ≢ next) t
  Below-fresh next [] b = tt
  Below-fresh next (x ∷ t) (less, b) = (λ e. omega arith, Below-fresh next t b)

  pub Below-suc : (next : ℕ) (t : List A) → Below next t → Below (suc next) t
  Below-suc next [] b = tt
  Below-suc next (x ∷ t) (less, b) = (omega arith, Below-suc next t b)

  save-absent : (r : A) (t : List A) → All (λ x. pk x ≢ pk r) t → save pk r t ≡ t
  unfolding save
  save-absent r [] h = refl
  save-absent r (x ∷ t) (ne, h) = rw (unequal (pk x) (pk r) ne, save-absent r t h) refl

  All-key-save :
      (k : ℕ) (r : A) (t : List A) → All (λ x. pk x ≢ k) t → All (λ x. pk x ≢ k) (save pk r t)
  unfolding save
  All-key-save k r [] h = tt
  All-key-save k r (x ∷ t) (ne, h) = elim (Bool-cases (pk x == pk r)) [
    | inl e ↦ rw e (λ f. ne ((==_iff (pk x) (pk r)).0 e ∙ f), All-key-save k r t h)
    | inr e ↦ rw e (ne, All-key-save k r t h)
  ]

  pub Distinct-save : (r : A) (t : List A) → Distinct t → Distinct (save pk r t)
  unfolding save
  Distinct-save r [] d = tt
  Distinct-save r (x ∷ t) (ne, d) = elim (Bool-cases (pk x == pk r)) [
    | inl e ↦ rw e (
      subst (λ (k : ℕ). All (λ y. pk y ≢ k) (save pk r t)) ((==_iff (pk x) (pk r)).0 e)
          (All-key-save (pk x) r t ne),
      Distinct-save r t d,
    )
    | inr e ↦ rw e (All-key-save (pk x) r t ne, Distinct-save r t d)
  ]

  pub Below-save :
      (next : ℕ) (r : A) (t : List A) → Below next t → pk r < next → Below next (save pk r t)
  unfolding save
  Below-save next r [] b less = tt
  Below-save next r (x ∷ t) (first, b) less = elim (Bool-cases (pk x == pk r)) [
    | inl e ↦ rw e (less, Below-save next r t b less)
    | inr e ↦ rw e (first, Below-save next r t b less)
  ]

  -- A save moves a count by the difference between the new row and the one it replaces.
  pub count-save :
      (q p : A → Bool) (r : A) (t : List A) {old : A}
      → Distinct t
      → find p t ≡ some old
      → pk old ≡ pk r
      → count q (save pk r t) + unit (q old) ≡ count q t + unit (q r)
  unfolding find count save
  count-save q p r [] d h e = cc
  count-save q p r (x ∷ t) {old} (ne, d) h e = elim (Bool-cases (p x)) [
    | inl here ↦
        let first : x ≡ old = found_first p x t h here in
        let key : pk x ≡ pk r = ap pk first ∙ e in
        let rest : save pk r t ≡ t =
          save-absent r t (subst (λ (k : ℕ). All (λ y. pk y ≢ k) t) key ne) in
        rw ((==_iff (pk x) (pk r)).1 key, rest, ← first) (tally (q r) (q x) (count q t))
    | inr there ↦
        let found : find p t ≡ some old = find_rest p x t h there in
        let other : pk old ≢ pk x = All-find (λ y. pk y ≢ pk x) p t ne found in
        rw (unequal (pk x) (pk r) (λ f. other (e ∙ sym f)))
          (tally_rest (q x) _ _ _ _ (count-save q p r t d found e))
  ]

module _ {A : Type 0} where
  pub count-exists_false : (q : A → Bool) (t : List A) → exists q t ≡ false → count q t ≡ 0
  unfolding exists count
  count-exists_false q [] h = refl
  count-exists_false q (x ∷ t) h = elim (Bool-cases (q x)) [
    | inl e ↦ absurd (false-true (rw e at h))
    | inr e ↦ rw e (count-exists_false q t (rw e at h))
  ]

module _ {A : Type 0} (pk : A → ℕ) where
  -- Two queries that find rows of one key find one row.
  pub find_unique :
      (p q : A → Bool) (t : List A) {a b : A}
      → Distinct pk t
      → find p t ≡ some a
      → find q t ≡ some b
      → pk a ≡ pk b
      → a ≡ b
  unfolding find
  find_unique p q [] d h k e = cc
  find_unique p q (x ∷ t) {a} {b} (ne, d) h k e = elim (Bool-cases (p x)) [
    | inl ph ↦ elim (Bool-cases (q x)) [
      | inl qh ↦ sym (found_first p x t h ph) ∙ found_first q x t k qh
      | inr qn ↦ absurd (
          All-find (λ y. pk y ≢ pk x) q t ne (find_rest q x t k qn)
            (sym e ∙ ap pk (sym (found_first p x t h ph))))
    ]
    | inr pn ↦ elim (Bool-cases (q x)) [
      | inl qh ↦ absurd (
          All-find (λ y. pk y ≢ pk x) p t ne (find_rest p x t h pn)
            (e ∙ ap pk (sym (found_first q x t k qh))))
      | inr qn ↦ find_unique p q t d (find_rest p x t h pn) (find_rest q x t k qn) e
    ]
  ]

  not_here :
      (q : A → Bool) (x : A) (t : List A) (r : A) {b : A}
      → find q (x ∷ t) ≡ some b
      → pk b ≢ pk r
      → (pk x == pk r) ≡ true
      → q x ≡ false
  not_here q x t r h ne same = elim (Bool-cases (q x)) [
    | inl here ↦
        absurd (ne (ap pk (sym (found_first q x t h here)) ∙ (==_iff (pk x) (pk r)).0 same))
    | inr there ↦ there
  ]

  -- A save of another key leaves what a query finds.
  pub find-save_other :
      (q : A → Bool) (r : A) (t : List A) {b : A}
      → find q t ≡ some b
      → pk b ≢ pk r
      → q r ≡ false
      → find q (save pk r t) ≡ some b
  unfolding find save
  find-save_other q r [] h ne fails = cc
  find-save_other q r (x ∷ t) {b} h ne fails = elim (Bool-cases (pk x == pk r)) [
    | inl same ↦
        rw (same, fails)
          (find-save_other q r t (find_rest q x t h (not_here q x t r h ne same)) ne fails)
    | inr other ↦ elim (Bool-cases (q x)) [
      | inl here ↦ rw (other, here) (ap some (found_first q x t h here))
      | inr there ↦ rw (other, there) (find-save_other q r t (find_rest q x t h there) ne fails)
    ]
  ]
