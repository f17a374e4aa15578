-- ===== src/Table/Members.antt =====
-- Rows of a table as its members: what a query keeps and what a sort does not drop.
use mathlib.Core.Path.{subst}
use mathlib.Core.List.{Memᴰ}
use mathlib.Core.List.Memᴰ.{head, tail}
use mathlib.Core.List.{Permᴰ}
use mathlib.Core.List.Permᴰ.{nil, cons, swap, trans}
use assetflow_fixed_asset_ma.Prelude.{
  ◌≡◌, sym, ap, ◌∙◌, inl, inr, Bool, true, false, List, [], ◌∷◌, All, Bool-cases,
}
use assetflow_fixed_asset_ma.Table.{filter}

pub test_differs : (b : Bool) → b ≡ true → b ≡ false → ⊥
test_differs b h k = cc

module _ {A : Type 0} where
  pub filter-Mem : (q : A → Bool) (t : List A) {x : A} → Memᴰ x t → q x ≡ true → Memᴰ x (filter q t)
  unfolding filter
  filter-Mem q [] m h = elim m [ ]
  filter-Mem q (y ∷ t) (head e) h = rw (sym (ap q e) ∙ h) (head e)
  filter-Mem q (y ∷ t) (tail m) h = elim (Bool-cases (q y)) [
    | inl k ↦ rw k (tail (filter-Mem q t m h))
    | inr k ↦ rw k (filter-Mem q t m h)
  ]

  -- The rows of a list are those of each of its orders.
  pub Perm-Mem : {s t : List A} {x : A} → Permᴰ s t → Memᴰ x t → Memᴰ x s
  Perm-Mem nil m = m
  Perm-Mem (cons e p) (head k) = head (k ∙ sym e)
  Perm-Mem (cons e p) (tail m) = tail (Perm-Mem p m)
  Perm-Mem (swap e k) (head h) = tail (head (h ∙ sym k))
  Perm-Mem (swap e k) (tail (head h)) = head (h ∙ sym e)
  Perm-Mem (swap e k) (tail (tail m)) = tail (tail m)
  Perm-Mem (trans p r) m = Perm-Mem p (Perm-Mem r m)

  pub All-Mem {ℓ} : (P : A → Type ℓ) (t : List A) {x : A} → All P t → Memᴰ x t → P x
  All-Mem P [] a m = elim m [ ]
  All-Mem P (y ∷ t) (p, a) (head e) = subst P (sym e) p
  All-Mem P (y ∷ t) (p, a) (tail m) = All-Mem P t a m
