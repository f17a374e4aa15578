-- ===== src/Disposals/Lawful.antt =====
-- The rules that every stored disposal obeys, as its validation enforces them.
use assetflow_fixed_asset_ma.Prelude.{
  ℕ, ◌-◌, ◌≤◌, ◌≡◌, ◌≢◌, refl, Bool, true, false, not, Option, none, some, arith, is_set, same_key,
  Option-cases, inl, inr, leb, ap, ◌∙◌,
}
use assetflow_fixed_asset_ma.Prelude.Int.{ℤ, pos, negsuc, ◌-ℤ◌, eqb_ℤ}
use assetflow_fixed_asset_ma.Records.{Org, Ref, Asset, DisposalStatus, Disposal, Db}
use assetflow_fixed_asset_ma.Disposals.Checks.{
  is_approved_disposal, is_completed_disposal, self_approved, separated, workflow_consistent,
  snapshot_values, snapshot_matches, disposal_full_clean,
}

-- Someone other than the requester approved the disposal.
pub record Approved (d : Disposal) : Type 0 where
  pub approver : Ref
  pub set : d.approved_by ≡ some approver
  pub other : approver.pk ≢ d.requested_by.pk

-- The accounting snapshot of a completed disposal.
pub record Snapshot (d : Disposal) : Type 0 where
  pub cost : ℕ
  pub accumulated : ℕ
  pub cost_set : d.capitalized_cost_at_disposal ≡ some cost
  pub accumulated_set : d.accumulated_depreciation_at_disposal ≡ some accumulated
  pub covered : accumulated ≤ cost
  pub carrying : d.carrying_amount ≡ some (pos (cost - accumulated))
  pub gain : d.gain_or_loss ≡ some (d.proceeds -ℤ pos (cost - accumulated))

-- A disposal that is neither approved nor completed, one that is approved, and one that is
-- completed.
pub data IsLawful (d : Disposal) : Type 0 where
  undecided :
      is_approved_disposal d.status ≡ false → is_completed_disposal d.status ≡ false → IsLawful d
  decided : is_approved_disposal d.status ≡ true → Approved d → IsLawful d
  derecognized : is_completed_disposal d.status ≡ true → Approved d → Snapshot d → IsLawful d

other_key : (a b : ℕ) → same_key (some a) (some b) ≡ false → a ≢ b
other_key a b h e = ground (arith, h, e)

Approved-other : (d : Disposal) → is_set d.approved_by ≡ true → self_approved d ≡ false → Approved d
Approved-other d h k = elim (Option-cases d.approved_by) [
  | inl e ↦ cc (rw e at h)
  | inr (u, e) ↦ record {
    approver = u;
    set = e;
    other = other_key u.pk d.requested_by.pk (rw e at k);
  }
]

record Checked (d : Disposal) : Type 0 where
  duties : separated d.status d ≡ true
  workflow : workflow_consistent d.status d ≡ true
  snapshot : snapshot_matches d ≡ true

clean-Checked :
    (org : Org) (a : Asset) (d : Disposal) (db : Db)
    → disposal_full_clean org a d db ≡ true
    → Checked d
unfolding disposal_full_clean
clean-Checked org a d db h = record {
  duties = ground (arith, h);
  workflow = ground (arith, h);
  snapshot = ground (arith, h);
}

eqb_ℤ-eq : (a b : ℤ) → eqb_ℤ a b ≡ true → a ≡ b
eqb_ℤ-eq (pos a) (pos b) h = ap pos (ground (arith, h))
eqb_ℤ-eq (pos a) (negsuc b) h = ground (arith, h)
eqb_ℤ-eq (negsuc a) (pos b) h = ground (arith, h)
eqb_ℤ-eq (negsuc a) (negsuc b) h = ap negsuc (ground (arith, h))

covered_difference : (c a : ℕ) → a ≤ c → (pos c -ℤ pos a) ≡ pos (c - a)
covered_difference c a h = ground (arith, h)

record Values (c a : ℕ) (k g p : ℤ) : Type 0 where
  below : leb a c ≡ true
  carried : eqb_ℤ k (pos c -ℤ pos a) ≡ true
  gained : eqb_ℤ g (p -ℤ k) ≡ true

values :
    (c a : ℕ) (k g p : ℤ)
    → snapshot_values (some c) (some a) (some k) (some g) p ≡ true
    → Values c a k g p
values c a k g p h = record {
  below = ground (arith, h);
  carried = ground (arith, h);
  gained = ground (arith, h);
}

set_some : {A : Type 0} (o : Option A) → is_set o ≡ true → (x : A) × (o ≡ some x)
set_some none h = cc
set_some (some x) h = (x, refl)

record Filled (d : Disposal) : Type 0 where
  approver : is_set d.approved_by ≡ true
  carrying : is_set d.carrying_amount ≡ true
  gain : is_set d.gain_or_loss ≡ true
  cost : is_set d.capitalized_cost_at_disposal ≡ true
  accumulated : is_set d.accumulated_depreciation_at_disposal ≡ true

filled : (d : Disposal) → workflow_consistent DisposalStatus.completed d ≡ true → Filled d
filled d h = record {
  approver = ground (arith, h);
  carrying = ground (arith, h);
  gain = ground (arith, h);
  cost = ground (arith, h);
  accumulated = ground (arith, h);
}

at_most_le : (a c : ℕ) → leb a c ≡ true → a ≤ c
at_most_le a c h = ground (arith, h)

Snapshot-taken :
    (d : Disposal)
    → Filled d
    → snapshot_values d.capitalized_cost_at_disposal d.accumulated_depreciation_at_disposal
        d.carrying_amount d.gain_or_loss d.proceeds
      ≡ true
    → Snapshot d
Snapshot-taken d f h =
    let (c, ec) = set_some d.capitalized_cost_at_disposal f.cost in
    let (a, ea) = set_some d.accumulated_depreciation_at_disposal f.accumulated in
    let (k, ek) = set_some d.carrying_amount f.carrying in
    let (g, eg) = set_some d.gain_or_loss f.gain in
    let v = values c a k g d.proceeds (rw (ec, ea, ek, eg) at h) in
    let below : a ≤ c = at_most_le a c v.below in
    let carried : k ≡ pos (c - a) = eqb_ℤ-eq _ _ v.carried ∙ covered_difference c a below in
    record {
      cost = c;
      accumulated = a;
      cost_set = ec;
      accumulated_set = ea;
      covered = below;
      carrying = ek ∙ ap some carried;
      gain = eg ∙ ap some (eqb_ℤ-eq _ _ v.gained ∙ ap (λ (x : ℤ). d.proceeds -ℤ x) carried);
    }

not-true : (b : Bool) → not b ≡ true → b ≡ false
not-true true h = cc
not-true false h = refl

approver_set :
    (d : Disposal)
    → workflow_consistent DisposalStatus.approved d ≡ true
    → is_set d.approved_by ≡ true
approver_set d h = ground (arith, h)

IsLawful-at :
    (s : DisposalStatus) (d : Disposal)
    → d.status ≡ s
    → separated s d ≡ true
    → workflow_consistent s d ≡ true
    → snapshot_matches d ≡ true
    → IsLawful d
IsLawful-at DisposalStatus.approved d e duties workflow snapshot =
    decided (rw e refl) (Approved-other d (approver_set d workflow) (not-true _ duties))
IsLawful-at DisposalStatus.completed d e duties workflow snapshot =
    let f = filled d workflow in
    derecognized (rw e refl) (Approved-other d f.approver (not-true _ duties))
      (Snapshot-taken d f (rw e at snapshot))
IsLawful-at _ d e duties workflow snapshot = undecided (rw e refl) (rw e refl)

pub clean-IsLawful :
    (org : Org) (a : Asset) (d : Disposal) (db : Db)
    → disposal_full_clean org a d db ≡ true
    → IsLawful d
clean-IsLawful org a d db h =
    let c = clean-Checked org a d db h in IsLawful-at d.status d refl c.duties c.workflow c.snapshot
