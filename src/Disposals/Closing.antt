-- ===== src/Disposals/Closing.antt =====
-- A disposal that is rejected, cancelled or completed stays as it is.
use assetflow_fixed_asset_ma.Prelude.{
  ℕ, ◌<◌, ◌≡◌, ◌≢◌, sym, ◌∙◌, Bool, true, false, ◌&&◌, some, List, ◌∷◌, arith, ◌==◌, inl, inr,
}
use assetflow_fixed_asset_ma.Table.{find, find-test, All-find}
use assetflow_fixed_asset_ma.Table.Keys.{find_unique, find-save_other}
use assetflow_fixed_asset_ma.Records.{Disposal, Db}
use assetflow_fixed_asset_ma.Disposals.Checks.{is_open_disposal}
use assetflow_fixed_asset_ma.Disposals.Requests.{find_disposal}
use assetflow_fixed_asset_ma.Disposals.Workflow.{
  Step, Steps, here, more, IsRegister, Steps-IsRegister, Saved, Added, Step-Written,
}

closed_open : (b : Bool) → b ≡ true → b ≡ false → ⊥
closed_open b h k = cc

fails : (a b c d : ℕ) → a ≢ b → (a == b && c == d) ≡ false
fails a b c d h = ground (arith, h)

found_key : (a b c d : ℕ) → (a == b && c == d) ≡ true → a ≡ b
found_key a b c d h = ground (arith, h)

find_here :
    (p : Disposal → Bool) (x : Disposal) (t : List Disposal) {d : Disposal}
    → find p t ≡ some d
    → p x ≡ false
    → find p (x ∷ t) ≡ some d
unfolding find
find_here p x t h e = rw e h

below_other : {a b n : ℕ} → a ≡ b → b ≡ n → a < n → ⊥
below_other h k less = omega (arith, h, k, less)

Saved-closed :
    (pk org : ℕ) {db db' : Db} {d : Disposal}
    → Saved db db'
    → IsRegister db
    → find_disposal pk org db ≡ some d
    → is_open_disposal d.status ≡ false
    → find_disposal pk org db' ≡ some d
unfolding find_disposal
Saved-closed pk org {db} {d = d} s w h closed =
    let test = find-test _ db.disposals h in
    let key : d.pk ≡ pk = found_key d.pk pk d.org org test in
    let other : d.pk ≢ s.row.pk = λ e.
      closed_open (is_open_disposal d.status)
        (rw
          (find_unique (λ (x : Disposal). x.pk) _ _ db.disposals w.distinct h s.found
            (e ∙ sym s.key))
          s.was_open)
        closed in
    rw s.disposals (
      find-save_other (λ (x : Disposal). x.pk) _ s.row db.disposals h other
        (fails s.row.pk pk s.row.org org (λ e. other (key ∙ sym e))))

Added-closed :
    (pk org : ℕ) {db db' : Db} {d : Disposal}
    → Added db db'
    → IsRegister db
    → find_disposal pk org db ≡ some d
    → find_disposal pk org db' ≡ some d
unfolding find_disposal
Added-closed pk org {db} {d = d} s w h =
    let test = find-test _ db.disposals h in
    let key : d.pk ≡ pk = found_key d.pk pk d.org org test in
    let less = All-find (λ (x : Disposal). x.pk < db.next_key) _ db.disposals w.below h in
    rw s.disposals (
      find_here _ s.row db.disposals h
        (fails s.row.pk pk s.row.org org (λ e. below_other (key ∙ sym e) s.fresh less)))

Step-closed :
    (pk org : ℕ) {db db' : Db} {d : Disposal}
    → Step db db'
    → IsRegister db
    → find_disposal pk org db ≡ some d
    → is_open_disposal d.status ≡ false
    → find_disposal pk org db' ≡ some d
Step-closed pk org step w h closed = elim (Step-Written step) [
  | inl e ↦ Added-closed pk org e w h
  | inr e ↦ Saved-closed pk org e w h closed
]

-- A disposal that is neither a draft nor pending nor approved, that is one rejected, cancelled or
-- completed, is found unchanged after any sequence of successful disposal calls from a database whose disposals
-- have keys of their own and obey the rules.
pub Steps-closed :
    (pk org : ℕ) {db db' : Db} {d : Disposal}
    → Steps db db'
    → IsRegister db
    → find_disposal pk org db ≡ some d
    → is_open_disposal d.status ≡ false
    → find_disposal pk org db' ≡ some d
Steps-closed pk org here w h closed = h
Steps-closed pk org (more steps step) w h closed =
    Step-closed pk org step (Steps-IsRegister steps w) (Steps-closed pk org steps w h closed) closed
