-- ===== src/Reorgs/Tests.antt =====
-- The theorems on reorgs at a block of parent 5.
use deoxys.Base.{◌-◌, ℕ, ◌≡◌, refl, true, none, some}
use deoxys.Base.Assoc.{nat_Eq}
use deoxys.Reorgs.{reorg, reorg-stuck, reorg-finds}

reorg-stuck_example : reorg {H = ℕ} (λ _. 6) 5 100 ≡ none
reorg-stuck_example = reorg-stuck 5 6 100 refl

reorg-finds_example : reorg (λ i. 8 - i) 5 3 ≡ some true
reorg-finds_example = reorg-finds (λ i. 8 - i) 5 2 refl
