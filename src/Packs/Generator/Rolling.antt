-- ===== src/Packs/Generator/Rolling.antt =====
-- The roll: each rung of a ladder is hit by exactly as many of the numbers below the total as its
-- weight says, and none of them misses.
use pokedrop.Base.{
  ℕ, zero, suc, ◌+◌, ◌≤◌, ◌<◌, ◌≡◌, refl, some, List, [], ◌∷◌, ltb, ok, take, get_elem?, arith,
  Bool-cases, inl, inr,
}
use pokedrop.Packs.Ladder.{Rung, total_weight}
use pokedrop.Packs.Generator.{roll_from, roll}

-- The weights of the first `k` rungs.
abbrev pub weight_before : ℕ → List Rung → ℕ
weight_before k rungs = total_weight (take k rungs)

roll_from_hits :
    (index cumulative : ℕ) (rungs : List Rung) (r k : ℕ) (rung : Rung)
    → get_elem? rungs k ≡ some rung
    → cumulative + weight_before k rungs ≤ r
    → r < cumulative + weight_before k rungs + rung.weight
    → roll_from index cumulative rungs r ≡ ok (record { index = index + k; rarity = rung.rarity })
unfolding roll_from
roll_from_hits index cumulative [] r k rung e a b = cc
roll_from_hits index cumulative (x ∷ xs) r zero rung e a b = ground arith
roll_from_hits index cumulative (x ∷ xs) r (suc k) rung e a b = ground (
  arith,
  roll_from_hits (suc index) (cumulative + x.weight) xs r k rung e (omega arith) (omega arith),
)

-- A number in the interval of a rung, which is as long as its weight and starts after the weights
-- before it, rolls that rung.
pub roll_hits :
    (ladder : List Rung) (r k : ℕ) (rung : Rung)
    → get_elem? ladder k ≡ some rung
    → weight_before k ladder ≤ r
    → r < weight_before k ladder + rung.weight
    → roll ladder r ≡ ok (record { index = k; rarity = rung.rarity })
unfolding roll
roll_hits ladder r k rung e a b =
    ground (arith, roll_from_hits 0 0 ladder r k rung e (omega arith) (omega arith))

roll_from_total :
    (index cumulative : ℕ) (rungs : List Rung) (r : ℕ)
    → r < cumulative + total_weight rungs
    → cumulative ≤ r
    → (k : ℕ) × (rung : Rung) × (get_elem? rungs k ≡ some rung)
      × (roll_from index cumulative rungs r
          ≡ ok (record { index = index + k; rarity = rung.rarity }))
unfolding roll_from
roll_from_total index cumulative [] r h l = absurd (omega arith)
roll_from_total index cumulative (x ∷ xs) r h l =
    elim (Bool-cases (ltb r (cumulative + x.weight))) [
      | inl hit ↦ (0, x, refl, ground (arith, hit))
      | inr miss ↦
          let (k, rung, at, e) =
            roll_from_total (suc index) (cumulative + x.weight) xs r (omega arith) (ground arith) in
          (suc k, rung, at, ground (arith, miss, e))
    ]

-- Every number below the total weight rolls a rung of the ladder, so a roll never throws.
pub roll_total :
    (ladder : List Rung) (r : ℕ)
    → r < total_weight ladder
    → (k : ℕ) × (rung : Rung) × (get_elem? ladder k ≡ some rung)
      × (roll ladder r ≡ ok (record { index = k; rarity = rung.rarity }))
unfolding roll
roll_total ladder r h =
    let (k, rung, at, e) = roll_from_total 0 0 ladder r (omega arith) (omega arith) in
    (k, rung, at, ground (arith, e))
