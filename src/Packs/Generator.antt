-- ===== src/Packs/Generator.antt =====
-- apps/api/src/packs/pack-generator.ts: the cards of a pack, drawn slot by slot through an `Rng`.
pub mod Rolling
pub mod Serving
pub mod Contents
use pokedrop.Base.{
  ℕ, zero, suc, ◌+◌, ◌<◌, ◌≡◌, Bool, true, false, Option, none, some, List, [], ◌∷◌, ◌++◌, ◌==◌,
  ltb, if◌then◌else◌, length, Result, ok, err, Error, range_error, empty_slot, ◌>>=◌, require, ◌>>◌,
  reverse, take, drop, get_elem?,
}
use pokedrop.Base.Dict.{Dict, lookup}
use pokedrop.Inventory.{CardId}
use pokedrop.Schema.Database.{PulledCard}
use pokedrop.Packs.Ladder.{Rarity, Rung, ladder_of, total_weight}

-- `interface Rng`: a draw below `max` and what the source of randomness becomes.
pub record Drawn (S : Type 0) : Type 0 where
  pub value : ℕ
  pub state : S

pub record Rng (S : Type 0) : Type 0 where
  pub int : ℕ → S → Result (Drawn S)
  pub int_lt : (max : ℕ) (s : S) (d : Drawn S) → int max s ≡ ok d → d.value < max

abbrev pub CardPool : Type 0
CardPool = Dict (List CardId)

pub record SlotConfig : Type 0 where
  pub count : ℕ
  pub weights : Dict ℕ

pub record Fallback : Type 0 where
  pub slot : ℕ
  pub rolled : Rarity
  pub used : Rarity

pub record Rolled : Type 0 where
  pub index : ℕ
  pub rarity : Rarity

-- The loop of `roll`, from an index and a cumulative weight on.
unfoldable pub roll_from : ℕ → ℕ → List Rung → ℕ → Result Rolled
roll_from index cumulative [] r = err range_error
roll_from index cumulative (rung ∷ rungs) r =
    let rest = roll_from (suc index) (cumulative + rung.weight) rungs r in
    if ltb r (cumulative + rung.weight)
    then ok (record { index = index; rarity = rung.rarity })
    else rest

unfoldable pub roll : List Rung → ℕ → Result Rolled
roll = roll_from 0 0

pub record Found : Type 0 where
  pub rarity : Rarity
  pub bucket : List CardId

-- The loop of `resolve` over its order.
unfoldable pub first_filled : List Rung → CardPool → Option Found
first_filled [] pool = none
first_filled (rung ∷ rungs) pool =
    let rest = first_filled rungs pool in
    elim (lookup rung.rarity pool) [
      | none ↦ rest
      | some bucket ↦
          if ltb 0 (length bucket)
          then some (record { rarity = rung.rarity; bucket = bucket })
          else rest
    ]

-- Down the ladder towards more common rarities first, then up.
unfoldable pub search_order : List Rung → ℕ → List Rung
search_order ladder rolled = reverse (take (suc rolled) ladder) ++ drop (suc rolled) ladder

unfoldable pub resolve : List Rung → ℕ → CardPool → Option Found
resolve ladder rolled pool = first_filled (search_order ladder rolled) pool

abbrev pub or_fail {ℓ} : {A : Type ℓ} → Option A → Error → Result A
or_fail none e = err e
or_fail (some a) e = ok a

module _ {S : Type 0} (rng : Rng S) where
  pub record Draw : Type 0 where
    pub card : PulledCard
    pub fallbacks : List Fallback
    pub state : S

  -- `pick`: it throws outside the bucket.
  unfoldable pub pick : List CardId → S → Result (Drawn S)
  pick bucket s = do
    d ← rng.int (length bucket) s
    card ← or_fail (get_elem? bucket d.value) range_error
    ok (record { value = card; state = d.state })

  -- One round of the inner loop.
  unfoldable pub draw_card : ℕ → List Rung → CardPool → S → Result Draw
  draw_card slot ladder pool s = do
    r ← rng.int (total_weight ladder) s
    rolled ← roll ladder r.value
    found ← or_fail (resolve ladder rolled.index pool) empty_slot
    picked ← pick found.bucket r.state
    ok (record {
      card = record { card = picked.value; rarity = found.rarity };
      fallbacks =
          if found.rarity == rolled.rarity
          then []
          else record { slot = slot; rolled = rolled.rarity; used = found.rarity } ∷ [];
      state = picked.state;
    })

  pub record GeneratedPack : Type 0 where
    pub cards : List PulledCard
    pub fallbacks : List Fallback
    pub state : S

  unfoldable pub draw_cards : ℕ → List Rung → CardPool → ℕ → S → Result GeneratedPack
  draw_cards slot ladder pool zero s = ok (record { cards = []; fallbacks = []; state = s })
  draw_cards slot ladder pool (suc n) s = do
    d ← draw_card slot ladder pool s
    rest ← draw_cards slot ladder pool n d.state
    ok (record {
      cards = d.card ∷ rest.cards;
      fallbacks = d.fallbacks ++ rest.fallbacks;
      state = rest.state;
    })

  unfoldable pub draw_slots : ℕ → List SlotConfig → CardPool → S → Result GeneratedPack
  draw_slots slot [] pool s = ok (record { cards = []; fallbacks = []; state = s })
  draw_slots slot (config ∷ configs) pool s = do
    d ← draw_cards slot (ladder_of config.weights) pool config.count s
    rest ← draw_slots (suc slot) configs pool d.state
    ok (record {
      cards = d.cards ++ rest.cards;
      fallbacks = d.fallbacks ++ rest.fallbacks;
      state = rest.state;
    })

  unfoldable pub generate_pack : List SlotConfig → CardPool → S → Result GeneratedPack
  generate_pack = draw_slots 0
