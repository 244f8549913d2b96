-- ===== src/RandomDeck/Trainers.antt =====
-- apps/api/src/decks/random-deck/random-deck.generator.ts: the Trainers and the Energy of a deck. A
-- difference of the source that is below 0 adds nothing there, as 0 does here.
pub mod Filling
pub mod Spreading
use pokedrop.Base.{
  ℕ, zero, suc, ◌+◌, ◌-◌, ◌/◌, Bool, true, false, Option, none, some, List, [], ◌∷◌, ◌==◌, ltb, leb,
  if◌then◌else◌, length,
}
use pokedrop.RandomDeck.Draft.{
  Amount, copies, unlimited, PoolCard, Draft, room, min, min_of, is_stadium, add, total,
}
use pokedrop.RandomDeck.Catalog.{Catalog, energy_of}
use pokedrop.RandomDeck.Shuffle.{Source, shuffle}

pub record Cap : Type 0 where
  pub test : PoolCard → Bool
  pub max : ℕ

pub record Filled (S : Type 0) : Type 0 where
  pub draft : Draft
  pub state : S

-- `if (n > 0) draft.add(card, n)`
unfoldable pub add_some : PoolCard → ℕ → Draft → Draft
add_some c n d = if ltb 0 n then add d c n else d

module _ (pool : List PoolCard) where
  abbrev pub is_reached : List Cap → Draft → Bool
  is_reached [] d = false
  is_reached (overall ∷ caps) d = leb overall.max (total pool overall.test d)

  -- The loop over the caps.
  unfoldable pub within_caps : List Cap → PoolCard → Draft → ℕ → ℕ
  within_caps [] c d n = n
  within_caps (cap ∷ caps) c d n =
      within_caps caps c d (if cap.test c then min n (cap.max - total pool cap.test d) else n)

  unfoldable pub within_stadiums : PoolCard → Draft → ℕ → ℕ
  within_stadiums c d n = if is_stadium c then min n (2 - total pool is_stadium d) else n

  module _ {S : Type 0} (rng : Source S) where
    -- The loop of `addTrainers` over the shuffled printings.
    unfoldable pub add_each : List Cap → Bool → List PoolCard → Draft → S → Filled S
    add_each caps fill [] d s = record { draft = d; state = s }
    add_each caps fill (c ∷ cs) d s =
        let drawn = rng.int 4 s in
        let want = if fill then 4 else 1 + drawn.value in
        let after = if fill then s else drawn.state in
        let n = within_stadiums c d (within_caps caps c d (min_of want (room d c))) in
        let rest = add_each caps fill cs (add_some c n d) after in
        if is_reached caps d then record { draft = d; state = s } else rest

    unfoldable pub add_trainers : List PoolCard → List Cap → Bool → Filled S → Filled S
    add_trainers printings caps fill f =
        let mixed = shuffle rng printings f.state in
        add_each caps fill mixed.items f.draft mixed.state

abbrev pub plus : Amount → Amount → Amount
plus (copies a) (copies b) = copies (a + b)
plus _ _ = unlimited

-- `a < n`
abbrev pub is_below : Amount → ℕ → Bool
is_below (copies a) n = ltb a n
is_below unlimited n = false

abbrev pub room_of : Draft → List PoolCard → Amount
room_of d [] = copies 0
room_of d (c ∷ cs) = plus (room d c) (room_of d cs)

-- The loop that adds a type's share, of which `left` copies are left.
unfoldable pub spread : ℕ → List PoolCard → Draft → Draft
spread left [] d = d
spread left (c ∷ cs) d =
    let n = min_of left (room d c) in
    let rest = spread (left - n) cs (add_some c n d) in if left == 0 then d else rest

-- `Math.ceil(need / types)` for the first type, `Math.floor(need / types)` for any other.
abbrev pub share_of : ℕ → ℕ → ℕ → ℕ
share_of zero need types = (need + types - 1) / types
share_of (suc i) need types = need / types

pub record Short : Type 0 where
  pub type : ℕ
  pub have : Amount
  pub need : ℕ

pub record Energized (S : Type 0) : Type 0 where
  pub short : Option Short
  pub draft : Draft
  pub state : S

module _ {S : Type 0} (rng : Source S) (catalog : Catalog) (need count : ℕ) where
  -- The loop of `addEnergy` from the type at index `i` on; `count` is the number of all types.
  unfoldable pub add_energy : ℕ → List ℕ → Draft → S → Energized S
  add_energy i [] d s = record { short = none; draft = d; state = s }
  add_energy i (type ∷ types) d s =
      let share = share_of i need count in
      let mixed = shuffle rng (energy_of catalog type) s in
      let rest = add_energy (suc i) types (spread share mixed.items d) mixed.state in
      if is_below (room_of d mixed.items) share
      then record {
        short = some (record { type = type; have = room_of d mixed.items; need = share });
        draft = d;
        state = mixed.state;
      }
      else rest
