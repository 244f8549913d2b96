-- ===== src/Examples/Opening.antt =====
-- The theorems on packs at a pack of two slots, drawn from a short stream of bytes.
use pokedrop.Base.{
  ltb, if◌then◌else◌, ◌==◌, ◌≤◌, ℕ, ◌+◌, ◌*◌, ◌/◌, ◌<◌, ◌≡◌, refl, none, some, List, [], ◌∷◌,
  Result, ok, err, true, ◌==◌, arith, All, length, sum_of, some_of, take, sort_by, insert_by,
}
use pokedrop.Base.Dict.{Dict, lookup, insert}
use pokedrop.Inventory.{put, receive_row}
use pokedrop.Wallet.{debit, create_entry, balance}
use pokedrop.Schema.Database.{Database}
use pokedrop.Packs.Ladder.{Rarity, Rung, rung_le, ladder_of, total_weight}
use pokedrop.Packs.Ladder.Order.{IsByWeight, ladder_of_lem}
use pokedrop.Packs.Generator.{
  Drawn, Rng, CardPool, SlotConfig, Found, GeneratedPack, roll, roll_from, first_filled,
  search_order, resolve, pick, draw_card, draw_cards, draw_slots, generate_pack,
}
use pokedrop.Packs.Generator.Rolling.{roll_hits}
use pokedrop.Packs.Generator.Serving.{is_filled, bucket_of, resolve_prefers_common}
use pokedrop.Packs.Generator.Contents.{IsPooled, IsOffered, generate_pack-ok}
use pokedrop.Packs.Rng.{
  RngState, initial, two_pow_32, read_word, limit_of, refill, next_uint32, draw_below, int,
}
use pokedrop.Packs.Rng.Draws.{Accepts, at_once, int-total, seeded_rng, int_unbiased}
use pokedrop.Packs.Opening.{
  PackTemplate, PackOpenResult, tally, mint_rows, mint, write, replay, open_fresh, open_pack,
}
use pokedrop.Packs.Opening.Effects.{Opened}
use pokedrop.Packs.Opening.Once.{open_pack_new}
use pokedrop.System.{here, next, granting}
use pokedrop.System.Openings.{open_pack_again}
use pokedrop.Base.Int.{pos}
use pokedrop.Admin.{target, adjust, grant_in, replay_grant, grant_currency}
use pokedrop.Examples.World.{world}

-- Two words in each block, made of the counter.
abbrev bytes : ℕ → List ℕ
bytes n = 0 ∷ 0 ∷ 1 ∷ n ∷ 0 ∷ 0 ∷ n ∷ 7 ∷ []

abbrev seeded : Rng RngState
seeded = seeded_rng bytes 4

-- Rarity 1 with weight 70, rarity 2 with weight 30, and rarity 3 switched off.
abbrev weights : Dict ℕ
weights = (2, 30) ∷ (3, 0) ∷ (1, 70) ∷ []

abbrev ladder : List Rung
ladder = record { rarity = 1; weight = 70 } ∷ record { rarity = 2; weight = 30 } ∷ []

abbrev slots : List SlotConfig
slots = record { count = 2; weights = weights } ∷ record { count = 1; weights = (2, 5) ∷ [] } ∷ []

abbrev pool : CardPool
pool = (1, 10 ∷ 20 ∷ []) ∷ (2, 30 ∷ []) ∷ []

abbrev template : PackTemplate
template = record { id = 4; cost = 40; slots = slots }

abbrev or_pack : Result (GeneratedPack seeded) → GeneratedPack seeded
or_pack (ok g) = g
or_pack (err _) = record { cards = []; fallbacks = []; state = initial }

abbrev or_nothing : Result PackOpenResult → PackOpenResult
or_nothing (ok r) = r
or_nothing (err _) = record { cards = []; balance = 0; database = world }

abbrev pack : GeneratedPack seeded
pack = or_pack (generate_pack seeded slots pool initial)

abbrev opened : PackOpenResult
opened = or_nothing (open_pack seeded 1 template 6 pool initial world)

abbrev or_draw : Result (Drawn RngState) → Drawn RngState
or_draw (ok d) = d
or_draw (err _) = record { value = 0; state = initial }

abbrev drawn : Drawn RngState
drawn = or_draw (int bytes 4 100 initial)

abbrev Opens : Type 0
Opens =
    (generate_pack seeded slots pool initial ≡ ok pack)
    × (open_pack seeded 1 template 6 pool initial world ≡ ok opened)
    × (int bytes 4 100 initial ≡ ok drawn)
    × (lookup 6 world.openings ≡ none)

opens : Opens
unfolding sort_by insert_by lookup insert put receive_row debit create_entry rung_le ladder_of roll
    roll_from first_filled search_order resolve pick draw_card draw_cards draw_slots generate_pack
    read_word limit_of refill next_uint32 draw_below int tally mint_rows mint write replay
    open_fresh open_pack
opens = (refl, refl, refl, refl)

ladder_of_lem_example :
    IsByWeight (ladder_of weights)
    × All (λ rung. 0 < rung.weight) (ladder_of weights)
    × ((r : Rarity)
        → sum_of (λ rung. if rung.rarity == r then rung.weight else 0) (ladder_of weights)
          ≡ sum_of (λ e. if e.0 == r then e.1 else 0) weights)
    × (total_weight (ladder_of weights) ≡ sum_of (λ e. e.1) weights)
ladder_of_lem_example = ladder_of_lem weights

roll_hits_example : roll ladder 80 ≡ ok (record { index = 1; rarity = 2 })
roll_hits_example =
    roll_hits ladder 80 1 (record { rarity = 2; weight = 30 }) refl (omega arith) (omega arith)

resolve_prefers_common_example :
    (is_filled pool (record { rarity = 2; weight = 30 }) ≡ true
      → resolve ladder 1 pool ≡ some (record { rarity = 2; bucket = bucket_of pool 2 }))
    × ((found : Found)
        → resolve ladder 1 pool ≡ some found
        → some_of (is_filled pool) (take 2 ladder) ≡ true
        → some_of (λ r. r.rarity == found.rarity) (take 2 ladder) ≡ true)
resolve_prefers_common_example =
    resolve_prefers_common ladder 1 (record { rarity = 2; weight = 30 }) pool refl

generate_pack-ok_example :
    (length pack.cards ≡ sum_of (λ config. config.count) slots)
    × All (λ card. IsPooled pool card × IsOffered slots card) pack.cards
generate_pack-ok_example = generate_pack-ok seeded slots pool initial opens.0

abbrev word : Drawn RngState
word = record { value = 256; state = record { counter = 1; block = bytes 0; offset = 4 } }

word_here : next_uint32 bytes initial ≡ ok word
unfolding next_uint32 refill read_word
word_here = refl

int_unbiased_example :
    (int bytes 4 100 initial ≡ (
      if ltb 2 (two_pow_32 / 100)
      then ok (record word { value = 56 })
      else int bytes 3 100 word.state))
    × (two_pow_32 < two_pow_32 / 100 * 100 + two_pow_32 / 100 * 100)
int_unbiased_example =
    int_unbiased bytes 3 100 56 2 initial word (omega arith) (omega arith) (omega arith) word_here
      refl

open_pack_new_example :
    Opened 1 template 6 opened.cards world opened.database
    × (opened.balance ≡ balance 1 opened.database.accounts)
    × ((g : GeneratedPack seeded) × (generate_pack seeded template.slots pool initial ≡ ok g)
        × (g.cards ≡ opened.cards))
open_pack_new_example = open_pack_new seeded 1 template 6 pool initial world opens.3 opens.1

-- The member is granted coins by the time of the second request.
abbrev refunded : Database
refunded = elim (grant_currency 8 1 (pos 25) 77 opened.database) [ ok d ↦ d | err _ ↦ world ]

refunding : grant_currency 8 1 (pos 25) 77 opened.database ≡ ok refunded
unfolding sort_by insert_by lookup insert put receive_row debit create_entry rung_le ladder_of roll
    roll_from first_filled search_order resolve pick draw_card draw_cards draw_slots generate_pack
    read_word limit_of refill next_uint32 draw_below int tally mint_rows mint write replay
    open_fresh open_pack target adjust grant_in replay_grant grant_currency
refunding = refl

open_pack_again_example :
    open_pack seeded 1 template 6 [] (record initial { counter = 9 }) refunded
    ≡ ok (record {
      cards = opened.cards;
      balance = balance 1 refunded.accounts;
      database = refunded;
    })
open_pack_again_example =
    open_pack_again seeded 1 template 6 pool [] initial (record initial { counter = 9 }) world
      refunded opens.1 (next here (granting 8 1 (pos 25) 77 refunding))

first_word : Accepts bytes (limit_of 100) initial 1
unfolding next_uint32 refill read_word limit_of
first_word = at_once (or_draw (next_uint32 bytes initial)) refl refl

int-total_example :
    (d : Drawn RngState) × (d.value < 100)
    × ((fuel : ℕ) → 1 ≤ fuel → int bytes fuel 100 initial ≡ ok d)
int-total_example = int-total bytes 1 100 initial (omega arith) (omega arith) first_word
