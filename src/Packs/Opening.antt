-- ===== src/Packs/Opening.antt =====
-- apps/api/src/packs/pack-opening.service.ts: opening a pack once per `openId`. The Redis lock is
-- an optimisation and is left out; the randomness is an `Rng` and its state.
pub mod Effects
pub mod Once
use pokedrop.Base.{
  ℕ, zero, suc, ◌+◌, ◌≡◌, Bool, true, false, ◌&&◌, not, Option, none, some, List, [], ◌∷◌, ◌==◌,
  leb, if◌then◌else◌, contains, every, sort_by, Result, ok, err, Error, insufficient_funds,
  pack_unavailable, open_id_conflict, unique_violation, foreign_key_violation, empty_slot, require,
  ◌>>=◌, ◌>>◌,
}
use pokedrop.Base.Int.{pos, neg}
use pokedrop.Base.Dict.{Dict, lookup, insert}
use pokedrop.Inventory.{UserId, CardId, Inventory, put, receive_row}
use pokedrop.Wallet.{Accounts, pack_spend, debit, create_entry, balance}
use pokedrop.Schema.Database.{Database, PulledCard, PackOpening}
use pokedrop.Packs.Generator.{Rng, CardPool, SlotConfig, GeneratedPack, generate_pack}

pub record PackTemplate : Type 0 where
  pub id : ℕ
  pub cost : ℕ
  pub slots : List SlotConfig

abbrev pub get_count : CardId → Dict ℕ → ℕ
get_count c counts = elim (lookup c counts) [ none ↦ 0 | some n ↦ n ]

-- The loop that fills `counts`.
unfoldable pub tally : List PulledCard → Dict ℕ → Dict ℕ
tally [] counts = counts
tally (x ∷ xs) counts = tally xs (insert x.card (get_count x.card counts + 1) counts)

-- The rows of the one INSERT … ON CONFLICT.
unfoldable pub mint_rows : UserId → Dict ℕ → Inventory → Inventory
mint_rows u [] inv = inv
mint_rows u ((c, n) ∷ rows) inv = mint_rows u rows (put u c (some (receive_row n (inv u c))) inv)

abbrev pub by_card : ℕ × ℕ → ℕ × ℕ → Bool
by_card a b = leb a.0 b.0

unfoldable pub mint : UserId → List PulledCard → Inventory → Inventory
mint u cards inv = mint_rows u (sort_by by_card (tally cards [])) inv

-- The transaction of an opening.
unfoldable pub write : UserId → PackTemplate → ℕ → List PulledCard → Database → Result Database
write user template open_id cards db = do
  require (elim (lookup open_id db.openings) [ none ↦ true | some _ ↦ false ]) unique_violation
  debited ← debit user template.cost insufficient_funds db.accounts
  accounts ←
      create_entry
        (record { user = user; amount = neg (pos template.cost); type = pack_spend; ref = open_id })
        debited
  require (every (λ x. contains x.card db.cards) cards) foreign_key_violation
  ok (record db {
    accounts = accounts;
    inventory = mint user cards db.inventory;
    openings =
        insert open_id (record { user = user; template = template.id; cards = cards }) db.openings;
  })

pub record PackOpenResult : Type 0 where
  pub cards : List PulledCard
  pub balance : ℕ
  pub database : Database

-- The answer for an opening that exists already.
unfoldable pub replay : PackOpening → UserId → ℕ → Database → Result PackOpenResult
replay opening user template db = do
  require (opening.user == user && opening.template == template) open_id_conflict
  ok (record { cards = opening.cards; balance = balance user db.accounts; database = db })

-- The two `catch` blocks.
abbrev pub as_unavailable {ℓ} : {A : Type ℓ} → Result A → Result A
as_unavailable (err empty_slot) = err pack_unavailable
as_unavailable r = r

abbrev pub or_replay : ℕ → UserId → ℕ → Database → Result PackOpenResult → Result PackOpenResult
or_replay open_id user template db (err unique_violation) = elim (lookup open_id db.openings) [
  | none ↦ err unique_violation
  | some winner ↦ replay winner user template db
]
or_replay open_id user template db r = r

module _ {S : Type 0} (rng : Rng S) where
  unfoldable pub open_fresh :
      UserId → PackTemplate → ℕ → CardPool → S → Database → Result PackOpenResult
  open_fresh user template open_id pool s db = do
    pack ← as_unavailable (generate_pack rng template.slots pool s)
    or_replay open_id user template.id db (do
      written ← write user template open_id pack.cards db
      ok (record {
        cards = pack.cards;
        balance = balance user written.accounts;
        database = written;
      }))

  -- `open`, with the template that `getActive` found.
  unfoldable pub open_pack :
      UserId → PackTemplate → ℕ → CardPool → S → Database → Result PackOpenResult
  open_pack user template open_id pool s db =
      let fresh = open_fresh user template open_id pool s db in
      elim (lookup open_id db.openings) [
        | none ↦ fresh
        | some opening ↦ replay opening user template.id db
      ]
