-- ===== src/Packs/Opening/Once.antt =====
-- One `openId` opens one pack: the first request pays and mints, every later one replays it.
use pokedrop.Base.{
  ℕ, ◌≡◌, refl, sym, ap, ◌∙◌, none, some, List, ok, err, >>=-eq-ok, ok-injective, arith,
  Option-cases, inl, inr, Result,
}
use pokedrop.Base.Dict.{lookup}
use pokedrop.Inventory.{UserId}
use pokedrop.Wallet.{balance}
use pokedrop.Schema.Database.{Database, PackOpening, PulledCard}
use pokedrop.Packs.Generator.{Rng, CardPool, GeneratedPack, generate_pack}
use pokedrop.Packs.Opening.{
  PackTemplate, write, replay, PackOpenResult, as_unavailable, or_replay, open_fresh, open_pack,
}
use pokedrop.Packs.Opening.Effects.{Opened, write-Opened}

as_unavailable-ok {ℓ} : {A : Type ℓ} (r : Result A) {a : A} → as_unavailable r ≡ ok a → r ≡ ok a
as_unavailable-ok (ok a) e = e
as_unavailable-ok (err x) e = ground arith

or_replay-ok :
    (open_id : ℕ) (user : UserId) (template : ℕ) (db : Database) (r : Result PackOpenResult)
    {out : PackOpenResult}
    → lookup open_id db.openings ≡ none
    → or_replay open_id user template db r ≡ ok out
    → r ≡ ok out
or_replay-ok open_id user template db (ok x) new e = e
or_replay-ok open_id user template db (err x) new e = ground (arith, new)

replay-same :
    (opening : PackOpening) (user : UserId) (template : ℕ) (db : Database) {r : PackOpenResult}
    → replay opening user template db ≡ ok r
    → (r.database ≡ db)
      × (r.cards ≡ opening.cards)
      × (opening ≡ record { user = user; template = template; cards = opening.cards })
unfolding replay
replay-same opening user template db e = ground arith

replay_self :
    (user : UserId) (template : ℕ) (cards : List PulledCard) (db : Database)
    → replay (record { user = user; template = template; cards = cards }) user template db
      ≡ ok (record { cards = cards; balance = balance user db.accounts; database = db })
unfolding replay
replay_self user template cards db = ground arith

module _ {S : Type 0} (rng : Rng S) where
  open_pack-fresh :
      (user : UserId) (template : PackTemplate) (open_id : ℕ) (pool : CardPool) (s : S)
      (db : Database)
      → lookup open_id db.openings ≡ none
      → open_pack rng user template open_id pool s db
        ≡ open_fresh rng user template open_id pool s db
  unfolding open_pack
  open_pack-fresh user template open_id pool s db e = rw (e, open_pack) refl

  open_pack-replay :
      (user : UserId) (template : PackTemplate) (open_id : ℕ) (pool : CardPool) (s : S)
      (db : Database) {opening : PackOpening}
      → lookup open_id db.openings ≡ some opening
      → open_pack rng user template open_id pool s db ≡ replay opening user template.id db
  unfolding open_pack
  open_pack-replay user template open_id pool s db e = rw (e, open_pack) refl

  -- An opening with a new openId that succeeds serves a pack that the generator made, charges its
  -- cost to the buyer alone, mints exactly the cards served, keeps every balance the sum of its
  -- ledger, and records the opening.
  pub open_pack_new :
      (user : UserId) (template : PackTemplate) (open_id : ℕ) (pool : CardPool) (s : S)
      (db : Database) {r : PackOpenResult}
      → lookup open_id db.openings ≡ none
      → open_pack rng user template open_id pool s db ≡ ok r
      → Opened user template open_id r.cards db r.database
        × (r.balance ≡ balance user r.database.accounts)
        × ((pack : GeneratedPack rng) × (generate_pack rng template.slots pool s ≡ ok pack)
            × (pack.cards ≡ r.cards))
  unfolding open_fresh
  open_pack_new user template open_id pool s db {r = r} new e =
      let fresh : open_fresh rng user template open_id pool s db ≡ ok r =
        sym (open_pack-fresh user template open_id pool s db new) ∙ e in
      let (pack, g, rest) =
        >>=-eq-ok (as_unavailable (generate_pack rng template.slots pool s)) _ fresh in
      let done = or_replay-ok open_id user template.id db _ new rest in
      let (written, w, last) = >>=-eq-ok (write user template open_id pack.cards db) _ done in
      opened pack written (as_unavailable-ok _ g) w (ok-injective last)
    where
      opened :
          (pack : GeneratedPack rng) (written : Database)
          → generate_pack rng template.slots pool s ≡ ok pack
          → write user template open_id pack.cards db ≡ ok written
          → record {
            cards = pack.cards;
            balance = balance user written.accounts;
            database = written;
          }
            ≡ r
          → Opened user template open_id r.cards db r.database
            × (r.balance ≡ balance user r.database.accounts)
            × ((pack : GeneratedPack rng) × (generate_pack rng template.slots pool s ≡ ok pack)
                × (pack.cards ≡ r.cards))
      opened pack written g w last =
          rw (← last) (write-Opened user template open_id pack.cards db w, refl, (pack, g, refl))

  pub recorded-opening :
      (user : UserId) (template : PackTemplate) (open_id : ℕ) (pool : CardPool) (s : S)
      (db : Database) {r : PackOpenResult}
      → open_pack rng user template open_id pool s db ≡ ok r
      → lookup open_id r.database.openings
        ≡ some (record { user = user; template = template.id; cards = r.cards })
  recorded-opening user template open_id pool s db {r = r} e =
      elim (Option-cases (lookup open_id db.openings)) [
        | inl new ↦ (open_pack_new user template open_id pool s db new e).0.recorded
        | inr (opening, there) ↦
            let replayed : replay opening user template.id db ≡ ok r =
              sym (open_pack-replay user template open_id pool s db there) ∙ e in
            let (same, cards, named) = replay-same opening user template.id db replayed in
            rw same (there ∙ ap some (rw (cards, named) refl))
      ]

  -- Where the row of an opening stands, the same request answers its cards with the balance of then
  -- and changes nothing.
  pub open_pack_twice :
      (user : UserId) (template : PackTemplate) (open_id : ℕ) (pool pool' : CardPool) (s s' : S)
      (db later : Database) {r : PackOpenResult}
      → open_pack rng user template open_id pool s db ≡ ok r
      → lookup open_id later.openings ≡ lookup open_id r.database.openings
      → open_pack rng user template open_id pool' s' later
        ≡ ok (record { cards = r.cards; balance = balance user later.accounts; database = later })
  open_pack_twice user template open_id pool pool' s s' db later {r = r} e kept =
      open_pack-replay user template open_id pool' s' later
        (kept ∙ recorded-opening user template open_id pool s db e)
      ∙ replay_self user template.id r.cards later
