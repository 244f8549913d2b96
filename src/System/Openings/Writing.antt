-- ===== src/System/Openings/Writing.antt =====
-- The row that an opening writes.
use pokedrop.Base.{ℕ, ◌≡◌, none, some, List, ok, arith}
use pokedrop.Base.Dict.{lookup, insert, lookup-insert}
use pokedrop.Inventory.{UserId}
use pokedrop.Schema.Database.{Database, PackOpening, PulledCard}
use pokedrop.Packs.Opening.{PackTemplate, write}

write-openings-eq :
    (user : UserId) (template : PackTemplate) (open_id : ℕ) (cards : List PulledCard)
    (db : Database) {db' : Database}
    → write user template open_id cards db ≡ ok db'
    → (lookup open_id db.openings ≡ none)
      × (db'.openings
          ≡ insert open_id
              (record { user = user; template = template.id; cards = cards })
              db.openings)
unfolding write
write-openings-eq user template open_id cards db e = ground arith

pub write-openings :
    (user : UserId) (template : PackTemplate) (open_id : ℕ) (cards : List PulledCard)
    (db : Database) {db' : Database} (k : ℕ) (o : PackOpening)
    → write user template open_id cards db ≡ ok db'
    → lookup k db.openings ≡ some o
    → lookup k db'.openings ≡ some o
write-openings user template open_id cards db k o e there =
    let (new, made) = write-openings-eq user template open_id cards db e in
    ground (
      arith,
      new,
      made,
      there,
      lookup-insert open_id k (record { user = user; template = template.id; cards = cards })
          db.openings,
    )
