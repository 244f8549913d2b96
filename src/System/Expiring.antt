-- ===== src/System/Expiring.antt =====
-- The expiry of a batch in a sound system, whatever happened to its trades since they were read.
use pokedrop.Base.{
  ℕ, suc, ◌+◌, ◌≡◌, refl, ◌∙◌, true, false, some, List, [], ◌∷◌, length, All, ok, err,
  trade_not_pending, arith, Bool-cases, inl, inr,
}
use pokedrop.Base.Dict.{Dict, lookup}
use pokedrop.Inventory.{UserId}
use pokedrop.Schema.Trade.{
  TradeId, TradeStatus, pending, cancelled, same_status, TradeTerms, TradeRow,
}
use pokedrop.Schema.Database.{Database, NotificationType, trade_expired}
use pokedrop.Trades.{close, close_row, notify}
use pokedrop.Trades.Promises.{IsSnapshot}
use pokedrop.Trades.Lifecycle.{
  unchanged, created, moved, Evolves, Evolves-same, Evolves-IsSnapshot, can_move,
}
use pokedrop.Trades.Outcomes.{close-total}
use pokedrop.Trades.Expiry.{expiring, Expiry, expire_one, expire_batch}
use pokedrop.System.{closing, here, next, IsSound}
use pokedrop.System.Soundness.{Step-Evolves, Reach-IsSound}

-- The trade is there and not pending.
abbrev pub IsOver : TradeId → Database → Type 0
IsOver id db =
    (row : TradeRow) × (lookup id db.trades ≡ some row) × (same_status row.status pending ≡ false)

can_move-pending :
    (from to : TradeStatus) → can_move from to ≡ true → same_status to pending ≡ false
can_move-pending from to e = ground arith

Evolves-IsOver :
    (id : TradeId) (db db' : Database) → Evolves db.trades db'.trades → IsOver id db → IsOver id db'
Evolves-IsOver id db db' h (row, there, over) = elim (h id) [
  | unchanged e ↦ (row, e ∙ there, over)
  | created _ _ _ none_there _ ↦ absurd (ground (arith, there))
  | moved was to now m _ e ↦
      (record was { status = to; resolved_at = some now }, e, can_move-pending was.status to m)
]

notify-IsSound :
    (users : List UserId) (type : NotificationType) (id : TradeId) (db : Database)
    → IsSound db
    → IsSound (notify users type id db)
notify-IsSound users type id db h = record {
  escrow = h.escrow;
  reconciled = h.reconciled;
  apart = h.apart;
  normal = h.normal;
}

-- What the expiry of one trade does.
record Expired (id : TradeId) (x y : Expiry) : Type 0 where
  pub sound : IsSound y.database
  pub evolves : Evolves x.database.trades y.database.trades
  pub over : IsOver id y.database
  pub none_failed : y.failed ≡ x.failed
  pub counted : y.expired + y.raced ≡ suc (x.expired + x.raced)

close-raced :
    (id : TradeId) (t : TradeTerms) (now : ℕ) (db : Database) (row : TradeRow)
    → lookup id db.trades ≡ some row
    → same_status row.status pending ≡ false
    → close id t expiring now db ≡ err trade_not_pending
unfolding close close_row
close-raced id t now db row there over = ground (arith, there, over)

expire_one-Expired :
    (id : TradeId) (row : TradeRow) (now : ℕ) (x : Expiry)
    → IsSound x.database
    → IsSnapshot id row.terms x.database.trades
    → Expired id x (expire_one id row now x)
unfolding expire_one
expire_one-Expired id row now x sound (cur, there, same) =
    elim (Bool-cases (same_status cur.status pending)) [
      | inr over ↦
          let e = close-raced id row.terms now x.database cur there over in
          rw e (record {
            sound = sound;
            evolves = Evolves-same x.database.trades x.database.trades refl;
            over = (cur, there, over);
            none_failed = refl;
            counted = omega arith;
          })
      | inl waiting ↦
          let (closed, e, after) =
            close-total id cur expiring now x.database there waiting (refl, refl, refl)
              (sound.normal id cur there) (λ c. sound.escrow cur.initiator c) in
          let e' : close id row.terms expiring now x.database ≡ ok closed = rw same at e in
          let step = closing id row.terms expiring now (refl, refl, refl) (cur, there, same) e' in
          rw e' (record {
            sound =
                notify-IsSound (row.initiator ∷ row.recipient ∷ []) trade_expired id closed
                  (Reach-IsSound (next here step) sound);
            evolves = Step-Evolves step;
            over = (record cur { status = cancelled; resolved_at = some now }, after, refl);
            none_failed = refl;
            counted = omega arith;
          })
    ]

abbrev pub AllSnapshots : Dict TradeRow → Database → Type 0
AllSnapshots rows db = All (λ e. IsSnapshot e.0 e.1.terms db.trades) rows

Evolves-AllSnapshots :
    (rows : Dict TradeRow) (db db' : Database)
    → Evolves db.trades db'.trades
    → AllSnapshots rows db
    → AllSnapshots rows db'
Evolves-AllSnapshots [] db db' h s = tt
Evolves-AllSnapshots ((id, row) ∷ rows) db db' h s = (
  Evolves-IsSnapshot id row.terms db.trades db'.trades h s.0,
  Evolves-AllSnapshots rows db db' h s.1,
)

-- What the expiry of a batch leaves.
pub record BatchExpired (rows : Dict TradeRow) (x y : Expiry) : Type 0 where
  pub sound : IsSound y.database
  pub over : All (λ e. IsOver e.0 y.database) rows
  pub none_failed : y.failed ≡ x.failed
  pub counted : y.expired + y.raced ≡ length rows + (x.expired + x.raced)
  pub still_over : (id : TradeId) → IsOver id x.database → IsOver id y.database

-- In a sound database the expiry of a batch of trades, whatever happened to them since they were
-- read, fails for none, counts each as expired or raced, leaves each of them no longer pending,
-- and leaves the database sound.
pub expire_batch-BatchExpired :
    (rows : Dict TradeRow) (now : ℕ) (x : Expiry)
    → IsSound x.database
    → AllSnapshots rows x.database
    → BatchExpired rows x (expire_batch rows now x)
unfolding expire_batch
expire_batch-BatchExpired [] now x sound s = record {
  sound = sound;
  over = tt;
  none_failed = refl;
  counted = omega arith;
  still_over = λ id h. h;
}
expire_batch-BatchExpired ((id, row) ∷ rows) now x sound s =
    let y = expire_one id row now x in
    let one = expire_one-Expired id row now x sound s.0 in
    let rest =
      expire_batch-BatchExpired rows now y one.sound
        (Evolves-AllSnapshots rows x.database y.database one.evolves s.1) in
    record {
      sound = rest.sound;
      over = (rest.still_over id one.over, rest.over);
      none_failed = rest.none_failed ∙ one.none_failed;
      counted = omega (arith, rest.counted, one.counted);
      still_over = λ j h. rest.still_over j (Evolves-IsOver j x.database y.database one.evolves h);
    }
