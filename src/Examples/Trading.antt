-- ===== src/Examples/Trading.antt =====
-- The theorems on trades at the states of the small world.
use pokedrop.Base.{
  [], ◌∷◌, ◌≡◌, ◌↔◌, refl, some, ok, err, true, ◌==◌, trade_not_pending, has_code, Error,
}
use pokedrop.Base.Dict.{lookup}
use pokedrop.Inventory.{UserId, CardId, quantity_of}
use pokedrop.Wallet.{balance}
use pokedrop.Schema.Trade.{declined, cancelled, voided}
use pokedrop.Schema.Database.{Database, NotificationType}
use pokedrop.Trades.{
  notify, close, decline_trade, cancel_trade, void_check, void_trade, voidable, refused,
}
use pokedrop.Trades.Promises.{IsSnapshot}
use pokedrop.Trades.Lifecycle.{Evolves}
use pokedrop.Trades.Outcomes.{
  closed_row, Accepted, accept_trade-Accepted, void_undoes_accept, void_check-void,
}
use pokedrop.System.{notifying, Reach, here, next, Step, proposing, accepting, IsSound}
use pokedrop.System.Soundness.{Step-Evolves, Reach-IsSound}
use pokedrop.System.Closing.{close_once}
use pokedrop.Trades.{accept_trade}
use pokedrop.System.Settling.{accept-total}
use pokedrop.Trades.Proposals.{Proposed, propose_trade-Proposed}
use pokedrop.Trades.Expiry.{Expiry, expire_batch}
use pokedrop.System.Expiring.{BatchExpired, expire_batch-BatchExpired}
use pokedrop.System.Answers.{decline-total, cancel-total}
use pokedrop.Examples.World.{
  offered_world, settles, world, world-IsSound, swap, swap_terms, swap_row, declining, proposed,
  settled, accepted_world, undone, closed_world, runs,
}

swap-IsSnapshot : IsSnapshot 7 swap_terms proposed.trades
swap-IsSnapshot = (swap_row, runs.10, refl)

to_proposed : Reach world proposed
to_proposed = next here (proposing 1 2 swap 7 5 runs.0)

settling-Step : Step proposed settled
settling-Step = accepting 2 7 swap_terms 6 swap-IsSnapshot runs.1

proposed-IsSound : IsSound proposed
proposed-IsSound = Reach-IsSound to_proposed world-IsSound

Reach-IsSound_example : IsSound settled
Reach-IsSound_example = Reach-IsSound (next to_proposed settling-Step) world-IsSound

Step-Evolves_example : Evolves proposed.trades settled.trades
Step-Evolves_example = Step-Evolves settling-Step

accept_trade-Accepted_example :
    ((swap_row.recipient == 2) ≡ true) × Accepted 7 swap_row 6 proposed accepted_world
accept_trade-Accepted_example = accept_trade-Accepted 2 7 6 proposed swap_row runs.10 runs.11 runs.2

void_undoes_accept_example :
    (lookup 7 undone.trades ≡ some (closed_row swap_row voided 9))
    × ((u : UserId) → balance u undone.accounts ≡ balance u proposed.accounts)
    × ((u : UserId) (c : CardId)
        → quantity_of (undone.inventory u c) ≡ quantity_of (proposed.inventory u c))
void_undoes_accept_example =
    void_undoes_accept 2 8 7 swap_row 6 9 proposed settled runs.10 runs.11 runs.1 runs.3

-- A notification is written between the two requests.
abbrev notified : Database
notified = notify (1 ∷ []) NotificationType.trade_declined 7 closed_world

close_once_example : close 7 swap_terms declining 9 notified ≡ err trade_not_pending
close_once_example =
    close_once 7 swap_terms swap_terms declining declining 6 9 proposed refl refl runs.5
      (next here (notifying (1 ∷ []) NotificationType.trade_declined 7 refl))

void_check-void_example :
    ((void_check 8 7 9 settled ≡ ok voidable)
      ↔ ((db : Database) × (void_trade 8 7 9 settled ≡ ok db)))
    × ((e : Error)
        → void_check 8 7 9 settled ≡ ok (refused e)
        → (void_trade 8 7 9 settled ≡ err e) × (has_code e ≡ true))
void_check-void_example = void_check-void 8 7 9 settled

decline-total_example :
    (db : Database) × (decline_trade 2 7 6 proposed ≡ ok db)
    × (lookup 7 db.trades ≡ some (closed_row swap_row declined 6))
decline-total_example = decline-total 2 7 6 proposed swap_row proposed-IsSound runs.10 refl runs.12

cancel-total_example :
    (db : Database) × (cancel_trade 1 7 6 proposed ≡ ok db)
    × (lookup 7 db.trades ≡ some (closed_row swap_row cancelled 6))
cancel-total_example = cancel-total 1 7 6 proposed swap_row proposed-IsSound runs.10 refl runs.13

abbrev first_run : Expiry
first_run = record { expired = 0; raced = 0; failed = 0; database = proposed }

expire_batch-BatchExpired_example :
    BatchExpired ((7, swap_row) ∷ []) first_run (expire_batch ((7, swap_row) ∷ []) 99 first_run)
expire_batch-BatchExpired_example =
    expire_batch-BatchExpired ((7, swap_row) ∷ []) 99 first_run proposed-IsSound
      (swap-IsSnapshot, tt)

propose_trade-Proposed_example : Proposed 1 2 swap 7 5 world offered_world
propose_trade-Proposed_example = propose_trade-Proposed 1 2 swap 7 5 world runs.15

accept-total_example : (db : Database) × (accept_trade 2 7 6 proposed ≡ ok db)
accept-total_example =
    accept-total 2 7 6 proposed swap_row proposed-IsSound runs.10 refl runs.12 settles.0 settles.1
      settles.2 settles.3 settles.4
