-- ===== src/Examples/World.antt =====
-- Two members and two admins with a few cards and coins, and the states that their requests lead to.
use pokedrop.Base.{
  ◌==◌, ℕ, ◌≡◌, refl, none, some, [], ◌∷◌, Result, ok, err, arith, true, false, insert_by, sort_by,
}
use pokedrop.Base.Int.{pos, ◌+ℤ◌}
use pokedrop.Base.Dict.{sum_rows, lookup, insert}
use pokedrop.Inventory.{
  UserId, CardId, Inventory, put_lem, available_quantity, put, change_le, check_changes,
  normalize_changes, lock_row, lock_all, lock, release_row, release_all, release, receive_row,
  give_row, move_row, move_all, sweep_row, sweep, check_moves, move_le, apply_moves,
}
use pokedrop.Wallet.{
  member, admin, User, grant, CurrencyTransaction, IsReconciledAt, create_entry, debit, credit,
}
use pokedrop.Schema.Trade.{
  TradeInput, TradeTerms, TradeRow, pending, accepted, declined, offered_changes, trade_lines,
  item_le, set_of, is_line, check_terms,
}
use pokedrop.Schema.Database.{Database, TradeAction}
use pokedrop.Trades.{
  CloseOptions, close_row, release_offered, close, moves_of, card_moves, reverse_moves, pay,
  pay_from, move_net, move_coins, settle, reverse, new_terms, create_trade, assert_terms,
  propose_in, propose_trade, load_any, load_as_party, assert_role, counterparty, finish,
  decline_trade, cancel_trade, accept_in, accept_trade, chain_length, swap_locks, counter_in,
  counter_trade, void_in, void_trade, void_check, void_rows, voided_rows, add_lock, add_items,
  tally_locks, release_each, void_all_pending_of,
}
use pokedrop.Admin.{
  active_admins, assert_not_self, target, assert_not_last_admin, set_role, change_role, adjust,
  grant_in, replay_grant, grant_currency, grant_if_first_time, mark_suspended, suspend_user,
  unsuspend_user,
}
use pokedrop.Trades.Escrow.{EscrowAt}
use pokedrop.Trades.Outcomes.{closed_row}
use pokedrop.System.{IsSound}
use pokedrop.System.Settling.{CanPay, CanGive, IsUnsettled}

abbrev pub a_member : ℕ → User
a_member n = record { currency = n; role = member; suspended_at = none }

abbrev pub an_admin : User
an_admin = record { currency = 0; role = admin; suspended_at = none }

abbrev start_coins : UserId → ℕ → CurrencyTransaction
start_coins u n = record { user = u; amount = pos n; type = grant; ref = 0 }

abbrev pub stock : Inventory
stock =
    put 1 10 (some (record { quantity = 3; locked_quantity = 0 }))
      (put 2 20 (some (record { quantity = 2; locked_quantity = 0 })) (λ u c. none))

-- Members 1 and 2, admins 8 and 9, no trade yet.
abbrev pub world : Database
world = record {
  accounts = record {
    users = (1, a_member 100) ∷ (2, a_member 50) ∷ (8, an_admin) ∷ (9, an_admin) ∷ [];
    ledger = start_coins 1 100 ∷ start_coins 2 50 ∷ [];
  };
  inventory = stock;
  trades = [];
  cards = 10 ∷ 20 ∷ 30 ∷ [];
  openings = [];
  sessions = 1 ∷ 2 ∷ [];
  audit = [];
  notifications = [];
}

world-reconciled : (u : UserId) → IsReconciledAt u world.accounts
unfolding ◌+ℤ◌ lookup
world-reconciled u = ground arith

world-escrow : (u : UserId) (c : CardId) → EscrowAt u c world
unfolding sum_rows
world-escrow u c = ground (
  arith,
  put_lem 1 10 (some (record { quantity = 3; locked_quantity = 0 }))
      (put 2 20 (some (record { quantity = 2; locked_quantity = 0 })) (λ u c. none)) u c,
  put_lem 2 20 (some (record { quantity = 2; locked_quantity = 0 })) (λ u c. none) u c,
)

pub world-IsSound : IsSound world
unfolding lookup
world-IsSound = record {
  escrow = world-escrow;
  reconciled = world-reconciled;
  apart = λ id row e. absurd (ground arith);
  normal = λ id row e. absurd (ground arith);
}

abbrev pub or_world : Result Database → Database
or_world (ok db) = db
or_world (err _) = world

-- Two of card 10 and 30 coins for one of card 20.
abbrev pub swap : TradeInput
swap = record {
  offered = record { card = 10; quantity = 2 } ∷ [];
  requested = record { card = 20; quantity = 1 } ∷ [];
  currency_from_initiator = 30;
  currency_from_recipient = 0;
}

abbrev pub swap_terms : TradeTerms
swap_terms = new_terms 1 2 swap none 5

abbrev pub swap_row : TradeRow
swap_row = record { terms = swap_terms; status = pending; resolved_at = none }

-- The answer of member 2: the card without the coins.
abbrev pub back : TradeInput
back = record {
  offered = record { card = 20; quantity = 1 } ∷ [];
  requested = record { card = 10; quantity = 2 } ∷ [];
  currency_from_initiator = 0;
  currency_from_recipient = 0;
}

abbrev pub declining : CloseOptions
declining = record {
  from = pending;
  to = declined;
  action = TradeAction.decline;
  actor = some 2;
  release = true;
}

abbrev pub proposed : Database
proposed = or_world (propose_in 1 2 swap 7 5 world)

abbrev pub settled : Database
settled = or_world (accept_in 2 7 swap_terms 6 proposed)

abbrev pub accepted_world : Database
accepted_world = or_world (accept_trade 2 7 6 proposed)

abbrev pub undone : Database
undone = or_world (void_in 8 7 (closed_row swap_row accepted 6) 9 settled)

abbrev pub answered : Database
answered = or_world (counter_in 2 7 swap_terms back 12 6 proposed)

abbrev pub closed_world : Database
closed_world = or_world (close 7 swap_terms declining 6 proposed)

abbrev pub suspended_world : Database
suspended_world = or_world (suspend_user 8 1 6 proposed)

abbrev pub demoted : Database
demoted = or_world (change_role 8 9 member world)

abbrev pub granted_world : Database
granted_world = or_world (grant_currency 8 1 (pos 25) 77 world)

abbrev pub welcomed : Database
welcomed = or_world (grant_if_first_time 9 world)

abbrev pub offered_world : Database
offered_world = or_world (propose_trade 1 2 swap 7 5 world)

-- Each of the requests goes through.
abbrev pub Runs : Type 0
Runs =
    (propose_in 1 2 swap 7 5 world ≡ ok proposed)
    × (accept_in 2 7 swap_terms 6 proposed ≡ ok settled)
    × (accept_trade 2 7 6 proposed ≡ ok accepted_world)
    × (void_in 8 7 (closed_row swap_row accepted 6) 9 settled ≡ ok undone)
    × (counter_in 2 7 swap_terms back 12 6 proposed ≡ ok answered)
    × (close 7 swap_terms declining 6 proposed ≡ ok closed_world)
    × (suspend_user 8 1 6 proposed ≡ ok suspended_world)
    × (change_role 8 9 member world ≡ ok demoted)
    × (grant_currency 8 1 (pos 25) 77 world ≡ ok granted_world)
    × (grant_if_first_time 9 world ≡ ok welcomed)
    × (lookup 7 proposed.trades ≡ some swap_row)
    × ((swap_row.initiator == swap_row.recipient) ≡ false)
    × ((swap_row.recipient == 2) ≡ true)
    × ((swap_row.initiator == 1) ≡ true)
    × (lookup 1 proposed.accounts.users ≡ some (a_member 100))
    × (propose_trade 1 2 swap 7 5 world ≡ ok offered_world)

pub runs : Runs
unfolding insert_by sort_by lookup insert sum_rows available_quantity put change_le check_changes
    normalize_changes lock_row lock_all lock release_row release_all release receive_row give_row
    move_row move_all sweep_row sweep check_moves move_le apply_moves create_entry debit credit
    offered_changes trade_lines item_le set_of is_line check_terms close_row release_offered close
    moves_of card_moves reverse_moves pay pay_from move_net move_coins settle reverse new_terms
    create_trade assert_terms propose_in propose_trade load_any load_as_party assert_role
    counterparty finish decline_trade cancel_trade accept_in accept_trade chain_length swap_locks
    counter_in counter_trade void_in void_trade void_check void_rows voided_rows add_lock add_items
    tally_locks release_each void_all_pending_of active_admins assert_not_self target
    assert_not_last_admin set_role change_role adjust grant_in replay_grant grant_currency
    grant_if_first_time mark_suspended suspend_user unsuspend_user
runs =
    (refl, refl, refl, refl, refl, refl, refl, refl, refl, refl, refl, refl, refl, refl, refl, refl)

-- What the acceptance of the swap needs.
abbrev pub Settles : Type 0
Settles =
    (check_moves [] (card_moves swap_terms) ≡ ok tt)
    × CanPay swap_terms proposed.accounts
    × CanGive swap_terms proposed.inventory
    × IsUnsettled 7 swap_row.initiator proposed.accounts
    × IsUnsettled 7 swap_row.recipient proposed.accounts

pub settles : Settles
unfolding insert_by sort_by lookup insert sum_rows available_quantity put change_le check_changes
    normalize_changes lock_row lock_all lock release_row release_all release receive_row give_row
    move_row move_all sweep_row sweep check_moves move_le apply_moves create_entry debit credit
    offered_changes trade_lines item_le set_of is_line check_terms close_row release_offered close
    moves_of card_moves reverse_moves pay pay_from move_net move_coins settle reverse new_terms
    create_trade assert_terms propose_in propose_trade load_any load_as_party assert_role
    counterparty finish decline_trade cancel_trade accept_in accept_trade chain_length swap_locks
    counter_in counter_trade void_in void_trade void_check void_rows voided_rows add_lock add_items
    tally_locks release_each void_all_pending_of active_admins assert_not_self target
    assert_not_last_admin set_role change_role adjust grant_in replay_grant grant_currency
    grant_if_first_time mark_suspended suspend_user unsuspend_user
settles = (
  refl,
  (omega arith, omega arith),
  (λ c. ground arith),
  ((_, refl), λ amount. refl),
  ((_, refl), λ amount. refl),
)
