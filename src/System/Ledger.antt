-- ===== src/System/Ledger.antt =====
-- The ledger's entries and the accounts stay, whatever transactions commit.
mod Entries
mod Trading
mod Members
use pokedrop.Base.{
  zero, suc, unique_violation, grant_id_conflict, insufficient_funds, foreign_key_violation, ℕ, ◌≡◌,
  ◌+◌, ◌-◌, refl, sym, ap, true, false, Option, none, some, List, [], ◌∷◌, ok, err, Result, ◌==◌,
  arith, some_of, if◌then◌else◌, Error, Option-cases, Bool-cases, inl, inr, >>=-eq-ok, ok-injective,
  require, every, contains,
}
use pokedrop.Base.Int.{ℤ, pos, negsuc, neg, sub_ℕ, pos_part, neg_part}
use pokedrop.Base.Dict.{Dict, lookup, insert, lookup-insert}
use pokedrop.Inventory.{UserId}
use pokedrop.Wallet.{
  User, Role, CurrencyTransaction, Accounts, same_key, create_entry, debit, credit,
}
use pokedrop.Schema.Trade.{TradeId, TradeTerms, TradeRow, pending, accepted, same_status}
use pokedrop.Schema.Database.{Database, PulledCard, TradeAction}
use pokedrop.Inventory.{apply_moves}
use pokedrop.Trades.{
  Direction, settling, reversing, debit_error, entry_type, pay, pay_from, move_net, move_coins,
  card_moves, reverse_moves, as_irreversible, settle, reverse, close, closes, accept_in, void_in,
}
use pokedrop.Trades.Escrow.{close-ok}
use pokedrop.Packs.Opening.{PackTemplate, write}
use pokedrop.Admin.{
  find_entry, grant_entry, adjust, assert_not_self, target, notify_parties, mark_suspended,
  suspend_user, unsuspend_user, same_role, set_role, change_role, grant_in, announce_or_replay,
  grant_currency, grant_if_first_time, same_amount, or_unchanged, welcome_grant_amount,
  welcome_grant_ref,
}
use pokedrop.Admin.Grants.{grant_in-steps}
use pokedrop.Admin.Replays.{replay_grant-ok, grant_currency-IsGranted, IsGranted-replays}
use pokedrop.Admin.Welcome.{welcome, welcome-steps}
use pokedrop.System.Coins.{propose-accounts, counter-accounts}
use pokedrop.System.{
  Step, proposing, closing, accepting, countering, voiding_one, opening, suspending, unsuspending,
  changing_role, granting, notifying, welcoming, Reach, here, next,
}
use pokedrop.Trades.VoidAll.{Voided, void_all_pending_of, keys_of}
use pokedrop.System.Ledger.Entries.{Kept, Kept-same, Kept-trans}
use pokedrop.System.Ledger.Trading.{accept-Kept, void-Kept, write-Kept}
use pokedrop.System.Ledger.Members.{
  suspend_user-Kept, unsuspend_user-Kept, change_role-Kept, grant_currency-Kept, welcome-Kept,
}

-- No transaction takes an account away, or an entry of the ledger.
Step-Kept : {db db' : Database} → Step db db' → Kept db.accounts db'.accounts
Step-Kept {db = db} (proposing user recipient input id now e) =
    Kept-same db.accounts _ (propose-accounts user recipient input id now db e)
Step-Kept {db = db} (closing id t o now r s e) =
    Kept-same db.accounts _ (close-ok id t o now db e).2
Step-Kept {db = db} (accepting user id t now s e) = accept-Kept user id t now db e
Step-Kept {db = db} (countering user original t input id now s e) =
    Kept-same db.accounts _ (counter-accounts user original t input id now db e)
Step-Kept {db = db} (voiding_one admin id row now s e) = void-Kept admin id row now db e
Step-Kept {db = db} (opening user template open_id cards e) =
    write-Kept user template open_id cards db e
Step-Kept {db = db} (suspending actor id now e) = suspend_user-Kept actor id now db e
Step-Kept {db = db} (unsuspending actor id e) = unsuspend_user-Kept actor id db e
Step-Kept {db = db} (changing_role actor id role e) = change_role-Kept actor id role db e
Step-Kept {db = db} (granting actor id amount grant_id e) =
    grant_currency-Kept actor id amount grant_id db e
Step-Kept {db = db} (notifying users type id e) = Kept-same db.accounts _ (ap (λ d. d.accounts) e)
Step-Kept {db = db} (welcoming id e) = welcome-Kept id db e

Reach-Kept : {db later : Database} → Reach db later → Kept db.accounts later.accounts
Reach-Kept {db = db} here = Kept-same db.accounts db.accounts refl
Reach-Kept {db = db} {later = later} (next {mid = mid} r e) =
    Kept-trans db.accounts mid.accounts later.accounts (Reach-Kept r) (Step-Kept e)

-- Once a grant has succeeded, a request with its id for the same user, whatever transactions
-- commit in between, changes nothing and succeeds if it names the same amount, and is a conflict
-- otherwise.
pub grant_currency_again :
    (actor actor' id : UserId) (amount amount' : ℤ) (grant_id : ℕ) (db : Database)
    {db' later : Database}
    → grant_currency actor id amount grant_id db ≡ ok db'
    → Reach db' later
    → grant_currency actor' id amount' grant_id later
      ≡ (if same_amount amount amount' then ok later else err grant_id_conflict)
grant_currency_again actor actor' id amount amount' grant_id db {later = later} e r =
    let g = grant_currency-IsGranted actor id amount grant_id db e in
    let kept = Reach-Kept r in
    let (u, there) = kept.0 id g.user g.exists in
    IsGranted-replays actor' id amount amount' grant_id later (record {
      user = u;
      exists = there;
      entry = g.entry;
      found = kept.1 (grant_entry id amount grant_id) g.entry g.found;
      amount_same = g.amount_same;
    })
