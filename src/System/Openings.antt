-- ===== src/System/Openings.antt =====
-- The row of an opening stays as it is, whatever transactions commit.
mod Trading
mod Members
mod Writing
use pokedrop.Base.{
  ℕ, ◌≡◌, refl, sym, ◌∙◌, false, Option, none, some, List, [], ◌∷◌, ok, err, Result, arith,
  Option-cases, Bool-cases, inl, inr, >>=-eq-ok, ok-injective, require, ltb, length, counter_limit,
}
use pokedrop.Base.Int.{ℤ}
use pokedrop.Base.Dict.{Dict, lookup, insert, lookup-insert}
use pokedrop.Inventory.{UserId, lock}
use pokedrop.Wallet.{User, Role, balance}
use pokedrop.Schema.Trade.{
  TradeId, TradeTerms, TradeRow, TradeInput, pending, accepted, countered, same_status,
  max_counter_chain,
}
use pokedrop.Schema.Database.{Database, PackOpening, PulledCard, TradeAction}
use pokedrop.Trades.{
  CloseOptions, close, settle, reverse, create_trade, new_terms, propose_in, accept_in, counter_in,
  swap_locks, chain_length, closes, void_in,
}
use pokedrop.Trades.VoidAll.{Voided, void_all_pending_of, keys_of}
use pokedrop.Admin.{
  assert_not_self, target, notify_parties, mark_suspended, suspend_user, unsuspend_user, same_role,
  set_role, change_role, grant_in, replay_grant, announce_or_replay, grant_currency,
  grant_if_first_time,
}
use pokedrop.Packs.Generator.{Rng, CardPool}
use pokedrop.Packs.Opening.{PackTemplate, PackOpenResult, write, open_pack}
use pokedrop.Packs.Opening.Once.{recorded-opening, open_pack_twice}
use pokedrop.System.{
  Step, proposing, closing, accepting, countering, voiding_one, opening, suspending, unsuspending,
  changing_role, granting, notifying, welcoming, Reach, here, next,
}
use pokedrop.System.Openings.Trading.{
  close-openings, propose-openings, accept-openings, counter-openings, void-openings,
}
use pokedrop.System.Openings.Members.{
  suspend_user-openings, unsuspend_user-openings, change_role-openings, grant_currency-openings,
  welcome-openings,
}
use pokedrop.System.Openings.Writing.{write-openings}

-- No transaction changes the row of an opening.
Step-openings :
    {db db' : Database} (k : ℕ) (o : PackOpening)
    → Step db db'
    → lookup k db.openings ≡ some o
    → lookup k db'.openings ≡ some o
Step-openings {db = db} k o (proposing user recipient input id now e) there =
    rw (propose-openings user recipient input id now db e) there
Step-openings {db = db} k o (closing id t p now r s e) there =
    rw (close-openings id t p now db e) there
Step-openings {db = db} k o (accepting user id t now s e) there =
    rw (accept-openings user id t now db e) there
Step-openings {db = db} k o (countering user original t input id now s e) there =
    rw (counter-openings user original t input id now db e) there
Step-openings {db = db} k o (voiding_one admin id row now s e) there =
    rw (void-openings admin id row now db e) there
Step-openings {db = db} k o (opening user template open_id cards e) there =
    write-openings user template open_id cards db k o e there
Step-openings {db = db} k o (suspending actor id now e) there =
    rw (suspend_user-openings actor id now db e) there
Step-openings {db = db} k o (unsuspending actor id e) there =
    rw (unsuspend_user-openings actor id db e) there
Step-openings {db = db} k o (changing_role actor id role e) there =
    rw (change_role-openings actor id role db e) there
Step-openings {db = db} k o (granting actor id amount grant_id e) there =
    rw (grant_currency-openings actor id amount grant_id db e) there
Step-openings {db = db} k o (notifying users type id e) there = rw e there
Step-openings {db = db} k o (welcoming id e) there = rw (welcome-openings id db e) there

Reach-openings :
    {db later : Database} (k : ℕ) (o : PackOpening)
    → Reach db later
    → lookup k db.openings ≡ some o
    → lookup k later.openings ≡ some o
Reach-openings k o here there = there
Reach-openings k o (next r e) there = Step-openings k o e (Reach-openings k o r there)

-- Once an opening has succeeded, the same request, whatever transactions commit in between and
-- whatever the pool and the randomness are by then, answers the same cards with the balance of
-- then and changes nothing.
pub open_pack_again :
    {S : Type 0} (rng : Rng S) (user : UserId) (template : PackTemplate) (open_id : ℕ)
    (pool pool' : CardPool) (s s' : S) (db later : Database) {r : PackOpenResult}
    → open_pack rng user template open_id pool s db ≡ ok r
    → Reach r.database later
    → open_pack rng user template open_id pool' s' later
      ≡ ok (record { cards = r.cards; balance = balance user later.accounts; database = later })
open_pack_again rng user template open_id pool pool' s s' db later e reached =
    let made = recorded-opening rng user template open_id pool s db e in
    open_pack_twice rng user template open_id pool pool' s s' db later e
      (Reach-openings open_id _ reached made ∙ sym made)
