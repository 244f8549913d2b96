-- ===== src/Packs/Opening/Effects.antt =====
-- What an opening does: it charges the cost once, mints exactly the cards drawn, and answers a
-- second request with the same `openId` with the same cards.
use pokedrop.Base.{
  ℕ, ◌+◌, ◌≡◌, refl, Bool, true, none, some, List, [], ◌∷◌, ◌==◌, if◌then◌else◌, sum_of,
  sum_of-sort_by, sort_by, ok, arith, insufficient_funds,
}
use pokedrop.Base.Int.{ℤ, pos, neg, ◌+ℤ◌}
use pokedrop.Base.Dict.{Dict, lookup, insert, lookup-insert}
use pokedrop.Inventory.{
  UserId, CardId, Inventory, put, put_lem, receive_row, quantity_of, locked_of,
}
use pokedrop.Wallet.{
  Accounts, pack_spend, debit, create_entry, balance, IsReconciledAt, ledger_sum,
  CurrencyTransaction,
}
use pokedrop.Wallet.Laws.{create_entry_at, debit_at}
use pokedrop.Schema.Database.{Database, PulledCard}
use pokedrop.Packs.Opening.{PackTemplate, get_count, tally, mint_rows, by_card, mint, write}

-- How many of the cards are the card.
abbrev pub copies : CardId → List PulledCard → ℕ
copies c = sum_of (λ x. if x.card == c then 1 else 0)

abbrev rows_of : CardId → Dict ℕ → ℕ
rows_of c = sum_of (λ e. if e.0 == c then e.1 else 0)

rows_of-insert :
    (c k n : ℕ) (d : Dict ℕ)
    → rows_of c (insert k (get_count k d + n) d) ≡ rows_of c d + (if k == c then n else 0)
unfolding insert lookup
rows_of-insert c k n [] = ground arith
rows_of-insert c k n ((j, m) ∷ d) = ground (arith, rows_of-insert c k n d)

tally-rows :
    (c : CardId) (cards : List PulledCard) (counts : Dict ℕ)
    → rows_of c (tally cards counts) ≡ rows_of c counts + copies c cards
unfolding tally
tally-rows c [] counts = omega arith
tally-rows c (x ∷ xs) counts = ground (
  arith,
  rows_of-insert c x.card 1 counts,
  tally-rows c xs (insert x.card (get_count x.card counts + 1) counts),
)

mint_rows_at :
    (v : UserId) (rows : Dict ℕ) (inv : Inventory) (u : UserId) (c : CardId)
    → (quantity_of (mint_rows v rows inv u c)
        ≡ quantity_of (inv u c) + (if v == u then rows_of c rows else 0))
      × (locked_of (mint_rows v rows inv u c) ≡ locked_of (inv u c))
unfolding mint_rows receive_row
mint_rows_at v [] inv u c = ground arith
mint_rows_at v ((d, n) ∷ rows) inv u c =
    let row = some (receive_row n (inv v d)) in
    ground (arith, put_lem v d row inv u c, mint_rows_at v rows (put v d row inv) u c)

pub mint_at :
    (v : UserId) (cards : List PulledCard) (inv : Inventory) (u : UserId) (c : CardId)
    → (quantity_of (mint v cards inv u c)
        ≡ quantity_of (inv u c) + (if v == u then copies c cards else 0))
      × (locked_of (mint v cards inv u c) ≡ locked_of (inv u c))
unfolding mint
mint_at v cards inv u c = ground (
  arith,
  mint_rows_at v (sort_by by_card (tally cards [])) inv u c,
  sum_of-sort_by (λ (e : ℕ × ℕ). if e.0 == c then e.1 else 0) by_card (tally cards []),
  tally-rows c cards [],
)

spend_entry : UserId → ℕ → ℕ → CurrencyTransaction
spend_entry u cost open_id = record {
  user = u;
  amount = neg (pos cost);
  type = pack_spend;
  ref = open_id;
}

-- What a committed opening has done.
pub record Opened (user : UserId) (template : PackTemplate) (open_id : ℕ) (cards : List PulledCard)
    (db db' : Database) : Type 0 where
  pub charged :
      (u : UserId)
      → balance u db'.accounts + (if user == u then template.cost else 0) ≡ balance u db.accounts
  pub reconciled : (u : UserId) → IsReconciledAt u db.accounts → IsReconciledAt u db'.accounts
  pub minted :
      (u : UserId) (c : CardId)
      → quantity_of (db'.inventory u c)
        ≡ quantity_of (db.inventory u c) + (if user == u then copies c cards else 0)
  pub unlocked :
      (u : UserId) (c : CardId) → locked_of (db'.inventory u c) ≡ locked_of (db.inventory u c)
  pub recorded :
      lookup open_id db'.openings
      ≡ some (record { user = user; template = template.id; cards = cards })
  pub was_new : lookup open_id db.openings ≡ none
  pub trades_same : db'.trades ≡ db.trades

reconcile_spend :
    (p : Bool) (n b b' : ℕ) (s s' : ℤ)
    → pos b ≡ s
    → b' + (if p then n else 0) ≡ b
    → s' ≡ (if p then neg (pos n) else pos 0) +ℤ s
    → pos b' ≡ s'
unfolding ◌+ℤ◌
reconcile_spend true n b b' s s' r m l = ground arith
reconcile_spend p n b b' s s' r m l = ground arith

steps-charged :
    (user : UserId) (cost open_id : ℕ) (a debited a' : Accounts) (u : UserId)
    → debit user cost insufficient_funds a ≡ ok debited
    → create_entry (spend_entry user cost open_id) debited ≡ ok a'
    → (balance u a' + (if user == u then cost else 0) ≡ balance u a)
      × (IsReconciledAt u a → IsReconciledAt u a')
unfolding spend_entry
steps-charged user cost open_id a debited a' u e₁ e₂ =
    let (m, l) = debit_at user cost insufficient_funds a u e₁ in
    let (users, ledger, _) = create_entry_at (spend_entry user cost open_id) debited e₂ in
    let moved : balance u a' + (if user == u then cost else 0) ≡ balance u a = rw users m in
    (
      moved,
      λ r.
          reconcile_spend (user == u) cost (balance u a) (balance u a') (ledger_sum u a.ledger)
            (ledger_sum u a'.ledger) r moved (rw (ledger, l) refl),
    )

write-ok :
    (user : UserId) (template : PackTemplate) (open_id : ℕ) (cards : List PulledCard)
    (db : Database) {db' : Database}
    → write user template open_id cards db ≡ ok db'
    → (lookup open_id db.openings ≡ none)
      × ((debited : Accounts) × (debit user template.cost insufficient_funds db.accounts
            ≡ ok debited)
          × (create_entry (spend_entry user template.cost open_id) debited ≡ ok db'.accounts))
      × (db'.inventory ≡ mint user cards db.inventory)
      × (db'.openings
          ≡ insert open_id
              (record { user = user; template = template.id; cards = cards })
              db.openings)
      × (db'.trades ≡ db.trades)
unfolding write spend_entry
write-ok user template open_id cards db e = ground arith

pub write-Opened :
    (user : UserId) (template : PackTemplate) (open_id : ℕ) (cards : List PulledCard)
    (db : Database) {db' : Database}
    → write user template open_id cards db ≡ ok db'
    → Opened user template open_id cards db db'
write-Opened user template open_id cards db {db' = db'} e =
    let (fresh, (debited, e₁, e₂), inv, opened, trades) =
      write-ok user template open_id cards db e in
    record {
      charged = λ u.
          (steps-charged user template.cost open_id db.accounts debited db'.accounts u e₁ e₂).0;
      reconciled = λ u.
          (steps-charged user template.cost open_id db.accounts debited db'.accounts u e₁ e₂).1;
      minted = λ u c. rw inv (mint_at user cards db.inventory u c).0;
      unlocked = λ u c. rw inv (mint_at user cards db.inventory u c).1;
      recorded = rw opened (
          ground (
            arith,
            lookup-insert open_id open_id
                (record { user = user; template = template.id; cards = cards }) db.openings,
          ));
      was_new = fresh;
      trades_same = trades;
    }
