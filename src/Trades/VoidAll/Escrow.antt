-- ===== src/Trades/VoidAll/Escrow.antt =====
-- Voiding all of a user's pending trades keeps the lock invariant: each initiator's lock falls by
-- what the voided trades offered.
use pokedrop.Base.{
  ℕ, ◌+◌, ◌≡◌, refl, sym, Option, none, some, List, [], ◌∷◌, ◌==◌, leb, if◌then◌else◌, sum_of,
  sum_of-sort_by, sort_by, ok, >>=-eq-ok, arith,
}
use pokedrop.Base.Dict.{Dict, lookup, sum_rows}
use pokedrop.Inventory.{UserId, CardId, Inventory, quantity_of, locked_of, release}
use pokedrop.Inventory.Locking.{release_at}
use pokedrop.Schema.Trade.{TradeRow}
use pokedrop.Schema.Database.{Database}
use pokedrop.Trades.Promises.{promised}
use pokedrop.Trades.Escrow.{EscrowAt}
use pokedrop.Trades.VoidAll.{
  Locks, get_locks, changes_of, keys_of, void_rows, voided_rows, tally_locks, release_each,
  void_all_pending_of, Voided,
}
use pokedrop.Trades.VoidAll.Tally.{
  IsUnique, IsTally, get_locks-IsUnique, tally_locks-IsTally, count_at, offered_in, tally_locks_at,
  asked-changes_of, sum_of-keys_of,
}

IsTally-IsUnique : (locks : Locks) → IsTally locks → IsUnique locks
IsTally-IsUnique [] h = tt
IsTally-IsUnique (e ∷ locks) h = (h.0, IsTally-IsUnique locks h.2)

release_each_at :
    (us : List UserId) (locks : Locks) (inv : Inventory) {inv' : Inventory} (u : UserId)
    (c : CardId)
    → IsTally locks
    → release_each us locks inv ≡ ok inv'
    → (quantity_of (inv' u c) ≡ quantity_of (inv u c))
      × (locked_of (inv' u c) + sum_of (λ v. if v == u then count_at u c locks else 0) us
          ≡ locked_of (inv u c))
unfolding release_each
release_each_at [] locks inv u c h e = ground arith
release_each_at (v ∷ us) locks inv u c h e =
    let (mid, a, b) =
      >>=-eq-ok (release v (changes_of (get_locks v locks)) inv) (release_each us locks) e in
    ground (
      arith,
      release_at v (changes_of (get_locks v locks)) inv u c a,
      asked-changes_of c (get_locks v locks) (get_locks-IsUnique v locks h),
      release_each_at us locks mid u c h b,
    )

promised-void_rows :
    (user : UserId) (now : ℕ) (rows : Dict TradeRow) (u : UserId) (c : CardId)
    → promised u c (void_rows user now rows) + offered_in u c (voided_rows user rows)
      ≡ promised u c rows
unfolding void_rows voided_rows sum_rows
promised-void_rows user now [] u c = refl
promised-void_rows user now ((id, row) ∷ rows) u c =
    ground (arith, promised-void_rows user now rows u c)

present_only :
    (o : Option (Dict ℕ)) (n : ℕ) → (o ≡ none → n ≡ 0) → (elim o [ none ↦ 0 | some _ ↦ n ]) ≡ n
present_only none n h = sym (h refl)
present_only (some _) n h = refl

count_at-absent :
    (u : UserId) (c : CardId) (locks : Locks) → lookup u locks ≡ none → count_at u c locks ≡ 0
unfolding lookup
count_at-absent u c locks e = ground (arith, e)

-- Releasing once per initiator returns what the tally counts at each row.
release_tally_at :
    (locks : Locks) (inv : Inventory) {inv' : Inventory} (u : UserId) (c : CardId)
    → IsTally locks
    → release_each (sort_by leb (keys_of locks)) locks inv ≡ ok inv'
    → (quantity_of (inv' u c) ≡ quantity_of (inv u c))
      × (locked_of (inv' u c) + count_at u c locks ≡ locked_of (inv u c))
release_tally_at locks inv u c h e =
    let (same, moved) = release_each_at (sort_by leb (keys_of locks)) locks inv u c h e in
    (
      same,
      omega (
        arith,
        moved,
        sum_of-sort_by (λ v. if v == u then count_at u c locks else 0) leb (keys_of locks),
        sum_of-keys_of u (count_at u c locks) locks (IsTally-IsUnique locks h),
        present_only (lookup u locks) (count_at u c locks) (count_at-absent u c locks),
      ),
    )

pub void_all-ok :
    (user : UserId) (actor : Option UserId) (now : ℕ) (db : Database) {out : Voided}
    → void_all_pending_of user actor now db ≡ ok out
    → (release_each
          (sort_by leb (keys_of (tally_locks (voided_rows user db.trades) [])))
          (tally_locks (voided_rows user db.trades) [])
          db.inventory
        ≡ ok out.database.inventory)
      × (out.database.trades ≡ void_rows user now db.trades)
      × (out.database.accounts ≡ db.accounts)
      × (out.rows ≡ voided_rows user db.trades)
unfolding void_all_pending_of
void_all-ok user actor now db e = ground arith

pub void_all-EscrowAt :
    (user : UserId) (actor : Option UserId) (now : ℕ) (db : Database) {out : Voided} (u : UserId)
    (c : CardId)
    → void_all_pending_of user actor now db ≡ ok out
    → EscrowAt u c db
    → EscrowAt u c out.database
unfolding lookup
void_all-EscrowAt user actor now db u c e h =
    let (released, rows, _, _) = void_all-ok user actor now db e in
    ground (
      arith,
      h,
      rows,
      release_tally_at (tally_locks (voided_rows user db.trades) []) db.inventory u c
          (tally_locks-IsTally (voided_rows user db.trades) [] tt) released,
      tally_locks_at (voided_rows user db.trades) [] u c,
      promised-void_rows user now db.trades u c,
    )
