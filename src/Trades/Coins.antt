-- ===== src/Trades/Coins.antt =====
-- The coins of a settlement and of its reversal: each party pays the net amount, and the ledger
-- says so.
use pokedrop.Base.{
  ℕ, zero, suc, ◌+◌, ◌≡◌, refl, sym, ap, ◌∙◌, Bool, true, false, some, ◌==◌, if◌then◌else◌, ok,
  >>=-eq-ok, arith, Option-cases, inl, inr,
}
use pokedrop.Base.Int.{ℤ, pos, negsuc, sub_ℕ, neg, ◌+ℤ◌}
use pokedrop.Base.Dict.{lookup}
use pokedrop.Inventory.{UserId}
use pokedrop.Wallet.{
  User, Accounts, CurrencyTransaction, balance, create_entry, debit, credit, ledger_sum,
  IsReconciledAt,
}
use pokedrop.Wallet.Laws.{create_entry_at, debit_at, credit_at}
use pokedrop.Schema.Trade.{TradeId, TradeTerms}
use pokedrop.Trades.{
  Direction, settling, reversing, debit_error, entry_type, pay, pay_from, move_net, move_coins,
}

-- A row can be written for the payee only if the payee exists, so the credit went through.
credit_seen :
    (u : UserId) (n : ℕ) (a : Accounts) {user : User}
    → lookup u (credit u n a).users ≡ some user
    → (before : User) × (lookup u a.users ≡ some before)
unfolding credit
credit_seen u n a e = elim (Option-cases (lookup u a.users)) [
  | inl missing ↦ ground (arith, missing)
  | inr there ↦ there
]

abbrev out_entry : TradeId → Direction → UserId → ℕ → CurrencyTransaction
out_entry id d u n = record { user = u; amount = neg (pos n); type = entry_type d; ref = id }

abbrev in_entry : TradeId → Direction → UserId → ℕ → CurrencyTransaction
in_entry id d u n = record { user = u; amount = pos n; type = entry_type d; ref = id }

abbrev Paid : UserId → UserId → ℕ → Accounts → Accounts → UserId → Type 0
Paid payer payee n a a' u =
    (balance u a' + (if payer == u then n else 0) ≡ balance u a + (if payee == u then n else 0))
    × (ledger_sum u a'.ledger
        ≡ (if payee == u then pos n else pos 0)
          +ℤ ((if payer == u then neg (pos n) else pos 0) +ℤ ledger_sum u a.ledger))

steps-Paid :
    (id : TradeId) (d : Direction) (payer payee : UserId) (n : ℕ) (a debited paid a' : Accounts)
    (u : UserId)
    → debit payer n (debit_error d) a ≡ ok debited
    → create_entry (out_entry id d payer n) (credit payee n debited) ≡ ok paid
    → create_entry (in_entry id d payee n) paid ≡ ok a'
    → Paid payer payee n a a' u
steps-Paid id d payer payee n a debited paid a' u e₁ e₂ e₃ =
    let (users₂, ledger₂, _) =
      create_entry_at (out_entry id d payer n) (credit payee n debited) e₂ in
    let (users₃, ledger₃, (there, seen)) = create_entry_at (in_entry id d payee n) paid e₃ in
    let (before, known) = credit_seen payee n debited (ap (lookup payee) (sym users₂) ∙ seen) in
    let (m₁, l₁) = debit_at payer n (debit_error d) a u e₁ in
    let (m₂, l₂) = credit_at payee n debited u known in
    (rw (users₃, users₂) (omega (arith, m₁, m₂)), rw (ledger₃, ledger₂, l₂, l₁) refl)

-- A payment moves its amount, writes its two entries, and leaves every other user alone.
pay-Paid :
    (id : TradeId) (d : Direction) (payer payee : UserId) (n : ℕ) (a : Accounts) {a' : Accounts}
    (u : UserId)
    → pay id d payer payee n a ≡ ok a'
    → Paid payer payee n a a' u
unfolding pay
pay-Paid id d payer payee n a {a' = a'} u e =
    let (debited, e₁, rest) = >>=-eq-ok (debit payer n (debit_error d) a) _ e in
    let (paid, e₂, e₃) =
      >>=-eq-ok (create_entry (out_entry id d payer n) (credit payee n debited)) _ rest in
    steps-Paid id d payer payee n a debited paid a' u e₁ e₂ e₃

reconcile_step :
    (p q : Bool) (n b b' : ℕ) (s s' : ℤ)
    → pos b ≡ s
    → b' + (if p then n else 0) ≡ b + (if q then n else 0)
    → s' ≡ (if q then pos n else pos 0) +ℤ ((if p then neg (pos n) else pos 0) +ℤ s)
    → pos b' ≡ s'
unfolding ◌+ℤ◌
reconcile_step true true n b b' s s' r m l = ground arith
reconcile_step p q n b b' s s' r m l = ground arith

Paid-IsReconciled :
    (payer payee : UserId) (n : ℕ) (a a' : Accounts) (u : UserId)
    → Paid payer payee n a a' u
    → IsReconciledAt u a
    → IsReconciledAt u a'
Paid-IsReconciled payer payee n a a' u (m, l) r =
    reconcile_step (payer == u) (payee == u) n (balance u a) (balance u a') (ledger_sum u a.ledger)
      (ledger_sum u a'.ledger) r m l

-- What the terms promise: the coins that a party pays and gets in the settlement.
abbrev pub pays : TradeTerms → UserId → ℕ
pays t u =
    (if t.initiator == u then t.currency_from_initiator else 0)
    + (if t.recipient == u then t.currency_from_recipient else 0)

abbrev pub gets : TradeTerms → UserId → ℕ
gets t u =
    (if t.initiator == u then t.currency_from_recipient else 0)
    + (if t.recipient == u then t.currency_from_initiator else 0)

abbrev other : TradeTerms → UserId → UserId
other t u = if u == t.initiator then t.recipient else t.initiator

pay_from_at :
    (id : TradeId) (t : TradeTerms) (u₀ : UserId) (n : ℕ) (a : Accounts) {a' : Accounts}
    (u : UserId)
    → pay_from id t settling u₀ n a ≡ ok a'
    → Paid u₀ (other t u₀) n a a' u × (IsReconciledAt u a → IsReconciledAt u a')
unfolding pay_from
pay_from_at id t u₀ n a {a' = a'} u e =
    let paid = pay-Paid id settling u₀ (other t u₀) n a u e in
    (paid, Paid-IsReconciled u₀ (other t u₀) n a a' u paid)

pay_back_at :
    (id : TradeId) (t : TradeTerms) (u₀ : UserId) (n : ℕ) (a : Accounts) {a' : Accounts}
    (u : UserId)
    → pay_from id t reversing u₀ n a ≡ ok a'
    → Paid (other t u₀) u₀ n a a' u × (IsReconciledAt u a → IsReconciledAt u a')
unfolding pay_from
pay_back_at id t u₀ n a {a' = a'} u e =
    let paid = pay-Paid id reversing (other t u₀) u₀ n a u e in
    (paid, Paid-IsReconciled (other t u₀) u₀ n a a' u paid)

abbrev pub Settled : TradeTerms → Accounts → Accounts → UserId → Type 0
Settled t a a' u =
    (balance u a' + pays t u ≡ balance u a + gets t u) × (IsReconciledAt u a → IsReconciledAt u a')

abbrev pub Reversed : TradeTerms → Accounts → Accounts → UserId → Type 0
Reversed t a a' u =
    (balance u a' + gets t u ≡ balance u a + pays t u) × (IsReconciledAt u a → IsReconciledAt u a')

move_net-Settled :
    (id : TradeId) (t : TradeTerms) (q : ℤ) (a : Accounts) {a' : Accounts} (u : UserId)
    → sub_ℕ t.currency_from_recipient t.currency_from_initiator ≡ q
    → (t.initiator == t.recipient) ≡ false
    → move_net id t settling q a ≡ ok a'
    → Settled t a a' u
unfolding move_net
move_net-Settled id t (pos zero) a u s apart e = ground arith
move_net-Settled id t (pos (suc n)) a u s apart e =
    let (paid, kept) = pay_from_at id t t.recipient (suc n) a u e in
    (ground (arith, paid.0, apart, s), kept)
move_net-Settled id t (negsuc n) a u s apart e =
    let (paid, kept) = pay_from_at id t t.initiator (suc n) a u e in
    (ground (arith, paid.0, apart, s), kept)

move_net-Reversed :
    (id : TradeId) (t : TradeTerms) (q : ℤ) (a : Accounts) {a' : Accounts} (u : UserId)
    → sub_ℕ t.currency_from_recipient t.currency_from_initiator ≡ q
    → (t.initiator == t.recipient) ≡ false
    → move_net id t reversing q a ≡ ok a'
    → Reversed t a a' u
unfolding move_net
move_net-Reversed id t (pos zero) a u s apart e = ground arith
move_net-Reversed id t (pos (suc n)) a u s apart e =
    let (paid, kept) = pay_back_at id t t.recipient (suc n) a u e in
    (ground (arith, paid.0, apart, s), kept)
move_net-Reversed id t (negsuc n) a u s apart e =
    let (paid, kept) = pay_back_at id t t.initiator (suc n) a u e in
    (ground (arith, paid.0, apart, s), kept)

pub move_coins-Settled :
    (id : TradeId) (t : TradeTerms) (a : Accounts) {a' : Accounts} (u : UserId)
    → (t.initiator == t.recipient) ≡ false
    → move_coins id t settling a ≡ ok a'
    → Settled t a a' u
unfolding move_coins
move_coins-Settled id t a u apart e = move_net-Settled id t _ a u refl apart e

pub move_coins-Reversed :
    (id : TradeId) (t : TradeTerms) (a : Accounts) {a' : Accounts} (u : UserId)
    → (t.initiator == t.recipient) ≡ false
    → move_coins id t reversing a ≡ ok a'
    → Reversed t a a' u
unfolding move_coins
move_coins-Reversed id t a u apart e = move_net-Reversed id t _ a u refl apart e
