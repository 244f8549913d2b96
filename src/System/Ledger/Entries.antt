-- ===== src/System/Ledger/Entries.antt =====
-- What the writes of apps/api/src/economy keep of the accounts and the ledger.
use pokedrop.Base.{
  ℕ, ◌≡◌, ◌+◌, ◌-◌, refl, true, false, some, List, [], ◌∷◌, ok, ◌==◌, arith, some_of, Error,
  Option-cases, Bool-cases, inl, inr,
}
use pokedrop.Base.Int.{ℤ, pos, negsuc, sub_ℕ, pos_part, neg_part}
use pokedrop.Base.Dict.{lookup, insert, lookup-insert}
use pokedrop.Inventory.{UserId}
use pokedrop.Wallet.{User, CurrencyTransaction, Accounts, same_key, create_entry, debit, credit}
use pokedrop.Admin.{find_entry, adjust}

-- Every account, and every entry that is found by its key, is still there.
abbrev pub Kept : Accounts → Accounts → Type 0
Kept a b =
    ((id : UserId) (u : User)
      → lookup id a.users ≡ some u
      → (v : User) × (lookup id b.users ≡ some v))
    × ((e f : CurrencyTransaction)
        → find_entry e a.ledger ≡ some f
        → find_entry e b.ledger ≡ some f)

pub Kept-same : (a b : Accounts) → b ≡ a → Kept a b
Kept-same a b e = rw e ((λ id u there. (u, there)), λ e f h. h)

pub Kept-trans : (a b c : Accounts) → Kept a b → Kept b c → Kept a c
Kept-trans a b c h k = (
  (λ id u there. let (v, kept) = h.0 id u there in k.0 id v kept),
  λ e f found. k.1 e f (h.1 e f found),
)

pub Kept-insert :
    (id : UserId) (v : User) (a b : Accounts)
    → b.users ≡ insert id v a.users
    → b.ledger ≡ a.ledger
    → Kept a b
Kept-insert id v a b users ledger = (
  (λ j u there. elim (Bool-cases (id == j)) [
    | inl same ↦ (v, ground (arith, users, same, lookup-insert id j v a.users))
    | inr other ↦ (u, ground (arith, users, other, there, lookup-insert id j v a.users))
  ]),
  λ e f found. rw ledger found,
)

found_is_recorded :
    (e x : CurrencyTransaction) (l : List CurrencyTransaction) {f : CurrencyTransaction}
    → same_key e x ≡ true
    → find_entry e l ≡ some f
    → some_of (same_key x) l ≡ true
found_is_recorded e x [] s h = absurd (cc)
found_is_recorded e x (g ∷ l) s h = elim (Bool-cases (same_key e g)) [
  | inl first ↦ ground (arith, s, first)
  | inr later ↦ ground (arith, found_is_recorded e x l s (rw later at h))
]

pub create_entry-Kept :
    (x : CurrencyTransaction) (a : Accounts) {b : Accounts} → create_entry x a ≡ ok b → Kept a b
unfolding create_entry
create_entry-Kept x a {b = b} h =
    let (users, ledger, new) = made x a h in
    (
      (λ id u there. (u, rw users there)),
      λ e f found. rw ledger (elim (Bool-cases (same_key e x)) [
        | inr other ↦ rw other found
        | inl same ↦ absurd (let s = found_is_recorded e x a.ledger same found in cc)
      ]),
    )
  where
    made :
        (x : CurrencyTransaction) (a : Accounts) {b : Accounts}
        → create_entry x a ≡ ok b
        → (b.users ≡ a.users) × (b.ledger ≡ x ∷ a.ledger) × (some_of (same_key x) a.ledger ≡ false)
    made x a h = ground arith

pub debit-Kept :
    (u : UserId) (n : ℕ) (e : Error) (a : Accounts) {b : Accounts} → debit u n e a ≡ ok b → Kept a b
unfolding debit
debit-Kept u n e a {b = b} h = elim (Option-cases (lookup u a.users)) [
  | inl missing ↦ absurd (ground (arith, missing))
  | inr (user, there) ↦
      Kept-insert u (record user { currency = user.currency - n }) a b (ground (arith, there))
        (ground (arith, there))
]

pub credit-Kept : (u : UserId) (n : ℕ) (a : Accounts) → Kept a (credit u n a)
unfolding credit
credit-Kept u n a = elim (Option-cases (lookup u a.users)) [
  | inl missing ↦ Kept-same a _ (rw (credit, missing) refl)
  | inr (user, there) ↦
      Kept-insert u (record user { currency = user.currency + n }) a _ (rw (credit, there) refl)
        (rw (credit, there) refl)
]

pub adjust-Kept :
    (id : UserId) (amount : ℤ) (a : Accounts) {b : Accounts} → adjust id amount a ≡ ok b → Kept a b
unfolding adjust
adjust-Kept id amount a {b = b} e = elim (Option-cases (lookup id a.users)) [
  | inl missing ↦ absurd (ground (arith, missing))
  | inr (u, there) ↦ go u there (sub_ℕ (u.currency + pos_part amount) (neg_part amount)) refl
]
  where
    go :
        (u : User)
        → lookup id a.users ≡ some u
        → (q : ℤ) → sub_ℕ (u.currency + pos_part amount) (neg_part amount) ≡ q
        → Kept a b
    go u there (pos n) s =
        Kept-insert id (record u { currency = n }) a b (ground (arith, there, s))
          (ground (arith, there, s))
    go u there (negsuc n) s = absurd (ground (arith, there, s))
