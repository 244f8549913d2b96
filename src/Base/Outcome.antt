-- ===== src/Base/Outcome.antt =====
-- What a handler of the API can throw, as values, and the chain of steps that may throw.
use mathlib.Core.Path.{◌≡◌, refl}
use mathlib.Core.Bool.{Bool, true, false}

-- The domain errors, by their codes, and what the database or a failed assertion raises.
pub data Error : Type 0 where
  bad_request not_found forbidden : Error
  insufficient_funds cards_unavailable trade_not_pending trade_not_reversible : Error
  counter_limit pack_unavailable open_id_conflict grant_id_conflict : Error
  self_target last_admin : Error
  bad_quantity repeated_card escrow_broken : Error
  check_violation unique_violation foreign_key_violation : Error
  range_error empty_slot : Error

pub data Result {ℓ} (A : Type ℓ) : Type ℓ where
  ok : A → Result A
  err : Error → Result A

-- Whether an error is a domain error, which carries a code (packages/shared/src/primitives/error.ts).
abbrev pub has_code : Error → Bool
has_code insufficient_funds = true
has_code cards_unavailable = true
has_code trade_not_pending = true
has_code trade_not_reversible = true
has_code counter_limit = true
has_code pack_unavailable = true
has_code open_id_conflict = true
has_code grant_id_conflict = true
has_code self_target = true
has_code last_admin = true
has_code _ = false

infixl 5 ◌>>=◌ ◌>>◌
abbrev pub ◌>>=◌ {ℓ κ} : {A : Type ℓ} {B : Type κ} → Result A → (A → Result B) → Result B
ok x >>= step = step x
err thrown >>= step = err thrown

abbrev pub ◌>>◌ {ℓ} : {B : Type ℓ} → Result (Unit {0}) → (rest : Result B) → Result B
first >> rest = first >>= λ _. rest

abbrev pub require : Bool → Error → Result (Unit {0})
require true thrown = ok tt
require false thrown = err thrown

-- Inversion of a successful chain, for proofs where the parts stay shut.
pub >>=-eq-ok {ℓ κ} :
    {A : Type ℓ} {B : Type κ} (first : Result A) (step : A → Result B) {b : B}
    → (first >>= step) ≡ ok b
    → (x : A) × (first ≡ ok x) × (step x ≡ ok b)
>>=-eq-ok (ok x) step e = (x, refl, e)
>>=-eq-ok (err thrown) step e = cc

pub require-eq-ok : (b : Bool) (e : Error) → require b e ≡ ok tt → b ≡ true
require-eq-ok true e h = refl
require-eq-ok false e h = cc

pub ok-injective {ℓ} : {A : Type ℓ} {a b : A} → ok a ≡ ok b → a ≡ b
ok-injective e = cc
