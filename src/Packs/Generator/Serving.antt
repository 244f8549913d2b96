-- ===== src/Packs/Generator/Serving.antt =====
-- The fallback: which bucket a roll is served from when its own may be empty.
use mathlib.Core.List.{reverse-cons, reverse-append}
use pokedrop.Base.{
  ℕ, zero, suc, ◌<◌, ◌≡◌, ◌↔◌, refl, sym, ap, ◌∙◌, Bool, true, false, ◌||◌, none, some, List, [],
  ◌∷◌, ◌++◌, ltb, ◌==◌, reverse, length, if◌then◌else◌, take, drop, get_elem?, arith, Bool-cases,
  Option-cases, inl, inr, some_of,
}
use pokedrop.Base.Dict.{lookup}
use pokedrop.Inventory.{CardId}
use pokedrop.Packs.Ladder.{Rung, Rarity}
use pokedrop.Packs.Generator.{CardPool, Found, first_filled, search_order, resolve}

abbrev pub bucket_of : CardPool → Rarity → List CardId
bucket_of pool r = elim (lookup r pool) [ none ↦ [] | some bucket ↦ bucket ]

-- Whether the pool has a card of the rung's rarity.
abbrev pub is_filled : CardPool → Rung → Bool
is_filled pool rung = ltb 0 (length (bucket_of pool rung.rarity))

first_filled_lem :
    (rung : Rung) (rungs : List Rung) (pool : CardPool)
    → first_filled (rung ∷ rungs) pool ≡ (
        if is_filled pool rung
        then some (record { rarity = rung.rarity; bucket = bucket_of pool rung.rarity })
        else first_filled rungs pool)
unfolding first_filled
first_filled_lem rung rungs pool = elim (Option-cases (lookup rung.rarity pool)) [
  | inl e ↦ ground (arith, e)
  | inr (b, e) ↦ ground (arith, e)
]

first_filled-append :
    (xs ys : List Rung) (pool : CardPool)
    → first_filled (xs ++ ys) pool
      ≡ (if some_of (is_filled pool) xs then first_filled xs pool else first_filled ys pool)
first_filled-append [] ys pool = refl
first_filled-append (x ∷ xs) ys pool = ground (
  arith,
  first_filled_lem x xs pool,
  first_filled_lem x (xs ++ ys) pool,
  first_filled-append xs ys pool,
)

some_of-append {ℓ} :
    {A : Type ℓ} (p : A → Bool) (xs ys : List A)
    → some_of p (xs ++ ys) ≡ (some_of p xs || some_of p ys)
some_of-append p [] ys = refl
some_of-append p (x ∷ xs) ys = ground (arith, some_of-append p xs ys)

some_of-reverse {ℓ} :
    {A : Type ℓ} (p : A → Bool) (xs : List A) → some_of p (reverse xs) ≡ some_of p xs
some_of-reverse p [] = refl
some_of-reverse p (x ∷ xs) =
    rw (reverse-cons x xs, some_of-append p (reverse xs) (x ∷ []))
      (ground (arith, some_of-reverse p xs))

some_of-take-drop {ℓ} :
    {A : Type ℓ} (p : A → Bool) (k : ℕ) (xs : List A)
    → (some_of p (take k xs) || some_of p (drop k xs)) ≡ some_of p xs
some_of-take-drop p zero xs = refl
some_of-take-drop p (suc k) [] = refl
some_of-take-drop p (suc k) (x ∷ xs) = ground (arith, some_of-take-drop p k xs)

pub some_of-search_order :
    (p : Rung → Bool) (ladder : List Rung) (k : ℕ)
    → some_of p (search_order ladder k) ≡ some_of p ladder
unfolding search_order
some_of-search_order p ladder k =
    some_of-append p (reverse (take (suc k) ladder)) (drop (suc k) ladder)
    ∙ ap (λ b. b || some_of p (drop (suc k) ladder)) (some_of-reverse p (take (suc k) ladder))
    ∙ some_of-take-drop p (suc k) ladder

pub first_filled-some :
    (rungs : List Rung) (pool : CardPool) {found : Found}
    → first_filled rungs pool ≡ some found
    → (found.bucket ≡ bucket_of pool found.rarity)
      × (0 < length found.bucket)
      × (some_of (λ rung. rung.rarity == found.rarity) rungs ≡ true)
unfolding first_filled
first_filled-some [] pool e = cc
first_filled-some (rung ∷ rungs) pool {found = found} e = elim (Bool-cases (is_filled pool rung)) [
  | inl yes_filled ↦ ground (arith, yes_filled, first_filled_lem rung rungs pool)
  | inr not_filled ↦
      let rest : first_filled rungs pool ≡ some found =
        ground (arith, not_filled, first_filled_lem rung rungs pool) in
      ground (arith, first_filled-some rungs pool rest)
]

first_filled-none :
    (rungs : List Rung) (pool : CardPool)
    → (first_filled rungs pool ≡ none → some_of (is_filled pool) rungs ≡ false)
      × (some_of (is_filled pool) rungs ≡ false → first_filled rungs pool ≡ none)
unfolding first_filled
first_filled-none [] pool = (λ e. refl, λ e. refl)
first_filled-none (rung ∷ rungs) pool =
    let (to, from) = first_filled-none rungs pool in
    let step = first_filled_lem rung rungs pool in
    elim (Bool-cases (is_filled pool rung)) [
      | inl full ↦ (λ e. ground (arith, full, step, e), λ e. ground (arith, full, e))
      | inr empty ↦ (
        (λ e. ground (arith, empty, to (ground (arith, empty, step, e)))),
        (λ e. ground (arith, empty, step, from (ground (arith, empty, e)))),
      )
    ]

-- A roll is served by nothing exactly if no rarity of the ladder has a card.
pub resolve-none :
    (ladder : List Rung) (k : ℕ) (pool : CardPool)
    → (resolve ladder k pool ≡ none) ↔ (some_of (is_filled pool) ladder ≡ false)
unfolding resolve
resolve-none ladder k pool =
    let (to, from) = first_filled-none (search_order ladder k) pool in
    let same = some_of-search_order (is_filled pool) ladder k in
    (λ e. sym same ∙ to e, λ e. from (same ∙ e))

take-suc :
    (xs : List Rung) (k : ℕ) (x : Rung)
    → get_elem? xs k ≡ some x
    → take (suc k) xs ≡ take k xs ++ x ∷ []
take-suc [] k x e = cc
take-suc (y ∷ ys) zero x e = ground arith
take-suc (y ∷ ys) (suc k) x e = ap (λ zs. y ∷ zs) (take-suc ys k x e)

reverse-take :
    (xs : List Rung) (k : ℕ) (x : Rung)
    → get_elem? xs k ≡ some x
    → reverse (take (suc k) xs) ≡ x ∷ reverse (take k xs)
reverse-take xs k x e = ap reverse (take-suc xs k x e) ∙ reverse-append (take k xs) (x ∷ [])

-- At an index of the ladder, a roll whose own rarity has a card is served from it; and what is
-- served is at least as common as the roll if anything that common has a card.
pub resolve_prefers_common :
    (ladder : List Rung) (k : ℕ) (rung : Rung) (pool : CardPool)
    → get_elem? ladder k ≡ some rung
    → (is_filled pool rung ≡ true
        → resolve ladder k pool
          ≡ some (record { rarity = rung.rarity; bucket = bucket_of pool rung.rarity }))
      × ((found : Found)
          → resolve ladder k pool ≡ some found
          → some_of (is_filled pool) (take (suc k) ladder) ≡ true
          → some_of (λ r. r.rarity == found.rarity) (take (suc k) ladder) ≡ true)
unfolding resolve search_order
resolve_prefers_common ladder k rung pool at = (
  (λ full. rw (reverse-take ladder k rung at) (
      ground (
        arith,
        full,
        first_filled_lem rung (reverse (take k ladder) ++ drop (suc k) ladder) pool,
      ))),
  λ found e common. commoner found e common,
)
  where
    front : List Rung
    front = reverse (take (suc k) ladder)

    commoner :
        (found : Found)
        → first_filled (front ++ drop (suc k) ladder) pool ≡ some found
        → some_of (is_filled pool) (take (suc k) ladder) ≡ true
        → some_of (λ r. r.rarity == found.rarity) (take (suc k) ladder) ≡ true
    commoner found e common =
        let there : some_of (is_filled pool) front ≡ true =
          some_of-reverse (is_filled pool) (take (suc k) ladder) ∙ common in
        let here : first_filled front pool ≡ some found =
          sym (rw (first_filled-append front (drop (suc k) ladder) pool, there) refl) ∙ e in
        sym (some_of-reverse (λ r. r.rarity == found.rarity) (take (suc k) ladder))
        ∙ (first_filled-some front pool here).2
