-- ===== src/RandomDeck/Shuffle.antt =====
-- apps/api/src/decks/random-deck/random-deck.generator.ts: `shuffle` and `between`, over the draws of
-- an `Rng` (apps/api/src/packs/pack-rng.ts) at the maxima where it does not throw.
use pokedrop.Base.{
  ℕ, zero, suc, ◌+◌, ◌-◌, ◌≤◌, ◌<◌, ◌≡◌, refl, ◌∙◌, Option, none, some, List, [], ◌∷◌, length,
  sum_of, get_elem?, All, arith,
}
use pokedrop.Packs.Generator.{Drawn}

-- A draw below `max` for every `max` from 1 on.
pub record Source (S : Type 0) : Type 0 where
  pub int : ℕ → S → Drawn S
  pub int_lt : (max : ℕ) (s : S) → 0 < max → (int max s).value < max

module _ {ℓ} {A : Type ℓ} where
  abbrev pub set : List A → ℕ → A → List A
  set [] i v = []
  set (x ∷ xs) zero v = v ∷ xs
  set (x ∷ xs) (suc i) v = x ∷ set xs i v

  abbrev pub swap_found : List A → ℕ → ℕ → Option A → Option A → List A
  swap_found xs i j (some a) (some b) = set (set xs i b) j a
  swap_found xs i j _ _ = xs

  -- `[out[i], out[j]] = [out[j], out[i]]`, at indices of the list.
  abbrev pub swap : List A → ℕ → ℕ → List A
  swap xs i j = swap_found xs i j (get_elem? xs i) (get_elem? xs j)

  All-get_elem? {κ} :
      (P : A → Type κ) (xs : List A) (i : ℕ) {a : A} → All P xs → get_elem? xs i ≡ some a → P a
  All-get_elem? P [] i h e = absurd (cc)
  All-get_elem? P (x ∷ xs) zero {a = a} h e = let same : x ≡ a = cc in rw (← same) h.0
  All-get_elem? P (x ∷ xs) (suc i) h e = All-get_elem? P xs i h.1 e

  All-set {κ} : (P : A → Type κ) (xs : List A) (i : ℕ) (a : A) → All P xs → P a → All P (set xs i a)
  All-set P [] i a h p = h
  All-set P (x ∷ xs) zero a h p = (p, h.1)
  All-set P (x ∷ xs) (suc i) a h p = (h.0, All-set P xs i a h.1 p)

  sum_of-set :
      (f : A → ℕ) (xs : List A) (i : ℕ) (a : A) {old : A}
      → get_elem? xs i ≡ some old
      → sum_of f (set xs i a) + f old ≡ sum_of f xs + f a
  sum_of-set f [] i a e = absurd (cc)
  sum_of-set f (x ∷ xs) zero a {old = old} e = let same : x ≡ old = cc in rw (← same) (omega arith)
  sum_of-set f (x ∷ xs) (suc i) a e = omega (arith, sum_of-set f xs i a e)

  get_elem?-set :
      (xs : List A) (i j : ℕ) {a b : A}
      → get_elem? xs i ≡ some a
      → get_elem? xs j ≡ some b
      → get_elem? (set xs i b) j ≡ some b
  get_elem?-set [] i j e h = absurd (cc)
  get_elem?-set (x ∷ xs) zero zero e h = refl
  get_elem?-set (x ∷ xs) zero (suc j) e h = h
  get_elem?-set (x ∷ xs) (suc i) zero e h = h
  get_elem?-set (x ∷ xs) (suc i) (suc j) e h = get_elem?-set xs i j e h

  All-swap_found {κ} :
      (P : A → Type κ) (xs : List A) (i j : ℕ) (x y : Option A)
      → All P xs
      → get_elem? xs i ≡ x
      → get_elem? xs j ≡ y
      → All P (swap_found xs i j x y)
  All-swap_found P xs i j (some a) (some b) h e k =
      All-set P (set xs i b) j a (All-set P xs i b h (All-get_elem? P xs j h k))
        (All-get_elem? P xs i h e)
  All-swap_found P xs i j (some a) none h e k = h
  All-swap_found P xs i j none (some b) h e k = h
  All-swap_found P xs i j none none h e k = h

  sum_of-swap_found :
      (f : A → ℕ) (xs : List A) (i j : ℕ) (x y : Option A)
      → get_elem? xs i ≡ x
      → get_elem? xs j ≡ y
      → sum_of f (swap_found xs i j x y) ≡ sum_of f xs
  sum_of-swap_found f xs i j (some a) (some b) e k =
      omega (arith, sum_of-set f xs i b e, sum_of-set f (set xs i b) j a (get_elem?-set xs i j e k))
  sum_of-swap_found f xs i j (some a) none e k = refl
  sum_of-swap_found f xs i j none (some b) e k = refl
  sum_of-swap_found f xs i j none none e k = refl

pub record Shuffled {ℓ} (A : Type ℓ) (S : Type 0) : Type ℓ where
  pub items : List A
  pub state : S

module _ {S : Type 0} (rng : Source S) where
  -- The loop of `shuffle`, from index `i` down to 1.
  unfoldable pub shuffle_down {ℓ} : {A : Type ℓ} → ℕ → List A → S → Shuffled A S
  shuffle_down zero xs s = record { items = xs; state = s }
  shuffle_down (suc i) xs s =
      let d = rng.int (suc (suc i)) s in shuffle_down i (swap xs (suc i) d.value) d.state

  unfoldable pub shuffle {ℓ} : {A : Type ℓ} → List A → S → Shuffled A S
  shuffle xs s = shuffle_down (length xs - 1) xs s

  -- `between([min, max], rng)`
  unfoldable pub between : ℕ → ℕ → S → Drawn S
  between low high s =
      let d = rng.int (high - low + 1) s in record { value = low + d.value; state = d.state }

  All-shuffle_down {ℓ κ} :
      {A : Type ℓ} (P : A → Type κ) (i : ℕ) (xs : List A) (s : S)
      → All P xs
      → All P (shuffle_down i xs s).items
  unfolding shuffle_down
  All-shuffle_down P zero xs s h = h
  All-shuffle_down P (suc i) xs s h =
      let d = rng.int (suc (suc i)) s in
      All-shuffle_down P i (swap xs (suc i) d.value) d.state
        (All-swap_found P xs (suc i) d.value _ _ h refl refl)

  pub All-shuffle {ℓ κ} :
      {A : Type ℓ} (P : A → Type κ) (xs : List A) (s : S) → All P xs → All P (shuffle xs s).items
  unfolding shuffle
  All-shuffle P xs s h = All-shuffle_down P (length xs - 1) xs s h

  sum_of-shuffle_down {ℓ} :
      {A : Type ℓ} (f : A → ℕ) (i : ℕ) (xs : List A) (s : S)
      → sum_of f (shuffle_down i xs s).items ≡ sum_of f xs
  unfolding shuffle_down
  sum_of-shuffle_down f zero xs s = refl
  sum_of-shuffle_down f (suc i) xs s =
      let d = rng.int (suc (suc i)) s in
      sum_of-shuffle_down f i (swap xs (suc i) d.value) d.state
      ∙ sum_of-swap_found f xs (suc i) d.value _ _ refl refl

  pub sum_of-shuffle {ℓ} :
      {A : Type ℓ} (f : A → ℕ) (xs : List A) (s : S) → sum_of f (shuffle xs s).items ≡ sum_of f xs
  unfolding shuffle
  sum_of-shuffle f xs s = sum_of-shuffle_down f (length xs - 1) xs s

  pub between_bounds :
      (low high : ℕ) (s : S)
      → low ≤ high
      → (low ≤ (between low high s).value) × ((between low high s).value ≤ high)
  unfolding between
  between_bounds low high s h =
      let below = rng.int_lt (high - low + 1) s (omega arith) in (omega arith, omega arith)
