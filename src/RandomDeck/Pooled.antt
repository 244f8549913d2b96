-- ===== src/RandomDeck/Pooled.antt =====
-- The cards of a pool by their ids, and what an addition changes of a total over the pool.
use pokedrop.Base.{
  ℕ, ◌+◌, ◌≤◌, ◌≡◌, refl, Bool, true, Option, none, some, List, [], ◌∷◌, ◌==◌, if◌then◌else◌,
  sum_of, filter_by, All, Bool-cases, inl, inr, arith,
}
use pokedrop.RandomDeck.Draft.{
  PoolCard, Draft, copy_limit_key, bump, change_keyed, change, add, total,
}

abbrev pub count_id : ℕ → List PoolCard → ℕ
count_id k = sum_of (λ c. if c.id == k then 1 else 0)

-- No two cards have one id.
abbrev pub IsKeyed : List PoolCard → Type 0
IsKeyed pool = (k : ℕ) → count_id k pool ≤ 1

-- `byId.get(id)`
abbrev pub get_card : ℕ → List PoolCard → Option PoolCard
get_card k [] = none
get_card k (c ∷ cs) = if c.id == k then some c else get_card k cs

abbrev pub IsPooled : List PoolCard → PoolCard → Type 0
IsPooled pool c = get_card c.id pool ≡ some c

count_id_pos :
    (k : ℕ) (pool : List PoolCard) (c : PoolCard) → get_card k pool ≡ some c → 1 ≤ count_id k pool
count_id_pos k [] c e = absurd (cc)
count_id_pos k (x ∷ xs) c e = ground (arith, count_id_pos k xs c)

pub All-map {ℓ κ} :
    {A : Type 0} (P : A → Type ℓ) (Q : A → Type κ) (xs : List A)
    → ((a : A) → P a → Q a)
    → All P xs
    → All Q xs
All-map P Q [] f h = tt
All-map P Q (x ∷ xs) f h = (f x h.0, All-map P Q xs f h.1)

pub All-filter_by {ℓ} :
    {A : Type 0} (P : A → Type ℓ) (test : A → Bool) (xs : List A)
    → All P xs
    → All (λ a. P a × (test a ≡ true)) (filter_by test xs)
All-filter_by P test [] h = tt
All-filter_by P test (x ∷ xs) h = elim (Bool-cases (test x)) [
  | inl e ↦ rw e ((h.0, e), All-filter_by P test xs h.1)
  | inr e ↦ rw e (All-filter_by P test xs h.1)
]

IsPooled-cons :
    (x c : PoolCard) (xs : List PoolCard)
    → count_id c.id (x ∷ xs) ≤ 1
    → IsPooled xs c
    → IsPooled (x ∷ xs) c
IsPooled-cons x c xs h e = ground (arith, count_id_pos c.id xs c e)

pub All-IsPooled : (pool : List PoolCard) → IsKeyed pool → All (IsPooled pool) pool
All-IsPooled [] h = tt
All-IsPooled (x ∷ xs) h = (
  ground arith,
  All-map (IsPooled xs) (IsPooled (x ∷ xs)) xs (λ c e. IsPooled-cons x c xs (h c.id) e)
      (All-IsPooled xs (λ k. omega (arith, h k))),
)

counts_keyed :
    (d : Draft) (c : PoolCard) (next : ℕ → ℕ) (key : Option ℕ)
    → (change_keyed d c next key).counts ≡ bump d.counts c.id next
counts_keyed d c next none = refl
counts_keyed d c next (some k) = refl

pub counts-add :
    (d : Draft) (c : PoolCard) (n : ℕ) → (add d c n).counts ≡ bump d.counts c.id (λ k. k + n)
unfolding add change
counts-add d c n = counts_keyed d c (λ k. k + n) (copy_limit_key c)

abbrev copies_in : (PoolCard → Bool) → (ℕ → ℕ) → List PoolCard → ℕ
copies_in test counts = sum_of (λ c. if test c then counts c.id else 0)

-- A card that is not in the list does not count.
copies_in-bump_absent :
    (test : PoolCard → Bool) (counts : ℕ → ℕ) (k n : ℕ) (xs : List PoolCard)
    → count_id k xs ≡ 0
    → copies_in test (bump counts k (λ j. j + n)) xs ≡ copies_in test counts xs
copies_in-bump_absent test counts k n [] h = refl
copies_in-bump_absent test counts k n (x ∷ xs) h =
    ground (arith, copies_in-bump_absent test counts k n xs)

copies_in-bump :
    (test : PoolCard → Bool) (counts : ℕ → ℕ) (c : PoolCard) (n : ℕ) (xs : List PoolCard)
    → count_id c.id xs ≤ 1
    → IsPooled xs c
    → copies_in test (bump counts c.id (λ j. j + n)) xs
      ≡ copies_in test counts xs + (if test c then n else 0)
copies_in-bump test counts c n [] h e = absurd (cc)
copies_in-bump test counts c n (x ∷ xs) h e = elim (Bool-cases (x.id == c.id)) [
  | inl same ↦
      let eq : x ≡ c = ground (arith, e, same) in
      let absent : count_id c.id xs ≡ 0 = ground (arith, h, same) in
      let rest = copies_in-bump_absent test counts c.id n xs absent in rw eq (ground (arith, rest))
  | inr other ↦ ground (
    arith,
    copies_in-bump test counts c n xs (ground (arith, h, other)) (ground (arith, e, other)),
  )
]

module _ (pool : List PoolCard) (keyed : IsKeyed pool) where
  pub total-add :
      (test : PoolCard → Bool) (d : Draft) (c : PoolCard) (n : ℕ)
      → IsPooled pool c
      → total pool test (add d c n) ≡ total pool test d + (if test c then n else 0)
  unfolding total
  total-add test d c n e =
      rw (counts-add d c n) (copies_in-bump test d.counts c n pool (keyed c.id) e)
