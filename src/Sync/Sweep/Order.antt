-- ===== src/Sync/Sweep/Order.antt =====
-- Ascending ids: what lies behind the end of a batch is what the batch left.
use pokedrop.Base.{
  ℕ, zero, suc, ◌≤◌, ◌<◌, ◌≡◌, refl, ap, Bool, true, false, List, [], ◌∷◌, ◌++◌, ltb, leb, length,
  take, drop, filter_by, All, Bool-cases, inl, inr, arith,
}
use pokedrop.Sync.Sweep.{after, upto, last_of, batch_end}

-- Every id is above 0 and below those that follow it.
abbrev pub IsAscending : List ℕ → Type 0
IsAscending [] = Unit
IsAscending (x ∷ xs) = All (λ y. x < y) xs × IsAscending xs

abbrev pub IsCatalog : List ℕ → Type 0
IsCatalog cards = All (λ y. 0 < y) cards × IsAscending cards

pub All-below :
    (k : ℕ) (test : ℕ → Bool) (xs : List ℕ)
    → All (λ y. k < y) xs
    → All (λ y. k < y) (filter_by test xs)
All-below k test [] h = tt
All-below k test (x ∷ xs) h = elim (Bool-cases (test x)) [
  | inl e ↦ rw e (h.0, All-below k test xs h.1)
  | inr e ↦ rw e (All-below k test xs h.1)
]

pub filter_by-IsAscending :
    (test : ℕ → Bool) (xs : List ℕ) → IsAscending xs → IsAscending (filter_by test xs)
filter_by-IsAscending test [] h = tt
filter_by-IsAscending test (x ∷ xs) h = elim (Bool-cases (test x)) [
  | inl e ↦ rw e (All-below x test xs h.0, filter_by-IsAscending test xs h.1)
  | inr e ↦ rw e (filter_by-IsAscending test xs h.1)
]

pub after-All : (k : ℕ) (xs : List ℕ) → All (λ y. k < y) (after k xs)
after-All k [] = tt
after-All k (x ∷ xs) = elim (Bool-cases (ltb k x)) [
  | inl e ↦ rw e (ground (arith, e), after-All k xs)
  | inr e ↦ rw e (after-All k xs)
]

pub after_self : (k : ℕ) (xs : List ℕ) → All (λ y. k < y) xs → after k xs ≡ xs
after_self k [] h = refl
after_self k (x ∷ xs) h =
    let e : ltb k x ≡ true = ground (arith, h.0) in rw (e, after_self k xs h.1)

pub after-after : (c e : ℕ) (xs : List ℕ) → c ≤ e → after e (after c xs) ≡ after e xs
after-after c e [] h = refl
after-after c e (x ∷ xs) h =
    let rest = after-after c e xs h in
    elim (Bool-cases (ltb c x)) [
      | inl p ↦ elim (Bool-cases (ltb e x)) [ inl q ↦ rw (p, q, rest) | inr q ↦ rw (p, q, rest) ]
      | inr p ↦ let q : ltb e x ≡ false = ground (arith, p, h) in rw (p, q, rest)
    ]

pub after-upto : (s e : ℕ) (xs : List ℕ) → after e (upto s xs) ≡ upto s (after e xs)
after-upto s e [] = refl
after-upto s e (x ∷ xs) =
    let rest = after-upto s e xs in
    elim (Bool-cases (leb x s)) [
      | inl p ↦ elim (Bool-cases (ltb e x)) [ inl q ↦ rw (p, q, p, rest) | inr q ↦ rw (p, q, rest) ]
      | inr p ↦ elim (Bool-cases (ltb e x)) [ inl q ↦ rw (p, q, p, rest) | inr q ↦ rw (p, q, rest) ]
    ]

All-above : (s x : ℕ) (xs : List ℕ) → s < x → All (λ y. x < y) xs → All (λ y. s < y) xs
All-above s x [] h k = tt
All-above s x (y ∷ ys) h k = (omega (arith, k.0), All-above s x ys h k.1)

upto-above : (s x : ℕ) (xs : List ℕ) → s < x → All (λ y. x < y) xs → upto s xs ≡ []
upto-above s x [] h k = refl
upto-above s x (y ∷ ys) h k =
    let e : leb y s ≡ false = ground (arith, h, k.0) in rw (e, upto-above s x ys h k.1)

upto-take_above : (s n x : ℕ) (xs : List ℕ) → s < x → All (λ y. x < y) xs → upto s (take n xs) ≡ []
upto-take_above s zero x xs h k = refl
upto-take_above s (suc n) x [] h k = refl
upto-take_above s (suc n) x (y ∷ ys) h k =
    let e : leb y s ≡ false = ground (arith, h, k.0) in rw (e, upto-take_above s n x ys h k.1)

nil-take : (n : ℕ) (xs : List ℕ) → xs ≡ [] → take n xs ≡ []
nil-take zero xs e = refl
nil-take (suc n) [] e = refl
nil-take (suc n) (x ∷ xs) e = absurd (cc)

-- A batch of the ids up to a bound is the bounded part of a batch.
pub upto-take : (s n : ℕ) (xs : List ℕ) → IsAscending xs → upto s (take n xs) ≡ take n (upto s xs)
upto-take s zero xs h = refl
upto-take s (suc n) [] h = refl
upto-take s (suc n) (x ∷ xs) h = elim (Bool-cases (leb x s)) [
  | inl e ↦ rw (e, upto-take s n xs h.1)
  | inr e ↦
      let above : s < x = ground (arith, e) in
      rw (e, upto-take_above s n x xs above h.0, upto-above s x xs above h.0)
]

pub last_of-ge : (n x : ℕ) (xs : List ℕ) → IsAscending (x ∷ xs) → x ≤ last_of x (take n xs)
last_of-ge zero x xs h = omega arith
last_of-ge (suc n) x [] h = omega arith
last_of-ge (suc n) x (y ∷ ys) h = omega (arith, last_of-ge n y ys h.1, h.0.0)

-- Behind the last id of a batch is what the batch left.
pub after-batch_end :
    (n : ℕ) (xs : List ℕ)
    → IsAscending xs
    → 0 < length (take n xs)
    → after (batch_end (take n xs)) xs ≡ drop n xs
after-batch_end zero xs h pos = absurd (omega arith)
after-batch_end (suc n) [] h pos = absurd (omega arith)
after-batch_end (suc zero) (x ∷ xs) h pos =
    let e : ltb x x ≡ false = ground arith in rw (e, after_self x xs h.0)
after-batch_end (suc (suc n)) (x ∷ []) h pos = let e : ltb x x ≡ false = ground arith in rw e
after-batch_end (suc (suc n)) (x ∷ y ∷ ys) h pos =
    let skipped : ltb (last_of y (take n ys)) x ≡ false =
      ground (arith, last_of-ge n y ys h.1, h.0.0) in
    rw skipped (after-batch_end (suc n) (y ∷ ys) h.1 (omega arith))

pub batch_end-gt :
    (k n : ℕ) (xs : List ℕ)
    → All (λ y. k < y) xs
    → IsAscending xs
    → 0 < length (take n xs)
    → k < batch_end (take n xs)
batch_end-gt k zero xs h a pos = absurd (omega arith)
batch_end-gt k (suc n) [] h a pos = absurd (omega arith)
batch_end-gt k (suc n) (x ∷ xs) h a pos = omega (arith, last_of-ge n x xs a, h.0)

All-last_of : (P : ℕ → Type 0) (n x : ℕ) (xs : List ℕ) → P x → All P xs → P (last_of x (take n xs))
All-last_of P zero x xs p h = p
All-last_of P (suc n) x [] p h = p
All-last_of P (suc n) x (y ∷ ys) p h = All-last_of P n y ys h.0 h.1

pub batch_end-le :
    (k n : ℕ) (xs : List ℕ)
    → All (λ y. y ≤ k) xs
    → 0 < length (take n xs)
    → batch_end (take n xs) ≤ k
batch_end-le k zero xs h pos = absurd (omega arith)
batch_end-le k (suc n) [] h pos = absurd (omega arith)
batch_end-le k (suc n) (x ∷ xs) h pos = All-last_of (λ y. y ≤ k) n x xs h.0 h.1

pub upto-All : (k : ℕ) (xs : List ℕ) → All (λ y. y ≤ k) (upto k xs)
upto-All k [] = tt
upto-All k (x ∷ xs) = elim (Bool-cases (leb x k)) [
  | inl e ↦ rw e (ground (arith, e), upto-All k xs)
  | inr e ↦ rw e (upto-All k xs)
]

pub take-drop : (n : ℕ) (xs : List ℕ) → take n xs ++ drop n xs ≡ xs
take-drop zero xs = refl
take-drop (suc n) [] = refl
take-drop (suc n) (x ∷ xs) = ap (λ l. x ∷ l) (take-drop n xs)

pub take-empty : (n : ℕ) (xs : List ℕ) → 0 < n → length (take n xs) ≡ 0 → xs ≡ []
take-empty zero xs pos e = absurd (omega arith)
take-empty (suc n) [] pos e = refl
take-empty (suc n) (x ∷ xs) pos e = absurd (omega arith)

-- Nothing up to a bound lies behind it.
pub upto-after_none : (s e : ℕ) (xs : List ℕ) → s ≤ e → upto s (after e xs) ≡ []
upto-after_none s e [] h = refl
upto-after_none s e (x ∷ xs) h = elim (Bool-cases (ltb e x)) [
  | inl p ↦
      let above : leb x s ≡ false = ground (arith, p, h) in rw (p, above, upto-after_none s e xs h)
  | inr p ↦ rw (p, upto-after_none s e xs h)
]

pub upto-none : (s : ℕ) (xs : List ℕ) → All (λ y. s < y) xs → upto s xs ≡ []
upto-none s [] h = refl
upto-none s (x ∷ xs) h = let e : leb x s ≡ false = ground (arith, h.0) in rw (e, upto-none s xs h.1)

pub upto-upto : (s c : ℕ) (xs : List ℕ) → s ≤ c → upto s (upto c xs) ≡ upto s xs
upto-upto s c [] h = refl
upto-upto s c (x ∷ xs) h =
    let rest = upto-upto s c xs h in
    elim (Bool-cases (leb x c)) [
      | inl p ↦ elim (Bool-cases (leb x s)) [ inl q ↦ rw (p, q, rest) | inr q ↦ rw (p, q, rest) ]
      | inr p ↦ let q : leb x s ≡ false = ground (arith, p, h) in rw (p, q, rest)
    ]

-- Ascending ids fall into those up to a bound and those behind it.
pub upto-append-after : (s : ℕ) (xs : List ℕ) → IsAscending xs → upto s xs ++ after s xs ≡ xs
upto-append-after s [] h = refl
upto-append-after s (x ∷ xs) h = elim (Bool-cases (leb x s)) [
  | inl e ↦
      let below : ltb s x ≡ false = ground (arith, e) in rw (e, below, upto-append-after s xs h.1)
  | inr e ↦
      let above : s < x = ground (arith, e) in
      let p : ltb s x ≡ true = ground (arith, e) in
      rw (e, p, upto-above s x xs above h.0, after_self s xs (All-above s x xs above h.0))
]
