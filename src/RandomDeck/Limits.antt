-- ===== src/RandomDeck/Limits.antt =====
-- What additions within their room keep: a draft's maps are the sums that they stand for, and no
-- limit is passed.
use pokedrop.Base.{
  ℕ, ◌+◌, ◌≤◌, ◌≡◌, refl, sym, ◌∙◌, Bool, ◌&&◌, not, Option, none, some, List, [], ◌∷◌, ◌==◌,
  ==_self, if◌then◌else◌, Bool-cases, inl, inr, arith,
}
use pokedrop.RandomDeck.Draft.{
  Fits, PoolCard, Draft, new_draft, copy_limit_key, keyed_room, room, change_keyed, change, add,
  total,
}
use pokedrop.RandomDeck.Grown.{Grown, here, added, is_marked, bump_kinds_at}
use pokedrop.RandomDeck.Catalog.{same_option}
use pokedrop.RandomDeck.Pooled.{IsKeyed, IsPooled, counts-add, total-add}
use pokedrop.RandomDeck.Rooms.{
  has_key, is_single, keyed_room-Fits, keyed_room-named, keyed_room-single, left_after-Fits,
  zero-Fits,
}

-- What a draft's additions keep.
pub record IsFair (pool : List PoolCard) (d : Draft) : Type 0 where
  pub within : (c : PoolCard) → IsPooled pool c → Fits (d.counts c.id) c.available
  pub named : (k : ℕ) → d.by_name k ≡ total pool (has_key k) d
  pub at_most : (k : ℕ) → d.by_name k ≤ 4
  pub single : (kind : ℕ) → d.singletons kind ≡ total pool (is_single kind) d
  pub at_most_one : (kind : ℕ) → d.singletons kind ≤ 1

keyed-by_name :
    (d : Draft) (c : PoolCard) (n k : ℕ) (key : Option ℕ)
    → (change_keyed d c (λ j. j + n) key).by_name k
      ≡ d.by_name k + (if same_option key (some k) then n else 0)
keyed-by_name d c n k none = omega arith
keyed-by_name d c n k (some j) = ground arith

keyed-singletons :
    (d : Draft) (c : PoolCard) (n kind : ℕ) (key : Option ℕ)
    → (change_keyed d c (λ j. j + n) key).singletons kind
      ≡ d.singletons kind + (if not (same_option key none) && is_marked c kind then n else 0)
keyed-singletons d c n kind none = omega arith
keyed-singletons d c n kind (some j) =
    bump_kinds_at c d.singletons (λ k. k + n) kind ∙ (ground arith)

keyed-at_most :
    (d : Draft) (c : PoolCard) (n k : ℕ) (key : Option ℕ)
    → d.by_name k ≤ 4
    → Fits n (keyed_room d c key)
    → d.by_name k + (if same_option key (some k) then n else 0) ≤ 4
keyed-at_most d c n k none h f = omega arith
keyed-at_most d c n k (some j) h f = elim (Bool-cases (j == k)) [
  | inl e ↦ ground (arith, e, keyed_room-named d c n j f)
  | inr e ↦ rw e (omega arith)
]

keyed-at_most_one :
    (d : Draft) (c : PoolCard) (n kind : ℕ) (key : Option ℕ)
    → d.singletons kind ≤ 1
    → Fits n (keyed_room d c key)
    → d.singletons kind + (if not (same_option key none) && is_marked c kind then n else 0) ≤ 1
keyed-at_most_one d c n kind none h f = omega arith
keyed-at_most_one d c n kind (some j) h f = elim (Bool-cases (is_marked c kind)) [
  | inl e ↦ rw e (omega (arith, keyed_room-single d c n j kind e f))
  | inr e ↦ rw e (omega arith)
]

module _ (pool : List PoolCard) (keyed : IsKeyed pool) where
  within-add :
      (d : Draft) (c x : PoolCard) (n : ℕ)
      → IsPooled pool c
      → IsPooled pool x
      → Fits (d.counts x.id) x.available
      → Fits n (room d c)
      → Fits ((add d c n).counts x.id) x.available
  unfolding room
  within-add d c x n p q h f = elim (Bool-cases (c.id == x.id)) [
    | inl e ↦
        let same : x ≡ c = ground (arith, p, q, e) in
        let held : Fits (d.counts c.id) c.available = rw same at h in
        rw (same, counts-add d c n, ==_self c.id)
          (left_after-Fits c.available (d.counts c.id) n held
            (keyed_room-Fits d c n (copy_limit_key c) f))
    | inr e ↦ rw (counts-add d c n, e) h
  ]

  pub total-new : (test : PoolCard → Bool) (xs : List PoolCard) → total xs test new_draft ≡ 0
  unfolding total
  total-new test [] = refl
  total-new test (x ∷ xs) = ground (arith, total-new test xs)

  new_draft-IsFair : IsFair pool new_draft
  new_draft-IsFair = record {
    within = λ c p. zero-Fits c.available;
    named = λ k. sym (total-new (has_key k) pool);
    at_most = λ k. omega arith;
    single = λ kind. sym (total-new (is_single kind) pool);
    at_most_one = λ kind. omega arith;
  }

  add-IsFair :
      (d : Draft) (c : PoolCard) (n : ℕ)
      → IsPooled pool c
      → Fits n (room d c)
      → IsFair pool d
      → IsFair pool (add d c n)
  unfolding add change room
  add-IsFair d c n p f h = record {
    within = λ x q. within-add d c x n p q (h.within x q) f;
    named = λ k. omega (
      arith,
      h.named k,
      keyed-by_name d c n k (copy_limit_key c),
      total-add pool keyed (has_key k) d c n p,
    );
    at_most = λ k. omega (
      arith,
      keyed-by_name d c n k (copy_limit_key c),
      keyed-at_most d c n k (copy_limit_key c) (h.at_most k) f,
    );
    single = λ kind. omega (
      arith,
      h.single kind,
      keyed-singletons d c n kind (copy_limit_key c),
      total-add pool keyed (is_single kind) d c n p,
    );
    at_most_one = λ kind. omega (
      arith,
      keyed-singletons d c n kind (copy_limit_key c),
      keyed-at_most_one d c n kind (copy_limit_key c) (h.at_most_one kind) f,
    );
  }

  -- Whatever additions within their room lead to passes no limit.
  pub Grown-IsFair : {d : Draft} → Grown (IsPooled pool) new_draft d → IsFair pool d
  Grown-IsFair here = new_draft-IsFair
  Grown-IsFair (added {d} g c n q fits) = add-IsFair d c n q fits (Grown-IsFair g)
