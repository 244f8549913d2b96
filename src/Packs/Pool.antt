-- ===== src/Packs/Pool.antt =====
-- apps/api/src/packs/pack-pool.ts: the pool that a pack is drawn from. The rows of the card table
-- are given in the order in which the database happens to answer.
use pokedrop.Base.{
  ℕ, ◌+◌, ◌≡◌, refl, Bool, true, false, ◌&&◌, Option, none, some, List, [], ◌∷◌, ◌++◌, ◌==◌, leb,
  if◌then◌else◌, filter_by, contains, sum_of, sum_of-append, sum_of-sort_by, sort_by, arith,
}
use pokedrop.Base.Sorting.{IsSorted, sort_by-IsSorted}
use pokedrop.Base.Dict.{lookup, insert, lookup-insert}
use pokedrop.Inventory.{CardId}
use pokedrop.Packs.Ladder.{Rarity}
use pokedrop.Packs.Generator.{CardPool}
use pokedrop.Packs.Generator.Serving.{bucket_of}

pub record CardRow : Type 0 where
  pub id : CardId
  pub set : ℕ
  pub rarity : Option Rarity

-- `setId: { in: setIds }, rarity: { not: null }`
abbrev pub is_selected : List ℕ → CardRow → Bool
is_selected sets row = elim row.rarity [ none ↦ false | some _ ↦ contains row.set sets ]

abbrev pub push_card : CardRow → CardPool → CardPool
push_card row pool = elim row.rarity [
  | none ↦ pool
  | some rarity ↦ insert rarity (bucket_of pool rarity ++ row.id ∷ []) pool
]

-- The loop over the rows.
unfoldable pub fill_pool : List CardRow → CardPool → CardPool
fill_pool [] pool = pool
fill_pool (row ∷ rows) pool = fill_pool rows (push_card row pool)

unfoldable pub sort_buckets : CardPool → CardPool
sort_buckets [] = []
sort_buckets ((rarity, bucket) ∷ pool) = (rarity, sort_by leb bucket) ∷ sort_buckets pool

unfoldable pub load_pool : List CardRow → List ℕ → CardPool
load_pool rows sets = sort_buckets (fill_pool (filter_by (is_selected sets) rows) [])

abbrev occurs : CardId → List CardId → ℕ
occurs c = sum_of (λ x. if x == c then 1 else 0)

abbrev has_rarity : Rarity → CardRow → Bool
has_rarity r row = elim row.rarity [ none ↦ false | some q ↦ q == r ]

-- The rows of a card with a rarity.
abbrev pub rows_of : CardId → Rarity → List CardRow → ℕ
rows_of c r = sum_of (λ row. if has_rarity r row && row.id == c then 1 else 0)

bucket_of-insert :
    (r q : Rarity) (bucket : List CardId) (pool : CardPool)
    → bucket_of (insert q bucket pool) r ≡ (if q == r then bucket else bucket_of pool r)
bucket_of-insert r q bucket pool = ground (arith, lookup-insert q r bucket pool)

push_card-occurs :
    (rarity : Option Rarity) (id : CardId) (set : ℕ) (pool : CardPool) (c : CardId) (r : Rarity)
    → occurs c (bucket_of (push_card (record { id = id; set = set; rarity = rarity }) pool) r)
      ≡ occurs c (bucket_of pool r)
        + (if has_rarity r (record { id = id; set = set; rarity = rarity }) && id == c
            then 1
            else 0)
push_card-occurs none id set pool c r = omega arith
push_card-occurs (some q) id set pool c r = ground (
  arith,
  bucket_of-insert r q (bucket_of pool q ++ id ∷ []) pool,
  sum_of-append (λ x. if x == c then 1 else 0) (bucket_of pool q) (id ∷ []),
)

fill_pool-occurs :
    (rows : List CardRow) (pool : CardPool) (c : CardId) (r : Rarity)
    → occurs c (bucket_of (fill_pool rows pool) r) ≡ occurs c (bucket_of pool r) + rows_of c r rows
unfolding fill_pool
fill_pool-occurs [] pool c r = omega arith
fill_pool-occurs (row ∷ rows) pool c r = omega (
  arith,
  fill_pool-occurs rows (push_card row pool) c r,
  push_card-occurs row.rarity row.id row.set pool c r,
)

sort_buckets-bucket_of :
    (pool : CardPool) (r : Rarity)
    → bucket_of (sort_buckets pool) r ≡ sort_by leb (bucket_of pool r)
unfolding sort_buckets lookup sort_by
sort_buckets-bucket_of [] r = refl
sort_buckets-bucket_of ((q, bucket) ∷ pool) r = ground (arith, sort_buckets-bucket_of pool r)

leb_total : (a b : ℕ) → leb a b ≡ false → leb b a ≡ true
leb_total a b h = ground arith

leb_trans : (a b c : ℕ) → leb a b ≡ true → leb b c ≡ true → leb a c ≡ true
leb_trans a b c h k = ground arith

-- The bucket of a rarity is sorted and holds each card as often as the selected rows of the
-- allowed sets have it with that rarity, in whatever order the rows come.
pub load_pool_lem :
    (rows : List CardRow) (sets : List ℕ) (r : Rarity)
    → IsSorted leb (bucket_of (load_pool rows sets) r)
      × ((c : CardId)
          → sum_of (λ x. if x == c then 1 else 0) (bucket_of (load_pool rows sets) r)
            ≡ rows_of c r (filter_by (is_selected sets) rows))
unfolding load_pool lookup
load_pool_lem rows sets r =
    let filled = fill_pool (filter_by (is_selected sets) rows) [] in
    rw (sort_buckets-bucket_of filled r) (
      sort_by-IsSorted leb leb_total leb_trans (bucket_of filled r),
      λ c. omega (
        arith,
        sum_of-sort_by (λ x. if x == c then 1 else 0) leb (bucket_of filled r),
        fill_pool-occurs (filter_by (is_selected sets) rows) [] c r,
      ),
    )
