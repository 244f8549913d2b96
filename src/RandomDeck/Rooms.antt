-- ===== src/RandomDeck/Rooms.antt =====
-- What an addition within the room of a card is within.
use pokedrop.Base.{
  ℕ, ◌+◌, ◌-◌, ◌≤◌, ◌≡◌, refl, ◌⊎◌, Bool, true, false, ◌&&◌, ◌||◌, not, Option, none, some, ◌==◌,
  if◌then◌else◌, inl, inr, contains, arith,
}
use pokedrop.RandomDeck.Draft.{
  Amount, copies, unlimited, left_after, min, min_of, Fits, PoolCard, Draft, copy_limit_key,
  keyed_room, name_limit, singleton_room, deck_singletons, radiant, star, ace_spec,
}
use pokedrop.RandomDeck.Grown.{is_marked}
use pokedrop.RandomDeck.Catalog.{same_option}

abbrev pub has_key : ℕ → PoolCard → Bool
has_key k c = same_option (copy_limit_key c) (some k)

abbrev pub is_single : ℕ → PoolCard → Bool
is_single kind c = not (same_option (copy_limit_key c) none) && is_marked c kind

pub name_limit-le : (c : PoolCard) → name_limit c ≤ 4
name_limit-le c = ground arith

pub min-le_left : (a b : ℕ) → min a b ≤ a
min-le_left a b = ground arith

pub min-le_right : (a b : ℕ) → min a b ≤ b
min-le_right a b = ground arith

pub min_of-Fits : (n : ℕ) (a : Amount) → Fits (min_of n a) a
min_of-Fits n (copies m) = min-le_right n m
min_of-Fits n unlimited = tt

pub Fits-le : (n m : ℕ) (a : Amount) → n ≤ m → Fits m a → Fits n a
Fits-le n m (copies k) h f = omega arith
Fits-le n m unlimited h f = tt

pub tighten-le : (b : Bool) (r u : ℕ) → (if b then min r u else r) ≤ r
tighten-le b r u = ground arith

pub tighten-true : (b : Bool) (r u : ℕ) → b ≡ true → (if b then min r u else r) ≤ u
tighten-true b r u h = ground arith

pub one_true : (a b c : Bool) → (a || (b || c)) ≡ true → (a ≡ true) ⊎ ((b ≡ true) ⊎ (c ≡ true))
one_true true b c h = inl refl
one_true false true c h = inr (inl refl)
one_true false false c h = inr (inr h)

-- The three kinds.
pub marked_cases :
    (c : PoolCard) (k : ℕ)
    → is_marked c k ≡ true
    → ((k ≡ radiant) × (contains radiant c.subtypes ≡ true))
      ⊎ (((k ≡ star) × (contains star c.subtypes ≡ true))
          ⊎ ((k ≡ ace_spec) × (contains ace_spec c.subtypes ≡ true)))
marked_cases c k h =
    elim (one_true (radiant == k && contains radiant c.subtypes)
      (star == k && contains star c.subtypes) (ace_spec == k && contains ace_spec c.subtypes) h) [
        | inl e ↦ inl (ground (arith, e), ground (arith, e))
        | inr (inl e) ↦ inr (inl (ground (arith, e), ground (arith, e)))
        | inr (inr e) ↦ inr (inr (ground (arith, e), ground (arith, e)))
      ]

-- What the room of a keyed card is within.
module _ (c : PoolCard) (used : ℕ → ℕ) (r : ℕ) where
  abbrev after_one : ℕ
  after_one = if contains radiant c.subtypes then min r (1 - used radiant) else r

  abbrev after_two : ℕ
  after_two = if contains star c.subtypes then min after_one (1 - used star) else after_one

  pub singleton_room-le : singleton_room deck_singletons c used r ≤ r
  singleton_room-le = omega (
    arith,
    tighten-le (contains radiant c.subtypes) r (1 - used radiant),
    tighten-le (contains star c.subtypes) after_one (1 - used star),
    tighten-le (contains ace_spec c.subtypes) after_two (1 - used ace_spec),
  )

  pub singleton_room-single :
      (k : ℕ) → is_marked c k ≡ true → singleton_room deck_singletons c used r ≤ 1 - used k
  singleton_room-single k h =
      let two = tighten-le (contains star c.subtypes) after_one (1 - used star) in
      let three = tighten-le (contains ace_spec c.subtypes) after_two (1 - used ace_spec) in
      elim (marked_cases c k h) [
        | inl (e, m) ↦ rw e (
            omega (
              arith,
              two,
              three,
              tighten-true (contains radiant c.subtypes) r (1 - used radiant) m,
            ))
        | inr (inl (e, m)) ↦ rw e (
            omega
              (arith, three, tighten-true (contains star c.subtypes) after_one (1 - used star) m))
        | inr (inr (e, m)) ↦ rw e (
            omega
              (arith, tighten-true (contains ace_spec c.subtypes) after_two (1 - used ace_spec) m))
      ]

pub keyed_room-Fits :
    (d : Draft) (c : PoolCard) (n : ℕ) (key : Option ℕ)
    → Fits n (keyed_room d c key)
    → Fits n (left_after c.available (d.counts c.id))
keyed_room-Fits d c n none h = h
keyed_room-Fits d c n (some k) h =
    let bound = min_of (name_limit c - d.by_name k) (left_after c.available (d.counts c.id)) in
    Fits-le n bound (left_after c.available (d.counts c.id))
      (omega (arith, h, singleton_room-le c d.singletons bound))
      (min_of-Fits (name_limit c - d.by_name k) (left_after c.available (d.counts c.id)))

pub zero-Fits : (a : Amount) → Fits 0 a
zero-Fits (copies m) = omega arith
zero-Fits unlimited = tt

pub min_of-le : (n : ℕ) (a : Amount) → min_of n a ≤ n
min_of-le n (copies m) = min-le_left n m
min_of-le n unlimited = omega arith

pub keyed_room-named :
    (d : Draft) (c : PoolCard) (n k : ℕ) → Fits n (keyed_room d c (some k)) → n ≤ 4 - d.by_name k
keyed_room-named d c n k h = omega (
  arith,
  name_limit-le c,
  min_of-le (name_limit c - d.by_name k) (left_after c.available (d.counts c.id)),
  singleton_room-le c d.singletons
      (min_of (name_limit c - d.by_name k) (left_after c.available (d.counts c.id))),
)

pub keyed_room-single :
    (d : Draft) (c : PoolCard) (n k kind : ℕ)
    → is_marked c kind ≡ true
    → Fits n (keyed_room d c (some k))
    → n ≤ 1 - d.singletons kind
keyed_room-single d c n k kind m h = omega (
  arith,
  singleton_room-single c d.singletons
      (min_of (name_limit c - d.by_name k) (left_after c.available (d.counts c.id))) kind m,
)

pub left_after-Fits :
    (a : Amount) (used n : ℕ) → Fits used a → Fits n (left_after a used) → Fits (used + n) a
left_after-Fits (copies m) used n h k = omega arith
left_after-Fits unlimited used n h k = tt
