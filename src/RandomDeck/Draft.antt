-- ===== src/RandomDeck/Draft.antt =====
-- apps/api/src/decks/random-deck/random-deck.generator.ts: `Draft`, the deck under construction. Its
-- maps are functions that are 0 on a missing key; their keys are ids of the pool's cards, so a loop
-- over `counts` is one over the pool.
use pokedrop.Base.{
  ℕ, ◌+◌, ◌-◌, ◌≤◌, Bool, true, ◌&&◌, Option, none, some, List, [], ◌∷◌, ◌==◌, ltb, leb,
  if◌then◌else◌, length, take, reverse, sum_of, contains,
}

-- A number of copies: `Infinity` where any card may be used.
pub data Amount : Type 0 where
  copies : ℕ → Amount
  unlimited : Amount

-- `Math.max(a - n, 0)`
abbrev pub left_after : Amount → ℕ → Amount
left_after (copies m) n = copies (m - n)
left_after unlimited n = unlimited

abbrev pub min : ℕ → ℕ → ℕ
min a b = if leb a b then a else b

-- `Math.min(n, a)`
abbrev pub min_of : ℕ → Amount → ℕ
min_of n (copies m) = min n m
min_of n unlimited = n

-- `a > 0`
abbrev pub is_some : Amount → Bool
is_some (copies m) = ltb 0 m
is_some unlimited = true

abbrev pub Fits : ℕ → Amount → Type 0
Fits n (copies m) = n ≤ m
Fits n unlimited = Unit

pub record PoolCard : Type 0 where
  pub id : ℕ
  pub name : ℕ
  pub base_name : ℕ
  pub supertype : ℕ
  pub subtypes : List ℕ
  pub types : List ℕ
  pub evolves_from : Option ℕ
  pub energy_type : Option ℕ
  pub available : Amount

abbrev pub pokemon_supertype : ℕ
pokemon_supertype = 0

abbrev pub trainer_supertype : ℕ
trainer_supertype = 1

abbrev pub energy_supertype : ℕ
energy_supertype = 2

abbrev pub basic_subtype : ℕ
basic_subtype = 0

abbrev pub supporter_subtype : ℕ
supporter_subtype = 1

abbrev pub stadium_subtype : ℕ
stadium_subtype = 2

abbrev pub radiant : ℕ
radiant = 3

abbrev pub star : ℕ
star = 4

abbrev pub ace_spec : ℕ
ace_spec = 5

abbrev pub prism_star : ℕ
prism_star = 6

abbrev pub deck_singletons : List ℕ
deck_singletons = radiant ∷ star ∷ ace_spec ∷ []

abbrev pub is_pokemon : PoolCard → Bool
is_pokemon c = c.supertype == pokemon_supertype

abbrev pub is_trainer : PoolCard → Bool
is_trainer c = c.supertype == trainer_supertype

abbrev pub is_supporter : PoolCard → Bool
is_supporter c = is_trainer c && contains supporter_subtype c.subtypes

abbrev pub is_stadium : PoolCard → Bool
is_stadium c = is_trainer c && contains stadium_subtype c.subtypes

abbrev pub is_basic_energy : PoolCard → Bool
is_basic_energy c = c.supertype == energy_supertype && contains basic_subtype c.subtypes

abbrev pub any : PoolCard → Bool
any c = true

-- `copyLimitKey`, on a card of the pool.
unfoldable pub copy_limit_key : PoolCard → Option ℕ
copy_limit_key c = if is_basic_energy c then none else some c.base_name

pub record Added : Type 0 where
  pub card : PoolCard
  pub n : ℕ

-- The log has its last entry first.
pub record Draft : Type 0 where
  pub counts : ℕ → ℕ
  pub by_name : ℕ → ℕ
  pub singletons : ℕ → ℕ
  pub log : List Added

abbrev pub new_draft : Draft
new_draft = record { counts = λ _. 0; by_name = λ _. 0; singletons = λ _. 0; log = [] }

-- `card.subtypes.includes(NAME_SINGLETON) ? 1 : DECK_MAX_COPIES`
abbrev pub name_limit : PoolCard → ℕ
name_limit c = if contains prism_star c.subtypes then 1 else 4

-- The loop over the kinds allowed once in a deck.
abbrev pub singleton_room : List ℕ → PoolCard → (ℕ → ℕ) → ℕ → ℕ
singleton_room [] c used room = room
singleton_room (kind ∷ kinds) c used room =
    singleton_room kinds c used
      (if contains kind c.subtypes then min room (1 - used kind) else room)

abbrev pub keyed_room : Draft → PoolCard → Option ℕ → Amount
keyed_room d c none = left_after c.available (d.counts c.id)
keyed_room d c (some key) = copies (
    singleton_room deck_singletons c d.singletons
      (min_of (name_limit c - d.by_name key) (left_after c.available (d.counts c.id))))

unfoldable pub room : Draft → PoolCard → Amount
room d c = keyed_room d c (copy_limit_key c)

-- `bump`, with the new value as a function of the old one.
abbrev pub bump : (ℕ → ℕ) → ℕ → (ℕ → ℕ) → ℕ → ℕ
bump map key next k = if key == k then next (map k) else map k

abbrev pub bump_kinds : List ℕ → PoolCard → (ℕ → ℕ) → (ℕ → ℕ) → ℕ → ℕ
bump_kinds [] c used next = used
bump_kinds (kind ∷ kinds) c used next =
    bump_kinds kinds c (if contains kind c.subtypes then bump used kind next else used) next

abbrev pub change_keyed : Draft → PoolCard → (ℕ → ℕ) → Option ℕ → Draft
change_keyed d c next none = record d { counts = bump d.counts c.id next }
change_keyed d c next (some key) = record d {
  counts = bump d.counts c.id next;
  by_name = bump d.by_name key next;
  singletons = bump_kinds deck_singletons c d.singletons next;
}

unfoldable pub change : Draft → PoolCard → (ℕ → ℕ) → Draft
change d c next = change_keyed d c next (copy_limit_key c)

unfoldable pub add : Draft → PoolCard → ℕ → Draft
add d c n = record (change d c (λ k. k + n)) { log = record { card = c; n = n } ∷ d.log }

abbrev pub used_keyed : Draft → Option ℕ → ℕ
used_keyed d none = 0
used_keyed d (some key) = d.by_name key

unfoldable pub used : Draft → PoolCard → ℕ
used d c = used_keyed d (copy_limit_key c)

abbrev pub mark : Draft → ℕ
mark d = length d.log

unfoldable pub since : ℕ → Draft → List Added
since m d = reverse (take (length d.log - m) d.log)

-- The loop of `rollback`, over the entries of the log.
unfoldable pub undo : ℕ → List Added → Draft → Draft
undo m [] d = d
undo m (e ∷ log) d =
    let rest = undo m log (record (change d e.card (λ k. k - e.n)) { log = log }) in
    if ltb m (length (e ∷ log)) then rest else d

unfoldable pub rollback : ℕ → Draft → Draft
rollback m d = undo m d.log d

-- The loop that adds the best of the draws again.
unfoldable pub add_all : List Added → Draft → Draft
add_all [] d = d
add_all (e ∷ es) d = add_all es (add d e.card e.n)

-- The sum of a measure over the pool, and of the copies of the cards that meet a test.
unfoldable pub total : List PoolCard → (PoolCard → Bool) → Draft → ℕ
total pool test d = sum_of (λ c. if test c then d.counts c.id else 0) pool
