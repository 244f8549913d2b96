-- ===== src/RandomDeck/Grown.antt =====
-- The drafts that additions within their room lead to, and the rollback to an earlier one.
use mathlib.Core.Path.{fun_ext}
use mathlib.Core.List.{reverse-cons}
use pokedrop.Base.{
  ℕ, suc, ◌+◌, ◌-◌, ◌≤◌, ◌<◌, ◌≡◌, refl, ap, ◌∙◌, Bool, true, false, ◌&&◌, ◌||◌, Option, none, some,
  List, [], ◌∷◌, ◌++◌, ◌==◌, lt→ltb, if◌then◌else◌, length, take, contains, Bool-cases, inl, inr,
  arith,
}
use pokedrop.RandomDeck.Draft.{
  PoolCard, Draft, Added, Fits, room, copy_limit_key, change_keyed, change, bump, bump_kinds,
  deck_singletons, radiant, star, ace_spec, add, undo, rollback, since, add_all, mark,
}

-- `d` is `base` with copies of cards that meet `Q` added, each time within the room for the card.
pub data Grown (Q : PoolCard → Type 0) (base : Draft) : Draft → Type 0 where
  here : Grown Q base base
  added :
      {d : Draft}
      → Grown Q base d
      → (c : PoolCard) (n : ℕ) → Q c
      → Fits n (room d c)
      → Grown Q base (add d c n)

module _ (Q : PoolCard → Type 0) where
  pub Grown-trans : {a b c : Draft} → Grown Q a b → Grown Q b c → Grown Q a c
  Grown-trans g here = g
  Grown-trans g (added h c n q fits) = added (Grown-trans g h) c n q fits

  pub Grown-weaken :
      (P : PoolCard → Type 0)
      → ((c : PoolCard) → Q c → P c)
      → {a b : Draft} → Grown Q a b
      → Grown P a b
  Grown-weaken P h here = here
  Grown-weaken P h (added g c n q fits) = added (Grown-weaken P h g) c n (h c q) fits

undo-cons :
    (m : ℕ) (e : Added) (log : List Added) (d : Draft)
    → m < length (e ∷ log)
    → undo m (e ∷ log) d ≡ undo m log (record (change d e.card (λ k. k - e.n)) { log = log })
unfolding undo
undo-cons m e log d h = rw (lt→ltb m (length (e ∷ log)) h)

bump_back : (map : ℕ → ℕ) (key n : ℕ) → bump (bump map key (λ k. k + n)) key (λ k. k - n) ≡ map
bump_back map key n = fun_ext (λ k. ground arith)

-- Whether a kind is one of those allowed once in a deck that the card is of.
abbrev pub is_marked : PoolCard → ℕ → Bool
is_marked c k =
    radiant == k && contains radiant c.subtypes
    || (star == k && contains star c.subtypes || ace_spec == k && contains ace_spec c.subtypes)

pub bump_kinds_at :
    (c : PoolCard) (map next : ℕ → ℕ) (k : ℕ)
    → bump_kinds deck_singletons c map next k ≡ (if is_marked c k then next (map k) else map k)
bump_kinds_at c map next k = elim (Bool-cases (contains radiant c.subtypes)) [
  | inl a ↦ elim (Bool-cases (contains star c.subtypes)) [
    | inl b ↦ elim (Bool-cases (contains ace_spec c.subtypes)) [
      | inl e ↦ rw (a, b, e) (ground arith)
      | inr e ↦ rw (a, b, e) (ground arith)
    ]
    | inr b ↦ elim (Bool-cases (contains ace_spec c.subtypes)) [
      | inl e ↦ rw (a, b, e) (ground arith)
      | inr e ↦ rw (a, b, e) (ground arith)
    ]
  ]
  | inr a ↦ elim (Bool-cases (contains star c.subtypes)) [
    | inl b ↦ elim (Bool-cases (contains ace_spec c.subtypes)) [
      | inl e ↦ rw (a, b, e) (ground arith)
      | inr e ↦ rw (a, b, e) (ground arith)
    ]
    | inr b ↦ elim (Bool-cases (contains ace_spec c.subtypes)) [
      | inl e ↦ rw (a, b, e) (ground arith)
      | inr e ↦ rw (a, b, e) (ground arith)
    ]
  ]
]

if_back :
    (b : Bool) (a n : ℕ) {x y : ℕ}
    → x ≡ (if b then y - n else y)
    → y ≡ (if b then a + n else a)
    → x ≡ a
if_back true a n e h = omega arith
if_back false a n e h = omega arith

kinds_back :
    (c : PoolCard) (map : ℕ → ℕ) (n : ℕ)
    → bump_kinds deck_singletons c (bump_kinds deck_singletons c map (λ k. k + n)) (λ k. k - n)
      ≡ map
kinds_back c map n = fun_ext (λ k.
    if_back (is_marked c k) (map k) n
      (bump_kinds_at c (bump_kinds deck_singletons c map (λ k. k + n)) (λ k. k - n) k)
      (bump_kinds_at c map (λ k. k + n) k))

keyed_back :
    (key : Option ℕ) (d : Draft) (c : PoolCard) (n : ℕ) (l log : List Added)
    → record (change_keyed
        (record (change_keyed d c (λ k. k + n) key) { log = l })
        c
        (λ k. k - n)
        key) { log = log }
      ≡ record d { log = log }
keyed_back none d c n l log = rw (bump_back d.counts c.id n)
keyed_back (some key) d c n l log =
    rw (bump_back d.counts c.id n, bump_back d.by_name key n, kinds_back c d.singletons n)

-- A subtraction of what was added gives the draft before it, but for its log.
change_back :
    (d : Draft) (c : PoolCard) (n : ℕ) (log : List Added)
    → record (change (add d c n) c (λ k. k - n)) { log = log } ≡ record d { log = log }
unfolding change add
change_back d c n log = keyed_back (copy_limit_key c) d c n (record { card = c; n = n } ∷ d.log) log

-- The last addition is undone by a rollback to any earlier mark.
rollback-add :
    (m : ℕ) (d : Draft) (c : PoolCard) (n : ℕ) → m ≤ mark d → rollback m (add d c n) ≡ rollback m d
unfolding rollback add
rollback-add m d c n h =
    undo-cons m (record { card = c; n = n }) d.log (add d c n) (omega arith)
    ∙ ap (undo m d.log) (change_back d c n d.log)

undo-short : (m : ℕ) (log : List Added) (d : Draft) → length log ≤ m → undo m log d ≡ d
unfolding undo
undo-short m [] d h = refl
undo-short m (e ∷ log) d h = ground arith

module _ (Q : PoolCard → Type 0) {base : Draft} where
  pub mark-le : {d : Draft} → Grown Q base d → mark base ≤ mark d
  unfolding add
  mark-le here = omega arith
  mark-le (added g c n q fits) = omega (arith, mark-le g)

  -- A rollback to the mark of the first draft gives it back.
  pub rollback-Grown : {d : Draft} → Grown Q base d → rollback (mark base) d ≡ base
  unfolding rollback
  rollback-Grown here = undo-short (mark base) base.log base (omega arith)
  rollback-Grown (added {d} g c n q fits) =
      rollback-add (mark base) d c n (mark-le g) ∙ rollback-Grown g

add_all-append : (es fs : List Added) (d : Draft) → add_all (es ++ fs) d ≡ add_all fs (add_all es d)
unfolding add_all
add_all-append [] fs d = refl
add_all-append (e ∷ es) fs d = add_all-append es fs (add d e.card e.n)

since-add :
    (m : ℕ) (d : Draft) (c : PoolCard) (n : ℕ)
    → m ≤ mark d
    → since m (add d c n) ≡ since m d ++ record { card = c; n = n } ∷ []
unfolding since add
since-add m d c n h =
    let longer : suc (length d.log) - m ≡ suc (length d.log - m) = omega arith in
    rw longer (reverse-cons (record { card = c; n = n }) (take (length d.log - m) d.log))

since_self : (d : Draft) → since (mark d) d ≡ []
unfolding since
since_self d = let none_left : length d.log - length d.log ≡ 0 = omega arith in rw none_left

module _ (Q : PoolCard → Type 0) {base : Draft} where
  -- What was added since the mark of the first draft leads from it to the last one.
  pub add_all-since : {d : Draft} → Grown Q base d → add_all (since (mark base) d) base ≡ d
  unfolding add_all
  add_all-since here = rw (since_self base)
  add_all-since (added {d} g c n q fits) =
      ap (λ es. add_all es base) (since-add (mark base) d c n (mark-le Q g))
      ∙ add_all-append (since (mark base) d) (record { card = c; n = n } ∷ []) base
      ∙ ap (λ b. add b c n) (add_all-since g)

-- After additions within their room, a rollback to a mark gives the draft of the mark back, and
-- the additions logged since the mark lead from it to the same draft again.
pub rollback_round_trip :
    (Q : PoolCard → Type 0) {base d : Draft}
    → Grown Q base d
    → (rollback (mark base) d ≡ base) × (add_all (since (mark base) d) base ≡ d)
rollback_round_trip Q g = (rollback-Grown Q g, add_all-since Q g)
