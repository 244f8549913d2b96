-- ===== src/Packs/Generator/Contents.antt =====
-- What a generated pack holds, and when a pack can be generated.
use pokedrop.Base.{
  ℕ, zero, suc, ◌+◌, ◌≡◌, sym, ap, ap₂, subst, ◌∙◌, Error, ok-injective, true, Option, none, some,
  List, [], ◌∷◌, ◌==◌, length, length-append, ok, empty_slot, contains, All, All-append, some_of,
  sum_of, get_elem?, range_error, >>=-eq-ok, arith,
}
use pokedrop.Inventory.{CardId}
use pokedrop.Schema.Database.{PulledCard}
use pokedrop.Packs.Ladder.{Rung, ladder_of, total_weight}
use pokedrop.Packs.Generator.{
  Drawn, Rng, CardPool, SlotConfig, Found, roll, resolve, search_order, or_fail, pick, Draw,
  draw_card, GeneratedPack, draw_cards, draw_slots, generate_pack,
}
use pokedrop.Packs.Generator.Serving.{bucket_of, first_filled-some, some_of-search_order}

contains-get_elem? :
    (xs : List CardId) (i : ℕ) (x : CardId) → get_elem? xs i ≡ some x → contains x xs ≡ true
contains-get_elem? [] i x e = cc
contains-get_elem? (y ∷ ys) zero x e = ground arith
contains-get_elem? (y ∷ ys) (suc i) x e = ground (arith, contains-get_elem? ys i x e)

or_fail-ok {ℓ} : {A : Type ℓ} (o : Option A) (x : Error) {a : A} → or_fail o x ≡ ok a → o ≡ some a
or_fail-ok none x e = cc
or_fail-ok (some a) x e = cc

-- The card is one of the pool's, of its rarity.
abbrev pub IsPooled : CardPool → PulledCard → Type 0
IsPooled pool card = contains card.card (bucket_of pool card.rarity) ≡ true

-- The rarity is one of the ladder's.
abbrev pub IsOn : List Rung → PulledCard → Type 0
IsOn ladder card = some_of (λ rung. rung.rarity == card.rarity) ladder ≡ true

resolve-some :
    (ladder : List Rung) (k : ℕ) (pool : CardPool) {found : Found}
    → resolve ladder k pool ≡ some found
    → (found.bucket ≡ bucket_of pool found.rarity)
      × (some_of (λ rung. rung.rarity == found.rarity) ladder ≡ true)
unfolding resolve
resolve-some ladder k pool {found = found} e =
    let (b, _, on) = first_filled-some (search_order ladder k) pool e in
    (b, sym (some_of-search_order (λ rung. rung.rarity == found.rarity) ladder k) ∙ on)

-- The rarity is on the ladder of one of the slots.
abbrev pub IsOffered : List SlotConfig → PulledCard → Type 0
IsOffered configs card =
    some_of (λ config. some_of (λ rung. rung.rarity == card.rarity) (ladder_of config.weights))
      configs
    ≡ true

module _ {S : Type 0} (rng : Rng S) where
  pick-ok :
      (bucket : List CardId) (s : S) {d : Drawn S}
      → pick rng bucket s ≡ ok d
      → contains d.value bucket ≡ true
  unfolding pick
  pick-ok bucket s {d = d} e =
      let (i, _, rest) = >>=-eq-ok (rng.int (length bucket) s) _ e in
      let (card, at, last) = >>=-eq-ok (or_fail (get_elem? bucket i.value) range_error) _ rest in
      rw (← ap (λ (d : Drawn S). d.value) (ok-injective last)) (
        contains-get_elem? bucket i.value card
          (or_fail-ok (get_elem? bucket i.value) range_error at))

  found_card :
      (ladder : List Rung) (k : ℕ) (pool : CardPool) (found : Found) (s : S) (picked : Drawn S)
      (card : PulledCard)
      → resolve ladder k pool ≡ some found
      → pick rng found.bucket s ≡ ok picked
      → record { card = picked.value; rarity = found.rarity } ≡ card
      → IsPooled pool card × IsOn ladder card
  found_card ladder k pool found s picked card r p e =
      let (b, on) = resolve-some ladder k pool r in
      rw (← e) (rw b at (pick-ok found.bucket s p), on)

  draw_card-ok :
      (slot : ℕ) (ladder : List Rung) (pool : CardPool) (s : S) {d : Draw rng}
      → draw_card rng slot ladder pool s ≡ ok d
      → IsPooled pool d.card × IsOn ladder d.card
  unfolding draw_card
  draw_card-ok slot ladder pool s {d = d} e =
      let (r, _, e₁) = >>=-eq-ok (rng.int (total_weight ladder) s) _ e in
      let (rolled, _, e₂) = >>=-eq-ok (roll ladder r.value) _ e₁ in
      let (found, f, e₃) = >>=-eq-ok (or_fail (resolve ladder rolled.index pool) empty_slot) _ e₂ in
      let (picked, p, last) = >>=-eq-ok (pick rng found.bucket r.state) _ e₃ in
      found_card ladder rolled.index pool found r.state picked d.card
        (or_fail-ok (resolve ladder rolled.index pool) empty_slot f) p
        (ap (λ (d : Draw rng). d.card) (ok-injective last))

  draw_cards-ok :
      (slot : ℕ) (ladder : List Rung) (pool : CardPool) (n : ℕ) (s : S) {g : GeneratedPack rng}
      → draw_cards rng slot ladder pool n s ≡ ok g
      → (length g.cards ≡ n) × All (λ card. IsPooled pool card × IsOn ladder card) g.cards
  unfolding draw_cards
  draw_cards-ok slot ladder pool zero s e =
      let cards = ap (λ (g : GeneratedPack rng). g.cards) (ok-injective e) in
      (ap length (sym cards), subst (All _) cards tt)
  draw_cards-ok slot ladder pool (suc n) s e =
      let (d, e₁, rest) = >>=-eq-ok (draw_card rng slot ladder pool s) _ e in
      let (g, e₂, last) = >>=-eq-ok (draw_cards rng slot ladder pool n d.state) _ rest in
      let cards = ap (λ (g : GeneratedPack rng). g.cards) (ok-injective last) in
      let (len, all) = draw_cards-ok slot ladder pool n d.state e₂ in
      (
        ap length (sym cards) ∙ ap suc len,
        subst (All _) cards (draw_card-ok slot ladder pool s e₁, all),
      )

  All-IsOffered :
      (pool : CardPool) (config : SlotConfig) (configs : List SlotConfig) (cards : List PulledCard)
      → All (λ card. IsPooled pool card × IsOn (ladder_of config.weights) card) cards
      → All (λ card. IsPooled pool card × IsOffered (config ∷ configs) card) cards
  All-IsOffered pool config configs [] h = tt
  All-IsOffered pool config configs (c ∷ cs) h =
      ((h.0.0, ground (arith, h.0.1)), All-IsOffered pool config configs cs h.1)

  All-later :
      (pool : CardPool) (config : SlotConfig) (configs : List SlotConfig) (cards : List PulledCard)
      → All (λ card. IsPooled pool card × IsOffered configs card) cards
      → All (λ card. IsPooled pool card × IsOffered (config ∷ configs) card) cards
  All-later pool config configs [] h = tt
  All-later pool config configs (c ∷ cs) h =
      ((h.0.0, ground (arith, h.0.1)), All-later pool config configs cs h.1)

  draw_slots-ok :
      (slot : ℕ) (configs : List SlotConfig) (pool : CardPool) (s : S) {g : GeneratedPack rng}
      → draw_slots rng slot configs pool s ≡ ok g
      → (length g.cards ≡ sum_of (λ config. config.count) configs)
        × All (λ card. IsPooled pool card × IsOffered configs card) g.cards
  unfolding draw_slots
  draw_slots-ok slot [] pool s e =
      let cards = ap (λ (g : GeneratedPack rng). g.cards) (ok-injective e) in
      (ap length (sym cards), subst (All _) cards tt)
  draw_slots-ok slot (config ∷ configs) pool s e =
      let (d, e₁, rest) =
        >>=-eq-ok (draw_cards rng slot (ladder_of config.weights) pool config.count s) _ e in
      let (g, e₂, last) = >>=-eq-ok (draw_slots rng (suc slot) configs pool d.state) _ rest in
      let cards = ap (λ (g : GeneratedPack rng). g.cards) (ok-injective last) in
      let (len₁, all₁) = draw_cards-ok slot (ladder_of config.weights) pool config.count s e₁ in
      let (len₂, all₂) = draw_slots-ok (suc slot) configs pool d.state e₂ in
      (
        ap length (sym cards) ∙ length-append d.cards g.cards ∙ ap₂ ◌+◌ len₁ len₂,
        subst (All _) cards (
            All-append _ d.cards g.cards (All-IsOffered pool config configs d.cards all₁)
              (All-later pool config configs g.cards all₂)),
      )

  -- A generated pack has as many cards as its slots count, each from the pool's bucket of its
  -- rarity, and of a rarity on the ladder of one of the slots.
  pub generate_pack-ok :
      (configs : List SlotConfig) (pool : CardPool) (s : S) {g : GeneratedPack rng}
      → generate_pack rng configs pool s ≡ ok g
      → (length g.cards ≡ sum_of (λ config. config.count) configs)
        × All (λ card. IsPooled pool card × IsOffered configs card) g.cards
  unfolding generate_pack
  generate_pack-ok configs pool s e = draw_slots-ok 0 configs pool s e
