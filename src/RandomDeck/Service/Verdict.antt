-- ===== src/RandomDeck/Service/Verdict.antt =====
-- The validator's verdict on a deck that was generated from the table's pool.
use pokedrop.Base.{
  ℕ, ◌≤◌, ◌≡◌, ◌≢◌, refl, ap, ◌∙◌, subst, Bool, true, false, ◌&&◌, Option, none, some, List, [],
  ◌∷◌, ◌==◌, ==_self, if◌then◌else◌, map, sum_of, All, Bool-cases, inl, inr, contains, arith,
}
use pokedrop.Base.Dict.{Dict, lookup}
use pokedrop.Decks.{
  LegalityStatus, legal, banned, other_status, copy_limit_key, count_cards, available_of,
}
use pokedrop.Decks.Rules.{copies_named, IsPlayable}
use pokedrop.Decks.Verdicts.{IsValidDeck-valid}
use pokedrop.RandomDeck.Draft
use pokedrop.RandomDeck.Draft.{
  Amount, copies, unlimited, Fits, PoolCard, energy_supertype, basic_subtype,
}
use pokedrop.RandomDeck.Pooled.{get_card, All-map}
use pokedrop.RandomDeck.Rooms.{has_key}
use pokedrop.RandomDeck.Generator.{DeckCard}
use pokedrop.RandomDeck.Choice.Dealing.{in_deck, IsHeld, IsLegalDeck}
use pokedrop.RandomDeck.Service.{
  CardRow, is_legal_status, is_legal, Owner, is_selected, pool_card, load_pool, get_row, row_card,
  validation_cards, held_of, verdict, owner_of,
}
use pokedrop.RandomDeck.Service.Loading.{IsKeyedTable, get_card-load}

pool_card-has_key :
    (owner : Owner) (row : CardRow) (k : ℕ)
    → has_key k (pool_card owner row) ≡ (
        if row.supertype == energy_supertype && contains basic_subtype row.subtypes
        then false
        else row.base_name == k)
unfolding Draft.copy_limit_key
pool_card-has_key owner row k = ground arith

row_card-named :
    (owner : Owner) (row : CardRow) (id n k : ℕ)
    → copies_named k (row_card id n (some row)) ≡ (if has_key k (pool_card owner row) then n else 0)
unfolding copy_limit_key Draft.copy_limit_key
row_card-named owner row id n k = ground arith

legal-playable :
    (status : Option LegalityStatus)
    → is_legal_status status ≡ true
    → (status ≢ some banned) × ((s : ℕ) → status ≢ some (other_status s))
legal-playable none h = absurd (cc)
legal-playable (some legal) h = ((λ e. cc), λ s e. cc)
legal-playable (some banned) h = absurd (cc)
legal-playable (some (other_status s)) h = absurd (cc)

is_selected-legal :
    (format : ℕ) (owner : Owner) (row : CardRow)
    → is_selected format owner row ≡ true
    → is_legal format row ≡ true
unfolding is_selected
is_selected-legal format owner row h = ground (arith, h)

module _ (table : List CardRow) (format : ℕ) (owner : Owner) (keyed : IsKeyedTable table) where
  abbrev pool : List PoolCard
  pool = load_pool table format owner

  -- An entry of the deck is its row in the table, selected and held.
  record IsRow (dealt : DeckCard) : Type 0 where
    row : CardRow
    found : get_row dealt.card table ≡ some row
    pooled : get_card dealt.card pool ≡ some (pool_card owner row)
    selected : is_selected format owner row ≡ true
    fits : Fits dealt.count (pool_card owner row).available

  IsHeld-IsRow : (dealt : DeckCard) → IsHeld pool dealt → IsRow dealt
  IsHeld-IsRow dealt (c, e, pos, fits) =
      let l = get_card-load format owner table dealt.card c keyed e in
      record {
        row = l.row;
        found = l.found;
        pooled = e ∙ ap some l.same;
        selected = l.selected;
        fits = subst (λ x. Fits dealt.count x.available) l.same fits;
      }

  rows_of : (cards : List DeckCard) → All (IsHeld pool) cards → All IsRow cards
  rows_of cards h = All-map (IsHeld pool) IsRow cards IsHeld-IsRow h

  validation_cards-count :
      (cards : List DeckCard)
      → All IsRow cards
      → count_cards (validation_cards table cards) ≡ sum_of (λ dealt. dealt.count) cards
  unfolding validation_cards
  validation_cards-count [] h = refl
  validation_cards-count (x ∷ xs) h = rw h.0.found (omega (arith, validation_cards-count xs h.1))

  validation_cards-named :
      (k : ℕ) (cards : List DeckCard)
      → All IsRow cards
      → copies_named k (validation_cards table cards) ≡ in_deck pool (has_key k) cards
  unfolding validation_cards
  validation_cards-named k [] h = refl
  validation_cards-named k (x ∷ xs) h =
      let r = h.0 in
      rw (r.found, r.pooled)
        (omega
          (arith, row_card-named owner r.row x.card x.count k, validation_cards-named k xs h.1))

  validation_cards-IsPlayable :
      (cards : List DeckCard)
      → All IsRow cards
      → All (IsPlayable format) (validation_cards table cards)
  unfolding validation_cards
  validation_cards-IsPlayable [] h = tt
  validation_cards-IsPlayable (x ∷ xs) h =
      let r = h.0 in
      rw r.found (
        legal-playable (lookup format r.row.legalities)
            (is_selected-legal format owner r.row r.selected),
        validation_cards-IsPlayable xs h.1,
      )

  abbrev held_map : List DeckCard → Dict ℕ
  held_map = map (λ dealt. (dealt.card, held_of (get_card dealt.card pool)))

  abbrev HoldsOwn : List DeckCard → DeckCard → Type 0
  HoldsOwn cards dealt =
      lookup dealt.card (held_map cards) ≡ some (held_of (get_card dealt.card pool))

  HoldsOwn-cons :
      (x dealt : DeckCard) (cards : List DeckCard)
      → HoldsOwn cards dealt
      → HoldsOwn (x ∷ cards) dealt
  unfolding lookup
  HoldsOwn-cons x dealt cards h = elim (Bool-cases (x.card == dealt.card)) [
    | inl e ↦ let same : x.card ≡ dealt.card = ground (arith, e) in rw (same, ==_self dealt.card)
    | inr e ↦ rw e h
  ]

  -- The map of the deck's cards to what is available names each of them.
  All-HoldsOwn : (cards : List DeckCard) → All (HoldsOwn cards) cards
  unfolding lookup
  All-HoldsOwn [] = tt
  All-HoldsOwn (x ∷ xs) = (
    rw (==_self x.card),
    All-map (HoldsOwn xs) (HoldsOwn (x ∷ xs)) xs (λ dealt. HoldsOwn-cons x dealt xs)
        (All-HoldsOwn xs),
  )

module _ (table : List CardRow) (format : ℕ) (available : ℕ → ℕ) (keyed : IsKeyedTable table) where
  abbrev owner : Owner
  owner = some available

  validation_cards-owned :
      (held : Dict ℕ) (cards : List DeckCard)
      → All (IsRow table format owner keyed) cards
      → All
          (λ dealt.
            lookup dealt.card held
            ≡ some (held_of (get_card dealt.card (load_pool table format owner))))
          cards
      → All (λ c. c.count ≤ available_of c.card held) (validation_cards table cards)
  unfolding validation_cards
  validation_cards-owned held [] h k = tt
  validation_cards-owned held (x ∷ xs) h k =
      let r = h.0 in
      let own : lookup x.card held ≡ some (available r.row.id) =
        k.0 ∙ ap (λ o. some (held_of o)) r.pooled in
      rw r.found (rw (own, available_of) r.fits, validation_cards-owned held xs h.1 k.1)

module _ (table : List CardRow) (format : ℕ) (keyed : IsKeyedTable table) (deck_size : ℕ) where
  abbrev loaded : Bool → (ℕ → ℕ) → List PoolCard
  loaded owned_only available = load_pool table format (owner_of owned_only available)

  -- The validator calls a deck valid that is legal over the pool that was loaded.
  pub verdict-valid :
      (owned_only : Bool) (available : ℕ → ℕ) (cards : List DeckCard)
      → IsLegalDeck (loaded owned_only available) deck_size cards
      → (verdict table format owned_only deck_size cards (loaded owned_only available)).valid ≡ true
  unfolding verdict
  verdict-valid true available cards d =
      let rows = rows_of table format (some available) keyed cards d.held in
      IsValidDeck-valid _ (record {
        sized = validation_cards-count table format (some available) keyed cards rows ∙ d.sized;
        limited = λ k. omega (
          arith,
          validation_cards-named table format (some available) keyed k cards rows,
          d.named k,
        );
        playable = validation_cards-IsPlayable table format (some available) keyed cards rows;
        owned = λ e.
            validation_cards-owned table format available keyed _ cards rows
              (All-HoldsOwn table format (some available) keyed cards);
      })
  verdict-valid false available cards d =
      let rows = rows_of table format none keyed cards d.held in
      IsValidDeck-valid _ (record {
        sized = validation_cards-count table format none keyed cards rows ∙ d.sized;
        limited = λ k.
            omega (arith, validation_cards-named table format none keyed k cards rows, d.named k);
        playable = validation_cards-IsPlayable table format none keyed cards rows;
        owned = λ e. absurd (cc);
      })
