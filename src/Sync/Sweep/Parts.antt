-- ===== src/Sync/Sweep/Parts.antt =====
-- What is left of a pass at a cursor, and what the next batch takes of it.
use mathlib.Core.List.{append-nil, append_assoc}
use pokedrop.Base.{
  ℕ, ◌==◌, ◌&&◌, ◌||◌, ◌≤◌, ◌<◌, ◌≡◌, refl, sym, ap, ◌∙◌, Bool, true, false, List, [], ◌++◌, leb,
  ltb, if◌then◌else◌, length, take, drop, arith,
}
use pokedrop.Sync.Sweep.{after, upto, batch_end}
use pokedrop.Sync.Sweep.Order.{
  upto-none, upto-after_none, IsAscending, IsCatalog, All-below, filter_by-IsAscending, after-All,
  after-after, after-upto, upto-take, after-batch_end, batch_end-gt, batch_end-le, upto-All,
  upto-upto, upto-append-after,
}

-- The order in which a run that starts behind `k` goes through the catalog.
abbrev pub pass_of : List ℕ → ℕ → List ℕ
pass_of cards k = after k cards ++ upto k cards

-- A pass holds the catalog, turned.
pub pass_of-turned :
    (cards : List ℕ) (k : ℕ) → IsAscending cards → upto k cards ++ after k cards ≡ cards
pass_of-turned cards k h = upto-append-after k cards h

module _ (cards : List ℕ) (started : ℕ) where
  -- What is left before the catalog's end or before the start, and what comes after the wrap.
  abbrev pub left_of : Bool → ℕ → List ℕ
  left_of false cursor = after cursor cards
  left_of true cursor = upto started (after cursor cards)

  abbrev pub later_of : Bool → List ℕ
  later_of false = upto started cards
  later_of true = []

  abbrev pub IsPlaced : Bool → ℕ → Type 0
  IsPlaced false cursor = started ≤ cursor
  IsPlaced true cursor = cursor ≤ started

  abbrev pub batch_of : Bool → List ℕ → List ℕ
  batch_of wrapped rows = if wrapped then upto started rows else rows

  pub left_of-last :
      (b : Bool) (e : ℕ) → (b && leb started e) ≡ true → (left_of b e ≡ []) × (later_of b ≡ [])
  left_of-last false e h = absurd (cc)
  left_of-last true e h = (upto-after_none started e cards (ground (arith, h)), refl)

  pub left_of-empty : (b : Bool) (cursor : ℕ) → after cursor cards ≡ [] → left_of b cursor ≡ []
  left_of-empty false cursor h = h
  left_of-empty true cursor h = ap (upto started) h

  -- A batch of a pass that has not wrapped is not empty where there are rows.
  pub later_of-batch :
      (b : Bool) (n cursor : ℕ)
      → 0 < length (take n (after cursor cards))
      → length (take n (left_of b cursor)) ≡ 0
      → later_of b ≡ []
  later_of-batch false n cursor pos none_left = absurd (omega arith)
  later_of-batch true n cursor pos none_left = refl

  module _ (catalog : IsCatalog cards) where
    pub later_of-none : (b : Bool) → (b || started == 0) ≡ true → later_of b ≡ []
    later_of-none false h =
        let zero_start : started ≡ 0 = ground (arith, h) in
        upto-none started cards (rw zero_start catalog.0)
    later_of-none true h = refl

    pub left_of-IsAscending : (b : Bool) (cursor : ℕ) → IsAscending (left_of b cursor)
    left_of-IsAscending false cursor = filter_by-IsAscending (λ id. ltb cursor id) cards catalog.1
    left_of-IsAscending true cursor =
        filter_by-IsAscending (λ id. leb id started) (after cursor cards)
          (filter_by-IsAscending (λ id. ltb cursor id) cards catalog.1)

    -- The ids of a round are a batch of what is left.
    pub batch_of-take :
        (b : Bool) (n cursor : ℕ)
        → batch_of b (take n (after cursor cards)) ≡ take n (left_of b cursor)
    batch_of-take false n cursor = refl
    batch_of-take true n cursor =
        upto-take started n (after cursor cards)
          (filter_by-IsAscending (λ id. ltb cursor id) cards catalog.1)

    pub end-after :
        (n cursor : ℕ)
        → 0 < length (take n (after cursor cards))
        → cursor < batch_end (take n (after cursor cards))
    end-after n cursor pos =
        batch_end-gt cursor n (after cursor cards) (after-All cursor cards)
          (left_of-IsAscending false cursor) pos

    -- Behind a batch is what it left.
    pub left_of-batch :
        (b : Bool) (n cursor : ℕ)
        → 0 < length (take n (left_of b cursor))
        → left_of b (batch_end (take n (left_of b cursor))) ≡ drop n (left_of b cursor)
    left_of-batch false n cursor pos =
        let e = batch_end (take n (after cursor cards)) in
        sym (after-after cursor e cards (omega (arith, end-after n cursor pos)))
        ∙ after-batch_end n (after cursor cards) (left_of-IsAscending false cursor) pos
    left_of-batch true n cursor pos =
        let e = batch_end (take n (left_of true cursor)) in
        let behind : cursor < e =
          batch_end-gt cursor n (left_of true cursor)
            (All-below cursor (λ id. leb id started) (after cursor cards) (after-All cursor cards))
            (left_of-IsAscending true cursor) pos in
        ap (upto started) (sym (after-after cursor e cards (omega (arith, behind))))
        ∙ sym (after-upto started e (after cursor cards))
        ∙ after-batch_end n (left_of true cursor) (left_of-IsAscending true cursor) pos

    pub IsPlaced-batch :
        (b : Bool) (n cursor : ℕ)
        → IsPlaced b cursor
        → 0 < length (take n (left_of b cursor))
        → IsPlaced b (batch_end (take n (left_of b cursor)))
    IsPlaced-batch false n cursor h pos = omega (arith, end-after n cursor pos)
    IsPlaced-batch true n cursor h pos =
        batch_end-le started n (left_of true cursor) (upto-All started (after cursor cards)) pos

    -- What is left of a pass comes first in the next one.
    pub pass_of-next :
        (b : Bool) (cursor : ℕ)
        → IsPlaced b cursor
        → (tail : List ℕ) × (pass_of cards cursor ≡ (left_of b cursor ++ later_of b) ++ tail)
    pass_of-next false cursor h = (
      after started (upto cursor cards),
      ap (λ l. after cursor cards ++ l)
            (sym (
                upto-append-after started (upto cursor cards)
                  (filter_by-IsAscending (λ id. leb id cursor) cards catalog.1))
              ∙ ap (λ l. l ++ after started (upto cursor cards)) (upto-upto started cursor cards h))
          ∙ sym (
              append_assoc (after cursor cards) (upto started cards)
                (after started (upto cursor cards))),
    )
    pass_of-next true cursor h = (
      after started cards ++ upto cursor cards,
      ap (λ l. l ++ upto cursor cards)
            (sym (upto-append-after started (after cursor cards) (left_of-IsAscending false cursor))
              ∙ ap (λ l. upto started (after cursor cards) ++ l)
                  (after-after cursor started cards h))
          ∙ append_assoc (upto started (after cursor cards)) (after started cards)
              (upto cursor cards)
          ∙ ap (λ l. l ++ (after started cards ++ upto cursor cards))
              (sym (append-nil (upto started (after cursor cards)))),
    )
