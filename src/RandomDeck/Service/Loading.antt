-- ===== src/RandomDeck/Service/Loading.antt =====
-- The pool that is loaded: its ids are the table's, and each of its cards is a selected row.
use pokedrop.Base.{
  ℕ, ◌≤◌, ◌≡◌, sym, ap, ◌∙◌, true, false, some, List, [], ◌∷◌, ◌==◌, if◌then◌else◌, sum_of,
  Bool-cases, inl, inr, arith,
}
use pokedrop.RandomDeck.Draft.{PoolCard}
use pokedrop.RandomDeck.Pooled.{IsKeyed, count_id, get_card}
use pokedrop.RandomDeck.Service.{CardRow, Owner, is_selected, pool_card, load_pool, get_row}

abbrev pub count_row : ℕ → List CardRow → ℕ
count_row k = sum_of (λ row. if row.id == k then 1 else 0)

-- The primary key of the card table.
abbrev pub IsKeyedTable : List CardRow → Type 0
IsKeyedTable table = (k : ℕ) → count_row k table ≤ 1

count_row_pos :
    (k : ℕ) (table : List CardRow) (row : CardRow)
    → get_row k table ≡ some row
    → 1 ≤ count_row k table
count_row_pos k [] row e = absurd (cc)
count_row_pos k (r ∷ rows) row e = ground (arith, count_row_pos k rows row)

module _ (format : ℕ) (owner : Owner) where
  count_id-load :
      (k : ℕ) (table : List CardRow) → count_id k (load_pool table format owner) ≤ count_row k table
  unfolding load_pool
  count_id-load k [] = omega arith
  count_id-load k (r ∷ rows) =
      let rest = count_id-load k rows in
      elim (Bool-cases (is_selected format owner r)) [
        | inl e ↦ rw e (omega (arith, rest))
        | inr e ↦ rw e (omega (arith, rest))
      ]

  pub load_pool-IsKeyed :
      (table : List CardRow) → IsKeyedTable table → IsKeyed (load_pool table format owner)
  load_pool-IsKeyed table h k = omega (arith, h k, count_id-load k table)

  -- A card of the pool is the selected row with its id.
  pub record IsLoaded (table : List CardRow) (k : ℕ) (c : PoolCard) : Type 0 where
    pub row : CardRow
    pub found : get_row k table ≡ some row
    pub same : c ≡ pool_card owner row
    pub selected : is_selected format owner row ≡ true

  IsLoaded-cons :
      (r : CardRow) (rows : List CardRow) (k : ℕ) (c : PoolCard)
      → (r.id == k) ≡ false
      → IsLoaded rows k c
      → IsLoaded (r ∷ rows) k c
  IsLoaded-cons r rows k c e h = record {
    row = h.row;
    found = rw e h.found;
    same = h.same;
    selected = h.selected;
  }

  load_pool-selected :
      (r : CardRow) (rows : List CardRow)
      → is_selected format owner r ≡ true
      → load_pool (r ∷ rows) format owner ≡ pool_card owner r ∷ load_pool rows format owner
  unfolding load_pool
  load_pool-selected r rows s = rw s

  load_pool-skipped :
      (r : CardRow) (rows : List CardRow)
      → is_selected format owner r ≡ false
      → load_pool (r ∷ rows) format owner ≡ load_pool rows format owner
  unfolding load_pool
  load_pool-skipped r rows s = rw s

  pub get_card-load :
      (table : List CardRow) (k : ℕ) (c : PoolCard)
      → IsKeyedTable table
      → get_card k (load_pool table format owner) ≡ some c
      → IsLoaded table k c
  unfolding load_pool
  get_card-load [] k c h e = absurd (cc)
  get_card-load (r ∷ rows) k c h e =
      let tail : IsKeyedTable rows = λ j. omega (arith, h j) in
      elim (Bool-cases (is_selected format owner r)) [
        | inl s ↦ elim (Bool-cases (r.id == k)) [
          | inl i ↦ record {
            row = r;
            found = rw i;
            same = ground (arith, e, load_pool-selected r rows s, i);
            selected = s;
          }
          | inr i ↦
              IsLoaded-cons r rows k c i
                (get_card-load rows k c tail (ground (arith, e, load_pool-selected r rows s, i)))
        ]
        | inr s ↦
            let rest =
              get_card-load rows k c tail
                (ap (get_card k) (sym (load_pool-skipped r rows s)) ∙ e) in
            IsLoaded-cons r rows k c (ground (arith, h k, count_row_pos k rows rest.row rest.found))
              rest
      ]
