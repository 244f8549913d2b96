-- ===== src/Packs/Rng/Draws.antt =====
-- The draws of `SeededRng`: in range, unbiased, and ended by the first word that is not rejected.
use pokedrop.Base.{
  if◌then◌else◌, ℕ, zero, suc, ◌+◌, ◌-◌, ◌*◌, ◌/◌, ◌%◌, ◌≤◌, ◌<◌, ◌≡◌, ◌↔◌, ap, ◌∙◌, ◌&&◌, List,
  leb, ltb, ok, range_error, require, >>=-eq-ok, ok-injective, arith, refl, true, false, Bool-cases,
  inl, inr,
}
use native.Mathlib.Nat.{
  div-add-mod', mod-lt, mod-eq_of_lt, mul-add-mod_self_right, mul-le-mul_right,
}
use native.Mathlib.Decide.{dec_lt}
use pokedrop.Packs.Generator.{Drawn, Rng}
use pokedrop.Packs.Rng.{RngState, two_pow_32, next_uint32, draw_below, limit_of, int}

draw_below-lt :
    (digest : ℕ → List ℕ) (fuel limit : ℕ) (s : RngState) {d : Drawn RngState}
    → draw_below digest fuel limit s ≡ ok d
    → d.value < limit
unfolding draw_below
draw_below-lt digest zero limit s e = cc
draw_below-lt digest (suc fuel) limit s {d = d} e =
    let (w, _, rest) = >>=-eq-ok (next_uint32 digest s) _ e in
    elim (Bool-cases (ltb w.value limit)) [
      | inl hit ↦
          rw (← ap (λ (d : Drawn RngState). d.value) (ok-injective (rw hit at rest)))
            (ground (arith, hit))
      | inr miss ↦ draw_below-lt digest fuel limit w.state (rw miss at rest)
    ]

int_range : (max : ℕ) → require (leb 1 max && leb max two_pow_32) range_error ≡ ok tt → 1 ≤ max
int_range max e = ground arith

-- A number that the generator returns for a bound is below the bound.
pub int-lt :
    (digest : ℕ → List ℕ) (fuel max : ℕ) (s : RngState) (d : Drawn RngState)
    → int digest fuel max s ≡ ok d
    → d.value < max
unfolding int
int-lt digest fuel max s d e =
    let (_, ranged, rest) = >>=-eq-ok (require (leb 1 max && leb max two_pow_32) range_error) _ e in
    let (w, _, last) = >>=-eq-ok (draw_below digest fuel (limit_of max) s) _ rest in
    rw (← ap (λ (d : Drawn RngState). d.value) (ok-injective last))
      (omega (arith, int_range max ranged))

whole_rounds : (n max : ℕ) → n - n % max ≡ n / max * max
whole_rounds n max = omega (arith, div-add-mod' n max)

rounds_below : (q max k round : ℕ) → k < max → (round * max + k < q * max) ↔ (round < q)
rounds_below q max k round small = (
  (λ h. elim (dec_lt round q) [
    | yes below ↦ below
    | no above ↦ absurd (omega (arith, mul-le-mul_right {m = q} {n = round} max (omega arith)))
  ]),
  λ h. omega (arith, mul-le-mul_right {m = suc round} {n = q} max h),
)

a_round : (n max : ℕ) → 1 ≤ max → max ≤ n → 1 ≤ n / max
a_round n max low high = elim (dec_lt 0 (n / max)) [
  | yes some_rounds ↦ some_rounds
  | no none_left ↦
      let empty : n / max ≡ 0 = omega arith in
      absurd
        (omega (arith, div-add-mod' n max, ap (λ (q : ℕ). q * max) empty, mod-lt n {m = max} low))
]

most_words : (n max : ℕ) → 1 ≤ max → max ≤ n → n < n / max * max + n / max * max
most_words n max low high = omega (
  arith,
  div-add-mod' n max,
  mod-lt n {m = max} low,
  mul-le-mul_right {m = 1} {n = n / max} max (a_round n max low high),
)

-- `SeededRng` as the generator takes it.
abbrev pub seeded_rng : (ℕ → List ℕ) → ℕ → Rng RngState
seeded_rng digest fuel = record { int = int digest fuel; int_lt = int-lt digest fuel }

-- One of the next words, `n` of them at most, is below the limit.
pub data Accepts (digest : ℕ → List ℕ) (limit : ℕ) : RngState → ℕ → Type 0 where
  at_once :
      {s : RngState} {n : ℕ} (d : Drawn RngState)
      → next_uint32 digest s ≡ ok d
      → ltb d.value limit ≡ true
      → Accepts digest limit s (suc n)
  after_one :
      {s : RngState} {n : ℕ} (d : Drawn RngState)
      → next_uint32 digest s ≡ ok d
      → ltb d.value limit ≡ false
      → Accepts digest limit d.state n
      → Accepts digest limit s (suc n)

draw_hit :
    (digest : ℕ → List ℕ) (limit fuel : ℕ) (s : RngState) (d : Drawn RngState)
    → next_uint32 digest s ≡ ok d
    → ltb d.value limit ≡ true
    → draw_below digest (suc fuel) limit s ≡ ok d
unfolding draw_below
draw_hit digest limit fuel s d e hit = rw (draw_below, e, hit) refl

draw_miss :
    (digest : ℕ → List ℕ) (limit fuel : ℕ) (s : RngState) (d : Drawn RngState)
    → next_uint32 digest s ≡ ok d
    → ltb d.value limit ≡ false
    → draw_below digest (suc fuel) limit s ≡ draw_below digest fuel limit d.state
unfolding draw_below
draw_miss digest limit fuel s d e miss = rw (draw_below, e, miss) refl

draw_below-total :
    (digest : ℕ → List ℕ) (limit n : ℕ) (s : RngState)
    → Accepts digest limit s n
    → (d : Drawn RngState) × ((more : ℕ) → n ≤ more → draw_below digest more limit s ≡ ok d)
draw_below-total digest limit n s (at_once d e hit) = (d, go)
  where
    go : (more : ℕ) → n ≤ more → draw_below digest more limit s ≡ ok d
    go zero h = absurd (omega arith)
    go (suc more) h = draw_hit digest limit more s d e hit
draw_below-total digest limit n s (after_one {n = m} d e miss rest) =
    let (last, found) = draw_below-total digest limit m d.state rest in (last, go last found)
  where
    go :
        (last : Drawn RngState)
        → ((more : ℕ) → m ≤ more → draw_below digest more limit d.state ≡ ok last)
        → (more : ℕ) → n ≤ more
        → draw_below digest more limit s ≡ ok last
    go last found zero h = absurd (omega arith)
    go last found (suc more) h = draw_miss digest limit more s d e miss ∙ found more (omega arith)

rounds_hit :
    (max k round : ℕ)
    → k < max
    → ltb (round * max + k) (limit_of max) ≡ ltb round (two_pow_32 / max)
unfolding limit_of
rounds_hit max k round small =
    let (within, back) = rounds_below (two_pow_32 / max) max k round small in
    rw (whole_rounds two_pow_32 max) (elim (Bool-cases (ltb round (two_pow_32 / max))) [
      | inl below ↦ let e = back (ground (arith, below)) in ground (arith, below, e)
      | inr above ↦ elim (Bool-cases (ltb (round * max + k) (two_pow_32 / max * max))) [
        | inl hit ↦ let e = within (ground (arith, hit)) in ground (arith, above, e)
        | inr miss ↦ rw (above, miss) refl
      ]
    ])

-- For a bound up to 2^32, a draw whose next word is the k-th of a round of as many words as the
-- bound returns k if it is one of the whole rounds below 2^32, and is made again from the state
-- after that word otherwise; and the whole rounds hold more than half of all words.
pub int_unbiased :
    (digest : ℕ → List ℕ) (fuel max k round : ℕ) (s : RngState) (d : Drawn RngState)
    → 1 ≤ max
    → max ≤ two_pow_32
    → k < max
    → next_uint32 digest s ≡ ok d
    → d.value ≡ round * max + k
    → (int digest (suc fuel) max s ≡ (
        if ltb round (two_pow_32 / max)
        then ok (record d { value = k })
        else int digest fuel max d.state))
      × (two_pow_32 < two_pow_32 / max * max + two_pow_32 / max * max)
unfolding int
int_unbiased digest fuel max k round s d low high small drawn named = (
  elim (Bool-cases (ltb round (two_pow_32 / max))) [
    | inl below ↦
        let hit : ltb d.value (limit_of max) ≡ true =
          rw named (rounds_hit max k round small ∙ below) in
        let left : d.value % max ≡ k =
          rw named (mul-add-mod_self_right round max k ∙ mod-eq_of_lt small) in
        rw (below, ranged, draw_hit digest (limit_of max) fuel s d drawn hit, left) refl
    | inr above ↦
        let miss : ltb d.value (limit_of max) ≡ false =
          rw named (rounds_hit max k round small ∙ above) in
        rw (above, ranged, draw_miss digest (limit_of max) fuel s d drawn miss) refl
  ],
  most_words two_pow_32 max low high,
)
  where
    ranged : require (leb 1 max && leb max two_pow_32) range_error ≡ ok tt
    ranged = ground arith

-- For a bound from 1 to 2^32, if one of the next words is below the limit, the generator returns
-- a number below the bound, the same for every fuel that reaches that word.
pub int-total :
    (digest : ℕ → List ℕ) (n max : ℕ) (s : RngState)
    → 1 ≤ max
    → max ≤ two_pow_32
    → Accepts digest (limit_of max) s n
    → (d : Drawn RngState) × (d.value < max)
      × ((fuel : ℕ) → n ≤ fuel → int digest fuel max s ≡ ok d)
unfolding int
int-total digest n max s low high h =
    let (d, found) = draw_below-total digest (limit_of max) n s h in
    let out : Drawn RngState = record d { value = d.value % max } in
    let ranged : require (leb 1 max && leb max two_pow_32) range_error ≡ ok tt = ground arith in
    let returns : (fuel : ℕ) → n ≤ fuel → int digest fuel max s ≡ ok out =
      λ fuel e. rw (int, ranged, found fuel e) refl in
    (out, int-lt digest n max s out (returns n (omega arith)), returns)
