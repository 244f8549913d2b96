-- ===== src/Sync/Providers/Primary.antt =====
-- A choice that is no fallback is of the primary, whose breaker is closed.
use pokedrop.Base.{
  ◌≡◌, sym, ap, inl, inr, Bool, true, false, ◌&&◌, not, Option, none, some, List, ◌==◌, contains,
  Bool-cases, arith,
}
use pokedrop.Sync.Providers.{
  Provider, ChosenProvider, as_fallback, find_name, choose_provider, no_client, selected,
  must_resolve, select_provider, unregistered, abandoned, resumed, resume_provider,
}

-- The choice of the primary, whatever way it is made.
as_fallback-some :
    (name : Option Provider) (choice : ChosenProvider)
    → as_fallback name ≡ some choice
    → choice.is_fallback ≡ true
as_fallback-some none choice e = absurd (cc)
as_fallback-some (some name) choice e = cc

choose_provider-primary :
    (primary : Provider) (names : List Provider) (is_open : Provider → Bool)
    (choice : ChosenProvider)
    → choose_provider primary names is_open ≡ some choice
    → choice.is_fallback ≡ false
    → (choice.name ≡ primary) × (is_open primary ≡ false)
unfolding choose_provider
choose_provider-primary primary names is_open choice e f = elim (Bool-cases (is_open primary)) [
  | inr p ↦
      let g : some (record { name = primary; is_fallback = false }) ≡ some choice = rw p at e in
      (cc, p)
  | inl p ↦
      let other = find_name (λ name. not (name == primary) && not (is_open name)) names in
      let g : as_fallback other ≡ some choice = rw p at e in
      absurd (let h = as_fallback-some other choice g in cc)
]

must_resolve-selected :
    (names : List Provider) (chosen : Option ChosenProvider) (choice : ChosenProvider)
    → must_resolve names chosen ≡ selected choice
    → (chosen ≡ some choice) × (contains choice.name names ≡ true)
must_resolve-selected names none choice e = absurd (cc)
must_resolve-selected names (some chosen) choice e =
    elim (Bool-cases (contains chosen.name names)) [
      | inl p ↦
          let f : selected chosen ≡ selected choice = rw p at e in
          let same : chosen ≡ choice = cc in (ap some same, rw (sym same) p)
      | inr p ↦ absurd (let f : no_client ≡ selected choice = rw p at e in cc)
    ]

pub select_provider-primary :
    (primary : Provider) (names : List Provider) (is_open : Provider → Bool)
    (choice : ChosenProvider)
    → select_provider primary names is_open ≡ selected choice
    → choice.is_fallback ≡ false
    → is_open primary ≡ false
unfolding select_provider
select_provider-primary primary names is_open choice e f =
    let (chosen, known) = must_resolve-selected names _ choice e in
    let (same, closed) = choose_provider-primary primary names _ choice chosen f in
    let here : contains primary names ≡ true = rw (sym same) known in ground (arith, closed, here)

pub resume_provider-primary :
    (primary : Provider) (names : List Provider) (is_open : Provider → Bool) (name : Provider)
    → (choice : ChosenProvider) → resume_provider primary names is_open name ≡ resumed choice
    → choice.is_fallback ≡ false
    → is_open primary ≡ false
unfolding resume_provider
resume_provider-primary primary names is_open name choice e f =
    elim (Bool-cases (contains name names)) [
      | inr p ↦ absurd (let g : unregistered ≡ resumed choice = rw p at e in cc)
      | inl p ↦ elim (Bool-cases (is_open name)) [
        | inl q ↦ absurd (let g : abandoned ≡ resumed choice = rw (p, q) at e in cc)
        | inr q ↦
            let g : resumed (record { name = name; is_fallback = not (name == primary) })
                ≡ resumed choice =
              rw (p, q) at e in
            let kept : not (name == primary) ≡ false = cc in
            let same : name ≡ primary = ground (arith, kept) in rw (sym same) q
      ]
    ]
