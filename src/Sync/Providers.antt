-- ===== src/Sync/Providers.antt =====
-- apps/api/src/sync/providers: provider-choice.ts, and the choices of provider-selector.service.ts.
-- A provider is known by its name, a number; `open` says whose breaker is open.
pub mod Primary
use pokedrop.Base.{
  ℕ, Bool, true, false, ◌&&◌, not, Option, none, some, List, [], ◌∷◌, ◌==◌, if◌then◌else◌, contains,
}

abbrev pub Provider : Type 0
Provider = ℕ

pub record ChosenProvider : Type 0 where
  pub name : Provider
  pub is_fallback : Bool

abbrev pub find_name : (Provider → Bool) → List Provider → Option Provider
find_name test [] = none
find_name test (name ∷ names) = if test name then some name else find_name test names

abbrev pub as_fallback : Option Provider → Option ChosenProvider
as_fallback none = none
as_fallback (some name) = some (record { name = name; is_fallback = true })

unfoldable pub choose_provider :
    Provider → List Provider → (Provider → Bool) → Option ChosenProvider
choose_provider primary names is_open =
    let fallback =
      as_fallback (find_name (λ name. not (name == primary) && not (is_open name)) names) in
    if not (is_open primary)
    then some (record { name = primary; is_fallback = false })
    else fallback

-- What `select` does: it asks for the breakers of the registered names, throws if all of them are
-- open, and throws on a primary that is not registered.
pub data Selection : Type 0 where
  all_open no_client : Selection
  selected : ChosenProvider → Selection

abbrev pub must_resolve : List Provider → Option ChosenProvider → Selection
must_resolve names none = all_open
must_resolve names (some choice) = if contains choice.name names then selected choice else no_client

unfoldable pub select_provider : Provider → List Provider → (Provider → Bool) → Selection
select_provider primary names is_open =
    must_resolve names (choose_provider primary names (λ name. contains name names && is_open name))

-- What `resume` does: it throws on a name that is not registered, answers null if the breaker is
-- open, and else keeps the provider.
pub data Resumption : Type 0 where
  unregistered abandoned : Resumption
  resumed : ChosenProvider → Resumption

unfoldable pub resume_provider :
    Provider → List Provider → (Provider → Bool) → Provider → Resumption
resume_provider primary names is_open name =
    if not (contains name names)
    then unregistered
    else if is_open name
    then abandoned
    else resumed (record { name = name; is_fallback = not (name == primary) })
