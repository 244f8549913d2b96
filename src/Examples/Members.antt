-- ===== src/Examples/Members.antt =====
-- The theorems on accounts at the small world.
use pokedrop.Base.{[], ◌∷◌, ◌≡◌, refl, ok, err, if◌then◌else◌, grant_id_conflict, arith}
use pokedrop.Base.Int.{pos}
use pokedrop.Schema.Database.{Database, currency_granted}
use pokedrop.Inventory.{UserId}
use pokedrop.Wallet.{member, IsReconciledAt}
use pokedrop.Admin.{grant_currency, grant_if_first_time, same_amount, active_admins}
use pokedrop.System.{Reach, here, next, notifying}
use pokedrop.System.Ledger.{grant_currency_again}
use pokedrop.Trades.{notify}
use pokedrop.Admin.Welcome.{grant_if_first_time_twice}
use pokedrop.Admin.Admins.{IsAdministered, change_role-IsAdministered}
use pokedrop.Examples.World.{world, demoted, granted_world, welcomed, runs}

-- A transaction after the grant, and what it leaves.
abbrev noticed : Database
noticed = notify (1 ∷ []) currency_granted 5 granted_world

granted-noticed : Reach granted_world noticed
granted-noticed = next here (notifying (1 ∷ []) currency_granted 5 refl)

grant_currency_again_example :
    grant_currency 9 1 (pos 30) 77 noticed
    ≡ (if same_amount (pos 25) (pos 30) then ok noticed else err grant_id_conflict)
grant_currency_again_example =
    grant_currency_again 8 9 1 (pos 25) (pos 30) 77 world runs.8 granted-noticed

grant_if_first_time_twice_example :
    (grant_if_first_time 9 welcomed ≡ ok welcomed)
    × ((u : UserId) → IsReconciledAt u world.accounts → IsReconciledAt u welcomed.accounts)
    × (welcomed.inventory ≡ world.inventory)
    × (welcomed.trades ≡ world.trades)
grant_if_first_time_twice_example = grant_if_first_time_twice 9 world runs.9

world-IsAdministered : IsAdministered world
unfolding active_admins
world-IsAdministered = omega arith

change_role-IsAdministered_example : IsAdministered demoted
change_role-IsAdministered_example =
    change_role-IsAdministered 8 9 member world runs.7 world-IsAdministered
