-- ===== src/Listener/Manager/Ids.antt =====
-- The routes of the running listeners, and how an assignment to the dictionary of them acts.
use basket_recovery_ea.Base.{ℕ, ◌≡◌, false, some, List, [], ◌∷◌, ◌++◌, arith, map}
use basket_recovery_ea.Store.Tables.{Route, find_route}
use basket_recovery_ea.Listener.Manager.{ActiveRoute, id_of, is_active, set_active}

abbrev pub ids : List ActiveRoute → List ℕ
ids active = map id_of active

pub found-id : (i : ℕ) (rs : List Route) (r : Route) → find_route i rs ≡ some r → r.id ≡ i
found-id i [] r h = absurd (ground arith)
found-id i (q ∷ rs) r h = ground (arith, found-id i rs r)

-- A new key stands behind the others.
pub set_active-fresh :
    (a : ActiveRoute) (active : List ActiveRoute)
    → is_active (id_of a) active ≡ false
    → set_active a active ≡ active ++ a ∷ []
set_active-fresh a [] h = ground arith
set_active-fresh a (b ∷ active) h = ground (arith, set_active-fresh a active)
