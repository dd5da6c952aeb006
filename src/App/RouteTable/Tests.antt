-- ===== src/App/RouteTable/Tests.antt =====
-- A run at a concrete table.
use my_net_core_proxy.Prelude.{◌≡◌, refl, [], ◌∷◌}
use my_net_core_proxy.App.RouteTable.{RouteTable, get_backend, update_route, route_of}

abbrev routes : RouteTable
routes = (1 ∷ [], 5 ∷ []) ∷ (2 ∷ [], 6 ∷ []) ∷ []

updated : get_backend (update_route routes (2 ∷ []) (7 ∷ [])) (2 ∷ []) ≡ 7 ∷ []
unfolding get_backend update_route route_of
updated = refl
